-- ===== src/Operator/Rg/Claims.antt =====
-- What a launch resolves from the operator's configuration survives the play token, and no claim
-- yields controls out of bounds.
use vault_runner_api.Prelude.{
  none-some, some_injective, ℕ, ◌≡◌, ◌<◌, refl, subst, Bool, true, Option, none, some, List, [],
  ◌∷◌, arith, Option-cases, Bool-cases, inl, inr,
}
use vault_runner_api.World.{Text, text_eq, to_upper}
use vault_runner_api.Decimal.{to_decimal}
use vault_runner_api.Decimal.Roundtrip.{parse_decimal-to_decimal}
use vault_runner_api.Bets.Types.{EffectiveRg}
use vault_runner_api.Operator.Rg.{
  PerCurrencyRgLimit, RgConfig, within, positive, valid_limits, is_valid_config, parse_rg_config,
  limit_for, has_control, if_active, resolve_rg, effective_rg_for, ClaimValue, number, decimal,
  SerializedRg, map_option, serialize_rg, convert, read_field, in_range, is_positive,
  deserialize_rg, max_reality_check_interval_sec, max_session_bound_sec,
}

abbrev in_bounds : (ℕ → Bool) → Option ℕ → Bool
in_bounds accept none = true
in_bounds accept (some n) = accept n

-- Controls that a token may carry: every knob in its range, and at least one of them set.
pub record IsCarried (e : EffectiveRg) : Type 0 where
  pub interval :
      in_bounds (in_range max_reality_check_interval_sec) e.reality_check_interval_sec ≡ true
  pub session : in_bounds (in_range max_session_bound_sec) e.max_session_sec ≡ true
  pub loss : in_bounds is_positive e.max_session_loss ≡ true
  pub wager : in_bounds is_positive e.max_session_wager ≡ true
  pub active : has_control e ≡ true

read_number :
    (accept : ℕ → Bool) (o : Option ℕ)
    → in_bounds accept o ≡ true
    → read_field accept (map_option number o) ≡ some o
unfolding read_field convert
read_number accept none h = refl
read_number accept (some n) h = rw h refl

read_decimal :
    (accept : ℕ → Bool) (o : Option ℕ)
    → in_bounds accept o ≡ true
    → read_field accept (map_option (λ n. decimal (to_decimal n)) o) ≡ some o
unfolding read_field convert
read_decimal accept none h = refl
read_decimal accept (some n) h = rw (parse_decimal-to_decimal n, h) refl

deserialize_carried :
    (e : EffectiveRg) → IsCarried e → deserialize_rg (some (serialize_rg e)) ≡ some e
unfolding deserialize_rg serialize_rg
deserialize_carried e h =
    rw
      (
        read_number _ e.reality_check_interval_sec h.interval,
        read_number _ e.max_session_sec h.session,
        read_decimal _ e.max_session_loss h.loss,
        read_decimal _ e.max_session_wager h.wager,
        h.active,
      )
      refl

positive_bounds : (o : Option ℕ) → positive o ≡ true → in_bounds is_positive o ≡ true
positive_bounds none h = refl
positive_bounds (some n) h = h

within_bounds :
    (low high : ℕ) (o : Option ℕ)
    → 0 < low
    → within low high o ≡ true
    → in_bounds (in_range high) o ≡ true
within_bounds low high none k h = refl
within_bounds low high (some n) k h = ground arith

if_active_lem : (d e : EffectiveRg) → if_active d ≡ some e → (d ≡ e) × (has_control d ≡ true)
if_active_lem d e h = elim (Bool-cases (has_control d)) [
  | inl on ↦ (some_injective d e (rw on at h), on)
  | inr off ↦ absurd (none-some e (rw off at h))
]

limit_for_valid :
    (want : Text) (ls : List (Text × PerCurrencyRgLimit))
    → valid_limits ls ≡ true
    → (in_bounds is_positive (limit_for want ls).max_session_loss ≡ true)
      × (in_bounds is_positive (limit_for want ls).max_session_wager ≡ true)
unfolding limit_for
limit_for_valid want [] h = (refl, refl)
limit_for_valid want ((k, l) ∷ ls) h = elim (Bool-cases (text_eq (to_upper k) want)) [
  | inl hit ↦ rw hit (
    positive_bounds l.max_session_loss (ground arith),
    positive_bounds l.max_session_wager (ground arith),
  )
  | inr miss ↦ rw miss (limit_for_valid want ls (ground arith))
]

resolve-IsCarried :
    (cfg : RgConfig) (currency : Text)
    → is_valid_config cfg ≡ true
    → has_control (resolve_rg cfg currency) ≡ true
    → IsCarried (resolve_rg cfg currency)
unfolding resolve_rg is_valid_config
resolve-IsCarried cfg currency h on =
    let (losses, wagers) = limit_for_valid (to_upper currency) cfg.limits (ground arith) in
    record {
      interval =
          within_bounds 60 86_400 cfg.reality_check_interval_sec (omega arith) (ground arith);
      session = within_bounds 60 2_592_000 cfg.max_session_sec (omega arith) (ground arith);
      loss = losses;
      wager = wagers;
      active = on;
    }

effective-IsCarried :
    (json : Option RgConfig) (currency : Text) (e : EffectiveRg)
    → effective_rg_for json currency ≡ some e
    → IsCarried e
unfolding effective_rg_for parse_rg_config
effective-IsCarried none currency e h = absurd (none-some e h)
effective-IsCarried (some cfg) currency e h = elim (Bool-cases (is_valid_config cfg)) [
  | inr bad ↦ absurd (none-some e (rw bad at h))
  | inl good ↦
      let (same, on) = if_active_lem (resolve_rg cfg currency) e (rw good at h) in
      subst IsCarried same (resolve-IsCarried cfg currency good on)
]

-- The controls that are resolved from a configuration come out of the play token as they went
-- in.
pub deserialize_rg-serialize_rg :
    (json : Option RgConfig) (currency : Text) (e : EffectiveRg)
    → effective_rg_for json currency ≡ some e
    → deserialize_rg (some (serialize_rg e)) ≡ some e
deserialize_rg-serialize_rg json currency e h =
    deserialize_carried e (effective-IsCarried json currency e h)

read_field_bounds :
    (accept : ℕ → Bool) (v : Option ClaimValue) (o : Option ℕ)
    → read_field accept v ≡ some o
    → in_bounds accept o ≡ true
unfolding read_field
read_field_bounds accept none o h =
    subst (λ x. in_bounds accept x ≡ true) (some_injective none o h) refl
read_field_bounds accept (some v) o h = elim (Option-cases (convert v)) [
  | inl bad ↦ absurd (none-some o (rw bad at h))
  | inr (n, e) ↦ elim (Bool-cases (accept n)) [
    | inl good ↦
        subst (λ x. in_bounds accept x ≡ true) (some_injective (some n) o (rw (e, good) at h)) good
    | inr out ↦ absurd (none-some o (rw (e, out) at h))
  ]
]

-- No claim, however it was made, yields a control that is zero, out of its range, or none at
-- all.
pub deserialize_rg-IsCarried :
    (json : Option SerializedRg) (e : EffectiveRg) → deserialize_rg json ≡ some e → IsCarried e
unfolding deserialize_rg
deserialize_rg-IsCarried none e h = absurd (none-some e h)
deserialize_rg-IsCarried (some o) e h =
    elim (Option-cases
      (read_field (in_range max_reality_check_interval_sec) o.reality_check_interval_sec)) [
        | inl bad ↦ absurd (none-some e (rw bad at h))
        | inr (interval, e1) ↦
            elim (Option-cases (read_field (in_range max_session_bound_sec) o.max_session_sec)) [
              | inl bad ↦ absurd (none-some e (rw (e1, bad) at h))
              | inr (session, e2) ↦
                  elim (Option-cases (read_field is_positive o.max_session_loss)) [
                    | inl bad ↦ absurd (none-some e (rw (e1, e2, bad) at h))
                    | inr (loss, e3) ↦
                        elim (Option-cases (read_field is_positive o.max_session_wager)) [
                          | inl bad ↦ absurd (none-some e (rw (e1, e2, e3, bad) at h))
                          | inr (wager, e4) ↦
                              let (same, on) = if_active_lem _ e (rw (e1, e2, e3, e4) at h) in
                              subst IsCarried same (record {
                                interval =
                                    read_field_bounds _ o.reality_check_interval_sec interval e1;
                                session = read_field_bounds _ o.max_session_sec session e2;
                                loss = read_field_bounds _ o.max_session_loss loss e3;
                                wager = read_field_bounds _ o.max_session_wager wager e4;
                                active = on;
                              })
                        ]
                  ]
            ]
      ]
