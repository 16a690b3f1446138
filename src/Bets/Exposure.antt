-- ===== src/Bets/Exposure.antt =====
-- The bankroll breaker: the worst case that the committed bets of a round owe in one currency
-- stays within the house's cap, whatever handlers run and however their actions interleave.
use vault_runner_api.Prelude.{
  ℕ, ◌+◌, ◌≤◌, ◌≡◌, Bool, true, false, Option, none, some, List, [], ◌∷◌, ◌==◌, ◌&&◌, ◌||◌, inl,
  inr, if◌then◌else◌, arith, Bool-cases, update_where, delete_where, find, is_some,
}
use vault_runner_api.Prog.{ok, err, on_option, Result-cases}
use vault_runner_api.World.{
  to_upper, Bet, Wallet, World, Text, Reason, is_committed, text_eq, text_eq→≡,
}
use vault_runner_api.World.Keeps.{Follows, Releases, Withstands}
use vault_runner_api.Risk.{RiskLimits, potential_payout, check_round_exposure}
use vault_runner_api.Risk.Cover.{check_round_exposure_ok}
use vault_runner_api.Bets.Updates.{has_id, in_slot}
use vault_runner_api.Bets.Place.{
  PlaceRequest, RgSession, committed_exposure, reserved_bet, create_bet, reserve_body,
}

module _ (limits : RiskLimits) where
  pub record IsCapped (w : World) : Type 0 where
    pub capped :
        (round : ℕ) (ccy : Text)
        → committed_exposure limits round ccy w.bets ≤ limits.max_round_exposure

  -- What one row binds of a round's exposure in a currency.
  abbrev bound_by : ℕ → Text → Bet → ℕ
  bound_by round ccy b =
      if b.round_id == round && (is_committed b.status && text_eq b.currency ccy)
      then potential_payout limits b.amount
      else 0

  bound_by-Follows :
      (round : ℕ) (ccy : Text) (b c : Bet)
      → Follows b c
      → bound_by round ccy c ≤ bound_by round ccy b
  bound_by-Follows round ccy b c h =
      rw (h.same_round, h.same_amount, h.same_currency)
        (elim (Bool-cases (is_committed c.status)) [
          | inl on ↦ rw (on, h.not_anew on) (omega arith)
          | inr off ↦ ground arith
        ])

  exposure-update_where :
      (round : ℕ) (ccy : Text) (p : Bet → Bool) (f : ℕ → Bet → Bet) (n : ℕ) (bs : List Bet)
      → Releases p f
      → committed_exposure limits round ccy (update_where p (f n) bs)
        ≤ committed_exposure limits round ccy bs
  unfolding committed_exposure
  exposure-update_where round ccy p f n [] r = omega arith
  exposure-update_where round ccy p f n (b ∷ bs) r = elim (Bool-cases (p b)) [
    | inl hit ↦ rw hit (
        omega (
          arith,
          bound_by-Follows round ccy b (f n b) (r b n hit),
          exposure-update_where round ccy p f n bs r,
        ))
    | inr miss ↦ rw miss (omega (arith, exposure-update_where round ccy p f n bs r))
  ]

  exposure-delete_where :
      (round : ℕ) (ccy : Text) (p : Bet → Bool) (bs : List Bet)
      → committed_exposure limits round ccy (delete_where p bs)
        ≤ committed_exposure limits round ccy bs
  unfolding committed_exposure
  exposure-delete_where round ccy p [] = omega arith
  exposure-delete_where round ccy p (b ∷ bs) = ground (arith, exposure-delete_where round ccy p bs)

  pub IsCapped-Withstands : Withstands IsCapped
  IsCapped-Withstands = record {
    updates = λ p f w r h. record {
      capped = λ round ccy.
          omega (arith, exposure-update_where round ccy p f w.now w.bets r, h.capped round ccy);
    };
    deletes = λ p w h. record {
      capped =
          λ round ccy. omega (arith, exposure-delete_where round ccy p w.bets, h.capped round ccy);
    };
    rounds = λ rs w h. record { capped = h.capped };
    profiles = λ ps w h. record { capped = h.capped };
    events = λ es w h. record { capped = h.capped };
    ids = λ n w h. record { capped = h.capped };
    faults = λ fs w h. record { capped = h.capped };
  }

  exposure-create_bet :
      (round : ℕ) (ccy : Text) (b : Bet) (w : World)
      → committed_exposure limits round ccy (create_bet limits b w).1.bets
        ≤ bound_by round ccy b + committed_exposure limits round ccy w.bets
  unfolding create_bet committed_exposure
  exposure-create_bet round ccy b w =
      elim (Bool-cases
        (is_some (find (λ c. has_id b.id c || in_slot b.round_id b.user_id b.panel c) w.bets))) [
          | inl there ↦ rw there (omega arith)
          | inr fresh ↦ rw fresh (omega arith)
        ]

  module _ (req : PlaceRequest) (s : Option RgSession) (round id : ℕ) (x : Wallet) (w : World) where
    abbrev row : Bet
    row = reserved_bet limits req round id x w.now

    abbrev own : Text
    own = to_upper x.currency

    bound_by-row :
        (round' : ℕ) (ccy : Text) → bound_by round' ccy row ≤ potential_payout limits req.amount
    unfolding reserved_bet
    bound_by-row round' ccy = ground arith

    bound_by-other :
        (round' : ℕ) (ccy : Text)
        → (round == round' && text_eq own ccy) ≡ false
        → bound_by round' ccy row ≡ 0
    unfolding reserved_bet
    bound_by-other round' ccy h = ground arith

    same_slot :
        (round' : ℕ) (ccy : Text)
        → (round == round' && text_eq own ccy) ≡ true
        → (round' ≡ round) × (ccy ≡ own)
    same_slot round' ccy h = ground (arith, text_eq→≡ own ccy)

    create-IsCapped :
        (new : ℕ)
        → check_round_exposure limits
            (committed_exposure limits round (to_upper x.currency) w.bets)
            req.amount
          ≡ ok new
        → IsCapped w
        → IsCapped (create_bet limits (reserved_bet limits req round id x w.now) w).1
    create-IsCapped new e h = record {
      capped = λ round' ccy. elim (Bool-cases (round == round' && text_eq own ccy)) [
        | inl same ↦
            let (r, c) = same_slot round' ccy same in
            rw (r, c)
              (omega (
                arith,
                exposure-create_bet round own row w,
                bound_by-row round own,
                check_round_exposure_ok limits _ _ new e,
              ))
        | inr other ↦ omega (
          arith,
          exposure-create_bet round' ccy row w,
          bound_by-other round' ccy other,
          h.capped round' ccy,
        )
      ];
    }

    refusal-IsCapped :
        (refusal : Option Reason)
        → IsCapped (create_bet limits row w).1
        → IsCapped w
        → IsCapped (on_option refusal (create_bet limits row w) (λ e. (err e, w))).1
    refusal-IsCapped none h k = h
    refusal-IsCapped (some e) h k = k

    -- The reservation under the round's lock keeps every round within the cap.
    pub reserve_body-IsCapped : IsCapped w → IsCapped (reserve_body limits req s round id x w).1
    unfolding reserve_body
    reserve_body-IsCapped h =
        elim (Result-cases
          (check_round_exposure limits (committed_exposure limits round own w.bets) req.amount)) [
            | inr (e, refused) ↦ rw refused h
            | inl (new, fits) ↦ rw fits (refusal-IsCapped _ (create-IsCapped new fits h) h)
          ]
