-- ===== src/Reporting/Query/Keys.antt =====
-- A key that the service sends is read back as what it names.

use vault_runner_api.Prelude.{
  Bool, true, none, some, List, [], ◌∷◌, ◌++◌, ◌≡◌, refl, ◌∙◌, ap, arith,
}
use vault_runner_api.Prelude.Texts.{
  codes, trim, split_on, lacks, split_on-last, split_on-part, trim_end, trim_end-append,
  is_nil-append,
}
use vault_runner_api.Prog.{ok}
use vault_runner_api.World.{Panel, panel_a, panel_b, Text}
use vault_runner_api.Reporting.Query.{
  RawQuery, trimmed, fits, is_hex, uuid_shape, is_uuid, by_debit, by_payout, by_refund, parse_parts,
  parse_transaction_query,
}

-- A query by a transaction id alone.
abbrev pub asks : Text → RawQuery
asks t = record {
  from = none;
  to = none;
  currency = none;
  include_demo = none;
  cursor = none;
  limit = none;
  transaction_id = some t;
  bet_id = none;
  action = none;
}

-- The templates of the keys: `bet:{id}:{kind}`, `bet:{round}:{user}:{panel}:debit`.
abbrev pub credit_text : Text → Text → Text
credit_text id kind = codes "bet" ++ 58 ∷ (id ++ 58 ∷ kind)

abbrev pub panel_text : Panel → Text
panel_text panel_a = codes "A"
panel_text panel_b = codes "B"

abbrev pub debit_text : Text → Text → Panel → Text
debit_text round user panel =
    codes "bet" ++ 58 ∷ (round ++ 58 ∷ (user ++ 58 ∷ (panel_text panel ++ 58 ∷ codes "debit")))

fits-lacks : (ks : List Bool) (s : Text) → fits is_hex ks s ≡ true → lacks 58 s ≡ true
fits-lacks [] [] h = refl
fits-lacks [] (c ∷ s) h = cc
fits-lacks (k ∷ ks) [] h = cc
fits-lacks (k ∷ ks) (c ∷ s) h = ground (arith, fits-lacks ks s)

uuid_lacks : (s : Text) → is_uuid s ≡ true → lacks 58 s ≡ true
unfolding is_uuid
uuid_lacks s h = fits-lacks uuid_shape s h

credit_trimmed :
    (id kind : Text)
    → trim_end (58 ∷ kind) ≡ 58 ∷ kind
    → trimmed (some (credit_text id kind)) ≡ some (credit_text id kind)
unfolding trim
credit_trimmed id kind h =
    let tail = trim_end-append id (58 ∷ kind) refl h in
    rw
      (trim_end-append (98 ∷ 101 ∷ 116 ∷ 58 ∷ []) (id ++ 58 ∷ kind)
        (is_nil-append id (58 ∷ kind) refl) tail)
      refl

credit_parts :
    (id kind : Text)
    → is_uuid id ≡ true
    → lacks 58 kind ≡ true
    → split_on 58 (credit_text id kind) ≡ codes "bet" ∷ id ∷ kind ∷ []
credit_parts id kind u l =
    split_on-part 58 (codes "bet") (id ++ 58 ∷ kind) refl
    ∙ ap (λ r. codes "bet" ∷ r)
        (split_on-part 58 id kind (uuid_lacks id u) ∙ ap (λ r. id ∷ r) (split_on-last 58 kind l))

debit_trimmed :
    (round user : Text) (panel : Panel)
    → trimmed (some (debit_text round user panel)) ≡ some (debit_text round user panel)
unfolding trim
debit_trimmed round user panel =
    let end = 58 ∷ (panel_text panel ++ 58 ∷ codes "debit") in
    let t1 = trim_end-append user end refl (panel_end panel) in
    let n1 = is_nil-append user end refl in
    let t2 = trim_end-append (58 ∷ []) (user ++ end) n1 t1 in
    let t3 = trim_end-append round (58 ∷ (user ++ end)) refl t2 in
    rw
      (trim_end-append (98 ∷ 101 ∷ 116 ∷ 58 ∷ []) (round ++ 58 ∷ (user ++ end))
        (is_nil-append round (58 ∷ (user ++ end)) refl) t3)
      refl
  where
    panel_end :
        (p : Panel)
        → trim_end (58 ∷ (panel_text p ++ 58 ∷ codes "debit"))
          ≡ 58 ∷ (panel_text p ++ 58 ∷ codes "debit")
    panel_end panel_a = refl
    panel_end panel_b = refl

debit_parts :
    (round user : Text) (panel : Panel)
    → is_uuid round ≡ true
    → is_uuid user ≡ true
    → split_on 58 (debit_text round user panel)
      ≡ codes "bet" ∷ round ∷ user ∷ panel_text panel ∷ codes "debit" ∷ []
debit_parts round user panel u v =
    split_on-part 58 (codes "bet") _ refl
    ∙ ap (λ r. codes "bet" ∷ r)
        (split_on-part 58 round _ (uuid_lacks round u)
          ∙ ap (λ r. round ∷ r)
              (split_on-part 58 user _ (uuid_lacks user v) ∙ ap (λ r. user ∷ r) (ending panel)))
  where
    ending :
        (p : Panel)
        → split_on 58 (panel_text p ++ 58 ∷ codes "debit") ≡ panel_text p ∷ codes "debit" ∷ []
    ending panel_a =
        split_on-part 58 (codes "A") (codes "debit") refl
        ∙ ap (λ r. codes "A" ∷ r) (split_on-last 58 (codes "debit") refl)
    ending panel_b =
        split_on-part 58 (codes "B") (codes "debit") refl
        ∙ ap (λ r. codes "B" ∷ r) (split_on-last 58 (codes "debit") refl)

-- A transaction id of one of the templates, with UUIDs in its places, is read back as the bet or
-- the slot that it names and its kind; the two kinds of refund are one.
pub parse_transaction_query-text :
    (id round user : Text) (panel : Panel)
    → is_uuid id ≡ true
    → is_uuid round ≡ true
    → is_uuid user ≡ true
    → (parse_transaction_query (asks (credit_text id (codes "payout")))
        ≡ ok (by_payout id (credit_text id (codes "payout"))))
      × (parse_transaction_query (asks (credit_text id (codes "refund")))
          ≡ ok (by_refund id (credit_text id (codes "refund"))))
      × (parse_transaction_query (asks (credit_text id (codes "restart_refund")))
          ≡ ok (by_refund id (credit_text id (codes "restart_refund"))))
      × (parse_transaction_query (asks (debit_text round user panel))
          ≡ ok (by_debit round user panel (debit_text round user panel)))
unfolding parse_transaction_query parse_parts
parse_transaction_query-text id round user panel u r v = (
  rw (credit_trimmed id (codes "payout") refl, credit_parts id (codes "payout") u refl, u) refl,
  rw (credit_trimmed id (codes "refund") refl, credit_parts id (codes "refund") u refl, u) refl,
  rw
      (
        credit_trimmed id (codes "restart_refund") refl,
        credit_parts id (codes "restart_refund") u refl,
        u,
      )
      refl,
  rw (debit_trimmed round user panel, debit_parts round user panel r v) (panel_read panel),
)
  where
    panel_read :
        (p : Panel)
        → parse_parts
            (codes "bet" ∷ round ∷ user ∷ panel_text p ∷ codes "debit" ∷ [])
            (debit_text round user p)
          ≡ ok (by_debit round user p (debit_text round user p))
    panel_read panel_a = rw (r, v) refl
    panel_read panel_b = rw (r, v) refl
