-- ===== src/Reporting/Transaction/Tenant.antt =====
-- An operator's reports depend on its own bets alone.
use vault_runner_api.Prelude.{
  ℕ, Bool, Option, none, List, [], ◌∷◌, find, select, if◌then◌else◌, ◌≡◌, refl, arith, inl, inr,
  Bool-cases,
}
use vault_runner_api.Prelude.Sorted.{AtMostOnce}
use vault_runner_api.Prog.{Result, ok, err, on_option}
use vault_runner_api.World.{Bet, Text}
use vault_runner_api.Reporting.Stats.{ReportQuery, in_scope}
use vault_runner_api.Reporting.Query.{TransactionQuery}
use vault_runner_api.Reporting.Summary.{summary}
use vault_runner_api.Reporting.Daily.{daily}
use vault_runner_api.Reporting.Transaction.{
  NotFound, TransactionStatus, asked_for, is_own, status_of, transaction_status,
  transaction_not_found,
}

module _ (operator_id : ℕ) where
  abbrev pub own : Bet → Bool
  own = is_own operator_id

  scope_own :
      (q : ReportQuery) (bets : List Bet)
      → select (in_scope operator_id q) (select own bets) ≡ select (in_scope operator_id q) bets
  scope_own q [] = refl
  scope_own q (b ∷ bs) = elim (Bool-cases (own b)) [
    | inl mine ↦ let rest = scope_own q bs in rw (mine, mine, rest) refl
    | inr foreign ↦ rw foreign (scope_own q bs)
  ]

  select-find_none :
      (p : Bet → Bool) (bets : List Bet) → find p bets ≡ none → find p (select own bets) ≡ none
  select-find_none p [] h = refl
  select-find_none p (b ∷ bs) h = ground (arith, select-find_none p bs)

  module _ (names : Text → ℕ → Bool) (player_of : ℕ → Option Text) (q : TransactionQuery) where
    abbrev gate : Option Bet → Result NotFound TransactionStatus
    gate found = on_option found (err transaction_not_found) λ b.
        if own b then ok (status_of names player_of operator_id q b) else err transaction_not_found

    abbrev asked : Bet → Bool
    asked = asked_for names player_of q

    gate-own :
        (bets : List Bet)
        → AtMostOnce asked bets
        → gate (find asked (select own bets)) ≡ gate (find asked bets)
    gate-own [] h = refl
    gate-own (b ∷ bs) h = elim (Bool-cases (asked b)) [
      | inl hit ↦ elim (Bool-cases (own b)) [
        | inl mine ↦ rw (mine, hit) refl
        | inr foreign ↦ rw (foreign, hit, foreign, select-find_none asked bs (h.0 hit)) refl
      ]
      | inr miss ↦ elim (Bool-cases (own b)) [
        | inl mine ↦ rw (mine, miss) (gate-own bs h.1)
        | inr foreign ↦ rw (foreign, miss) (gate-own bs h.1)
      ]
    ]

    -- What an operator is answered, by the summary, by the daily report and on one transaction,
    -- does not change when the bets of all others are taken away, if the query of a transaction
    -- names at most one bet: nothing of another tenant's shows, not even that it is there.
    pub reports_own :
        (before : Text → Text → Bool) (r : ReportQuery) (bets : List Bet)
        → AtMostOnce (asked_for names player_of q) bets
        → (summary before operator_id r (select own bets) ≡ summary before operator_id r bets)
          × (daily before operator_id r (select own bets) ≡ daily before operator_id r bets)
          × (transaction_status names player_of operator_id q (select own bets)
              ≡ transaction_status names player_of operator_id q bets)
    unfolding summary daily transaction_status
    reports_own before r bets once =
        (rw (scope_own r bets) refl, rw (scope_own r bets) refl, gate-own bets once)
