-- ===== src/Bets/CashOut/Kept.antt =====
-- A claimed win is not lost, whatever its credit does.
use vault_runner_api.Prelude.{
  ℕ, ◌≡◌, refl, ◌∙◌, ap, Bool, some, List, ◌==◌, find, update_where, count_where, if◌then◌else◌,
  arith, find-update_where, count_where-find, inl, inr, Bool-cases,
}
use vault_runner_api.Prog.{Result, ok, err, run, ret, ◌>>=◌, on_result, write, atom, caught}
use vault_runner_api.Prog.Run.{and_then, run-bind, run-caught}
use vault_runner_api.Prog.Keeps.{run-Keeps}
use vault_runner_api.World.{
  World, Reason, Bet, BetStatus, Panel, Text, active, Key, payout_credit, no_active_bet,
}
use vault_runner_api.World.Tables.{Action, update_bets, update_bet, credit_profile, report}
use vault_runner_api.Money.{floor_payout}
use vault_runner_api.Risk.{RiskLimits, cap_payout}
use vault_runner_api.Wallet.Provider.{WalletProvider, WalletTxResult, KeepsWallet}
use vault_runner_api.Bets.Types.{CashoutResult, paid_out, owed, not_paid}
use vault_runner_api.Bets.Updates.{has_id, has_status, to_status, won, stamped_payout}
use vault_runner_api.Bets.CashOut.{
  is_payout_pending, claim_and_pay, pay_claimed, finish_paid, leave_pending, payout_of,
}

-- The same wallets and the same journal.
abbrev pub SameMoney : World → World → Type 0
SameMoney v w = (w.wallets ≡ v.wallets) × (w.ledger ≡ v.ledger)

module _ (user : ℕ) (panel : Panel) (b : Bet) (mult payout : ℕ) (currency : Text) where
  -- By the outcome of the credit: paid and linked to its transaction where it confirmed one, or
  -- recorded as owed, which the sweep of payouts finds, where it threw. The money is as the credit
  -- left it.
  pub data WonEnd (now : ℕ) (credit : Result Reason WalletTxResult × World)
      (r : Result Reason CashoutResult × World) : Type 0 where
    confirmed :
        (tx : WalletTxResult)
        → credit.0 ≡ ok tx
        → r.0 ≡ ok (paid_out user panel mult payout tx.balance_after currency)
        → find (has_id b.id) r.1.bets ≡ some (stamped_payout tx.id now (won mult payout now b))
        → SameMoney credit.1 r.1
        → WonEnd now credit r
    pending :
        (e : Reason)
        → credit.0 ≡ err e
        → r.0 ≡ ok (owed user panel mult payout currency)
        → find (has_id b.id) r.1.bets
          ≡ some (to_status BetStatus.payout_pending now (won mult payout now b))
        → SameMoney credit.1 r.1
        → WonEnd now credit r

  module _ (now : ℕ) (s : World)
      (row : find (has_id b.id) s.bets ≡ some (won mult payout now b)) where
    paid_end :
        (tx : WalletTxResult)
        → WonEnd now (ok tx, s) (run (finish_paid user panel b mult payout currency tx) s)
    unfolding run finish_paid update_bet credit_profile report atom write ◌>>=◌
    paid_end tx =
        rw (run, row)
          (confirmed tx refl refl
            (find-update_where (has_id b.id) (has_id b.id) (stamped_payout tx.id s.now)
              (won mult payout now b) s.bets (λ c. refl) (ground arith) row)
            (refl, refl))

    pending_end :
        (e : Reason)
        → WonEnd now (err e, s) (run (leave_pending user panel b mult payout currency e) s)
    unfolding run leave_pending update_bet report atom write ◌>>=◌
    pending_end e =
        let kept =
          find-update_where (has_id b.id) (has_id b.id) (to_status BetStatus.payout_pending s.now)
            (won mult payout now b) s.bets (λ c. refl) (ground arith) row in
        elim (Bool-cases (is_payout_pending e)) [
          | inl silent ↦ rw (silent, run, row) (pending e refl refl kept (refl, refl))
          | inr counted ↦ rw (counted, run, row) (pending e refl refl kept (refl, refl))
        ]

module _ (limits : RiskLimits) (wallet : WalletProvider) (user : ℕ) (panel : Panel) (b : Bet)
    (mult : ℕ) (currency : Text) where
  abbrev pub payout : ℕ
  payout = cap_payout limits (floor_payout b.amount mult) b.max_win_per_bet

  -- The bet is taken for the win.
  abbrev pub claimed : World → World
  claimed w = record w {
    bets = update_where (has_status b.id active) (won mult payout w.now) w.bets;
  }

  abbrev on_count : Bool → Action CashoutResult
  on_count gone =
      if gone
      then ret (not_paid no_active_bet user panel)
      else pay_claimed limits wallet user panel b mult currency

  run_claim :
      (w : World)
      → run (claim_and_pay limits wallet user panel b mult currency) w
        ≡ run (on_count (count_where (has_status b.id active) w.bets == 0)) (claimed w)
  unfolding run claim_and_pay payout_of update_bets atom ◌>>=◌
  run_claim w = refl

  abbrev pub credit_of : Action WalletTxResult
  credit_of =
      wallet.credit b.wallet_id payout payout_credit (Key.payout b.id)
        (some (record { ref_id = b.id }))

  abbrev on_moved : Result Reason WalletTxResult → Action CashoutResult
  on_moved moved =
      on_result moved (finish_paid user panel b mult payout currency)
        (leave_pending user panel b mult payout currency)

  run_pay :
      (s : World)
      → run (pay_claimed limits wallet user panel b mult currency) s
        ≡ run (on_moved (run credit_of s).0) (run credit_of s).1
  unfolding pay_claimed payout_of
  run_pay s =
      run-bind (caught credit_of) on_moved s
      ∙ ap (λ r. and_then r on_moved) (run-caught credit_of s)

  moved_end :
      (now : ℕ) (r : Result Reason WalletTxResult) (s : World)
      → find (has_id b.id) s.bets ≡ some (won mult payout now b)
      → WonEnd user panel b mult payout currency now (r, s) (run (on_moved r) s)
  moved_end now (ok tx) s row = paid_end user panel b mult payout currency now s row tx
  moved_end now (err e) s row = pending_end user panel b mult payout currency now s row e

  -- The claim of an active bet, run alone, with a wallet that leaves the rows of bets alone,
  -- first takes the bet and then credits its payout to its wallet, under its key. Where that
  -- credit confirms a transaction, the win is answered as paid and its row is linked to that
  -- transaction; where it throws, the win is answered as owed and its row is in 'payout_pending'
  -- with the payout on it. Balances and journal are as that one credit left them.
  pub claim_and_pay-WonEnd :
      (w : World)
      → find (has_id b.id) w.bets ≡ some b
      → b.status ≡ active
      → ((bs : List Bet) → KeepsWallet (λ v. v.bets ≡ bs) wallet)
      → WonEnd user panel b mult payout currency w.now
          (run credit_of (claimed w))
          (run (claim_and_pay limits wallet user panel b mult currency) w)
  claim_and_pay-WonEnd w found a money =
      let some_row =
        count_where-find (has_id b.id) (has_status b.id active) b w.bets (ground arith) found in
      let row =
        find-update_where (has_id b.id) (has_status b.id active) (won mult payout w.now) b w.bets
          (λ c. refl) (ground arith) found in
      let kept =
        run-Keeps credit_of (claimed w)
          ((money (claimed w).bets).credit_keeps b.wallet_id payout payout_credit (Key.payout b.id)
            (some (record { ref_id = b.id })))
          refl in
      rw (run_claim w ∙ ap (λ t. run (on_count t) (claimed w)) some_row ∙ run_pay (claimed w))
        (moved_end w.now (run credit_of (claimed w)).0 (run credit_of (claimed w)).1 (rw kept row))
