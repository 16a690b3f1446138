-- ===== src/Bets/Reconcile/Owed.antt =====
-- One pass over an owed win: it is paid, or it is owed as before.
use vault_runner_api.Prelude.{
  ◌≡◌, refl, ◌∙◌, ap, Bool, true, false, some, List, ◌==◌, find, if◌then◌else◌, arith,
  find-update_where, count_where-find,
}
use vault_runner_api.Prog.{Result, ok, err, run, ret, ◌>>=◌, ◌>>◌, write, atom}
use vault_runner_api.Prog.Run.{and_then, or_else, run-bind, run-try_catch}
use vault_runner_api.Prog.Keeps.{run-Keeps}
use vault_runner_api.World.{
  World, Reason, Bet, BetStatus, cashed_out, Key, payout_credit, payout_reconcile, failed, paid,
}
use vault_runner_api.World.Tables.{Action, update_bets, credit_profile, report}
use vault_runner_api.Wallet.Provider.{WalletProvider, WalletTxResult, KeepsWallet}
use vault_runner_api.Bets.CashOut.Kept.{SameMoney}
use vault_runner_api.Bets.Updates.{has_id, has_status, confirmed_payout}
use vault_runner_api.Bets.Reconcile.{confirm_pending, mult_of}

-- By the outcome of the credit: paid and linked to its transaction where it confirmed one, owed as
-- before where it threw. The money is as the credit left it.
pub data PassEnd (b : Bet) (credit : Result Reason WalletTxResult × World)
    (r : Result Reason Bool × World) : Type 0 where
  settled :
      (tx : WalletTxResult)
      → credit.0 ≡ ok tx
      → r.0 ≡ ok true
      → find (has_id b.id) r.1.bets
        ≡ some (record b { status = cashed_out; payout_tx_id = some tx.id })
      → SameMoney credit.1 r.1
      → PassEnd b credit r
  still_owed :
      (e : Reason)
      → credit.0 ≡ err e
      → r.0 ≡ ok false
      → find (has_id b.id) r.1.bets ≡ some b
      → SameMoney credit.1 r.1
      → PassEnd b credit r

module _ (wallet : WalletProvider) (b : Bet) where
  abbrev pub owed_credit : Action WalletTxResult
  owed_credit =
      wallet.credit b.wallet_id b.payout payout_credit (Key.payout b.id)
        (some (record { ref_id = b.id }))

  abbrev on_credit : WalletTxResult → Action Bool
  on_credit tx = do
    count ← update_bets (has_status b.id BetStatus.payout_pending) (confirmed_payout tx.id)
    if count == 0
        then ret false
        else credit_profile b.user_id b.payout (mult_of b) >> report (paid b.payout) >> ret true

  abbrev on_failure : Reason → Action Bool
  on_failure e = report (failed payout_reconcile) >> ret false

  run_pass :
      (w : World)
      → run (confirm_pending wallet b) w
        ≡ or_else (and_then (run owed_credit w) on_credit) on_failure
  unfolding confirm_pending
  run_pass w =
      run-try_catch (owed_credit >>= on_credit) on_failure w
      ∙ ap (λ r. or_else r on_failure) (run-bind owed_credit on_credit w)

  pass_end :
      (r : Result Reason WalletTxResult × World)
      → b.status ≡ BetStatus.payout_pending
      → find (has_id b.id) r.1.bets ≡ some b
      → PassEnd b r (or_else (and_then r on_credit) on_failure)
  unfolding run update_bets credit_profile report atom write ◌>>=◌
  pass_end (ok tx, s) owed row =
      let some_row =
        count_where-find (has_id b.id) (has_status b.id BetStatus.payout_pending) b s.bets
          (ground arith) row in
      rw (run, some_row)
        (settled tx refl refl
          (find-update_where (has_id b.id) (has_status b.id BetStatus.payout_pending)
            (confirmed_payout tx.id s.now) b s.bets (λ c. refl) (ground arith) row)
          (refl, refl))
  pass_end (err e, s) owed row = still_owed e refl refl row (refl, refl)

  -- One pass of the payout sweep over an owed win, run alone, with a wallet that leaves the rows
  -- of bets alone, never throws, and credits the payout to the bet's wallet, under its key.
  -- Where that credit confirms a transaction, it answers that the win is paid, and the row is
  -- cashed out and linked to that transaction; where it throws, it answers that it is not, and
  -- the row is still the owed one. Balances and journal are as that one credit left them.
  pub confirm_pending-PassEnd :
      (w : World)
      → find (has_id b.id) w.bets ≡ some b
      → b.status ≡ BetStatus.payout_pending
      → ((bs : List Bet) → KeepsWallet (λ v. v.bets ≡ bs) wallet)
      → PassEnd b (run owed_credit w) (run (confirm_pending wallet b) w)
  confirm_pending-PassEnd w found owed money =
      let kept =
        run-Keeps owed_credit w
          ((money w.bets).credit_keeps b.wallet_id b.payout payout_credit (Key.payout b.id)
            (some (record { ref_id = b.id })))
          refl in
      rw (run_pass w) (pass_end (run owed_credit w) owed (rw kept found))
