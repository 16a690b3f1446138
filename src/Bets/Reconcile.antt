-- ===== src/Bets/Reconcile.antt =====
-- `BetsService.reconcilePendingPayouts`: wins that were claimed and not confirmed are credited
-- again, under the same key, and finalised.
pub mod Owed
use vault_runner_api.Prelude.{ℕ, Bool, true, false, some, ◌==◌, if◌then◌else◌, take, length, select}
use vault_runner_api.Prog.{ret, ◌>>=◌, ◌>>◌, try_catch, on_option, for_each}
use vault_runner_api.World.{
  Bet, payout_credit, Key, payout_reconcile, failed, paid, backlog, status_eq, BetStatus,
}
use vault_runner_api.World.Tables.{Action, find_bets, update_bets, credit_profile, report}
use vault_runner_api.Wallet.Provider.{WalletProvider}
use vault_runner_api.Bets.Updates.{has_status, confirmed_payout}

abbrev is_pending : Bet → Bool
is_pending b = status_eq b.status BetStatus.payout_pending

-- `Number(bet.cashoutMult ?? 1)`, in hundredths
abbrev pub mult_of : Bet → ℕ
mult_of b = on_option b.cashout_mult 100 (λ m. m)

module _ (wallet : WalletProvider) where
  -- One owed win: whether this pass confirmed it.
  unfoldable pub confirm_pending : Bet → Action Bool
  confirm_pending bet =
      try_catch
        (do
          tx ←
              wallet.credit bet.wallet_id bet.payout payout_credit (Key.payout bet.id)
                (some (record { ref_id = bet.id }))
          count ← update_bets (has_status bet.id BetStatus.payout_pending) (confirmed_payout tx.id)
          if count == 0
              then ret false
              else credit_profile bet.user_id bet.payout (mult_of bet)
                >> report (paid bet.payout)
                >> ret true)
        (λ e. report (failed payout_reconcile) >> ret false)

  -- `reportPendingBacklog`: the gauge, from the live table.
  unfoldable pub report_pending_backlog : Action (Unit {0})
  report_pending_backlog = find_bets is_pending >>= λ owed. report (backlog (length owed))

  unfoldable pub reconcile_pending_payouts : ℕ → Action ℕ
  reconcile_pending_payouts limit = do
    pending ← find_bets is_pending
    confirmed ← for_each (take limit pending) confirm_pending
    report_pending_backlog
    ret (length (select (λ d. d) confirmed))
