-- ===== src/Bets/Cancel.antt =====
-- `BetsService.cancelBet`: the claim of an active bet, then its refund.
pub mod Again
use vault_runner_api.Prelude.{ℕ, Option, none, some, ◌==◌, if◌then◌else◌}
use vault_runner_api.Prog.{ret, ◌>>=◌, on_option, read}
use vault_runner_api.World.{
  Bet, Panel, betting, active, cancelled, refund, Key, betting_closed, no_active_bet, phase_eq,
  status_eq, Text,
}
use vault_runner_api.World.Tables.{Action, find_bet, update_bets}
use vault_runner_api.Wallet.Provider.{WalletProvider}
use vault_runner_api.Wallet.Ledger.{wallet_at}
use vault_runner_api.Bets.Types.{PublicRoundState, BetResult, accepted, declined}
use vault_runner_api.Bets.Updates.{has_status, in_slot, settled_as}

-- `include: { wallet: { select: { currency } } }`
unfoldable pub currency_of : Bet → Action Text
currency_of b = read (λ w. on_option (wallet_at b.wallet_id w.wallets) b.currency (λ x. x.currency))

module _ (wallet : WalletProvider) where
  -- What follows the read of the slot, on the row that it read.
  unfoldable pub cancel_read : Panel → Bet → Action BetResult
  cancel_read panel bet = do
    currency ← currency_of bet
    count ← update_bets (has_status bet.id active) (settled_as cancelled)
    if count == 0 then ret (declined no_active_bet panel) else do
      tx ←
          wallet.credit bet.wallet_id bet.amount refund (Key.refund bet.id)
            (some (record { ref_id = bet.id }))
      ret (accepted panel tx.balance_after none currency)

  unfoldable pub cancel_in_round : ℕ → Panel → ℕ → Action BetResult
  cancel_in_round user_id panel round = do
    found ← find_bet (in_slot round user_id panel)
    on_option found (ret (declined no_active_bet panel)) λ bet.
        if status_eq bet.status active
        then cancel_read panel bet
        else ret (declined no_active_bet panel)

  unfoldable pub cancel_bet : Option PublicRoundState → ℕ → Panel → Action BetResult
  cancel_bet view user_id panel = on_option view (ret (declined betting_closed panel)) λ state.
      if phase_eq state.phase betting
      then cancel_in_round user_id panel state.round_id
      else ret (declined betting_closed panel)
