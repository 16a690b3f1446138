-- ===== src/Bets/CashOut.antt =====
-- `BetsService.cashOut` and `evaluateAutoCashouts`.
pub mod Gate
pub mod Kept
use vault_runner_api.Prelude.{
  ℕ, Bool, true, false, not, ◌||◌, ◌&&◌, Option, none, some, List, [], ◌==◌, if◌then◌else◌, find,
  select, leb,
}
use vault_runner_api.Prog.{
  ret, ◌>>=◌, ◌>>◌, try_catch, caught, on_result, on_option, read, for_each,
}
use vault_runner_api.World.{
  Bet, Round, Panel, running, active, payout_credit, Key, Reason, too_late, no_active_bet,
  cashout_credit, auto_cashout, failed, paid, phase_eq, status_eq, BetStatus, Text,
}
use vault_runner_api.World.Tables.{
  Action, find_bet, find_bets, update_bets, update_bet, credit_profile, report,
}
use vault_runner_api.Money.{floor_payout}
use vault_runner_api.Risk.{RiskLimits, cap_payout}
use vault_runner_api.Wallet.Provider.{WalletProvider, WalletTxResult}
use vault_runner_api.Bets.Types.{PublicRoundState, CashoutResult, paid_out, owed, not_paid}
use vault_runner_api.Bets.Updates.{has_status, in_slot, in_round, won, to_status, stamped_payout}
use vault_runner_api.Bets.Cancel.{currency_of}

-- `include: { round: { select: { status, crashPoint } } }`
unfoldable pub round_of : Bet → Action (Option Round)
round_of b = read (λ w. find (λ r. r.id == b.round_id) w.rounds)

abbrev pub is_payout_pending : Reason → Bool
is_payout_pending Reason.payout_pending = true
is_payout_pending _ = false

-- The crash gate, on the bet's own round: still running, and strictly below the crash.
unfoldable pub below_crash : Round → ℕ → Bool
below_crash r mult = not (not (phase_eq r.status running) || leb r.crash_point mult)

-- A claimed win whose credit failed stays recoverable, whatever was thrown.
unfoldable pub leave_pending : ℕ → Panel → Bet → ℕ → ℕ → Text → Reason → Action CashoutResult
leave_pending user_id panel bet mult payout currency e =
    (if is_payout_pending e then ret tt else report (failed cashout_credit))
    >> update_bet bet.id (to_status BetStatus.payout_pending)
    >> ret (owed user_id panel mult payout currency)

-- After a confirmed credit: the link to the transaction, the leaderboard, the metric.
unfoldable pub finish_paid : ℕ → Panel → Bet → ℕ → ℕ → Text → WalletTxResult → Action CashoutResult
finish_paid user_id panel bet mult payout currency tx =
    update_bet bet.id (stamped_payout tx.id)
    >> credit_profile user_id payout mult
    >> report (paid payout)
    >> ret (paid_out user_id panel mult payout tx.balance_after currency)

module _ (limits : RiskLimits) (wallet : WalletProvider) where
  -- What a bet is owed at a multiplier.
  unfoldable pub payout_of : Bet → ℕ → ℕ
  payout_of bet mult = cap_payout limits (floor_payout bet.amount mult) bet.max_win_per_bet

  -- The credit of a claimed win.
  unfoldable pub pay_claimed : ℕ → Panel → Bet → ℕ → Text → Action CashoutResult
  pay_claimed user_id panel bet mult currency = do
    let payout = payout_of bet mult
    moved ← caught (
        wallet.credit bet.wallet_id payout payout_credit (Key.payout bet.id)
          (some (record { ref_id = bet.id })))
    on_result moved (finish_paid user_id panel bet mult payout currency)
        (leave_pending user_id panel bet mult payout currency)

  -- The claim of an active bet, a compare-and-swap, and the payment of the one that wins it.
  unfoldable pub claim_and_pay : ℕ → Panel → Bet → ℕ → Text → Action CashoutResult
  claim_and_pay user_id panel bet mult currency = do
    count ← update_bets (has_status bet.id active) (won mult (payout_of bet mult))
    if count == 0
        then ret (not_paid no_active_bet user_id panel)
        else pay_claimed user_id panel bet mult currency

  -- The authoritative crash gate, on the bet's own round.
  unfoldable pub gate_and_claim : ℕ → Panel → ℕ → Bet → Text → Round → Action CashoutResult
  gate_and_claim user_id panel mult bet currency r =
      if below_crash r mult
      then claim_and_pay user_id panel bet mult currency
      else ret (not_paid too_late user_id panel)

  -- The rest, on the row that the slot showed. A bet always has its round (a foreign key).
  unfoldable pub cash_out_read : ℕ → Panel → ℕ → Bet → Action CashoutResult
  cash_out_read user_id panel mult bet = do
    currency ← currency_of bet
    round ← round_of bet
    if status_eq bet.status active
        then on_option round (ret (not_paid too_late user_id panel))
            (gate_and_claim user_id panel mult bet currency)
        else ret (not_paid no_active_bet user_id panel)

  unfoldable pub cash_out_in_round : ℕ → Panel → ℕ → ℕ → Action CashoutResult
  cash_out_in_round user_id panel mult round = do
    found ← find_bet (in_slot round user_id panel)
    on_option found (ret (not_paid no_active_bet user_id panel)) (cash_out_read user_id panel mult)

  -- `at` is the target of an automatic cash-out, `live` the multiplier that the engine shows.
  unfoldable pub cash_out :
      Option PublicRoundState → ℕ → ℕ → Panel → Option ℕ → Action CashoutResult
  cash_out view live user_id panel at =
      on_option view (ret (not_paid too_late user_id panel)) λ state.
        if phase_eq state.phase running
        then cash_out_in_round user_id panel (on_option at live (λ m. m)) state.round_id
        else ret (not_paid too_late user_id panel)

  -- One due bet; a failure is counted and does not stop the others.
  unfoldable pub auto_cash_one : Option PublicRoundState → ℕ → Bet → Action (Option CashoutResult)
  auto_cash_one view live bet =
      try_catch (cash_out view live bet.user_id bet.panel bet.auto_cashout >>= λ r. ret (some r))
        (λ e. report (failed auto_cashout) >> ret none)

  -- `autoCashout: { not: null, lte: multiplier }`
  abbrev is_due : ℕ → ℕ → Bet → Bool
  is_due round mult b =
      in_round round active b && on_option b.auto_cashout false (λ target. leb target mult)

  abbrev is_paid : Option CashoutResult → Bool
  is_paid none = false
  is_paid (some (paid_out u p m x v c)) = true
  is_paid (some (owed u p m x c)) = true
  is_paid (some (not_paid e u p)) = false

  unfoldable pub evaluate_auto_cashouts :
      Option PublicRoundState → ℕ → Action (List (Option CashoutResult))
  evaluate_auto_cashouts view mult = on_option view (ret []) λ state.
      if phase_eq state.phase running
      then (find_bets (is_due state.round_id mult) >>= λ due.
          for_each due (auto_cash_one view mult) >>= λ results. ret (select is_paid results))
      else ret []
