-- ===== src/Bets/Keeps.antt =====
-- Each handler of bets.service.ts keeps an invariant action by action, if the invariant withstands
-- the changes of rows and the money source keeps it. One lemma for each function of the handlers.
pub mod Releases
pub mod Place
use vault_runner_api.Prelude.{ℕ, zero, suc, Bool, true, Option, none, some, List, [], ◌∷◌, ◌≡◌}
use vault_runner_api.Prog.{transaction}
use vault_runner_api.Prog.Keeps.{Keeps, keeps_rules, Keeps-transaction, Keeps-read}
use vault_runner_api.World.{
  Bet, Round, Wallet, World, Panel, BetStatus, Reason, Text, reserving, cancelled, cashed_out,
  busted, voiding, voided, active, cancelling, payout_pending,
}
use vault_runner_api.World.Tables.{Action, update_bets, update_bet}
use vault_runner_api.Bets.Updates.{
  has_status, in_round, settled_as, to_status, won, stamped_payout, confirmed_payout, activated,
  stamped_debit,
}
use vault_runner_api.World.Keeps.{
  Withstands, find_bet-Keeps, find_bets-Keeps, update_bets-Keeps, update_bet-Keeps,
  delete_bet-Keeps, date_now-Keeps, credit_profile-Keeps, report-Keeps, random_uuid-Keeps,
  may_fail-Keeps,
}
use vault_runner_api.Risk.{RiskLimits}
use vault_runner_api.Wallet.Provider.{WalletProvider, KeepsWallet, WalletTxResult}
use vault_runner_api.Bets.Types.{PublicRoundState}
use vault_runner_api.Bets.Cancel
use vault_runner_api.Bets.CashOut
use vault_runner_api.Bets.Settle
use vault_runner_api.Bets.Void
use vault_runner_api.Bets.Reconcile
use Releases.{
  cancelled-Releases, won-Releases, pending-Releases, stamped_payout-Releases, busted-Releases,
  voiding-Releases, voided-Releases, confirmed-Releases,
}

module _ (P : World → Type 0) (k : Withstands P) (limits : RiskLimits) (wallet : WalletProvider)
    (money : KeepsWallet P wallet) where
  -- `cancelBet`
  currency_of-Keeps : (b : Bet) → Keeps P (Cancel.currency_of b)
  unfolding Cancel.currency_of
  currency_of-Keeps b = Keeps-read _

  cancel_update-Keeps :
      (id : ℕ) → Keeps P (update_bets (has_status id active) (settled_as cancelled))
  cancel_update-Keeps id = update_bets-Keeps P k _ _ (cancelled-Releases id)

  cancel_read-Keeps : (panel : Panel) (bet : Bet) → Keeps P (Cancel.cancel_read wallet panel bet)
  unfolding Cancel.cancel_read
  cancel_read-Keeps panel bet =
      search (keeps_rules, currency_of-Keeps, cancel_update-Keeps, money.credit_keeps)

  cancel_in_round-Keeps :
      (user : ℕ) (panel : Panel) (round : ℕ)
      → Keeps P (Cancel.cancel_in_round wallet user panel round)
  unfolding Cancel.cancel_in_round
  cancel_in_round-Keeps user panel round =
      search (keeps_rules, find_bet-Keeps P k, cancel_read-Keeps)

  pub cancel_bet-Keeps :
      (view : Option PublicRoundState) (user : ℕ) (panel : Panel)
      → Keeps P (Cancel.cancel_bet wallet view user panel)
  unfolding Cancel.cancel_bet
  cancel_bet-Keeps view user panel = search (keeps_rules, cancel_in_round-Keeps)

  -- `cashOut`
  round_of-Keeps : (b : Bet) → Keeps P (CashOut.round_of b)
  unfolding CashOut.round_of
  round_of-Keeps b = Keeps-read _

  won_update-Keeps :
      (id mult payout : ℕ) → Keeps P (update_bets (has_status id active) (won mult payout))
  won_update-Keeps id mult payout = update_bets-Keeps P k _ _ (won-Releases id mult payout)

  pending_update-Keeps : (id : ℕ) → Keeps P (update_bet id (to_status payout_pending))
  pending_update-Keeps id = update_bet-Keeps P k id _ (pending-Releases id)

  stamp_update-Keeps : (id tx : ℕ) → Keeps P (update_bet id (stamped_payout tx))
  stamp_update-Keeps id tx = update_bet-Keeps P k id _ (stamped_payout-Releases id tx)

  leave_pending-Keeps :
      (user : ℕ) (panel : Panel) (bet : Bet) (mult payout : ℕ) (ccy : Text) (e : Reason)
      → Keeps P (CashOut.leave_pending user panel bet mult payout ccy e)
  unfolding CashOut.leave_pending
  leave_pending-Keeps user panel bet mult payout ccy e =
      search (keeps_rules, report-Keeps P k, pending_update-Keeps)

  finish_paid-Keeps :
      (user : ℕ) (panel : Panel) (bet : Bet) (mult payout : ℕ) (ccy : Text) (tx : WalletTxResult)
      → Keeps P (CashOut.finish_paid user panel bet mult payout ccy tx)
  unfolding CashOut.finish_paid
  finish_paid-Keeps user panel bet mult payout ccy tx =
      search (keeps_rules, stamp_update-Keeps, credit_profile-Keeps P k, report-Keeps P k)

  pay_claimed-Keeps :
      (user : ℕ) (panel : Panel) (bet : Bet) (mult : ℕ) (ccy : Text)
      → Keeps P (CashOut.pay_claimed limits wallet user panel bet mult ccy)
  unfolding CashOut.pay_claimed
  pay_claimed-Keeps user panel bet mult ccy =
      search (keeps_rules, money.credit_keeps, finish_paid-Keeps, leave_pending-Keeps)

  claim_and_pay-Keeps :
      (user : ℕ) (panel : Panel) (bet : Bet) (mult : ℕ) (ccy : Text)
      → Keeps P (CashOut.claim_and_pay limits wallet user panel bet mult ccy)
  unfolding CashOut.claim_and_pay
  claim_and_pay-Keeps user panel bet mult ccy =
      search (keeps_rules, won_update-Keeps, pay_claimed-Keeps)

  gate_and_claim-Keeps :
      (user : ℕ) (panel : Panel) (mult : ℕ) (bet : Bet) (ccy : Text) (r : Round)
      → Keeps P (CashOut.gate_and_claim limits wallet user panel mult bet ccy r)
  unfolding CashOut.gate_and_claim
  gate_and_claim-Keeps user panel mult bet ccy r = search (keeps_rules, claim_and_pay-Keeps)

  cash_out_read-Keeps :
      (user : ℕ) (panel : Panel) (mult : ℕ) (bet : Bet)
      → Keeps P (CashOut.cash_out_read limits wallet user panel mult bet)
  unfolding CashOut.cash_out_read
  cash_out_read-Keeps user panel mult bet =
      search (keeps_rules, currency_of-Keeps, round_of-Keeps, gate_and_claim-Keeps)

  cash_out_in_round-Keeps :
      (user : ℕ) (panel : Panel) (mult round : ℕ)
      → Keeps P (CashOut.cash_out_in_round limits wallet user panel mult round)
  unfolding CashOut.cash_out_in_round
  cash_out_in_round-Keeps user panel mult round =
      search (keeps_rules, find_bet-Keeps P k, cash_out_read-Keeps)

  pub cash_out-Keeps :
      (view : Option PublicRoundState) (live user : ℕ) (panel : Panel) (at : Option ℕ)
      → Keeps P (CashOut.cash_out limits wallet view live user panel at)
  unfolding CashOut.cash_out
  cash_out-Keeps view live user panel at = search (keeps_rules, cash_out_in_round-Keeps)

  auto_cash_one-Keeps :
      (view : Option PublicRoundState) (live : ℕ) (b : Bet)
      → Keeps P (CashOut.auto_cash_one limits wallet view live b)
  unfolding CashOut.auto_cash_one
  auto_cash_one-Keeps view live b = search (keeps_rules, cash_out-Keeps, report-Keeps P k)

  pub evaluate_auto_cashouts-Keeps :
      (view : Option PublicRoundState) (mult : ℕ)
      → Keeps P (CashOut.evaluate_auto_cashouts limits wallet view mult)
  unfolding CashOut.evaluate_auto_cashouts
  evaluate_auto_cashouts-Keeps view mult =
      search (keeps_rules, find_bets-Keeps P k, auto_cash_one-Keeps) depth 9

  -- `settleRound`
  bust_update-Keeps :
      (round : ℕ) → Keeps P (update_bets (in_round round active) (settled_as busted))
  bust_update-Keeps round = update_bets-Keeps P k _ _ (busted-Releases round)

  bust_round-Keeps : (round : ℕ) (bs : List Bet) → Keeps P (Settle.bust_round round bs)
  unfolding Settle.bust_round
  bust_round-Keeps round [] = search keeps_rules
  bust_round-Keeps round (b ∷ bs) = search (keeps_rules, bust_update-Keeps)

  pub settle_round-Keeps : (round : ℕ) → Keeps P (Settle.settle_round round)
  unfolding Settle.settle_round
  settle_round-Keeps round = search (keeps_rules, find_bets-Keeps P k, bust_round-Keeps)

  -- `voidBet` and its sweep
  voiding_update-Keeps :
      (id : ℕ) (st : BetStatus) → Keeps P (update_bets (has_status id st) (to_status voiding))
  voiding_update-Keeps id st = update_bets-Keeps P k _ _ (voiding-Releases id st)

  voided_update-Keeps : (id : ℕ) → Keeps P (update_bets (has_status id voiding) (to_status voided))
  voided_update-Keeps id = update_bets-Keeps P k _ _ (voided-Releases id)

  reversals-Keeps : (b : Bet) → Keeps P (Void.perform_void_reversals wallet b)
  unfolding Void.perform_void_reversals
  reversals-Keeps b = search (keeps_rules, money.reverse_keeps)

  claim_void-Keeps : (b : Bet) → Keeps P (Void.claim_void wallet b)
  unfolding Void.claim_void
  claim_void-Keeps b = search (keeps_rules, voiding_update-Keeps)

  void_settled-Keeps : (o : ℕ) (b : Bet) → Keeps P (Void.void_settled wallet o b)
  unfolding Void.void_settled
  void_settled-Keeps o b =
      search (keeps_rules, claim_void-Keeps, reversals-Keeps, voided_update-Keeps, report-Keeps P k)

  void_by_status-Keeps :
      (st : BetStatus) (o : ℕ) (b : Bet) → Keeps P (Void.void_by_status wallet st o b)
  unfolding Void.void_by_status
  void_by_status-Keeps voided o b = search keeps_rules
  void_by_status-Keeps _ o b = search (keeps_rules, void_settled-Keeps)

  pub void_bet-Keeps : (o id : ℕ) → Keeps P (Void.void_bet wallet o id)
  unfolding Void.void_bet
  void_bet-Keeps o id = search (keeps_rules, find_bet-Keeps P k, void_by_status-Keeps)

  finish_void-Keeps : (b : Bet) → Keeps P (Void.finish_void wallet b)
  unfolding Void.finish_void
  finish_void-Keeps b = search (keeps_rules, reversals-Keeps, voided_update-Keeps, report-Keeps P k)

  pub reconcile_voiding-Keeps : (limit : ℕ) → Keeps P (Void.reconcile_voiding_bets wallet limit)
  unfolding Void.reconcile_voiding_bets
  reconcile_voiding-Keeps limit = search (keeps_rules, find_bets-Keeps P k, finish_void-Keeps)

  -- `reconcilePendingPayouts`
  confirmed_update-Keeps :
      (id tx : ℕ) → Keeps P (update_bets (has_status id payout_pending) (confirmed_payout tx))
  confirmed_update-Keeps id tx = update_bets-Keeps P k _ _ (confirmed-Releases id tx)

  confirm_pending-Keeps : (b : Bet) → Keeps P (Reconcile.confirm_pending wallet b)
  unfolding Reconcile.confirm_pending
  confirm_pending-Keeps b =
      search
        (
          keeps_rules,
          money.credit_keeps,
          confirmed_update-Keeps,
          credit_profile-Keeps P k,
          report-Keeps P k,
        )
        depth 9

  backlog-Keeps : Keeps P (Reconcile.report_pending_backlog wallet)
  unfolding Reconcile.report_pending_backlog
  backlog-Keeps = search (keeps_rules, find_bets-Keeps P k, report-Keeps P k)

  pub reconcile_pending-Keeps :
      (limit : ℕ) → Keeps P (Reconcile.reconcile_pending_payouts wallet limit)
  unfolding Reconcile.reconcile_pending_payouts
  reconcile_pending-Keeps limit =
      search (keeps_rules, find_bets-Keeps P k, confirm_pending-Keeps, backlog-Keeps)
