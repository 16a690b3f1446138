-- ===== src/Bets/Void.antt =====
-- `BetsService.voidBet`: an operator takes back a settled bet. `performVoidReversals`, and
-- `reconcileVoidingBets`, which finishes the voids that were interrupted.
pub mod Ends
use vault_runner_api.Prelude.{
  ℕ, Bool, true, false, not, none, some, ◌==◌, if◌then◌else◌, ltb, take, length, select,
}
use vault_runner_api.Prog.{ret, throw, ◌>>=◌, ◌>>◌, try_catch, on_option, for_each}
use vault_runner_api.World.{
  Bet, BetStatus, reserving, cancelling, active, cashed_out, busted, cancelled, payout_pending,
  voiding, voided, payout_credit, refund, Key, bet_not_found, bet_not_settled, bet_transient,
  bet_state_changed, void_reconcile, failed, bet_void, status_eq,
}
use vault_runner_api.World.Tables.{Action, find_bet, find_bets, update_bets, report}
use vault_runner_api.Wallet.Provider.{Direction, ReverseParams, WalletProvider}
use vault_runner_api.Bets.Types.{VoidResult}
use vault_runner_api.Bets.Updates.{has_id, has_status, to_status}

abbrev pub reclaim_of : Bet → ReverseParams
reclaim_of bet = record {
  original_key = Key.payout bet.id;
  reverse_key = Key.void_reclaim bet.id;
  amount = bet.payout;
  original_direction = Direction.credit;
  type = payout_credit;
  ref = some (record { ref_id = bet.id });
  intent = none;
}

abbrev pub void_refund_of : Bet → ReverseParams
void_refund_of bet = record {
  original_key = Key.debit bet.round_id bet.user_id bet.panel;
  reverse_key = Key.void_refund bet.id;
  amount = bet.amount;
  original_direction = Direction.debit;
  type = refund;
  ref = some (record { ref_id = bet.id });
  intent = none;
}

-- What is answered for a bet that a void leaves, or finds, in a status.
abbrev pub void_result : Bet → BetStatus → Bool → ℕ → VoidResult
void_result bet st reversed reclaimed = record {
  bet_id = bet.id;
  status = st;
  reversed = reversed;
  refunded_stake = bet.amount;
  reclaimed_payout = reclaimed;
}

module _ (wallet : WalletProvider) where
  -- The reclaim of a payout first, so that its failure leaves nothing refunded.
  unfoldable pub perform_void_reversals : Bet → Action (Unit {0})
  perform_void_reversals bet =
      (if ltb 0 bet.payout then wallet.reverse bet.wallet_id (reclaim_of bet) else ret tt)
      >> wallet.reverse bet.wallet_id (void_refund_of bet)

  -- The claim of a settled bet into 'voiding', or the resumption of one that is there.
  unfoldable pub claim_void : Bet → Action (Unit {0})
  claim_void bet =
      if status_eq bet.status voiding
      then ret tt
      else update_bets (has_status bet.id bet.status) (to_status voiding) >>= λ count.
          if count == 0 then throw bet_state_changed else ret tt

  unfoldable pub void_settled : ℕ → Bet → Action VoidResult
  void_settled operator_id bet =
      claim_void bet
      >> perform_void_reversals bet
      >> update_bets (has_status bet.id voiding) (to_status voided)
      >> report (bet_void operator_id bet.id bet.status)
      >> ret (void_result bet voided true bet.payout)

  -- By the status that was read: the terminal ones answer, the ones in flight are refused.
  unfoldable pub void_by_status : BetStatus → ℕ → Bet → Action VoidResult
  void_by_status voided operator_id bet = ret (void_result bet voided false bet.payout)
  void_by_status cancelled operator_id bet = ret (void_result bet cancelled false 0)
  void_by_status active operator_id bet = throw bet_not_settled
  void_by_status reserving operator_id bet = throw bet_transient
  void_by_status cancelling operator_id bet = throw bet_transient
  void_by_status payout_pending operator_id bet = throw bet_transient
  void_by_status busted operator_id bet = void_settled operator_id bet
  void_by_status cashed_out operator_id bet = void_settled operator_id bet
  void_by_status voiding operator_id bet = void_settled operator_id bet

  abbrev owned_by : ℕ → Bet → Bool
  owned_by operator_id bet = on_option bet.operator_id false (λ o. o == operator_id)

  unfoldable pub void_bet : ℕ → ℕ → Action VoidResult
  void_bet operator_id bet_id = do
    found ← find_bet (has_id bet_id)
    on_option found (throw bet_not_found) λ bet.
        if owned_by operator_id bet
        then void_by_status bet.status operator_id bet
        else throw bet_not_found

  -- One interrupted void: whether this pass finished it.
  unfoldable pub finish_void : Bet → Action Bool
  finish_void bet =
      try_catch
        (perform_void_reversals bet
          >> update_bets (has_status bet.id voiding) (to_status voided)
          >>= λ count. ret (not (count == 0)))
        (λ e. report (failed void_reconcile) >> ret false)

  abbrev is_voiding : Bet → Bool
  is_voiding b = status_eq b.status voiding

  unfoldable pub reconcile_voiding_bets : ℕ → Action ℕ
  reconcile_voiding_bets limit = do
    stuck ← find_bets is_voiding
    finished ← for_each (take limit stuck) finish_void
    find_bets is_voiding
    ret (length (select (λ d. d) finished))
