-- ===== src/Reporting/Transaction.antt =====
-- `ReportingService.transactionStatus`: what became of one move of money. A status that is on its
-- way is pending, never "did not happen".
pub mod Tenant
use vault_runner_api.Prelude.{ℕ, Bool, ◌&&◌, Option, List, [], ◌∷◌, ◌==◌, find, if◌then◌else◌}
use vault_runner_api.Prelude.Int.{pos}
use vault_runner_api.Prog.{Result, ok, err, on_option}
use vault_runner_api.World.{
  Bet, BetStatus, reserving, cancelling, active, cashed_out, busted, cancelled, payout_pending,
  voiding, voided, Panel, panel_eq, Text,
}
use vault_runner_api.Reporting.Stats.{minor_units_to_string, decimals_of}
use vault_runner_api.Reporting.Query.{TransactionQuery, by_bet_id, by_debit, by_payout, by_refund}

pub data DebitState : Type 0 where
  pending applied reversed : DebitState

pub data RefundState : Type 0 where
  none pending applied : RefundState

pub data PayoutState : Type 0 where
  none pending paid : PayoutState

unfoldable pub debit_state_of : BetStatus → DebitState
debit_state_of reserving = DebitState.pending
debit_state_of voiding = DebitState.pending
debit_state_of cancelled = DebitState.reversed
debit_state_of voided = DebitState.reversed
debit_state_of _ = DebitState.applied

unfoldable pub refund_state_of : BetStatus → RefundState
refund_state_of cancelling = RefundState.pending
refund_state_of voiding = RefundState.pending
refund_state_of cancelled = RefundState.applied
refund_state_of voided = RefundState.applied
refund_state_of _ = RefundState.none

unfoldable pub payout_state_of : BetStatus → PayoutState
payout_state_of cashed_out = PayoutState.paid
payout_state_of payout_pending = PayoutState.pending
payout_state_of voiding = PayoutState.pending
payout_state_of _ = PayoutState.none

-- `TransactionStatusResponse`
pub record TransactionStatus : Type 0 where
  pub operator_id : ℕ
  pub bet_id : ℕ
  pub round_id : ℕ
  pub player_id : Option Text
  pub currency : Text
  pub decimals : ℕ
  pub panel : Panel
  pub status : BetStatus
  pub stake : Text
  pub payout : Text
  pub cashout_mult : Option ℕ
  pub debit_state : DebitState
  pub refund_state : RefundState
  pub payout_state : PayoutState
  pub debit_tx_id : Option ℕ
  pub payout_tx_id : Option ℕ
  pub demo : Bool
  pub created_at : ℕ
  pub settled_at : Option ℕ
  pub query : TransactionQuery

pub data NotFound : Type 0 where
  transaction_not_found : NotFound

abbrev pub is_own : ℕ → Bet → Bool
is_own operator_id b = on_option b.operator_id Bool.false (λ o. o == operator_id)

-- Which row a text names is the database's: it parses a UUID. The operator's id of a wallet's
-- player is that of a session of the wallet.
module _ (names : Text → ℕ → Bool) (player_of : ℕ → Option Text) where
  -- `findUnique`, by the slot of a debit or by the bet's id
  abbrev pub asked_for : TransactionQuery → Bet → Bool
  asked_for (by_bet_id id) b = names id b.id
  asked_for (by_payout id t) b = names id b.id
  asked_for (by_refund id t) b = names id b.id
  asked_for (by_debit round user panel t) b =
      names round b.round_id && (names user b.user_id && panel_eq b.panel panel)

  unfoldable pub status_of : ℕ → TransactionQuery → Bet → TransactionStatus
  status_of operator_id q b = record {
    operator_id = operator_id;
    bet_id = b.id;
    round_id = b.round_id;
    player_id = player_of b.wallet_id;
    currency = b.currency;
    decimals = decimals_of b.currency;
    panel = b.panel;
    status = b.status;
    stake = minor_units_to_string (pos b.amount);
    payout = minor_units_to_string (pos b.payout);
    cashout_mult = b.cashout_mult;
    debit_state = debit_state_of b.status;
    refund_state = refund_state_of b.status;
    payout_state = payout_state_of b.status;
    debit_tx_id = b.debit_tx_id;
    payout_tx_id = b.payout_tx_id;
    demo = b.demo;
    created_at = b.created_at;
    settled_at = b.settled_at;
    query = q;
  }

  -- The tenant gate: a bet of another operator, or of none, is answered as one that is not there.
  unfoldable pub transaction_status :
      ℕ → TransactionQuery → List Bet → Result NotFound TransactionStatus
  transaction_status operator_id q bets =
      on_option (find (asked_for q) bets) (err transaction_not_found) λ b.
        if is_own operator_id b then ok (status_of operator_id q b) else err transaction_not_found
