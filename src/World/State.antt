-- ===== src/World/State.antt =====
-- The rows of the tables, and the state as a whole.
use vault_runner_api.Prelude.{ℕ, Bool, Option, List}
use vault_runner_api.Prelude.Int.{ℤ}
use vault_runner_api.World.Types.{Panel, BetStatus, Phase, LedgerType, Key, Reason, Text}

-- `model Bet`. Ids and instants (in ms) are numbers; a multiplier is a `Decimal(10,2)`, in
-- hundredths.
pub record Bet : Type 0 where
  pub id : ℕ
  pub round_id : ℕ
  pub user_id : ℕ
  pub wallet_id : ℕ
  pub panel : Panel
  pub amount : ℕ
  pub auto_cashout : Option ℕ
  pub status : BetStatus
  pub cashout_mult : Option ℕ
  pub payout : ℕ
  pub demo : Bool
  pub operator_id : Option ℕ
  pub currency : Text
  pub max_win_per_bet : Option ℕ
  pub debit_tx_id : Option ℕ
  pub payout_tx_id : Option ℕ
  pub created_at : ℕ
  pub settled_at : Option ℕ

-- `model Round`
pub record Round : Type 0 where
  pub id : ℕ
  pub seed_id : Option ℕ
  pub crash_point : ℕ
  pub status : Phase
  pub phase_ends_at : Option ℕ
  pub started_at : Option ℕ
  pub crashed_at : Option ℕ
  pub settled_at : Option ℕ
  pub created_at : ℕ

-- `model Wallet`
pub record Wallet : Type 0 where
  pub id : ℕ
  pub user_id : ℕ
  pub currency : Text
  pub balance : ℤ

-- `LedgerRef`: the bet that a move is for. The money path passes `refType: "bet"` throughout.
pub record LedgerRef : Type 0 where
  pub ref_id : ℕ

-- `model LedgerTransaction`
pub record LedgerTransaction : Type 0 where
  pub id : ℕ
  pub wallet_id : ℕ
  pub type : LedgerType
  pub amount : ℤ
  pub balance_after : ℤ
  pub ref : Option LedgerRef
  pub idempotency_key : Key

-- The columns of `profiles` that a payout updates.
pub record Profile : Type 0 where
  pub user_id : ℕ
  pub total_loot : ℕ
  pub biggest_multiplier : ℕ

-- What the service reports to metrics/metrics.service.ts and audit/audit-event.service.ts.
pub data Event : Type 0 where
  rejected : Reason → Event
  rg_block : Reason → Event
  placed : ℕ → Event
  paid : ℕ → Event
  failed : Reason → Event
  backlog : ℕ → Event
  bet_void : ℕ → ℕ → BetStatus → Event

-- What the operator's wallet answers to one call; `done` carries its transaction id and balance.
pub data OperatorReply : Type 0 where
  done : ℕ → ℤ → OperatorReply
  refused : Reason → OperatorReply

pub data CallKind : Type 0 where
  bet win rollback balance : CallKind

-- One request that was put on the operator's wire.
pub record OperatorCall : Type 0 where
  pub kind : CallKind
  pub player : ℕ
  pub amount : ℕ
  pub transaction_id : Key

pub data RollbackReason : Type 0 where
  ambiguous_debit transient_debit void_reclaim void_refund restart_refund : RollbackReason

pub data RollbackStatus : Type 0 where
  pending draining confirmed : RollbackStatus

-- `model WalletRollback`. `dedupe_key` is the pair that the source joins with `#`: the bet, or
-- the transaction where there is none, and the reason.
pub data DedupeSubject : Type 0 where
  of_bet : ℕ → DedupeSubject
  of_transaction : Key → DedupeSubject

pub record WalletRollback : Type 0 where
  pub id : ℕ
  pub operator_id : ℕ
  pub player_id : ℕ
  pub transaction_id : Key
  pub subject : DedupeSubject
  pub reason : RollbackReason
  pub bet_id : Option ℕ
  pub amount : Option ℕ
  pub status : RollbackStatus
  pub attempts : ℕ
  pub last_error : Option Reason
  pub lease_until : Option ℕ
  pub resolved_at : Option ℕ

pub record World : Type 0 where
  pub bets : List Bet
  pub rounds : List Round
  pub wallets : List Wallet
  pub ledger : List LedgerTransaction
  pub profiles : List Profile
  pub rollbacks : List WalletRollback
  pub replies : List OperatorReply
  pub sent : List OperatorCall
  pub events : List Event
  pub faults : List Bool
  pub next_id : ℕ
  pub now : ℕ
