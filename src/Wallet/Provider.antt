-- ===== src/Wallet/Provider.antt =====
-- wallet/wallet-provider.ts: the interface between the bets and their money source.
use vault_runner_api.Prelude.{ℕ, Option}
use vault_runner_api.Prelude.Int.{ℤ}
use vault_runner_api.Prog.Keeps.{Keeps}
use vault_runner_api.World.{World, Key, LedgerType, LedgerRef, RollbackReason}
use vault_runner_api.World.Tables.{Action}

-- `WalletTxResult`
pub record WalletTxResult : Type 0 where
  pub id : ℕ
  pub balance_after : ℤ

pub data Direction : Type 0 where
  debit credit : Direction

-- `ReverseParams`
pub record ReverseParams : Type 0 where
  pub original_key : Key
  pub reverse_key : Key
  pub amount : ℕ
  pub original_direction : Direction
  pub type : LedgerType
  pub ref : Option LedgerRef
  pub intent : Option RollbackReason

pub record WalletProvider : Type 0 where
  pub debit : ℕ → ℕ → LedgerType → Key → Option LedgerRef → Action WalletTxResult
  pub credit : ℕ → ℕ → LedgerType → Key → Option LedgerRef → Action WalletTxResult
  pub rollback : ℕ → Key → Option LedgerRef → Action (Unit {0})
  pub reverse : ℕ → ReverseParams → Action (Unit {0})
  pub get_balance : ℕ → Action ℤ

-- A money source all of whose operations keep an invariant, action by action.
pub record KeepsWallet (P : World → Type 0) (wallet : WalletProvider) : Type 0 where
  pub debit_keeps :
      (id amount : ℕ) (type : LedgerType) (key : Key) (ref : Option LedgerRef)
      → Keeps P (wallet.debit id amount type key ref)
  pub credit_keeps :
      (id amount : ℕ) (type : LedgerType) (key : Key) (ref : Option LedgerRef)
      → Keeps P (wallet.credit id amount type key ref)
  pub rollback_keeps :
      (id : ℕ) (key : Key) (ref : Option LedgerRef) → Keeps P (wallet.rollback id key ref)
  pub reverse_keeps : (id : ℕ) (p : ReverseParams) → Keeps P (wallet.reverse id p)
  pub get_balance_keeps : (id : ℕ) → Keeps P (wallet.get_balance id)
