-- ===== src/Wallet/Ledger.antt =====
-- wallet/ledger.service.ts: the internal ledger, an append-only journal with a cached balance.
-- A `$transaction` there locks the wallet's row, so each is one action; its body is a function on
-- the state. A BigInt is an integer; amounts that callers pass are not negative.
pub mod Sound
pub mod Idempotent
pub mod Sums
pub mod Reverse
use vault_runner_api.Prelude.{
  ℕ, ◌+◌, Bool, true, false, Option, none, some, List, ◌∷◌, ◌==◌, if◌then◌else◌, find, update_where,
  is_some,
}
use vault_runner_api.Prelude.Int.{ℤ, pos, negsuc, ◌+ℤ◌, ◌-ℤ◌, ltb_ℤ}
use vault_runner_api.Prog.{
  Result, ok, err, ret, throw, ◌>>=◌, ◌>>◌, try_catch, read, transaction, on_option,
}
use vault_runner_api.World.{
  Wallet, LedgerTransaction, LedgerRef, LedgerType, adjustment, Key, key_eq, World, Reason,
  record_not_found, insufficient_balance, amount_must_be_positive, amount_must_not_be_negative,
  unique_violation,
}
use vault_runner_api.World.Tables.{Action}
use vault_runner_api.Wallet.Provider.{WalletTxResult, Direction, ReverseParams, WalletProvider}

abbrev pub wallet_at : ℕ → List Wallet → Option Wallet
wallet_at id ws = find (λ x. x.id == id) ws

abbrev pub entry_at : Key → List LedgerTransaction → Option LedgerTransaction
entry_at k rows = find (λ r. key_eq k r.idempotency_key) rows

-- `ledgerTransaction.findUnique`
unfoldable pub find_entry : Key → Action (Option LedgerTransaction)
find_entry k = read (λ w. entry_at k w.ledger)

-- `wallet.update`
abbrev pub set_balance : ℕ → ℤ → List Wallet → List Wallet
set_balance id v ws = update_where (λ x. x.id == id) (λ x. record x { balance = v }) ws

-- `ledgerTransaction.create`, which generates the row's id and refuses a key that is there.
unfoldable pub create_entry :
    ℕ
    → LedgerType
    → ℤ
    → ℤ
    → Option LedgerRef
    → Key
    → World
    → Result Reason LedgerTransaction × World
create_entry wallet_id type amount balance_after ref key w =
    let row : LedgerTransaction = record {
      id = w.next_id;
      wallet_id = wallet_id;
      type = type;
      amount = amount;
      balance_after = balance_after;
      ref = ref;
      idempotency_key = key;
    } in
    if is_some (entry_at key w.ledger)
    then (err unique_violation, w)
    else (ok row, record w { ledger = row ∷ w.ledger; next_id = w.next_id + 1 })

-- The balance and the row of one move, once the wallet is found and the sum is not negative.
unfoldable pub post :
    ℕ
    → ℤ
    → ℤ
    → LedgerType
    → Key
    → Option LedgerRef
    → World
    → Result Reason LedgerTransaction × World
post wallet_id amount balance_after type key ref w =
    create_entry wallet_id type amount balance_after ref key
      (record w { wallets = set_balance wallet_id balance_after w.wallets })

-- The body of the transaction of `record`, its row lock held.
unfoldable pub record_body :
    ℕ → ℤ → LedgerType → Key → Option LedgerRef → World → Result Reason LedgerTransaction × World
record_body wallet_id signed type key ref w =
    on_option (entry_at key w.ledger)
      (on_option (wallet_at wallet_id w.wallets) (err record_not_found, w)
        λ x.
          let balance_after = x.balance +ℤ signed in
          if ltb_ℤ balance_after (pos 0)
          then (err insufficient_balance, w)
          else post wallet_id signed balance_after type key ref w)
      λ dup. (ok dup, w)

abbrev is_unique_violation : Reason → Bool
is_unique_violation unique_violation = true
is_unique_violation _ = false

-- The backstop of `record` and `reset_to`: another transaction inserted the same key.
unfoldable pub or_existing : {A : Type 0} → Key → (LedgerTransaction → A) → Reason → Action A
or_existing key f e =
    if is_unique_violation e
    then find_entry key >>= (λ row. on_option row (throw e) (λ r. ret (f r)))
    else throw e

unfoldable pub record_entry : ℕ → ℤ → LedgerType → Key → Option LedgerRef → Action LedgerTransaction
record_entry wallet_id signed type key ref = do
  existing ← find_entry key
  on_option existing
      (try_catch (transaction (record_body wallet_id signed type key ref))
        (or_existing key (λ r. r)))
      ret

abbrev tx_result : LedgerTransaction → WalletTxResult
tx_result r = record { id = r.id; balance_after = r.balance_after }

unfoldable pub debit : ℕ → ℕ → LedgerType → Key → Option LedgerRef → Action WalletTxResult
debit wallet_id amount type key ref =
    if amount == 0
    then throw amount_must_be_positive
    else do r ← record_entry wallet_id (pos 0 -ℤ pos amount) type key ref; ret (tx_result r)

unfoldable pub credit : ℕ → ℕ → LedgerType → Key → Option LedgerRef → Action WalletTxResult
credit wallet_id amount type key ref =
    if amount == 0
    then throw amount_must_be_positive
    else do r ← record_entry wallet_id (pos amount) type key ref; ret (tx_result r)

unfoldable pub get_balance : ℕ → Action ℤ
get_balance wallet_id = do
  x ← read (λ w. wallet_at wallet_id w.wallets)
  on_option x (throw record_not_found) (λ x. ret x.balance)

-- No half-state to compensate: a move of the ledger is one transaction.
unfoldable pub rollback : ℕ → Key → Option LedgerRef → Action (Unit {0})
rollback wallet_id key ref = ret tt

unfoldable pub reverse_by : Direction → ℕ → ReverseParams → Action (Unit {0})
reverse_by Direction.debit wallet_id p =
    credit wallet_id p.amount p.type p.reverse_key p.ref >> ret tt
reverse_by Direction.credit wallet_id p =
    debit wallet_id p.amount p.type p.reverse_key p.ref >> ret tt

-- The inverse entry: a refund of a debit is a credit, a reclaim of a credit is a debit.
unfoldable pub reverse : ℕ → ReverseParams → Action (Unit {0})
reverse wallet_id p = reverse_by p.original_direction wallet_id p

abbrev pub ledger_service : WalletProvider
ledger_service = record {
  debit = debit;
  credit = credit;
  rollback = rollback;
  reverse = reverse;
  get_balance = get_balance;
}

abbrev pub some_entry :
    Result Reason LedgerTransaction × World → Result Reason (Option LedgerTransaction) × World
some_entry (ok r, w) = (ok (some r), w)
some_entry (err e, w) = (err e, w)

abbrev pub is_zero : ℤ → Bool
is_zero (pos n) = n == 0
is_zero (negsuc n) = false

-- The body of the transaction of `resetTo`.
unfoldable pub reset_body :
    ℕ → ℤ → Key → Option LedgerRef → World → Result Reason (Option LedgerTransaction) × World
reset_body wallet_id target key ref w =
    on_option (entry_at key w.ledger)
      (on_option (wallet_at wallet_id w.wallets) (err record_not_found, w)
        λ x.
          let delta = target -ℤ x.balance in
          if is_zero delta
          then (ok none, w)
          else some_entry (post wallet_id delta target adjustment key ref w))
      λ dup. (ok (some dup), w)

unfoldable pub reset_to : ℕ → ℤ → Key → Option LedgerRef → Action (Option LedgerTransaction)
reset_to wallet_id target key ref =
    if ltb_ℤ target (pos 0) then throw amount_must_not_be_negative else do
      existing ← find_entry key
      on_option existing
          (try_catch (transaction (reset_body wallet_id target key ref)) (or_existing key some))
          (λ r. ret (some r))
