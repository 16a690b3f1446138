-- ===== src/Wallet/Ledger/Sound.antt =====
-- The ledger's invariant, and that every one of its operations keeps it action by action.
use vault_runner_api.Prelude.{
  ℕ, ◌≤◌, ◌≡◌, refl, false, Option, none, some, inl, inr, arith, Bool-cases, Option-cases,
}
use vault_runner_api.Prelude.Int.{ℤ, pos, ◌+ℤ◌, ◌-ℤ◌, ◌≤ℤ◌, ltb_ℤ, int_laws}
use vault_runner_api.Prog.{Result, ok, err, transaction}
use vault_runner_api.Prog.Keeps.{
  Keeps, keeps_rules, Keeps-read, Keeps-transaction, Keeps-ret, Keeps-throw,
}
use vault_runner_api.World.{
  adjustment, Reason, Wallet, LedgerTransaction, LedgerRef, LedgerType, Key, key_eq_iff, World,
}
use vault_runner_api.Wallet.Provider.{Direction, ReverseParams, KeepsWallet}
use vault_runner_api.Wallet.Ledger.{
  wallet_at, entry_at, create_entry, post, record_body, reset_body, is_zero, some_entry, find_entry,
  or_existing, record_entry, debit, credit, rollback, reverse, reverse_by, reset_to, get_balance,
  ledger_service,
}
use vault_runner_api.Wallet.Ledger.Sums.{sum_of, entries, wallet_after, entries_of_none}

-- From opening balances `base`: a balance is what was opened plus the journal, is never
-- negative, and no idempotency key is spent twice.
pub record IsSound (base : ℕ → ℤ) (w : World) : Type 0 where
  pub balanced :
      (id : ℕ) (x : Wallet)
      → wallet_at id w.wallets ≡ some x
      → x.balance ≡ base id +ℤ sum_of id w.ledger
  pub funded : (id : ℕ) (x : Wallet) → wallet_at id w.wallets ≡ some x → pos 0 ≤ℤ x.balance
  pub once : (k : Key) → entries k w.ledger ≤ 1

module _ (base : ℕ → ℤ) (id : ℕ) (amount after : ℤ) (type : LedgerType) (key : Key)
    (ref : Option LedgerRef) (w : World) (x : Wallet) where
  post-IsSound :
      IsSound base w
      → wallet_at id w.wallets ≡ some x
      → entry_at key w.ledger ≡ none
      → after ≡ x.balance +ℤ amount
      → pos 0 ≤ℤ after
      → IsSound base (post id amount after type key ref w).1
  unfolding post create_entry
  post-IsSound h found fresh sum fits = rw fresh (record {
    balanced = λ j y e. elim (wallet_after j id after w.wallets y e) [
      | inl (same, now) ↦ grind (int_laws, h.balanced id x found)
      | inr (other, was) ↦ grind (int_laws, h.balanced j y was)
    ];
    funded = λ j y e. ground (arith, wallet_after j id after w.wallets y e, h.funded j y);
    once = λ k. ground (arith, h.once k, key_eq_iff k key, entries_of_none key w.ledger fresh);
  })

record_body-IsSound :
    (base : ℕ → ℤ) (id : ℕ) (signed : ℤ) (type : LedgerType) (key : Key) (ref : Option LedgerRef)
    (w : World)
    → IsSound base w
    → IsSound base (record_body id signed type key ref w).1
unfolding record_body
record_body-IsSound base id signed type key ref w h = elim (Option-cases (entry_at key w.ledger)) [
  | inr (dup, e) ↦ rw e h
  | inl fresh ↦ elim (Option-cases (wallet_at id w.wallets)) [
    | inl missing ↦ rw (fresh, missing) h
    | inr (x, found) ↦ elim (Bool-cases (ltb_ℤ (x.balance +ℤ signed) (pos 0))) [
      | inl short ↦ rw (fresh, found, short) h
      | inr covered ↦
          rw (fresh, found, covered)
            (post-IsSound base id signed (x.balance +ℤ signed) type key ref w x h found fresh refl
              (ground arith))
    ]
  ]
]

some_entry-IsSound :
    (base : ℕ → ℤ) (r : Result Reason LedgerTransaction) (w : World)
    → IsSound base w
    → IsSound base (some_entry (r, w)).1
some_entry-IsSound base (ok a) w h = h
some_entry-IsSound base (err e) w h = h

reset_body-IsSound :
    (base : ℕ → ℤ) (id : ℕ) (target : ℤ) (key : Key) (ref : Option LedgerRef) (w : World)
    → pos 0 ≤ℤ target
    → IsSound base w
    → IsSound base (reset_body id target key ref w).1
unfolding reset_body
reset_body-IsSound base id target key ref w fits h = elim (Option-cases (entry_at key w.ledger)) [
  | inr (dup, e) ↦ rw e h
  | inl fresh ↦ elim (Option-cases (wallet_at id w.wallets)) [
    | inl missing ↦ rw (fresh, missing) h
    | inr (x, found) ↦ elim (Bool-cases (is_zero (target -ℤ x.balance))) [
      | inl there ↦ rw (fresh, found, there) h
      | inr away ↦
          rw (fresh, found, away)
            (some_entry-IsSound base (post id (target -ℤ x.balance) target adjustment key ref w).0 _
              (post-IsSound base id (target -ℤ x.balance) target adjustment key ref w x h found
                fresh (omega int_laws) fits))
    ]
  ]
]

-- The operations keep what the transaction bodies keep: the proofs for any invariant `P`.
module _ (P : World → Type 0)
    (body : (id : ℕ) (signed : ℤ) (type : LedgerType) (key : Key) (ref : Option LedgerRef)
        (w : World)
      → P w
      → P (record_body id signed type key ref w).1) where
  find_entry-Keeps : (k : Key) → Keeps P (find_entry k)
  unfolding find_entry
  find_entry-Keeps k = Keeps-read _

  or_existing-Keeps :
      {A : Type 0} (k : Key) (f : LedgerTransaction → A) (e : Reason) → Keeps P (or_existing k f e)
  unfolding or_existing
  or_existing-Keeps k f e = search (keeps_rules, find_entry-Keeps)

  record_transaction-Keeps :
      (id : ℕ) (signed : ℤ) (type : LedgerType) (key : Key) (ref : Option LedgerRef)
      → Keeps P (transaction (record_body id signed type key ref))
  record_transaction-Keeps id signed type key ref =
      Keeps-transaction _ (body id signed type key ref)

  record_entry-Keeps :
      (id : ℕ) (signed : ℤ) (type : LedgerType) (key : Key) (ref : Option LedgerRef)
      → Keeps P (record_entry id signed type key ref)
  unfolding record_entry
  record_entry-Keeps id signed type key ref =
      search (keeps_rules, find_entry-Keeps, or_existing-Keeps, record_transaction-Keeps)

  debit-Keeps :
      (id amount : ℕ) (type : LedgerType) (key : Key) (ref : Option LedgerRef)
      → Keeps P (debit id amount type key ref)
  unfolding debit
  debit-Keeps id amount type key ref = search (keeps_rules, record_entry-Keeps)

  credit-Keeps :
      (id amount : ℕ) (type : LedgerType) (key : Key) (ref : Option LedgerRef)
      → Keeps P (credit id amount type key ref)
  unfolding credit
  credit-Keeps id amount type key ref = search (keeps_rules, record_entry-Keeps)

  reverse_by-Keeps : (d : Direction) (id : ℕ) (p : ReverseParams) → Keeps P (reverse_by d id p)
  unfolding reverse_by
  reverse_by-Keeps Direction.debit id p = search (keeps_rules, credit-Keeps)
  reverse_by-Keeps Direction.credit id p = search (keeps_rules, debit-Keeps)

  get_balance-Keeps : (id : ℕ) → Keeps P (get_balance id)
  unfolding get_balance
  get_balance-Keeps id = search keeps_rules

  pub ledger_service-KeepsWallet : KeepsWallet P ledger_service
  unfolding reverse rollback
  ledger_service-KeepsWallet = record {
    debit_keeps = debit-Keeps;
    credit_keeps = credit-Keeps;
    rollback_keeps = λ id key ref. Keeps-ret tt;
    reverse_keeps = λ id p. reverse_by-Keeps p.original_direction id p;
    get_balance_keeps = get_balance-Keeps;
  }

  reset_tail-Keeps :
      (id : ℕ) (target : ℤ) (key : Key) (ref : Option LedgerRef)
      → Keeps P (transaction (reset_body id target key ref))
      → ltb_ℤ target (pos 0) ≡ false
      → Keeps P (reset_to id target key ref)
  unfolding reset_to
  reset_tail-Keeps id target key ref h fits =
      rw fits (search (keeps_rules, find_entry-Keeps, or_existing-Keeps))

-- Every operation of the internal ledger keeps its invariant.
pub ledger_service-IsSound : (base : ℕ → ℤ) → KeepsWallet (IsSound base) ledger_service
ledger_service-IsSound base = ledger_service-KeepsWallet (IsSound base) (record_body-IsSound base)

-- A reset of a play-money wallet keeps, action by action, that a balance is what was opened plus
-- the journal, is not negative, and no idempotency key is spent twice.
pub reset_to-IsSound :
    (base : ℕ → ℤ) (id : ℕ) (target : ℤ) (key : Key) (ref : Option LedgerRef)
    → Keeps (IsSound base) (reset_to id target key ref)
unfolding reset_to
reset_to-IsSound base id target key ref = elim (Bool-cases (ltb_ℤ target (pos 0))) [
  | inl negative ↦ rw negative (Keeps-throw _)
  | inr fits ↦
      reset_tail-Keeps (IsSound base) (record_body-IsSound base) id target key ref
        (Keeps-transaction _ (λ w. reset_body-IsSound base id target key ref w (ground arith))) fits
]
