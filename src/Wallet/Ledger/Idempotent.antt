-- ===== src/Wallet/Ledger/Idempotent.antt =====
-- `record` alone on the database: it is its transaction, and a retry under a key moves nothing.
use vault_runner_api.Prelude.{
  ℕ, ◌≡◌, ◌≢◌, refl, sym, ◌∙◌, Option, none, some, ◌∷◌, inl, inr, arith, Bool-cases, Option-cases,
}
use vault_runner_api.Prelude.Int.{ℤ, pos, ◌+ℤ◌, ◌≤ℤ◌, ltb_ℤ}
use vault_runner_api.Prog.{Result, ok, err, run, read, atom, transaction, try_catch, ◌>>=◌}
use vault_runner_api.World.{
  Reason, Wallet, LedgerTransaction, LedgerRef, LedgerType, Key, key_eq_refl, World,
}
use vault_runner_api.Wallet.Ledger.Sums.{wallet_at-set_balance, wallet_at-set_other}
use vault_runner_api.Wallet.Ledger.{
  wallet_at, entry_at, find_entry, create_entry, post, record_body, or_existing, record_entry,
}

module _ (id : ℕ) (signed : ℤ) (type : LedgerType) (key : Key) (ref : Option LedgerRef)
    (w : World) where
  -- Without another transaction in between, the backstop of `record` is never needed.
  pub record_entry_lem :
      run (record_entry id signed type key ref) w ≡ record_body id signed type key ref w
  unfolding run record_entry find_entry read try_catch transaction atom or_existing record_body post
      create_entry ◌>>=◌
  record_entry_lem = ground arith

  entry_at_recorded :
      (r : LedgerTransaction) (v : World)
      → record_body id signed type key ref w ≡ (ok r, v)
      → entry_at key v.ledger ≡ some r
  unfolding record_body post create_entry
  entry_at_recorded r v h = ground (arith, key_eq_refl key)

-- A retry under a key that was recorded, of whatever wallet, sum, type and reference, answers
-- the row of the first time and changes nothing.
pub record_entry-again :
    (id id' : ℕ) (signed signed' : ℤ) (type type' : LedgerType) (key : Key)
    (ref ref' : Option LedgerRef) (w v : World) (r : LedgerTransaction)
    → run (record_entry id signed type key ref) w ≡ (ok r, v)
    → run (record_entry id' signed' type' key ref') v ≡ (ok r, v)
unfolding record_body
record_entry-again id id' signed signed' type type' key ref ref' w v r h =
    rw
      (
        record_entry_lem id' signed' type' key ref' v,
        entry_at_recorded id signed type key ref w r v
            (sym (record_entry_lem id signed type key ref w) ∙ h),
      )
      refl

-- What a move under a key may have done: it was recorded before; it was refused; or it is the
-- balance's change by the signed sum, with one row that says so, and nothing else.
pub data Recorded (id : ℕ) (signed : ℤ) (key : Key) (w : World)
    : Result Reason LedgerTransaction × World → Type 0 where
  repeated :
      (r : LedgerTransaction) → entry_at key w.ledger ≡ some r → Recorded id signed key w (ok r, w)
  refused : (e : Reason) → entry_at key w.ledger ≡ none → Recorded id signed key w (err e, w)
  moved :
      (x : Wallet) (r : LedgerTransaction) (v : World)
      → entry_at key w.ledger ≡ none
      → wallet_at id w.wallets ≡ some x
      → pos 0 ≤ℤ r.balance_after
      → r.balance_after ≡ x.balance +ℤ signed
      → r.amount ≡ signed
      → v.ledger ≡ r ∷ w.ledger
      → wallet_at id v.wallets ≡ some (record x { balance = r.balance_after })
      → ((j : ℕ) → j ≢ id → wallet_at j v.wallets ≡ wallet_at j w.wallets)
      → v.bets ≡ w.bets
      → Recorded id signed key w (ok r, v)

-- In every state, `record`, run alone, answers the row of the key and changes nothing, or
-- refuses and changes nothing, or adds one row for the signed sum to the journal, with the
-- balance of the one wallet changed by it, not negative, and every other balance and every bet
-- as it was.
pub record_entry-Recorded :
    (id : ℕ) (signed : ℤ) (type : LedgerType) (key : Key) (ref : Option LedgerRef) (w : World)
    → Recorded id signed key w (run (record_entry id signed type key ref) w)
unfolding record_body post create_entry
record_entry-Recorded id signed type key ref w =
    rw (record_entry_lem id signed type key ref w) (elim (Option-cases (entry_at key w.ledger)) [
      | inr (dup, e) ↦ rw e (repeated dup e)
      | inl fresh ↦ elim (Option-cases (wallet_at id w.wallets)) [
        | inl missing ↦ rw (fresh, missing) (refused _ fresh)
        | inr (x, found) ↦ elim (Bool-cases (ltb_ℤ (x.balance +ℤ signed) (pos 0))) [
          | inl short ↦ rw (fresh, found, short) (refused _ fresh)
          | inr covered ↦
              rw (fresh, found, covered)
                (moved x _ _ fresh found (ground arith) refl refl refl
                  (wallet_at-set_balance id _ w.wallets x found)
                  (λ j. wallet_at-set_other j id _ w.wallets) refl)
        ]
      ]
    ])
