-- ===== src/Wallet/Ledger/Reverse.antt =====
-- `reverse` undoes a debit of the internal ledger.
use vault_runner_api.Prelude.{
  ℕ, ap, ◌+◌, ◌≡◌, refl, ◌∙◌, false, Option, none, some, ◌∷◌, ◌==◌, inl, inr, arith, Option-cases,
}
use vault_runner_api.Prelude.Int.{ℤ, pos, ◌+ℤ◌, ◌-ℤ◌, ◌≤ℤ◌, ltb_ℤ, int_laws}
use vault_runner_api.Prog.{ok, run, ret}
use vault_runner_api.Prog.Run.{and_then, run-bind}
use vault_runner_api.World.{Wallet, LedgerRef, LedgerType, Key, World}
use vault_runner_api.World.Tables.{Action}
use vault_runner_api.Wallet.Provider.{WalletTxResult, Direction, ReverseParams}
use vault_runner_api.Wallet.Ledger.{
  wallet_at, entry_at, set_balance, record_body, post, create_entry, record_entry, debit, credit,
  tx_result, reverse_by, reverse,
}
use vault_runner_api.Wallet.Ledger.Sums.{wallet_at-set_balance, wallet_at-set_back}
use vault_runner_api.Wallet.Ledger.Idempotent.{record_entry_lem}

module _ (id amount : ℕ) (type : LedgerType) (key : Key) (ref : Option LedgerRef) (w : World)
    (positive : (amount == 0) ≡ false) where
  run-debit :
      run (debit id amount type key ref) w
      ≡ and_then (record_body id (pos 0 -ℤ pos amount) type key ref w) (λ r. ret (tx_result r))
  unfolding debit
  run-debit = rw positive (
      run-bind (record_entry id (pos 0 -ℤ pos amount) type key ref) _ w
      ∙ ap (λ m. and_then m (λ r. ret (tx_result r)))
          (record_entry_lem id (pos 0 -ℤ pos amount) type key ref w))

  run-credit :
      run (credit id amount type key ref) w
      ≡ and_then (record_body id (pos amount) type key ref w) (λ r. ret (tx_result r))
  unfolding credit
  run-credit = rw positive (
      run-bind (record_entry id (pos amount) type key ref) _ w
      ∙ ap (λ m. and_then m (λ r. ret (tx_result r)))
          (record_entry_lem id (pos amount) type key ref w))

  -- A debit that succeeded under a new key.
  positive_debit_lem :
      (v : World) (r : WalletTxResult)
      → entry_at key w.ledger ≡ none
      → run (debit id amount type key ref) w ≡ (ok r, v)
      → (x : Wallet) × (wallet_at id w.wallets ≡ some x)
        × (pos 0 ≤ℤ x.balance +ℤ (pos 0 -ℤ pos amount))
        × (v.wallets ≡ set_balance id (x.balance +ℤ (pos 0 -ℤ pos amount)) w.wallets)
  unfolding record_body post create_entry run
  positive_debit_lem v r fresh h = elim (Option-cases (wallet_at id w.wallets)) [
    | inl missing ↦ ground (arith, run-debit)
    | inr (x, found) ↦ (x, found, ground (arith, run-debit), ground (arith, run-debit))
  ]

  positive_credit_lem :
      (x : Wallet)
      → wallet_at id w.wallets ≡ some x
      → entry_at key w.ledger ≡ none
      → pos 0 ≤ℤ x.balance +ℤ pos amount
      → (r : WalletTxResult) × (u : World) × (run (credit id amount type key ref) w ≡ (ok r, u))
        × (u.wallets ≡ set_balance id (x.balance +ℤ pos amount) w.wallets)
  unfolding record_body post create_entry run
  positive_credit_lem x found fresh fits = (
    record { id = w.next_id; balance_after = x.balance +ℤ pos amount },
    credited,
    run-credit ∙ rw (fresh, found, short) refl,
    refl,
  )
    where
      credited : World
      credited = record w {
        wallets = set_balance id (x.balance +ℤ pos amount) w.wallets;
        ledger =
            record {
              id = w.next_id;
              wallet_id = id;
              type = type;
              amount = pos amount;
              balance_after = x.balance +ℤ pos amount;
              ref = ref;
              idempotency_key = key;
            }
            ∷ w.ledger;
        next_id = w.next_id + 1;
      }

      short : ltb_ℤ (x.balance +ℤ pos amount) (pos 0) ≡ false
      short = ground arith

debit-positive :
    (id amount : ℕ) (type : LedgerType) (key : Key) (ref : Option LedgerRef) (w v : World)
    (r : WalletTxResult)
    → run (debit id amount type key ref) w ≡ (ok r, v)
    → (amount == 0) ≡ false
unfolding debit run
debit-positive id amount type key ref w v r h = ground arith

back_again : (b : ℤ) (n : ℕ) → (b +ℤ (pos 0 -ℤ pos n)) +ℤ pos n ≡ b
back_again b n = omega int_laws

funded_again :
    (b : ℤ) (n : ℕ) → pos 0 ≤ℤ b +ℤ (pos 0 -ℤ pos n) → pos 0 ≤ℤ (b +ℤ (pos 0 -ℤ pos n)) +ℤ pos n
funded_again b n h = omega int_laws

ended :
    {A : Type 0} (m : Action A) (v u : World) (a : A)
    → run m v ≡ (ok a, u)
    → and_then (run m v) (λ _. ret tt) ≡ (ok tt, u)
unfolding run
ended m v u a h = rw h refl

refund_lem :
    (id amount : ℕ) (p : ReverseParams) (v u : World) (r : WalletTxResult)
    → p.original_direction ≡ Direction.debit
    → p.amount ≡ amount
    → run (credit id amount p.type p.reverse_key p.ref) v ≡ (ok r, u)
    → run (reverse id p) v ≡ (ok tt, u)
unfolding reverse reverse_by
refund_lem id amount p v u r d a h =
    rw (d, a)
      (run-bind (credit id amount p.type p.reverse_key p.ref) (λ _. ret tt) v
        ∙ ended (credit id amount p.type p.reverse_key p.ref) v u r h)

-- After a debit under a new key, reversing it under another new key always succeeds, and gives
-- every wallet the balance that it had before the debit.
pub reverse-debit :
    (id amount : ℕ) (type : LedgerType) (key : Key) (ref : Option LedgerRef) (p : ReverseParams)
    (w v : World) (r : WalletTxResult)
    → entry_at key w.ledger ≡ none
    → run (debit id amount type key ref) w ≡ (ok r, v)
    → p.original_direction ≡ Direction.debit
    → p.amount ≡ amount
    → entry_at p.reverse_key v.ledger ≡ none
    → (u : World) × (run (reverse id p) v ≡ (ok tt, u))
      × ((j : ℕ) → wallet_at j u.wallets ≡ wallet_at j w.wallets)
reverse-debit id amount type key ref p w v r fresh h d a fresh' =
    let positive = debit-positive id amount type key ref w v r h in
    let (x, found, funded, now) =
      positive_debit_lem id amount type key ref w positive v r fresh h in
    let there = wallet_at-set_balance id (x.balance +ℤ (pos 0 -ℤ pos amount)) w.wallets x found in
    let (r', u, done, back) =
      positive_credit_lem id amount p.type p.reverse_key p.ref v positive
        (record x { balance = x.balance +ℤ (pos 0 -ℤ pos amount) }) (rw now there) fresh'
        (funded_again x.balance amount funded) in
    (
      u,
      refund_lem id amount p v u r' d a done,
      λ j.
          rw (back, now, back_again x.balance amount) (wallet_at-set_back j id _ w.wallets x found),
    )
