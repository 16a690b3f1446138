-- ===== src/Wallet/Ledger/Sums.antt =====
-- The journal of one wallet added up, and how the wallets and the journal answer after a move.
use vault_runner_api.Prelude.{
  ℕ, ◌≡◌, ◌≢◌, ◌⊎◌, refl, none, some, List, [], ◌∷◌, ◌==◌, if◌then◌else◌, count_where, arith,
}
use vault_runner_api.Prelude.Int.{ℤ, pos, ◌+ℤ◌}
use vault_runner_api.World.{Wallet, LedgerTransaction, Key, key_eq}
use vault_runner_api.Wallet.Ledger.{wallet_at, entry_at, set_balance}

-- Σ of the signed amounts of a wallet's rows
abbrev pub sum_of : ℕ → List LedgerTransaction → ℤ
sum_of id [] = pos 0
sum_of id (r ∷ rows) = (if r.wallet_id == id then r.amount +ℤ sum_of id rows else sum_of id rows)

-- How many rows carry a key.
abbrev pub entries : Key → List LedgerTransaction → ℕ
entries k rows = count_where (λ r. key_eq k r.idempotency_key) rows

pub entries_of_none :
    (k : Key) (rows : List LedgerTransaction) → entry_at k rows ≡ none → entries k rows ≡ 0
entries_of_none k [] h = refl
entries_of_none k (r ∷ rows) h = ground (arith, entries_of_none k rows)

-- What is found after a write of a balance: the wallet written to, or one that is as it was.
pub wallet_after :
    (j id : ℕ) (v : ℤ) (ws : List Wallet) (y : Wallet)
    → wallet_at j (set_balance id v ws) ≡ some y
    → (j ≡ id) × (y.balance ≡ v) ⊎ (j ≢ id) × (wallet_at j ws ≡ some y)
wallet_after j id v [] y e = ground arith
wallet_after j id v (x ∷ ws) y e = ground (arith, wallet_after j id v ws y)

pub wallet_at-set_balance :
    (id : ℕ) (v : ℤ) (ws : List Wallet) (x : Wallet)
    → wallet_at id ws ≡ some x
    → wallet_at id (set_balance id v ws) ≡ some (record x { balance = v })
wallet_at-set_balance id v [] x e = ground arith
wallet_at-set_balance id v (y ∷ ws) x e = ground (arith, wallet_at-set_balance id v ws x)

pub wallet_at-set_other :
    (j id : ℕ) (v : ℤ) (ws : List Wallet)
    → j ≢ id
    → wallet_at j (set_balance id v ws) ≡ wallet_at j ws
wallet_at-set_other j id v [] h = refl
wallet_at-set_other j id v (y ∷ ws) h = ground (arith, wallet_at-set_other j id v ws h)

-- Two writes of which the second is the balance that was there.
pub wallet_at-set_back :
    (j id : ℕ) (v : ℤ) (ws : List Wallet) (x : Wallet)
    → wallet_at id ws ≡ some x
    → wallet_at j (set_balance id x.balance (set_balance id v ws)) ≡ wallet_at j ws
wallet_at-set_back j id v ws x e = ground (
  arith,
  wallet_at-set_balance id v ws x e,
  wallet_at-set_balance id x.balance (set_balance id v ws) (record x { balance = v }),
  wallet_at-set_other j id v ws,
  wallet_at-set_other j id x.balance (set_balance id v ws),
)
