-- ===== src/Wallet/Router.antt =====
-- wallet/wallet-router.ts: each call goes to the play-money ledger or to the operator, by the
-- wallet. The lookup of a wallet's mode is a parameter; when it throws, so does the call.
use vault_runner_api.Prelude.{ℕ, Bool, if◌then◌else◌}
use vault_runner_api.Prog.{ret, ◌>>=◌}
use vault_runner_api.World.Tables.{Action}
use vault_runner_api.Wallet.Provider.{WalletProvider}

module _ (ledger operator : WalletProvider) (is_demo_wallet : ℕ → Action Bool) where
  unfoldable pub pick : ℕ → Action WalletProvider
  pick wallet_id = do demo ← is_demo_wallet wallet_id; ret (if demo then ledger else operator)

  abbrev pub wallet_router : WalletProvider
  wallet_router = record {
    debit = λ id amount type key ref. pick id >>= λ p. p.debit id amount type key ref;
    credit = λ id amount type key ref. pick id >>= λ p. p.credit id amount type key ref;
    rollback = λ id key ref. pick id >>= λ p. p.rollback id key ref;
    reverse = λ id params. pick id >>= λ p. p.reverse id params;
    get_balance = λ id. pick id >>= λ p. p.get_balance id;
  }
