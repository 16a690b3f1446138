-- ===== src/Calls/Safety.antt =====
-- What holds of the bets and of the journal at every moment of every interleaving.
use vault_runner_api.Prelude.{ℕ, ◌≡◌, refl, Option, List, arith}
use vault_runner_api.Prelude.Int.{ℤ}
use vault_runner_api.World.{World, Wallet, Key, LedgerType, LedgerRef}
use vault_runner_api.World.Tables.{Action}
use vault_runner_api.Prog.Keeps.{Keeps}
use vault_runner_api.World.Keeps.{Withstands}
use vault_runner_api.Risk.{RiskLimits}
use vault_runner_api.Wallet.Provider.{KeepsWallet}
use vault_runner_api.Wallet.Ledger.{ledger_service, record_body, post, create_entry}
use vault_runner_api.Wallet.Ledger.Sound.{
  IsSound, ledger_service-IsSound, ledger_service-KeepsWallet,
}
use vault_runner_api.Bets.Place.{PlaceRequest, RgSession, reserve_body, create_bet}
use vault_runner_api.Bets.Exposure.{IsCapped, IsCapped-Withstands, reserve_body-IsCapped}
use vault_runner_api.Calls.{Call, concurrently, concurrently-Keeps}

pub record_body-bets :
    (id : ℕ) (signed : ℤ) (type : LedgerType) (key : Key) (ref : Option LedgerRef) (w : World)
    → (record_body id signed type key ref w).1.bets ≡ w.bets
unfolding record_body post create_entry
record_body-bets id signed type key ref w = ground arith

reserve_body-money :
    (limits : RiskLimits) (req : PlaceRequest) (s : Option RgSession) (round id : ℕ) (x : Wallet)
    (w : World)
    → ((reserve_body limits req s round id x w).1.wallets ≡ w.wallets)
      × ((reserve_body limits req s round id x w).1.ledger ≡ w.ledger)
unfolding reserve_body create_bet
reserve_body-money limits req s round id x w = ground arith

IsSound-same :
    (base : ℕ → ℤ) (w v : World)
    → v.wallets ≡ w.wallets
    → v.ledger ≡ w.ledger
    → IsSound base w
    → IsSound base v
IsSound-same base w v e f h = record {
  balanced = λ id x. rw (e, f) (h.balanced id x);
  funded = λ id x. rw e (h.funded id x);
  once = λ k. rw f (h.once k);
}

IsSound-Withstands : (base : ℕ → ℤ) → Withstands (IsSound base)
IsSound-Withstands base = record {
  updates = λ p f w r h. IsSound-same base w _ refl refl h;
  deletes = λ p w h. IsSound-same base w _ refl refl h;
  rounds = λ rs w h. IsSound-same base w _ refl refl h;
  profiles = λ ps w h. IsSound-same base w _ refl refl h;
  events = λ es w h. IsSound-same base w _ refl refl h;
  ids = λ n w h. IsSound-same base w _ refl refl h;
  faults = λ fs w h. IsSound-same base w _ refl refl h;
}

-- Revealing a seed writes to the tables of the seed chain alone.
abbrev pub Reveals : (World → Type 0) → (ℕ → Action (Unit {0})) → Type 0
Reveals P reveal_seed = (seed : ℕ) → Keeps P (reveal_seed seed)

module _ (limits : RiskLimits) (reveal_seed : ℕ → Action (Unit {0})) where
  ledger_service-IsCapped : KeepsWallet (IsCapped limits) ledger_service
  ledger_service-IsCapped =
      ledger_service-KeepsWallet (IsCapped limits) λ id signed type key ref w h. record {
        capped = λ round ccy. rw (record_body-bets id signed type key ref w) (h.capped round ccy);
      }

  -- Whatever calls run on the internal ledger and however their actions interleave, from a state
  -- where the worst case of every round, in every currency, is within the cap on round exposure,
  -- it stays within it. Revealing a seed must keep it too.
  pub concurrently-IsCapped :
      (sched : List ℕ) (calls : List Call) (w : World)
      → Reveals (IsCapped limits) reveal_seed
      → IsCapped limits w
      → IsCapped limits (concurrently limits ledger_service reveal_seed sched calls w)
  concurrently-IsCapped sched calls w reveals =
      concurrently-Keeps limits ledger_service reveal_seed (IsCapped limits)
        (IsCapped-Withstands limits) ledger_service-IsCapped (reserve_body-IsCapped limits) reveals
        sched calls w

  -- Whatever calls run on the internal ledger and however their actions interleave, from a state
  -- where it is so, every balance remains its opening balance plus its journal, no balance
  -- becomes negative, and no idempotency key is spent twice. Revealing a seed must keep it too.
  pub concurrently-IsSound :
      (base : ℕ → ℤ) (sched : List ℕ) (calls : List Call) (w : World)
      → Reveals (IsSound base) reveal_seed
      → IsSound base w
      → IsSound base (concurrently limits ledger_service reveal_seed sched calls w)
  concurrently-IsSound base sched calls w reveals =
      concurrently-Keeps limits ledger_service reveal_seed (IsSound base) (IsSound-Withstands base)
        (ledger_service-IsSound base)
        (λ req s round id x w h.
          let (e, f) = reserve_body-money limits req s round id x w in
          IsSound-same base w (reserve_body limits req s round id x w).1 e f h)
        reveals sched calls w
