-- ===== src/Operator/Sessions/Reached.antt =====
-- The states that launches, checks and revocations lead to, and what holds in them.
use vault_runner_api.Prelude.{ℕ, ◌<◌, Bool, true, Option, List, [], ◌≡◌}
use mathlib.Core.List.{Memᴰ}
use vault_runner_api.Prelude.Texts.{lacks}
use vault_runner_api.Prelude.Members.{All}
use vault_runner_api.Prog.{ok}
use vault_runner_api.World.{Text, to_upper}
use vault_runner_api.Operator.Launch.{
  Operator, LaunchToken, VerifiedLaunch, canonical_currency, verify_launch,
}
use vault_runner_api.Operator.Sessions.{
  JournalWallet, GameSession, SessionDb, colon, tag_of, tag_for, ensure_wallet, record_session,
  fund_demo,
}
use vault_runner_api.Operator.Sessions.Upkeep.{
  mark_reality_check_pending, ack_reality_check, revoke_for_wallet,
}
use vault_runner_api.Operator.Sessions.Tags.{IsCode}

-- Ids are UUIDs and currencies are codes, none of which has a colon.
abbrev pub IsProvisioned : Operator → Type 0
IsProvisioned op = (lacks colon op.id ≡ true) × All (λ c. IsCode (to_upper c)) op.currencies

-- A launch whose token was good at some time, whatever jtis were used then.
abbrev pub WasVerified : List Operator → VerifiedLaunch → Type 0
WasVerified operators v =
    (used : Text → Bool) × (token : LaunchToken) × (verify_launch operators used token ≡ ok v)

module _ (operators : List Operator) where
  -- Each atomic action of the service, in any order; launches may overlap.
  pub data Reached : SessionDb → Type 0 where
    starts :
        (now : ℕ)
        → Reached (record {
          operators = operators;
          wallets = [];
          sessions = [];
          events = [];
          next_id = 0;
          now = now;
        })
    ensures :
        (v : VerifiedLaunch) (db : SessionDb)
        → WasVerified operators v
        → Reached db
        → Reached (ensure_wallet (canonical_currency v.currency) (tag_for v) db).1
    records :
        (v : VerifiedLaunch) (w : JournalWallet) (db : SessionDb)
        → WasVerified operators v
        → Memᴰ w db.wallets
        → w.username ≡ tag_for v
        → Reached db
        → Reached (record_session v w db).1
    funds : (s : GameSession) (db : SessionDb) → Reached db → Reached (fund_demo s db)
    marks :
        (id : ℕ) (due : Option ℕ) (db : SessionDb)
        → Reached db
        → Reached (mark_reality_check_pending id due db)
    acks :
        (id : ℕ) (due : Option ℕ) (db : SessionDb)
        → Reached db
        → Reached (ack_reality_check id due db)
    revokes : (id : ℕ) (db : SessionDb) → Reached db → Reached (revoke_for_wallet id db).1
    waits : (now : ℕ) (db : SessionDb) → Reached db → Reached (record db { now = now })

-- A session's wallet has the tag of the session.
abbrev pub IsBound : List JournalWallet → GameSession → Type 0
IsBound wallets s =
    (w : JournalWallet) × Memᴰ w wallets
    × (s.wallet_id ≡ w.id)
    × (w.username ≡ tag_of s.operator_id s.player_id s.currency s.demo)
    × (lacks colon s.operator_id ≡ true)
    × IsCode s.currency

abbrev pub IdsDiffer : List JournalWallet → Type 0
IdsDiffer ws = (w w' : JournalWallet) → Memᴰ w ws → Memᴰ w' ws → w.id ≡ w'.id → w ≡ w'

abbrev pub AreFresh : SessionDb → Type 0
AreFresh db = (w : JournalWallet) → Memᴰ w db.wallets → w.id < db.next_id

abbrev pub IsConsistent : SessionDb → Type 0
IsConsistent db = IdsDiffer db.wallets × AreFresh db × All (IsBound db.wallets) db.sessions
