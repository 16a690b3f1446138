-- ===== src/Operator/Sessions/Upkeep.antt =====
-- operator/game-session.service.ts: the liveness, the reality checks and the revocation of sessions,
-- and the mode and the operator of a wallet.
use vault_runner_api.Prelude.{
  ℕ, ◌+◌, Bool, true, false, not, ◌&&◌, ◌||◌, Option, none, some, List, [], ◌∷◌, ◌++◌, map, find,
  select, update_where, count_where, length, ltb, ◌==◌, is_some, if◌then◌else◌,
}
use mathlib.Core.Option as Option
use vault_runner_api.Prelude.Texts.{codes, is_nil}
use vault_runner_api.Prelude.Members.{first_by}
use vault_runner_api.Prog.{on_option}
use vault_runner_api.World.{Text, text_eq, to_upper}
use vault_runner_api.Operator.Sessions.{
  JournalWallet, GameSession, session_revoke, SessionDb, colon, base_of, demo_suffix,
}

abbrev pub is_live_row : GameSession → Bool
is_live_row s = not (is_some s.revoked_at)

abbrev pub is_live_session : ℕ → GameSession → Bool
is_live_session id s = s.id == id && is_live_row s

-- `isLive`
unfoldable pub is_live : ℕ → SessionDb → Bool
is_live id db = ltb 0 (count_where (is_live_session id) db.sessions)

-- `findNotLive`; the set that it answers is a list here.
unfoldable pub find_not_live : List ℕ → SessionDb → List ℕ
find_not_live ids db = select (λ id. not (is_live id db)) ids

abbrev update_live : ℕ → (GameSession → GameSession) → SessionDb → SessionDb
update_live id f db = record db { sessions = update_where (is_live_session id) f db.sessions }

abbrev due_or : Option ℕ → Option ℕ → Option ℕ
due_or next old = on_option next old some

abbrev pub to_pending : ℕ → Option ℕ → GameSession → GameSession
to_pending now next_due s = record s {
  rc_pending_at = some now;
  rc_due_at = due_or next_due s.rc_due_at;
}

abbrev pub to_acked : ℕ → Option ℕ → GameSession → GameSession
to_acked now next_due s = record s {
  rc_pending_at = none;
  rc_last_ack_at = some now;
  rc_due_at = due_or next_due s.rc_due_at;
}

-- `markRealityCheckPending`
unfoldable pub mark_reality_check_pending : ℕ → Option ℕ → SessionDb → SessionDb
mark_reality_check_pending id next_due db = update_live id (to_pending db.now next_due) db

-- `ackRealityCheck`
unfoldable pub ack_reality_check : ℕ → Option ℕ → SessionDb → SessionDb
ack_reality_check id next_due db = update_live id (to_acked db.now next_due) db

-- `loadRealityCheckState`
unfoldable pub load_reality_check_state : ℕ → SessionDb → Bool × Option ℕ
load_reality_check_state id db =
    on_option (find (λ s. s.id == id) db.sessions) (false, none)
      λ s. (is_some s.rc_pending_at, s.rc_due_at)

abbrev pub is_live_in : ℕ → GameSession → Bool
is_live_in wallet_id s = s.wallet_id == wallet_id && is_live_row s

-- `revokeForWallet`
unfoldable pub revoke_for_wallet : ℕ → SessionDb → ℕ × SessionDb
revoke_for_wallet wallet_id db =
    let targets = map (λ s. s.id) (select (is_live_in wallet_id) db.sessions) in
    let count = count_where (is_live_in wallet_id) db.sessions in
    let db' = record db {
      sessions =
          update_where (is_live_in wallet_id) (λ s. record s { revoked_at = some db.now })
            db.sessions;
    } in
    if ltb 0 count
    then (count, record db' { events = session_revoke wallet_id count targets ∷ db.events })
    else (count, db')

-- What is left of a text after a prefix, if it has it.
abbrev pub after : Text → Text → Option Text
after [] s = some s
after (c ∷ p) [] = none
after (c ∷ p) (d ∷ s) = if c == d then after p s else none

-- `/^[^:]+(:demo)?$/`, and what it lets follow the first character.
abbrev pub is_suffix_rest : Text → Bool
is_suffix_rest [] = true
is_suffix_rest (c ∷ s) = if c == colon then text_eq s (codes "demo") else is_suffix_rest s

abbrev pub is_suffix : Text → Bool
is_suffix [] = false
is_suffix (c ∷ s) = if c == colon then false else is_suffix_rest s

-- The query of `revokeForOperatorPlayer`, and its filter.
abbrev pub is_candidate : Text → Option Text → JournalWallet → Bool
is_candidate base none w = is_some (after base w.username)
is_candidate base (some currency) w =
    text_eq w.username (base ++ to_upper currency)
    || text_eq w.username (base ++ (to_upper currency ++ demo_suffix))

abbrev pub is_revoked_wallet : Text → Option Text → JournalWallet → Bool
is_revoked_wallet base currency w =
    is_candidate base currency w && on_option (after base w.username) false is_suffix

unfoldable pub revoke_wallets : List JournalWallet → SessionDb → ℕ × SessionDb
revoke_wallets [] db = (0, db)
revoke_wallets (w ∷ ws) db =
    let (n, db') = revoke_for_wallet w.id db in
    let (m, db'') = revoke_wallets ws db' in (n + m, db'')

-- An empty currency counts as none.
abbrev pub given_currency : Option Text → Option Text
given_currency (some (c ∷ cs)) = some (c ∷ cs)
given_currency s = none

-- `revokeForOperatorPlayer`: the sessions revoked, and the wallets.
unfoldable pub revoke_for_operator_player :
    Text → Text → Option Text → SessionDb → (ℕ × ℕ) × SessionDb
revoke_for_operator_player operator player currency db =
    let wallets =
      select (is_revoked_wallet (base_of operator player) (given_currency currency)) db.wallets in
    let (revoked, db') = revoke_wallets wallets db in ((revoked, length wallets), db')

abbrev pub starts_as_operator : Text → Bool
starts_as_operator name = is_some (after (codes "op:") name)

-- `name.endsWith(":demo")`
abbrev pub ends_with : Text → Text → Bool
ends_with e [] = is_nil e
ends_with e (c ∷ s) = let rest = ends_with e s in text_eq e (c ∷ s) || rest

abbrev pub is_real_name : Text → Bool
is_real_name name = starts_as_operator name && not (ends_with demo_suffix name)

-- `isDemoWallet`
unfoldable pub is_demo_wallet : ℕ → SessionDb → Bool
is_demo_wallet wallet_id db =
    on_option (find (λ s. s.wallet_id == wallet_id) db.sessions)
      (not
        (on_option (find (λ w. w.id == wallet_id) db.wallets) false (λ w. is_real_name w.username)))
      (λ s. s.demo)

abbrev pub is_newer : GameSession → GameSession → Bool
is_newer t s = ltb s.created_at t.created_at

-- `resolver`; the latest session of the wallet answers.
unfoldable pub resolve_session : ℕ → SessionDb → Option (Text × Text × Text)
resolve_session wallet_id db =
    Option.map (λ s. (s.operator_id, s.player_id, s.currency))
      (first_by (λ s. s.wallet_id == wallet_id) is_newer db.sessions)
