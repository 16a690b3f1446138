-- ===== src/Operator/Sessions.antt =====
-- operator/game-session.service.ts: sessions and the wallets that they are bound to. A wallet of
-- this service is the journal of one player and currency, real or demo, named by its user's tag. An
-- id of an operator, a player and a currency is a text.
pub mod Upkeep
pub mod Tags
pub mod Reached
mod Consistent
pub mod Modes
pub mod Suffixes
pub mod Revoked
pub mod Once
mod Opening
use vault_runner_api.Prelude.{
  ℕ, ◌+◌, Bool, true, false, not, ◌&&◌, ◌||◌, Option, none, some, List, [], ◌∷◌, ◌++◌, map, find,
  select, update_where, count_where, length, ltb, ◌==◌, is_some, if◌then◌else◌,
}
use mathlib.Core.Option as Option
use vault_runner_api.Prelude.Texts.{codes, is_nil, lacks, split_on}
use vault_runner_api.Prelude.Members.{first_by}
use vault_runner_api.Prog.{Result, ok, err, on_option}
use vault_runner_api.World.{Text, text_eq, to_upper}
use vault_runner_api.Operator.Limits.{
  SerializedBetLimits, effective_limits_for, serialize_bet_limits,
}
use vault_runner_api.Operator.Rg.{SerializedRg, effective_rg_for, serialize_rg}
use vault_runner_api.Operator.Launch.{
  Operator, LaunchError, launch_token_already_used, LaunchToken, VerifiedLaunch, canonical_currency,
  verify_launch,
}

-- A wallet with the name of its user.
pub record JournalWallet : Type 0 where
  pub id : ℕ
  pub user_id : ℕ
  pub username : Text
  pub currency : Text

-- `model GameSession`
pub record GameSession : Type 0 where
  pub id : ℕ
  pub operator_id : Text
  pub player_id : Text
  pub currency : Text
  pub wallet_id : ℕ
  pub demo : Bool
  pub launch_jti : Text
  pub created_at : ℕ
  pub revoked_at : Option ℕ
  pub rc_due_at : Option ℕ
  pub rc_pending_at : Option ℕ
  pub rc_last_ack_at : Option ℕ

-- What the other services are told: the audit log, and the ledger's reset of a demo wallet with the
-- session that is its idempotency key.
pub data SessionEvent : Type 0 where
  session_revoke : ℕ → ℕ → List ℕ → SessionEvent
  demo_reset : ℕ → ℕ → SessionEvent

pub record SessionDb : Type 0 where
  pub operators : List Operator
  pub wallets : List JournalWallet
  pub sessions : List GameSession
  pub events : List SessionEvent
  pub next_id : ℕ
  pub now : ℕ

abbrev pub colon : ℕ
colon = 58

-- `op:{operatorId}:{playerId}:`
abbrev pub base_of : Text → Text → Text
base_of operator player = codes "op:" ++ (operator ++ colon ∷ (player ++ colon ∷ []))

abbrev pub demo_suffix : Text
demo_suffix = codes ":demo"

abbrev pub tag_of : Text → Text → Text → Bool → Text
tag_of operator player currency demo =
    base_of operator player ++ (currency ++ (if demo then demo_suffix else []))

abbrev pub is_journal : Text → Text → JournalWallet → Bool
is_journal currency tag w = text_eq w.currency currency && text_eq w.username tag

abbrev pub new_wallet : Text → Text → SessionDb → JournalWallet
new_wallet currency tag db = record {
  id = db.next_id + 1;
  user_id = db.next_id;
  username = tag;
  currency = currency;
}

-- `findFirst`, else `create`; a user of that name is found again where the creation collides.
unfoldable pub ensure_wallet : Text → Text → SessionDb → Option JournalWallet × SessionDb
ensure_wallet currency tag db =
    let found = find (is_journal currency tag) db.wallets in
    let w = new_wallet currency tag db in
    if is_some found || is_some (find (λ w. text_eq w.username tag) db.wallets)
    then (found, db)
    else (some w, record db { wallets = w ∷ db.wallets; next_id = db.next_id + 2 })

abbrev pub has_jti : Text → GameSession → Bool
has_jti jti s = text_eq s.launch_jti jti

abbrev pub is_used : SessionDb → Text → Bool
is_used db jti = is_some (find (has_jti jti) db.sessions)

abbrev pub new_session : VerifiedLaunch → JournalWallet → SessionDb → GameSession
new_session v w db = record {
  id = db.next_id;
  operator_id = v.operator_id;
  player_id = v.player_id;
  currency = canonical_currency v.currency;
  wallet_id = w.id;
  demo = v.demo;
  launch_jti = v.jti;
  created_at = db.now;
  revoked_at = none;
  rc_due_at = none;
  rc_pending_at = none;
  rc_last_ack_at = none;
}

-- `gameSession.create`, where a jti that is there is refused.
unfoldable pub record_session :
    VerifiedLaunch → JournalWallet → SessionDb → Result LaunchError GameSession × SessionDb
record_session v w db =
    let s = new_session v w db in
    if is_used db v.jti
    then (err launch_token_already_used, db)
    else (ok s, record db { sessions = s ∷ db.sessions; next_id = db.next_id + 1 })

unfoldable pub fund_demo : GameSession → SessionDb → SessionDb
fund_demo s db =
    if s.demo then record db { events = demo_reset s.wallet_id s.id ∷ db.events } else db

-- The play token's claims.
pub record PlayClaims : Type 0 where
  pub sub : ℕ
  pub wallet_id : ℕ
  pub currency : Text
  pub operator_id : Text
  pub player_id : Text
  pub session_id : ℕ
  pub session_started_at : ℕ
  pub limits : Option SerializedBetLimits
  pub demo : Bool
  pub rg : Option SerializedRg

pub record Opened : Type 0 where
  pub token : PlayClaims
  pub callback_url : Option Text

unfoldable pub claims_of : Option Operator → JournalWallet → GameSession → PlayClaims
claims_of op w s = record {
  sub = w.user_id;
  wallet_id = w.id;
  currency = s.currency;
  operator_id = s.operator_id;
  player_id = s.player_id;
  session_id = s.id;
  session_started_at = s.created_at;
  limits =
      Option.map serialize_bet_limits
        (on_option op none (λ o. effective_limits_for o.bet_limits s.currency));
  demo = s.demo;
  rg =
      if s.demo
      then none
      else Option.map serialize_rg
          (on_option op none (λ o. effective_rg_for o.rg_config s.currency));
}

abbrev pub finish_open :
    Option Operator
    → JournalWallet
    → Result LaunchError GameSession × SessionDb
    → Result LaunchError Opened × SessionDb
finish_open op w (err e, db) = (err e, db)
finish_open op w (ok s, db) = (
  ok (record { token = claims_of op w s; callback_url = on_option op none (λ o. o.callback_url) }),
  fund_demo s db,
)

abbrev pub tag_for : VerifiedLaunch → Text
tag_for v = tag_of v.operator_id v.player_id (canonical_currency v.currency) v.demo

abbrev pub open_verified :
    Result LaunchError VerifiedLaunch → SessionDb → Option (Result LaunchError Opened) × SessionDb
open_verified (err e) db = (some (err e), db)
open_verified (ok v) db =
    let op = find (λ op. text_eq op.id v.operator_id) db.operators in
    let (wallet, db') = ensure_wallet (canonical_currency v.currency) (tag_for v) db in
    on_option wallet (none, db')
      λ w. let (answer, db'') = finish_open op w (record_session v w db') in (some answer, db'')

-- `openFromToken`; `none` is the error of a user who is there without the wallet.
unfoldable pub open_from_token :
    LaunchToken → SessionDb → Option (Result LaunchError Opened) × SessionDb
open_from_token token db = open_verified (verify_launch db.operators (is_used db) token) db
