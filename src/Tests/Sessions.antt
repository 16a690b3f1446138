-- ===== src/Tests/Sessions.antt =====
-- Launches of two players with one operator, and what revocations reach.
use vault_runner_api.Prelude.{
  count_where, ◌≤◌, true, false, ◌&&◌, none, some, List, [], ◌∷◌, update_where, ◌≡◌, refl,
}
use mathlib.Core.List.{Memᴰ}
use vault_runner_api.Prelude.Members.{All}
use vault_runner_api.Prelude.Texts.{codes}
use vault_runner_api.World.{Text, text_eq}
use vault_runner_api.Operator.Launch.{
  Operator, LaunchToken, VerifiedLaunch, verify_launch, verify_payload,
}
use vault_runner_api.Operator.Sessions.{
  JournalWallet, GameSession, SessionDb, tag_for, new_wallet, new_session, has_jti, ensure_wallet,
  record_session,
}
use vault_runner_api.Operator.Sessions.Upkeep.{
  is_live_row, is_demo_wallet, resolve_session, revoke_for_wallet, revoke_wallets,
  revoke_for_operator_player,
}
use vault_runner_api.Operator.Sessions.Suffixes.{is_of_player}
use vault_runner_api.Operator.Sessions.Reached.{
  IsProvisioned, WasVerified, Reached, starts, ensures, records,
}
use vault_runner_api.Operator.Sessions.Once.{jti_opens_once}
use vault_runner_api.Operator.Sessions.Modes.{wallet_mode_fixed}
use vault_runner_api.Operator.Sessions.Revoked.{revoked_exactly}

abbrev lobby : Operator
lobby = record {
  id = codes "7";
  enabled = true;
  currencies = codes "eur" ∷ [];
  demo_enabled = true;
  bet_limits = none;
  rg_config = none;
  callback_url = none;
}

abbrev operators : List Operator
operators = lobby ∷ []

operators-IsProvisioned : All IsProvisioned operators
operators-IsProvisioned = ((refl, ((refl, refl, refl), tt)), tt)

abbrev token_of : Text → Text → LaunchToken
token_of player jti = record {
  unsafe_operator_id = some (codes "7");
  verified_by = λ op. some (record {
    currency = some (codes "EUR");
    demo = true;
    player_id = some player;
    jti = some jti;
  });
}

abbrev launch_of : Text → Text → VerifiedLaunch
launch_of player jti = record {
  operator_id = codes "7";
  player_id = player;
  currency = some (codes "EUR");
  demo = true;
  jti = jti;
}

abbrev alice : VerifiedLaunch
alice = launch_of (codes "alice") (codes "j1")

alice_verified : WasVerified operators alice
unfolding verify_launch verify_payload
alice_verified = ((λ jti. false), token_of (codes "alice") (codes "j1"), refl)

abbrev no_sessions : SessionDb
no_sessions = record {
  operators = operators;
  wallets = [];
  sessions = [];
  events = [];
  next_id = 0;
  now = 5;
}

abbrev alice_wallet : JournalWallet
alice_wallet = new_wallet (codes "EUR") (tag_for alice) no_sessions

abbrev with_wallet : SessionDb
with_wallet = record no_sessions { wallets = alice_wallet ∷ []; next_id = 2 }

abbrev alice_session : GameSession
alice_session = new_session alice alice_wallet with_wallet

abbrev with_session : SessionDb
with_session = record with_wallet { sessions = alice_session ∷ []; next_id = 3 }

with_session-Reached : Reached operators with_session
unfolding ensure_wallet record_session
with_session-Reached =
    records alice alice_wallet with_wallet alice_verified (Memᴰ.head refl) refl
      (ensures alice no_sessions alice_verified (starts 5))

jti_opens_once_example : count_where (has_jti (codes "j1")) with_session.sessions ≤ 1
jti_opens_once_example = jti_opens_once operators (codes "j1") with_session with_session-Reached

wallet_mode_fixed_example :
    (is_demo_wallet 1 with_session ≡ true)
    × (is_demo_wallet 1 (record with_session { sessions = [] }) ≡ true)
    × (resolve_session 1 with_session ≡ some (codes "7", codes "alice", codes "EUR"))
wallet_mode_fixed_example =
    wallet_mode_fixed operators with_session alice_session operators-IsProvisioned
      with_session-Reached (Memᴰ.head refl)

revoked_exactly_example :
    ((revoke_for_operator_player (codes "7") (codes "alice") none with_session).1.sessions
      ≡ update_where
          (λ s. is_of_player (codes "7") (codes "alice") s && is_live_row s)
          (λ s. record s { revoked_at = some 5 })
          with_session.sessions)
    × ((revoke_for_operator_player
          (codes "7")
          (codes "alice")
          (some (codes "eur"))
          with_session).1.sessions
        ≡ update_where
            (λ s.
              (is_of_player (codes "7") (codes "alice") s && text_eq s.currency (codes "EUR"))
              && is_live_row s)
            (λ s. record s { revoked_at = some 5 })
            with_session.sessions)
revoked_exactly_example =
    revoked_exactly (codes "7") (codes "alice") refl operators with_session (codes "eur")
      operators-IsProvisioned with_session-Reached refl (refl, refl, refl)

-- The revocation of a player whose id is another's followed by a currency reaches the demo session
-- of that other player.
revoked_sibling :
    (revoke_for_operator_player (codes "7") (codes "alice:EUR") none with_session).0 ≡ (1, 1)
unfolding revoke_for_operator_player revoke_wallets revoke_for_wallet
revoked_sibling = refl
