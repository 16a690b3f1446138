-- ===== src/Operator/Launch.antt =====
-- operator/launch-token.service.ts: the check of a launch token. What the token decodes to, and what
-- the check of its signature and expiry with an operator's secret answers, is data of the token; a
-- locale and a context are left out.
use vault_runner_api.Prelude.{
  ℕ, Bool, true, false, not, ◌&&◌, ◌||◌, Option, none, some, List, [], ◌∷◌, find, length, ltb,
  if◌then◌else◌,
}
use vault_runner_api.Prog.{Result, ok, err, on_option}
use vault_runner_api.World.{Text, text_eq, to_upper}
use vault_runner_api.Risk.{PerBetLimits}
use vault_runner_api.Operator.Rg.{RgConfig}

-- `model Operator`, as far as sessions read it.
pub record Operator : Type 0 where
  pub id : Text
  pub enabled : Bool
  pub currencies : List Text
  pub demo_enabled : Bool
  pub bet_limits : Option (List (Text × PerBetLimits))
  pub rg_config : Option RgConfig
  pub callback_url : Option Text

pub data LaunchError : Type 0 where
  invalid_launch_token unknown_operator currency_not_allowed demo_not_allowed : LaunchError
  launch_token_already_used : LaunchError

-- The payload of a token whose signature and expiry are good; a player id that is no text is
-- none.
pub record Payload : Type 0 where
  pub currency : Option Text
  pub demo : Bool
  pub player_id : Option Text
  pub jti : Option Text

pub record LaunchToken : Type 0 where
  pub unsafe_operator_id : Option Text
  pub verified_by : Operator → Option Payload

pub record VerifiedLaunch : Type 0 where
  pub operator_id : Text
  pub player_id : Text
  pub currency : Option Text
  pub demo : Bool
  pub jti : Text

abbrev pub max_player_id_len : ℕ
max_player_id_len = 200

abbrev text_or_empty : Option Text → Text
text_or_empty none = []
text_or_empty (some s) = s

-- `(currency ?? "").toUpperCase()`
abbrev pub canonical_currency : Option Text → Text
canonical_currency currency = to_upper (text_or_empty currency)

abbrev pub some_currency : Text → List Text → Bool
some_currency ccy [] = false
some_currency ccy (c ∷ cs) = text_eq (to_upper c) ccy || some_currency ccy cs

abbrev is_given : Text → Bool
is_given [] = false
is_given (c ∷ cs) = true

abbrev pub valid_player : Option Text → Option Text
valid_player none = none
valid_player (some p) =
    if ltb (length p) 1 || ltb max_player_id_len (length p) then none else some p

-- An empty text is no id.
abbrev pub given : Option Text → Option Text
given none = none
given (some s) = if is_given s then some s else none

-- The checks of the payload; `is_used` is whether a session has the jti.
unfoldable pub verify_payload :
    (Text → Bool) → Operator → Payload → Result LaunchError VerifiedLaunch
verify_payload is_used op p =
    if not (some_currency (canonical_currency p.currency) op.currencies)
    then err currency_not_allowed
    else if p.demo && not op.demo_enabled
    then err demo_not_allowed
    else on_option (valid_player p.player_id) (err invalid_launch_token) λ player.
      on_option (given p.jti) (err invalid_launch_token) λ jti.
        if is_used jti
        then err launch_token_already_used
        else ok (record {
          operator_id = op.id;
          player_id = player;
          currency = p.currency;
          demo = p.demo;
          jti = jti;
        })

-- `LaunchTokenService.verify`
unfoldable pub verify_launch :
    List Operator → (Text → Bool) → LaunchToken → Result LaunchError VerifiedLaunch
verify_launch operators is_used token =
    on_option (given token.unsafe_operator_id) (err invalid_launch_token) λ id.
      on_option (find (λ op. text_eq op.id id) operators) (err unknown_operator) λ op.
        if not op.enabled
        then err unknown_operator
        else on_option (token.verified_by op) (err invalid_launch_token) (verify_payload is_used op)
