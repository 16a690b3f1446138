-- ===== src/Operator/Rg.antt =====
-- operator/rg-config.ts: the responsible-gambling controls. A configuration is what the schema
-- makes of the JSON column; a claim of a token is a number, a decimal text, or anything else.
pub mod Claims
use vault_runner_api.Prelude.{
  ℕ, Bool, true, false, not, ◌&&◌, ◌||◌, Option, none, some, List, [], ◌∷◌, ltb, leb, if◌then◌else◌,
  is_some,
}
use vault_runner_api.Prog.{on_option}
use vault_runner_api.World.{Text, text_eq, to_upper}
use vault_runner_api.Decimal.{to_decimal, parse_decimal}
use vault_runner_api.Bets.Types.{EffectiveRg}

-- `PerCurrencyRgLimitSchema`
pub record PerCurrencyRgLimit : Type 0 where
  pub max_session_loss : Option ℕ
  pub max_session_wager : Option ℕ

-- `RgConfig`; the limits in the order of their keys.
pub record RgConfig : Type 0 where
  pub reality_check_interval_sec : Option ℕ
  pub max_session_sec : Option ℕ
  pub enforce_reality_check : Option Bool
  pub limits : List (Text × PerCurrencyRgLimit)

abbrev min_time_sec : ℕ
min_time_sec = 60

abbrev max_reality_check_interval_sec : ℕ
max_reality_check_interval_sec = 86_400

abbrev max_session_bound_sec : ℕ
max_session_bound_sec = 2_592_000

-- An optional number within bounds
abbrev pub within : ℕ → ℕ → Option ℕ → Bool
within low high none = true
within low high (some n) = leb low n && leb n high

abbrev pub positive : Option ℕ → Bool
positive none = true
positive (some n) = ltb 0 n

abbrev valid_limits : List (Text × PerCurrencyRgLimit) → Bool
valid_limits [] = true
valid_limits ((k, l) ∷ ls) =
    let rest = valid_limits ls in
    (positive l.max_session_loss && positive l.max_session_wager) && rest

-- `RgConfigSchema`
unfoldable pub is_valid_config : RgConfig → Bool
is_valid_config cfg =
    (within min_time_sec max_reality_check_interval_sec cfg.reality_check_interval_sec
      && within min_time_sec max_session_bound_sec cfg.max_session_sec)
    && valid_limits cfg.limits

-- `parseRgConfig`, of a configuration that may be absent
unfoldable pub parse_rg_config : Option RgConfig → Option RgConfig
parse_rg_config none = none
parse_rg_config (some cfg) = if is_valid_config cfg then some cfg else none

abbrev no_limit : PerCurrencyRgLimit
no_limit = record { max_session_loss = none; max_session_wager = none }

-- The first entry whose key is the currency, whatever the case of either.
unfoldable pub limit_for : Text → List (Text × PerCurrencyRgLimit) → PerCurrencyRgLimit
limit_for want [] = no_limit
limit_for want ((k, l) ∷ ls) =
    let rest = limit_for want ls in if text_eq (to_upper k) want then l else rest

abbrev has_control : EffectiveRg → Bool
has_control e =
    (is_some e.reality_check_interval_sec || is_some e.max_session_sec)
    || (is_some e.max_session_loss || is_some e.max_session_wager)

abbrev if_active : EffectiveRg → Option EffectiveRg
if_active e = if has_control e then some e else none

unfoldable pub resolve_rg : RgConfig → Text → EffectiveRg
resolve_rg cfg currency =
    let l = limit_for (to_upper currency) cfg.limits in
    record {
      reality_check_interval_sec = cfg.reality_check_interval_sec;
      max_session_sec = cfg.max_session_sec;
      enforce_reality_check = on_option cfg.enforce_reality_check true (λ b. b);
      max_session_loss = l.max_session_loss;
      max_session_wager = l.max_session_wager;
    }

unfoldable pub effective_rg_for : Option RgConfig → Text → Option EffectiveRg
effective_rg_for json currency =
    on_option (parse_rg_config json) none (λ cfg. if_active (resolve_rg cfg currency))

-- A field of the claim: `other` is any other value, with the number that JavaScript makes of it, if any.
pub data ClaimValue : Type 0 where
  number : ℕ → ClaimValue
  decimal : Text → ClaimValue
  other : Option ℕ → ClaimValue

-- `SerializedRg`, as a token may carry it; a flag that is not a Boolean is `none`.
pub record SerializedRg : Type 0 where
  pub reality_check_interval_sec : Option ClaimValue
  pub max_session_sec : Option ClaimValue
  pub enforce_reality_check : Option Bool
  pub max_session_loss : Option ClaimValue
  pub max_session_wager : Option ClaimValue

abbrev map_option : {A B : Type 0} → (A → B) → Option A → Option B
map_option f none = none
map_option f (some a) = some (f a)

unfoldable pub serialize_rg : EffectiveRg → SerializedRg
serialize_rg e = record {
  reality_check_interval_sec = map_option number e.reality_check_interval_sec;
  max_session_sec = map_option number e.max_session_sec;
  enforce_reality_check = some e.enforce_reality_check;
  max_session_loss = map_option (λ n. decimal (to_decimal n)) e.max_session_loss;
  max_session_wager = map_option (λ n. decimal (to_decimal n)) e.max_session_wager;
}

-- `Number(x)` and `BigInt(x)`; `none` is NaN, a fraction, a negative number or an error.
unfoldable pub convert : ClaimValue → Option ℕ
convert (number n) = some n
convert (decimal s) = parse_decimal s
convert (other o) = o

-- A field that is absent stays absent; one that is out of range spoils the claim.
unfoldable pub read_field : (ℕ → Bool) → Option ClaimValue → Option (Option ℕ)
read_field accept none = some none
read_field accept (some v) =
    on_option (convert v) none (λ n. if accept n then some (some n) else none)

abbrev in_range : ℕ → ℕ → Bool
in_range high n = ltb 0 n && leb n high

abbrev is_positive : ℕ → Bool
is_positive n = ltb 0 n

unfoldable pub deserialize_rg : Option SerializedRg → Option EffectiveRg
deserialize_rg json = on_option json none λ o.
    on_option (read_field (in_range max_reality_check_interval_sec) o.reality_check_interval_sec)
      none
      λ interval.
        on_option (read_field (in_range max_session_bound_sec) o.max_session_sec) none λ session.
          on_option (read_field is_positive o.max_session_loss) none λ loss.
            on_option (read_field is_positive o.max_session_wager) none λ wager. if_active (record {
              reality_check_interval_sec = interval;
              max_session_sec = session;
              enforce_reality_check = on_option o.enforce_reality_check true (λ b. b);
              max_session_loss = loss;
              max_session_wager = wager;
            })
