-- ===== src/Operator/Limits.antt =====
-- operator/bet-limits.ts: the per-currency limits of one bet.
pub mod Claims
use vault_runner_api.Prelude.{
  ℕ, Bool, true, false, not, ◌&&◌, ◌||◌, Option, none, some, List, [], ◌∷◌, ltb, leb, if◌then◌else◌,
}
use vault_runner_api.Prog.{on_option}
use vault_runner_api.World.{Text, text_eq, to_upper}
use vault_runner_api.Decimal.{to_decimal}
use vault_runner_api.Risk.{PerBetLimits}
use vault_runner_api.Operator.Rg.{ClaimValue, decimal, convert}

-- `PerCurrencyLimitSchema`
unfoldable pub is_valid_limit : PerBetLimits → Bool
is_valid_limit l =
    (ltb 0 l.max_bet && ltb 0 l.max_win_per_bet)
    && (leb l.min_bet l.max_bet && leb l.max_bet l.max_win_per_bet)

-- `BetLimitsSchema`
unfoldable pub are_valid_limits : List (Text × PerBetLimits) → Bool
are_valid_limits [] = true
are_valid_limits ((k, l) ∷ ls) = let rest = are_valid_limits ls in is_valid_limit l && rest

unfoldable pub parse_bet_limits :
    Option (List (Text × PerBetLimits)) → Option (List (Text × PerBetLimits))
parse_bet_limits none = none
parse_bet_limits (some cfg) = if are_valid_limits cfg then some cfg else none

unfoldable pub find_limits : Text → List (Text × PerBetLimits) → Option PerBetLimits
find_limits want [] = none
find_limits want ((k, l) ∷ ls) =
    let rest = find_limits want ls in if text_eq (to_upper k) want then some l else rest

unfoldable pub effective_limits_for :
    Option (List (Text × PerBetLimits)) → Text → Option PerBetLimits
effective_limits_for json currency =
    on_option (parse_bet_limits json) none (λ cfg. find_limits (to_upper currency) cfg)

-- `SerializedBetLimits`, as a token may carry it
pub record SerializedBetLimits : Type 0 where
  pub min_bet : Option ClaimValue
  pub max_bet : Option ClaimValue
  pub max_win_per_bet : Option ClaimValue

unfoldable pub serialize_bet_limits : PerBetLimits → SerializedBetLimits
serialize_bet_limits l = record {
  min_bet = some (decimal (to_decimal l.min_bet));
  max_bet = some (decimal (to_decimal l.max_bet));
  max_win_per_bet = some (decimal (to_decimal l.max_win_per_bet));
}

-- `BigInt(undefined)` throws.
abbrev read_amount : Option ClaimValue → Option ℕ
read_amount v = on_option v none convert

unfoldable pub deserialize_bet_limits : Option SerializedBetLimits → Option PerBetLimits
deserialize_bet_limits json = on_option json none λ o.
    on_option (read_amount o.min_bet) none λ min_bet.
      on_option (read_amount o.max_bet) none λ max_bet.
        on_option (read_amount o.max_win_per_bet) none λ max_win_per_bet.
          if ltb max_bet min_bet || ltb max_win_per_bet max_bet
          then none
          else some
              (record { min_bet = min_bet; max_bet = max_bet; max_win_per_bet = max_win_per_bet })
