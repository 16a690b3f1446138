-- ===== src/Operator/Limits/Claims.antt =====
-- The limits of a bet: what is resolved survives the play token, and what a token yields is ordered.
use vault_runner_api.Prelude.{
  none-some, some_injective, ℕ, ◌≡◌, ◌≤◌, refl, subst, true, false, ◌||◌, Option, none, some, List,
  [], ◌∷◌, ltb, arith, Bool-cases, inl, inr,
}
use vault_runner_api.World.{Text, text_eq, to_upper}
use vault_runner_api.Decimal.{to_decimal}
use vault_runner_api.Decimal.Roundtrip.{parse_decimal-to_decimal}
use vault_runner_api.Risk.{PerBetLimits}
use vault_runner_api.Operator.Rg.{decimal, convert}
use vault_runner_api.Operator.Limits.{
  is_valid_limit, are_valid_limits, parse_bet_limits, find_limits, effective_limits_for,
  serialize_bet_limits, deserialize_bet_limits, read_amount,
}

pub record IsOrdered (l : PerBetLimits) : Type 0 where
  pub stakes : l.min_bet ≤ l.max_bet
  pub wins : l.max_bet ≤ l.max_win_per_bet

valid-IsOrdered : (l : PerBetLimits) → is_valid_limit l ≡ true → IsOrdered l
unfolding is_valid_limit
valid-IsOrdered l h = record { stakes = ground arith; wins = ground arith }

find_limits-IsOrdered :
    (want : Text) (ls : List (Text × PerBetLimits)) (l : PerBetLimits)
    → are_valid_limits ls ≡ true
    → find_limits want ls ≡ some l
    → IsOrdered l
unfolding find_limits are_valid_limits
find_limits-IsOrdered want [] l v h = absurd (none-some l h)
find_limits-IsOrdered want ((k, m) ∷ ls) l v h = elim (Bool-cases (text_eq (to_upper k) want)) [
  | inl hit ↦ subst IsOrdered (some_injective m l (rw hit at h)) (valid-IsOrdered m (ground arith))
  | inr miss ↦ find_limits-IsOrdered want ls l (ground arith) (rw miss at h)
]

effective-IsOrdered :
    (json : Option (List (Text × PerBetLimits))) (currency : Text) (l : PerBetLimits)
    → effective_limits_for json currency ≡ some l
    → IsOrdered l
unfolding effective_limits_for parse_bet_limits
effective-IsOrdered none currency l h = absurd (none-some l h)
effective-IsOrdered (some cfg) currency l h = elim (Bool-cases (are_valid_limits cfg)) [
  | inl good ↦ find_limits-IsOrdered (to_upper currency) cfg l good (rw good at h)
  | inr bad ↦ absurd (none-some l (rw bad at h))
]

read_back : (n : ℕ) → read_amount (some (decimal (to_decimal n))) ≡ some n
unfolding convert
read_back n = parse_decimal-to_decimal n

in_order :
    (l : PerBetLimits)
    → IsOrdered l
    → (ltb l.max_bet l.min_bet || ltb l.max_win_per_bet l.max_bet) ≡ false
in_order l h = ground (arith, h.stakes, h.wins)

carried :
    (l : PerBetLimits)
    → IsOrdered l
    → deserialize_bet_limits (some (serialize_bet_limits l)) ≡ some l
unfolding deserialize_bet_limits serialize_bet_limits
carried l h =
    rw (read_back l.min_bet, read_back l.max_bet, read_back l.max_win_per_bet, in_order l h) refl

-- The limits that are resolved from a valid configuration are in order, least stake to greatest
-- stake to greatest win, and come out of the play token as they went in.
pub deserialize-serialize_bet_limits :
    (json : Option (List (Text × PerBetLimits))) (currency : Text) (l : PerBetLimits)
    → effective_limits_for json currency ≡ some l
    → IsOrdered l × (deserialize_bet_limits (some (serialize_bet_limits l)) ≡ some l)
deserialize-serialize_bet_limits json currency l h =
    let ordered = effective-IsOrdered json currency l h in (ordered, carried l ordered)
