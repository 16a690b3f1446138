-- ===== src/Decimal.antt =====
-- Decimal texts of numbers that are not negative, for what the language gives to common/money.ts
-- and the claims of the tokens, `BigInt.toString()` and `BigInt(text)`. A text is the codes of its characters.
pub mod Roundtrip
use vault_runner_api.Prelude.{
  ℕ, zero, suc, ◌+◌, ◌-◌, ◌*◌, ◌/◌, ◌%◌, Bool, true, false, ◌&&◌, Option, none, some, List, [], ◌∷◌,
  ◌++◌, ltb, leb, if◌then◌else◌,
}
use vault_runner_api.Prog.{on_option}
use vault_runner_api.World.{Text}

-- The digits of a number, the last one put at the end; as fuel the number itself is enough.
unfoldable pub digits : ℕ → ℕ → Text
digits zero n = (48 + n % 10) ∷ []
digits (suc fuel) n =
    let rest = digits fuel (n / 10) in
    if ltb n 10 then (48 + n) ∷ [] else rest ++ ((48 + n % 10) ∷ [])

unfoldable pub to_decimal : ℕ → Text
to_decimal n = digits n n

abbrev is_digit : ℕ → Bool
is_digit c = leb 48 c && leb c 57

-- `none` is the error on any other character.
unfoldable pub parse_from : ℕ → Text → Option ℕ
parse_from acc [] = some acc
parse_from acc (c ∷ s) =
    let rest = parse_from (acc * 10 + (c - 48)) s in if is_digit c then rest else none

unfoldable pub parse_decimal : Text → Option ℕ
parse_decimal s = parse_from 0 s
