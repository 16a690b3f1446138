-- ===== src/Decimal/Roundtrip.antt =====
-- What is printed is read back.
use vault_runner_api.Prelude.{
  ℕ, zero, suc, ◌+◌, ◌-◌, ◌*◌, ◌/◌, ◌%◌, ◌≤◌, ◌<◌, ◌≡◌, ap, ◌∙◌, some, [], ◌∷◌, ◌++◌, ltb, arith,
  Bool-cases, inl, inr,
}
use vault_runner_api.World.{Text}
use vault_runner_api.Decimal.{digits, to_decimal, parse_from, parse_decimal}

parse_from_last :
    (s : Text) (acc n d : ℕ)
    → d < 10
    → parse_from acc s ≡ some n
    → parse_from acc (s ++ ((48 + d) ∷ [])) ≡ some (n * 10 + d)
unfolding parse_from
parse_from_last [] acc n d h e = ground arith
parse_from_last (c ∷ s) acc n d h e = ground (arith, parse_from_last s (acc * 10 + (c - 48)) n d h)

split : (n : ℕ) → n / 10 * 10 + n % 10 ≡ n
split n = omega arith

parse_digits : (fuel n : ℕ) → n ≤ fuel → parse_from 0 (digits fuel n) ≡ some n
unfolding digits parse_from
parse_digits zero n h = ground arith
parse_digits (suc fuel) n h = elim (Bool-cases (ltb n 10)) [
  | inl small ↦ rw small (ground arith)
  | inr big ↦ rw big (
      parse_from_last (digits fuel (n / 10)) 0 (n / 10) (n % 10) (omega arith)
        (parse_digits fuel (n / 10) (omega arith))
      ∙ ap some (split n))
]

-- A number that is not negative, printed, is read back as it was.
pub parse_decimal-to_decimal : (n : ℕ) → parse_decimal (to_decimal n) ≡ some n
unfolding parse_decimal to_decimal
parse_decimal-to_decimal n = parse_digits n n (omega arith)
