-- ===== src/Fairness/Crash/Edge.antt =====
-- The distribution of the crash: how many hashes reach a multiplier, and the range of it.
use vault_runner_api.Prelude.{
  ℕ, suc, subst, ◌+◌, ◌*◌, ◌/◌, ◌^◌, ◌≤◌, ◌<◌, ◌↔◌, List, [], ◌∷◌, arith, take, zero,
}
use native.Mathlib.Nat.{
  le-div_iff_mul-le, mul_comm, mul-le-mul_left, div-mul-le_self, le_trans, mul_assoc, pow-succ',
  mul-le-mul_right, one-le-pow,
}
use vault_runner_api.World.{Text}
use vault_runner_api.Fairness.Crash.{
  entropy, pool, max_cents, clamp, crash_cents, hex_value, crash_from_hmac_hex, compute_crash,
}

abbrev pub AllBelow16 : List ℕ → Type 0
AllBelow16 [] = Unit
AllBelow16 (d ∷ ds) = (d < 16) × AllBelow16 ds

clamp_reach : (x c : ℕ) → 100 < x → x ≤ max_cents → (x ≤ clamp c) ↔ (x ≤ c)
unfolding clamp max_cents
clamp_reach x c h k = (λ e. ground arith, λ e. ground arith)

reach_share : (x h n : ℕ) → 0 < x → (x ≤ n / (h + 1)) ↔ (h < n / x)
reach_share x h n positive = (
  λ e. omega (
    arith,
    (le-div_iff_mul-le {k = x} {x = h + 1} {y = n} positive).1 (
        subst (λ t. t ≤ n) (mul_comm x (h + 1))
          ((le-div_iff_mul-le {k = h + 1} {x = x} {y = n} (omega arith)).0 e)),
  ),
  λ e. (le-div_iff_mul-le {k = h + 1} {x = x} {y = n} (omega arith)).1 (
      subst (λ t. t ≤ n) (mul_comm (h + 1) x)
        ((le-div_iff_mul-le {k = x} {x = h + 1} {y = n} positive).0 (omega arith))),
)

-- Of the hashes h in [0, 2^52), exactly those below 97 * (2^52 + 1) / x reach x hundredths, for
-- every x above 1.00 and up to the cap: the share of 97 % over x that the house edge means.
pub crash_cents_share :
    (x h : ℕ) → 100 < x → x ≤ 100_000_000 → (x ≤ crash_cents h) ↔ (h < 97 * (2 ^ 52 + 1) / x)
unfolding crash_cents pool entropy max_cents
crash_cents_share x h low high = (
  λ e. (reach_share x h pool (omega arith)).0 ((clamp_reach x (pool / (h + 1)) low high).0 e),
  λ e. (clamp_reach x (pool / (h + 1)) low high).1 ((reach_share x h pool (omega arith)).1 e),
)

-- Every crash multiplier is between 1.00 and 1,000,000.00.
pub compute_crash_range :
    (hmac : List ℕ → Text → List ℕ) (seed : List ℕ) (salt : Text)
    → (100 ≤ compute_crash hmac seed salt) × (compute_crash hmac seed salt ≤ 100_000_000)
unfolding compute_crash crash_from_hmac_hex crash_cents clamp max_cents
compute_crash_range hmac seed salt = ground arith

clamp_mono : (c d : ℕ) → c ≤ d → clamp c ≤ clamp d
unfolding clamp max_cents
clamp_mono c d h = ground arith

div_anti : (n g h : ℕ) → g ≤ h → n / (h + 1) ≤ n / (g + 1)
div_anti n g h le =
    (le-div_iff_mul-le {k = g + 1} {x = n / (h + 1)} {y = n} (omega arith)).1
      (le_trans (mul-le-mul_left (n / (h + 1)) (omega arith)) (div-mul-le_self n (h + 1)))

-- A lower hash never crashes earlier.
pub crash_cents_anti : (g h : ℕ) → g ≤ h → crash_cents h ≤ crash_cents g
unfolding crash_cents
crash_cents_anti g h le = clamp_mono (pool / (h + 1)) (pool / (g + 1)) (div_anti pool g h le)

short : (acc n : ℕ) → acc < (acc + 1) * 16 ^ suc n
short acc n = omega (arith, mul-le-mul_left (acc + 1) (one-le-pow (suc n) 16 (omega arith)))

step : (acc d p : ℕ) → d < 16 → (acc * 16 + d + 1) * p ≤ (acc + 1) * (16 * p)
step acc d p h =
    subst (λ t. (acc * 16 + d + 1) * p ≤ t) (mul_assoc (acc + 1) 16 p)
      (mul-le-mul_right p (omega arith))

hex_value_bound :
    (n acc : ℕ) (ds : List ℕ) → AllBelow16 ds → hex_value acc (take n ds) < (acc + 1) * 16 ^ n
unfolding hex_value
hex_value_bound zero acc ds k = omega arith
hex_value_bound (suc n) acc [] k = short acc n
hex_value_bound (suc n) acc (d ∷ ds) k =
    rw (pow-succ' 16 n)
      (omega (arith, hex_value_bound n (acc * 16 + d) ds k.1, step acc d (16 ^ n) k.0))

-- The digits that are read give a number of 52 bits.
pub hex_value_52_bits : (hex : List ℕ) → AllBelow16 hex → hex_value 0 (take 13 hex) < 2 ^ 52
hex_value_52_bits hex k = hex_value_bound 13 0 hex k
