-- ===== src/Risk/Cover.antt =====
-- What the reservation of a bet covers.
use vault_runner_api.Prelude.{ℕ, ◌+◌, ◌*◌, ◌≤◌, ◌≡◌, Option, none, some, arith}
use native.Mathlib.Nat.{mul-le-mul_left}
use vault_runner_api.Prog.{ok}
use vault_runner_api.Money.{floor_payout}
use vault_runner_api.Risk.{RiskLimits, potential_payout, check_round_exposure, cap_payout}

module _ (limits : RiskLimits) where
  pub cap_payout_le : (p : ℕ) (cap : Option ℕ) → cap_payout limits p cap ≤ limits.max_win_per_bet
  unfolding cap_payout
  cap_payout_le p none = ground arith
  cap_payout_le p (some m) = ground arith

  cap_payout_le_self : (p : ℕ) (cap : Option ℕ) → cap_payout limits p cap ≤ p
  unfolding cap_payout
  cap_payout_le_self p none = ground arith
  cap_payout_le_self p (some m) = ground arith

  stake_mono : (stake mult n : ℕ) → mult ≤ 100 * n → stake * mult ≤ stake * (100 * n)
  stake_mono stake mult n h = mul-le-mul_left stake h

  floor_payout_le : (stake mult n : ℕ) → mult ≤ 100 * n → floor_payout stake mult ≤ stake * n
  unfolding floor_payout
  floor_payout_le stake mult n h = omega (arith, stake_mono stake mult n h)

  -- What a bet is paid at any multiplier up to the house's maximum, under any cap of its own, is
  -- covered by the exposure that was reserved for it.
  pub payout-le-potential :
      (stake mult : ℕ) (cap : Option ℕ)
      → mult ≤ 100 * limits.max_multiplier
      → cap_payout limits (floor_payout stake mult) cap ≤ potential_payout limits stake
  unfolding potential_payout
  payout-le-potential stake mult cap h = ground (
    arith,
    cap_payout_le (floor_payout stake mult) cap,
    cap_payout_le_self (floor_payout stake mult) cap,
    floor_payout_le stake mult limits.max_multiplier h,
  )

  pub check_round_exposure_ok :
      (current amount new : ℕ)
      → check_round_exposure limits current amount ≡ ok new
      → (new ≡ current + potential_payout limits amount) × (new ≤ limits.max_round_exposure)
  unfolding check_round_exposure
  check_round_exposure_ok current amount new h = ground arith
