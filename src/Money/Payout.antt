-- ===== src/Money/Payout.antt =====
-- A payout grows with the stake and with the multiplier.
use vault_runner_api.Prelude.{ℕ, ◌≤◌, arith}
use vault_runner_api.Money.{floor_payout}

pub floor_payout_mono : (s t m n : ℕ) → s ≤ t → m ≤ n → floor_payout s m ≤ floor_payout t n
unfolding floor_payout
floor_payout_mono s t m n h k = grind arith
