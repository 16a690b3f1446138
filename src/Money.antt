-- ===== src/Money.antt =====
-- common/money.ts and common/bet-status.ts: the payout rule and the two status sets that the
-- accounting and the reports share. Amounts are minor units, a multiplier is in hundredths.
pub mod Payout
use vault_runner_api.Prelude.{ℕ, ◌*◌, ◌/◌, Bool, true, false}
use vault_runner_api.World.{BetStatus, active, cashed_out, busted, payout_pending}

-- `floorPayout`, from the whole number that its `Math.round(mult * 100)` yields: the rounding of a
-- floating point multiplier to hundredths is not part of the model.
unfoldable pub floor_payout : ℕ → ℕ → ℕ
floor_payout stake_minor mult_cents = stake_minor * mult_cents / 100

-- `WAGERED_STATUSES`: the stake was debited and not given back.
unfoldable pub is_wagered_status : BetStatus → Bool
is_wagered_status active = true
is_wagered_status cashed_out = true
is_wagered_status busted = true
is_wagered_status payout_pending = true
is_wagered_status _ = false

-- `WON_STATUSES`
unfoldable pub is_won_status : BetStatus → Bool
is_won_status cashed_out = true
is_won_status payout_pending = true
is_won_status _ = false
