-- ===== src/Risk.antt =====
-- game/risk.service.ts: the house's limits. `maxMultiplier` is a whole number, as `BigInt` wants.
pub mod Cover
use vault_runner_api.Prelude.{ℕ, ◌+◌, ◌*◌, Option, none, some, ◌||◌, ltb, if◌then◌else◌}
use vault_runner_api.Prog.{Result, ok, err}
use vault_runner_api.World.{Reason, invalid_amount, round_exposure_cap}

pub record RiskLimits : Type 0 where
  pub min_bet : ℕ
  pub max_bet : ℕ
  pub max_win_per_bet : ℕ
  pub max_multiplier : ℕ
  pub max_round_exposure : ℕ

pub record PerBetLimits : Type 0 where
  pub min_bet : ℕ
  pub max_bet : ℕ
  pub max_win_per_bet : ℕ

-- The defaults of `RiskService.limits`, with no environment override.
abbrev pub default_limits : RiskLimits
default_limits = record {
  min_bet = 1;
  max_bet = 1_000_000;
  max_win_per_bet = 100_000_000;
  max_multiplier = 1_000_000;
  max_round_exposure = 10_000_000_000;
}

module _ (limits : RiskLimits) where
  -- The per-currency window replaces the global one where it is given.
  unfoldable pub check_bet_amount : ℕ → Option PerBetLimits → Result Reason (Unit {0})
  check_bet_amount amount none =
      if ltb amount limits.min_bet || ltb limits.max_bet amount then err invalid_amount else ok tt
  check_bet_amount amount (some l) =
      if ltb amount l.min_bet || ltb l.max_bet amount then err invalid_amount else ok tt

  -- The most that the house could owe for a stake.
  unfoldable pub potential_payout : ℕ → ℕ
  potential_payout amount =
      let uncapped = amount * limits.max_multiplier in
      if ltb uncapped limits.max_win_per_bet then uncapped else limits.max_win_per_bet

  -- Answers the new exposure of the round.
  unfoldable pub check_round_exposure : ℕ → ℕ → Result Reason ℕ
  check_round_exposure current amount =
      let new_exposure = current + potential_payout amount in
      if ltb limits.max_round_exposure new_exposure then err round_exposure_cap else ok new_exposure

  abbrev win_cap : Option ℕ → ℕ
  win_cap none = limits.max_win_per_bet
  win_cap (some m) = m

  -- The cap of a bet, never above the global one.
  unfoldable pub cap_payout : ℕ → Option ℕ → ℕ
  cap_payout payout max_win_per_bet =
      let own = win_cap max_win_per_bet in
      let cap = if ltb own limits.max_win_per_bet then own else limits.max_win_per_bet in
      if ltb cap payout then cap else payout
