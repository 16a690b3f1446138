-- ===== src/Bets/Types.antt =====
-- What the handlers of bets.service.ts take and answer.
use vault_runner_api.Prelude.{ℕ, Bool, Option}
use vault_runner_api.Prelude.Int.{ℤ}
use vault_runner_api.World.{Panel, Phase, BetStatus, Reason, Text}

-- What a handler reads of `PublicRoundState`.
pub record PublicRoundState : Type 0 where
  pub round_id : ℕ
  pub phase : Phase

-- `EffectiveRg` of operator/rg-config.ts
pub record EffectiveRg : Type 0 where
  pub reality_check_interval_sec : Option ℕ
  pub max_session_sec : Option ℕ
  pub enforce_reality_check : Bool
  pub max_session_loss : Option ℕ
  pub max_session_wager : Option ℕ

pub record RgContext : Type 0 where
  pub rg : Option EffectiveRg
  pub rg_pending : Bool
  pub session_started_at : Option ℕ

pub data BetResult : Type 0 where
  accepted : Panel → ℤ → Option ℕ → Text → BetResult
  declined : Reason → Panel → BetResult

-- `CashoutResult`: a confirmed win has its balance; a pending one is recorded and not confirmed.
pub data CashoutResult : Type 0 where
  paid_out : ℕ → Panel → ℕ → ℕ → ℤ → Text → CashoutResult
  owed : ℕ → Panel → ℕ → ℕ → Text → CashoutResult
  not_paid : Reason → ℕ → Panel → CashoutResult

pub record VoidResult : Type 0 where
  pub bet_id : ℕ
  pub status : BetStatus
  pub reversed : Bool
  pub refunded_stake : ℕ
  pub reclaimed_payout : ℕ
