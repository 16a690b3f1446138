-- ===== src/Bets/Place/Session.antt =====
-- What `placeBet` is asked, and the session's responsible-gambling controls that it applies.
use vault_runner_api.Prelude.{
  sum_where, ℕ, ◌+◌, ◌*◌, Bool, false, ◌&&◌, Option, none, some, List, ◌==◌, if◌then◌else◌, select,
  ltb, leb,
}
use vault_runner_api.Prelude.Int.{ℤ, pos, ◌+ℤ◌, ◌-ℤ◌, ltb_ℤ}
use vault_runner_api.Prog.{on_option}
use vault_runner_api.World.{
  Bet, Panel, Reason, reality_check_pending, session_time_limit, session_wager_limit,
  session_loss_limit,
}
use vault_runner_api.Money.{is_wagered_status, is_won_status}
use vault_runner_api.Risk.{PerBetLimits}
use vault_runner_api.Bets.Types.{EffectiveRg, RgContext}

-- The arguments of one call.
pub record PlaceRequest : Type 0 where
  pub user_id : ℕ
  pub panel : Panel
  pub amount : ℕ
  pub auto_cashout : Option ℕ
  pub wallet_id : Option ℕ
  pub limits : Option PerBetLimits
  pub demo : Bool
  pub rg_ctx : Option RgContext
  pub operator_id : Option ℕ

pub record Accounting : Type 0 where
  pub wagered : ℕ
  pub won : ℕ
  pub net : ℤ

-- `sessionAccounting`: what a wallet's bets since an instant have wagered, won and lost.
unfoldable pub session_accounting : ℕ → ℕ → List Bet → Accounting
session_accounting wallet_id since bets =
    let rows = select (λ b. b.wallet_id == wallet_id && leb since b.created_at) bets in
    let wagered = sum_where (λ b. is_wagered_status b.status) (λ b. b.amount) rows in
    let won = sum_where (λ b. is_won_status b.status) (λ b. b.payout) rows in
    record { wagered = wagered; won = won; net = pos wagered -ℤ pos won }

-- The session's responsible-gambling controls with its start, where they apply: never for a demo
-- bet, and not without a start (a start of 0 counts as none).
pub record RgSession : Type 0 where
  pub rg : EffectiveRg
  pub pending : Bool
  pub since : ℕ

abbrev started_session : EffectiveRg → Bool → Option ℕ → Option RgSession
started_session rg pending none = none
started_session rg pending (some since) =
    if since == 0 then none else some (record { rg = rg; pending = pending; since = since })

abbrev context_session : Option RgContext → Option RgSession
context_session none = none
context_session (some c) =
    on_option c.rg none (λ rg. started_session rg c.rg_pending c.session_started_at)

unfoldable pub active_rg : PlaceRequest → Option RgSession
active_rg req = if req.demo then none else context_session req.rg_ctx

abbrev over_limit : Option ℕ → ℕ → Bool
over_limit none n = false
over_limit (some m) n = ltb m n

abbrev over_limit_ℤ : Option ℕ → ℤ → Bool
over_limit_ℤ none n = false
over_limit_ℤ (some m) n = ltb_ℤ (pos m) n

-- The checks of a session that need no database: the reality check, then the session's length.
unfoldable pub rg_refusal : Option RgSession → ℕ → Option Reason
rg_refusal none now = none
rg_refusal (some s) now =
    if s.rg.enforce_reality_check && s.pending
    then some reality_check_pending
    else on_option s.rg.max_session_sec none
        (λ sec. if leb (s.since + sec * 1000) now then some session_time_limit else none)

-- The loss and wager caps, inside the lock.
unfoldable pub session_refusal : Option RgSession → Accounting → ℕ → ℕ → Option Reason
session_refusal none acc reserved amt = none
session_refusal (some s) acc reserved amt =
    if over_limit s.rg.max_session_wager (acc.wagered + reserved + amt)
    then some session_wager_limit
    else if over_limit_ℤ s.rg.max_session_loss (acc.net +ℤ pos (reserved + amt))
    then some session_loss_limit
    else none
