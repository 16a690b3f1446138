-- ===== src/Calls.antt =====
-- The calls that the gateway, the controllers, the sweeps and a starting engine make of
-- `BetsService` and of the engine's recoveries, and any number of them side by side.
pub mod Safety
use vault_runner_api.Prelude.{
  ℕ, ◌+◌, ◌≡◌, refl, Bool, Option, none, some, List, [], ◌∷◌, map, arith, inl, inr, if◌then◌else◌,
  Bool-cases, Option-cases,
}
use vault_runner_api.Prelude.Int.{ℤ, pos, ◌+ℤ◌, ltb_ℤ}
use vault_runner_api.Prog.{ret, ◌>>◌, Prog, request, Result-cases, Result, ok, err, on_option}
use vault_runner_api.Prog.Keeps.{Keeps, Keeps-request, Keeps-bind, Keeps-ret}
use vault_runner_api.Prog.Schedule.{interleave, AllKeep, interleave-Keeps}
use vault_runner_api.World.{to_upper, World, Panel, Reason, Wallet, Key, LedgerType, LedgerRef, Bet}
use vault_runner_api.World.Tables.{Action}
use vault_runner_api.World.Keeps.{Withstands}
use vault_runner_api.Risk.{RiskLimits, check_round_exposure}
use vault_runner_api.Wallet.Provider.{WalletProvider, KeepsWallet}
use vault_runner_api.Wallet.Ledger.{
  ledger_service, record_body, post, create_entry, entry_at, wallet_at,
}
use vault_runner_api.Wallet.Ledger.Sound.{
  IsSound, ledger_service-IsSound, ledger_service-KeepsWallet,
}
use vault_runner_api.Bets.Types.{PublicRoundState}
use vault_runner_api.Bets.Place.{
  PlaceRequest, RgSession, place_bet, reserve_body, create_bet, reserved_bet, session_refusal,
  committed_exposure,
}
use vault_runner_api.Bets.Cancel.{cancel_bet}
use vault_runner_api.Bets.CashOut
use vault_runner_api.Bets.CashOut.{evaluate_auto_cashouts}
use vault_runner_api.Bets.Settle.{settle_round}
use vault_runner_api.Engine.Recovery.{
  recover_reserving_bets, recover_stranded_active_bets, recover_interrupted_rounds,
  resume_or_recover,
}
use vault_runner_api.Engine.Recovery.Keeps.{
  recover_reserving_bets-Keeps, recover_stranded_active_bets-Keeps,
  recover_interrupted_rounds-Keeps, resume_or_recover-Keeps,
}
use vault_runner_api.Bets.Void.{void_bet, reconcile_voiding_bets}
use vault_runner_api.Bets.Reconcile.{reconcile_pending_payouts}
use vault_runner_api.Bets.Keeps.{
  cancel_bet-Keeps, cash_out-Keeps, evaluate_auto_cashouts-Keeps, settle_round-Keeps,
  void_bet-Keeps, reconcile_voiding-Keeps, reconcile_pending-Keeps,
}
use vault_runner_api.Bets.Keeps.Place.{place_bet-Keeps}
use vault_runner_api.Bets.Exposure.{IsCapped, IsCapped-Withstands, reserve_body-IsCapped}

pub data Call : Type 0 where
  place : Option PublicRoundState → PlaceRequest → Call
  cancel : Option PublicRoundState → ℕ → Panel → Call
  cash_out : Option PublicRoundState → ℕ → ℕ → Panel → Option ℕ → Call
  tick : Option PublicRoundState → ℕ → Call
  settle : ℕ → Call
  void : ℕ → ℕ → Call
  sweep_voids : ℕ → Call
  sweep_payouts : ℕ → Call
  sweep_slots : ℕ → Call
  sweep_stranded : ℕ → Call
  recover_rounds : Call
  resume : Call

-- The listener of `settle` is the gateway's, which settles the round.
module _ (limits : RiskLimits) (wallet : WalletProvider) (reveal_seed : ℕ → Action (Unit {0})) where
  unfoldable pub serve : Call → Action (Unit {0})
  serve (place view req) = request (place_bet limits wallet view req)
  serve (cancel view user panel) = request (cancel_bet wallet view user panel)
  serve (cash_out view live user panel at) =
      request (CashOut.cash_out limits wallet view live user panel at)
  serve (tick view mult) = request (evaluate_auto_cashouts limits wallet view mult)
  serve (settle round) = request (settle_round round)
  serve (void operator id) = request (void_bet wallet operator id)
  serve (sweep_voids limit) = request (reconcile_voiding_bets wallet limit)
  serve (sweep_payouts limit) = request (reconcile_pending_payouts wallet limit)
  serve (sweep_slots older_than) = request (recover_reserving_bets wallet older_than)
  serve (sweep_stranded older_than) = request (recover_stranded_active_bets wallet older_than)
  serve recover_rounds = request (recover_interrupted_rounds wallet)
  serve resume =
      request (resume_or_recover wallet reveal_seed (λ round. settle_round round >> ret tt))

  -- The calls at once, from a state, by a schedule: the state at its end.
  unfoldable pub concurrently : List ℕ → List Call → World → World
  concurrently sched calls w = (interleave sched (map serve calls) w).1

  module _ (P : World → Type 0) (k : Withstands P) (money : KeepsWallet P wallet)
      (reserves : (req : PlaceRequest) (s : Option RgSession) (round id : ℕ) (x : Wallet)
          (w : World)
        → P w
        → P (reserve_body limits req s round id x w).1)
      (reveals : (seed : ℕ) → Keeps P (reveal_seed seed)) where
    serve-Keeps : (c : Call) → Keeps P (serve c)
    unfolding serve
    serve-Keeps (place view req) =
        Keeps-request _ (place_bet-Keeps P k limits wallet money reserves view req)
    serve-Keeps (cancel view user panel) =
        Keeps-request _ (cancel_bet-Keeps P k limits wallet money view user panel)
    serve-Keeps (cash_out view live user panel at) =
        Keeps-request _ (cash_out-Keeps P k limits wallet money view live user panel at)
    serve-Keeps (tick view mult) =
        Keeps-request _ (evaluate_auto_cashouts-Keeps P k limits wallet money view mult)
    serve-Keeps (settle round) = Keeps-request _ (settle_round-Keeps P k limits wallet money round)
    serve-Keeps (void operator id) =
        Keeps-request _ (void_bet-Keeps P k limits wallet money operator id)
    serve-Keeps (sweep_voids limit) =
        Keeps-request _ (reconcile_voiding-Keeps P k limits wallet money limit)
    serve-Keeps (sweep_payouts limit) =
        Keeps-request _ (reconcile_pending-Keeps P k limits wallet money limit)
    serve-Keeps (sweep_slots older_than) =
        Keeps-request _ (recover_reserving_bets-Keeps P k wallet money older_than)
    serve-Keeps (sweep_stranded older_than) =
        Keeps-request _ (recover_stranded_active_bets-Keeps P k wallet money older_than)
    serve-Keeps recover_rounds = Keeps-request _ (recover_interrupted_rounds-Keeps P k wallet money)
    serve-Keeps resume = Keeps-request _ (
        resume_or_recover-Keeps P k wallet money reveal_seed _ reveals (λ round.
          Keeps-bind _ _ (settle_round-Keeps P k limits wallet money round) (λ _. Keeps-ret tt)))

    serve-AllKeep : (calls : List Call) → AllKeep P (map serve calls)
    serve-AllKeep [] = tt
    serve-AllKeep (c ∷ calls) = (serve-Keeps c, serve-AllKeep calls)

    pub concurrently-Keeps :
        (sched : List ℕ) (calls : List Call) (w : World) → P w → P (concurrently sched calls w)
    unfolding concurrently
    concurrently-Keeps sched calls w h =
        interleave-Keeps P sched (map serve calls) w (serve-AllKeep calls) h
