-- ===== src/Tests/Bets.antt =====
-- The bets on concrete states.
use vault_runner_api.Prelude.{ℕ, none, [], ◌∷◌, List, arith, ◌≡◌, refl}
use vault_runner_api.Prelude.Int.{ℤ, pos, ◌+ℤ◌}
use vault_runner_api.World.{World, betting, running, panel_a}
use vault_runner_api.World.Tables.{Action}
use vault_runner_api.Prog.{ret, ok, run, read, write, atom, transaction, try_catch, caught, ◌>>=◌}
use vault_runner_api.Prog.Keeps.{Keeps-ret}
use vault_runner_api.Risk.{default_limits}
use vault_runner_api.Wallet.Ledger.{ledger_service}
use vault_runner_api.Wallet.Ledger.Sound.{IsSound}
use vault_runner_api.Bets.Place.{committed_exposure}
use vault_runner_api.Bets.Exposure.{IsCapped}
use vault_runner_api.Calls.{Call, concurrently}
use vault_runner_api.Calls.Safety.{concurrently-IsCapped, concurrently-IsSound}
use vault_runner_api.Tests.Worlds.{open_world, flying_world, view_of, stake_of, euro}
use vault_runner_api.Money.{floor_payout}
use vault_runner_api.Risk.{cap_payout}
use vault_runner_api.World.Tables.{find_bet, update_bets, update_bet, credit_profile, report}
use vault_runner_api.Bets.Types.{CashoutResult, paid_out}
use vault_runner_api.Bets.Cancel.{currency_of}
use vault_runner_api.Bets.CashOut.{
  cash_out, cash_out_in_round, cash_out_read, gate_and_claim, claim_and_pay, pay_claimed,
  finish_paid, payout_of, below_crash, round_of,
}
use vault_runner_api.Bets.CashOut.Gate.{CashOutEnd, cash_out-CashOutEnd}
use vault_runner_api.Tests.Slots.{ledger_service-LeavesBets}
use vault_runner_api.Wallet.Ledger.{
  credit, record_entry, record_body, post, create_entry, find_entry,
}

-- A bet twice, a cancellation of it and a cash-out of a follower that lags.
abbrev calls : List Call
calls =
    Call.place (view_of betting) (stake_of 40)
    ∷ Call.place (view_of betting) (stake_of 30)
    ∷ Call.cancel (view_of betting) 101 panel_a
    ∷ Call.cash_out (view_of running) 150 101 panel_a none
    ∷ Call.sweep_slots 0
    ∷ Call.resume
    ∷ []

-- A reveal that writes to none of the tables of the model
abbrev reveal_seed : ℕ → Action (Unit {0})
reveal_seed seed = ret tt

abbrev sched : List ℕ
sched = 0 ∷ 1 ∷ 0 ∷ 1 ∷ 1 ∷ 0 ∷ 2 ∷ 3 ∷ 4 ∷ 4 ∷ 5 ∷ 1 ∷ 0 ∷ 0 ∷ 0 ∷ 2 ∷ []

-- The opening balance of every wallet.
abbrev opened : ℕ → ℤ
opened id = pos 100

open_world-IsCapped : IsCapped default_limits open_world
unfolding committed_exposure
open_world-IsCapped = record { capped = λ round ccy. omega arith }

open_world-IsSound : IsSound opened open_world
unfolding ◌+ℤ◌
open_world-IsSound = record {
  balanced = λ id x e. ground arith;
  funded = λ id x e. ground arith;
  once = λ k. omega arith;
}

concurrently-IsCapped_example :
    IsCapped default_limits
      (concurrently default_limits ledger_service reveal_seed sched calls open_world)
concurrently-IsCapped_example =
    concurrently-IsCapped default_limits reveal_seed sched calls open_world (λ seed. Keeps-ret tt)
      open_world-IsCapped

concurrently-IsSound_example :
    IsSound opened (concurrently default_limits ledger_service reveal_seed sched calls open_world)
concurrently-IsSound_example =
    concurrently-IsSound default_limits reveal_seed opened sched calls open_world
      (λ seed. Keeps-ret tt) open_world-IsSound

-- The cash-out at 1.50 of a stake of 40, in a round that crashes at 2.50.
abbrev cashing : Action CashoutResult
cashing = cash_out default_limits ledger_service (view_of running) 150 101 panel_a none

abbrev cashed : CashoutResult
cashed = paid_out 101 panel_a 150 60 (pos 160) euro

abbrev paid_world : World
paid_world = (run cashing flying_world).1

paid : run cashing flying_world ≡ (ok cashed, paid_world)
unfolding run cash_out cash_out_in_round cash_out_read gate_and_claim claim_and_pay pay_claimed
    finish_paid payout_of below_crash round_of currency_of floor_payout cap_payout find_bet
    update_bets update_bet credit_profile report credit record_entry record_body post create_entry
    find_entry read write atom transaction try_catch caught ◌>>=◌ ◌+ℤ◌
paid = refl

cash_out-CashOutEnd_example :
    CashOutEnd default_limits ledger_service 101 panel_a 7 150 flying_world
      (run cashing flying_world)
cash_out-CashOutEnd_example =
    cash_out-CashOutEnd default_limits ledger_service 101 panel_a
      (record { round_id = 7; phase = running }) 150 none flying_world (λ bet e. ground arith)
      ledger_service-LeavesBets
