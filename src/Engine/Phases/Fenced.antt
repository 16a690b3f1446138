-- ===== src/Engine/Phases/Fenced.antt =====
-- A leader that is fenced off writes nothing.
use vault_runner_api.Prelude.{ℕ, ◌≡◌, ap, ◌∙◌, Bool, false, Option, none, if◌then◌else◌}
use vault_runner_api.Prog.{ok, ret, run}
use vault_runner_api.Prog.Run.{run-bind, and_then}
use vault_runner_api.World.{World}
use vault_runner_api.World.Tables.{Action}
use vault_runner_api.Engine.Phases.{
  EngineState, fenced, AllocatedSeed, enter_waiting, enter_betting, enter_running, enter_crashed,
  enter_settling, enter_completed,
}

module _ (still_leader : Action Bool) (crash_delay : ℕ → ℕ)
    (reveal_seed : ℕ → Action (Unit {0})) where
  fenced_off :
      {A : Type 0} (m : Action (Option A)) (w : World)
      → run still_leader w ≡ (ok false, w)
      → run (fenced still_leader m) w ≡ (ok none, w)
  unfolding fenced run
  fenced_off m w h =
      run-bind still_leader (λ leads. if leads then m else ret none) w
      ∙ ap (λ r. and_then r (λ leads. if leads then m else ret none)) h

  -- A leader that fails the fence check changes nothing in any of the six transitions, whatever
  -- the engine's state is and whatever a seed's allocation does: none of them writes, reveals a
  -- seed, opens a round or goes on.
  pub fenced_transition_lem :
      (s : EngineState) (allocate_seed : Action (Option AllocatedSeed)) (w : World)
      → run still_leader w ≡ (ok false, w)
      → (run (enter_waiting still_leader allocate_seed) w ≡ (ok none, w))
        × (run (enter_betting still_leader s) w ≡ (ok none, w))
        × (run (enter_running still_leader crash_delay s) w ≡ (ok none, w))
        × (run (enter_crashed still_leader reveal_seed s) w ≡ (ok none, w))
        × (run (enter_settling still_leader s) w ≡ (ok none, w))
        × (run (enter_completed still_leader s) w ≡ (ok none, w))
  unfolding enter_waiting enter_betting enter_running enter_crashed enter_settling enter_completed
  fenced_transition_lem s seed w h = (
    fenced_off _ w h,
    fenced_off _ w h,
    fenced_off _ w h,
    fenced_off _ w h,
    fenced_off _ w h,
    fenced_off _ w h,
  )
