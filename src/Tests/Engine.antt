-- ===== src/Tests/Engine.antt =====
-- The transitions of a round on a concrete state.
use vault_runner_api.Prelude.{ℕ, none, Bool, false, ◌≡◌, refl}
use vault_runner_api.Prog.{ok, ret, run}
use vault_runner_api.World.{betting}
use vault_runner_api.World.Tables.{Action}
use vault_runner_api.Engine.Phases.{
  EngineState, enter_waiting, enter_betting, enter_running, enter_crashed, enter_settling,
  enter_completed,
}
use vault_runner_api.Engine.Phases.Fenced.{fenced_transition_lem}
use vault_runner_api.Tests.Worlds.{open_world}

abbrev in_betting : EngineState
in_betting = record {
  round_id = 7;
  seed_id = 1;
  phase = betting;
  phase_ends_at = 5000;
  started_at = none;
  crash_point = 250;
}

abbrev stale : Action Bool
stale = ret false

abbrev nothing : ℕ → Action (Unit {0})
nothing id = ret tt

fenced_off_now : run stale open_world ≡ (ok false, open_world)
unfolding run
fenced_off_now = refl

fenced_transition_lem_example :
    (run (enter_waiting stale (ret none)) open_world ≡ (ok none, open_world))
    × (run (enter_betting stale in_betting) open_world ≡ (ok none, open_world))
    × (run (enter_running stale (λ crash. 7636) in_betting) open_world ≡ (ok none, open_world))
    × (run (enter_crashed stale nothing in_betting) open_world ≡ (ok none, open_world))
    × (run (enter_settling stale in_betting) open_world ≡ (ok none, open_world))
    × (run (enter_completed stale in_betting) open_world ≡ (ok none, open_world))
fenced_transition_lem_example =
    fenced_transition_lem stale (λ crash. 7636) nothing in_betting (ret none) open_world
      fenced_off_now
