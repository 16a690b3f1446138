-- ===== src/Engine/Phases.antt =====
-- The transitions of the loop, `enterWaiting` to `enterCompleted`, of a loop in which one transition
-- ends before the next begins: `this.state`, which the source reads again between its awaits, is
-- then the state at the start. A transition answers the state that the engine is in after it and
-- the wait until the next one, or `none` where it stopped itself first. The events that it emits
-- are not modelled, and neither is the mirror in Redis; what listens to `settle` is Bets/Settle. The
-- fence check, the seed allocation, the reveal, and the delay of a crash (a logarithm, by which
-- pacing alone is tuned) are parameters.
pub mod Fenced
use vault_runner_api.Prelude.{
  ℕ, ◌+◌, Bool, true, false, Option, none, some, List, [], ◌∷◌, ◌==◌, if◌then◌else◌, find, is_some,
}
use vault_runner_api.Prog.{ok, err, ret, throw, ◌>>=◌, ◌>>◌, try_catch, on_option, atom}
use vault_runner_api.World.{
  World, Round, Phase, waiting, betting, running, crashed, settling, completed, Reason,
  unique_violation,
}
use vault_runner_api.World.Tables.{Action, update_round, date_now}

-- `PHASE_MS`; `running` has no constant, and its deadline is an upper bound.
unfoldable pub phase_ms : Phase → ℕ
phase_ms waiting = 3000
phase_ms betting = 5000
phase_ms running = 60_000
phase_ms crashed = 2500
phase_ms settling = 500
phase_ms completed = 600

-- The engine's `state`.
pub record EngineState : Type 0 where
  pub round_id : ℕ
  pub seed_id : ℕ
  pub phase : Phase
  pub phase_ends_at : ℕ
  pub started_at : Option ℕ
  pub crash_point : ℕ

pub record AllocatedSeed : Type 0 where
  pub id : ℕ
  pub crash_point : ℕ

abbrev in_phase : Phase → ℕ → Round → Round
in_phase p now r = record r { status = p; phase_ends_at = some (now + phase_ms p) }

abbrev to_phase : Phase → ℕ → EngineState → EngineState
to_phase p now s = record s { phase = p; phase_ends_at = now + phase_ms p }

abbrev new_round : ℕ → AllocatedSeed → ℕ → Round
new_round id seed now = record {
  id = id;
  seed_id = some seed.id;
  crash_point = seed.crash_point;
  status = waiting;
  phase_ends_at = some (now + phase_ms waiting);
  started_at = none;
  crashed_at = none;
  settled_at = none;
  created_at = now;
}

-- `round.create`: a seed serves one round, for ever.
unfoldable pub create_round : AllocatedSeed → Action ℕ
create_round seed = atom λ w.
    if is_some (find (λ r. on_option r.seed_id false (λ s. s == seed.id)) w.rounds)
    then (err unique_violation, w)
    else (
      ok w.next_id,
      record w { rounds = new_round w.next_id seed w.now ∷ w.rounds; next_id = w.next_id + 1 },
    )

abbrev is_unique_violation : Reason → Bool
is_unique_violation unique_violation = true
is_unique_violation _ = false

module _ (still_leader : Action Bool) where
  -- Self-demotion before any write of the transition.
  unfoldable pub fenced : {A : Type 0} → Action (Option A) → Action (Option A)
  fenced m = still_leader >>= λ leads. if leads then m else ret none

  -- Where another leader took the seed, the engine stops. `none` seeds are awaited, with no round.
  unfoldable pub open_round : AllocatedSeed → Action (Option (EngineState × ℕ))
  open_round seed = do
    now ← date_now
    try_catch
        (create_round seed >>= λ id. ret (
          some (
            record {
              round_id = id;
              seed_id = seed.id;
              phase = waiting;
              phase_ends_at = now + phase_ms waiting;
              started_at = none;
              crash_point = seed.crash_point;
            },
            phase_ms waiting,
          )))
        (λ e. if is_unique_violation e then ret none else throw e)

  unfoldable pub enter_waiting : Action (Option AllocatedSeed) → Action (Option (EngineState × ℕ))
  enter_waiting allocate_seed =
      fenced (allocate_seed >>= λ seed. on_option seed (ret none) open_round)

  unfoldable pub enter_betting : EngineState → Action (Option (EngineState × ℕ))
  enter_betting s = fenced (
      date_now >>= λ now.
      update_round s.round_id (λ n. in_phase betting now)
      >> ret (some (to_phase betting now s, phase_ms betting)))

  unfoldable pub enter_running : (ℕ → ℕ) → EngineState → Action (Option (EngineState × ℕ))
  enter_running crash_delay s = fenced (
      date_now >>= λ now.
      update_round s.round_id (λ n r. record (in_phase running now r) { started_at = some now })
      >> ret (
          some
            (record (to_phase running now s) { started_at = some now }, crash_delay s.crash_point)))

  unfoldable pub enter_crashed :
      (ℕ → Action (Unit {0})) → EngineState → Action (Option (EngineState × ℕ))
  enter_crashed reveal_seed s = fenced (
      date_now >>= λ now.
      update_round s.round_id (λ n r. record (in_phase crashed now r) { crashed_at = some n })
      >> reveal_seed s.seed_id
      >> ret (some (to_phase crashed now s, phase_ms crashed)))

  unfoldable pub enter_settling : EngineState → Action (Option (EngineState × ℕ))
  enter_settling s = fenced (
      date_now >>= λ now.
      update_round s.round_id (λ n. in_phase settling now)
      >> ret (some (to_phase settling now s, phase_ms settling)))

  unfoldable pub enter_completed : EngineState → Action (Option (EngineState × ℕ))
  enter_completed s = fenced (
      date_now >>= λ now.
      update_round s.round_id (λ n r. record (in_phase completed now r) { settled_at = some n })
      >> ret (some (to_phase completed now s, phase_ms completed)))
