-- ===== src/Election.antt =====
-- ha/election.service.ts and ha/pg-advisory-lock.ts: which of the nodes leads. The lock is a
-- session advisory lock with a fence that grows; a node that believes that it leads may be stale,
-- since it learns of a dead session only at its next heartbeat. Timers are the order of the steps.
pub mod Fence
use vault_runner_api.Prelude.{
  ℕ, ◌+◌, Bool, true, false, not, ◌&&◌, ◌||◌, Option, none, some, List, [], ◌∷◌, ◌==◌,
  if◌then◌else◌,
}
use vault_runner_api.Prog.{on_option}

-- The fields of one `ElectionService`.
pub record Node : Type 0 where
  pub leader : Bool
  pub my_fence : Option ℕ
  pub stopped : Bool

-- The row of `engine_leadership`, and the session that has the advisory lock.
pub record Cluster : Type 0 where
  pub fence : ℕ
  pub holder : Option ℕ
  pub nodes : ℕ → Node

-- How a call to the database ends, for `try_acquire`: also between the lock and the bump.
pub data Outcome : Type 0 where
  answered lost_before lost_after_lock : Outcome

pub data Event : Type 0 where
  tick : ℕ → Outcome → Event
  beat : ℕ → Bool → Event
  step_down : ℕ → Event
  shutdown : ℕ → Event
  session_dies : ℕ → Event

abbrev pub set_node : ℕ → Node → Cluster → Cluster
set_node n x c = record c { nodes = λ m. if m == n then x else c.nodes m }

abbrev holds : ℕ → Cluster → Bool
holds n c = on_option c.holder false (λ h. h == n)

-- The end of a session, by `close` or by death: the lock is free again.
unfoldable pub close : ℕ → Cluster → Cluster
close n c = if holds n c then record c { holder = none } else c

-- `pg_try_advisory_lock` succeeds where no other session has the lock.
abbrev is_free_for : ℕ → Cluster → Bool
is_free_for n c = on_option c.holder true (λ h. h == n)

unfoldable pub promote : ℕ → Cluster → Cluster
promote n c =
    set_node n (record { leader = true; my_fence = some (c.fence + 1); stopped = false })
      (record c { fence = c.fence + 1; holder = some n })

-- `tryAcquire`, and the promotion where it answers a fence.
unfoldable pub try_acquire : ℕ → Outcome → Cluster → Cluster
try_acquire n answered c = if is_free_for n c then promote n c else c
try_acquire n lost_before c = c
try_acquire n lost_after_lock c = if is_free_for n c then record c { holder = some n } else c

unfoldable pub tick_node : ℕ → Outcome → Cluster → Cluster
tick_node n o c = if (c.nodes n).stopped || (c.nodes n).leader then c else try_acquire n o c

unfoldable pub demote : ℕ → Cluster → Cluster
demote n c =
    if (c.nodes n).leader
    then close n (set_node n (record (c.nodes n) { leader = false; my_fence = none }) c)
    else c

-- The heartbeat throws where the session is dead, or where the database does not answer.
unfoldable pub beat_node : ℕ → Bool → Cluster → Cluster
beat_node n ok c =
    if (c.nodes n).stopped || not (c.nodes n).leader
    then c
    else if ok && holds n c
    then c
    else demote n c

unfoldable pub shutdown_node : ℕ → Cluster → Cluster
shutdown_node n c = close n (set_node n (record (c.nodes n) { leader = false; stopped = true }) c)

-- `assertStillLeader`, the read of the fence answered.
unfoldable pub assert_still_leader : ℕ → Cluster → Bool
assert_still_leader n c =
    (c.nodes n).leader && on_option (c.nodes n).my_fence false (λ f. f == c.fence)

unfoldable pub step : Event → Cluster → Cluster
step (tick n o) c = tick_node n o c
step (beat n ok) c = beat_node n ok c
step (step_down n) c = demote n c
step (shutdown n) c = shutdown_node n c
step (session_dies n) c = close n c

unfoldable pub run_events : List Event → Cluster → Cluster
run_events [] c = c
run_events (e ∷ es) c = run_events es (step e c)

-- Nobody leads, and the fence is the row's as the migration seeds it, or any later one.
abbrev pub initial : ℕ → Cluster
initial fence = record {
  fence = fence;
  holder = none;
  nodes = λ n. record { leader = false; my_fence = none; stopped = false };
}
