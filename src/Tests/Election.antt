-- ===== src/Tests/Election.antt =====
-- Two nodes that fight for the lock.
use vault_runner_api.Prelude.{ℕ, [], ◌∷◌, List, true, false, ◌≡◌, ◌≢◌, refl, arith}
use vault_runner_api.Election.{
  Event, tick, session_dies, answered, initial, run_events, step, tick_node, try_acquire, promote,
  close, assert_still_leader,
}
use vault_runner_api.Election.Fence.{one_authoritative_leader, promoted_outdates}

-- Node 1 leads, loses its session, and node 2 takes over before node 1's heartbeat.
abbrev takeover : List Event
takeover = tick 1 answered ∷ tick 2 answered ∷ session_dies 1 ∷ tick 2 answered ∷ []

leads : assert_still_leader 2 (run_events takeover (initial 0)) ≡ true
unfolding assert_still_leader run_events step tick_node try_acquire promote close
leads = refl

one_authoritative_leader_example : ◌≡◌ {A = ℕ} 2 2
one_authoritative_leader_example = one_authoritative_leader 0 takeover 2 2 leads leads

two_not_one : ◌≢◌ {A = ℕ} 1 2
two_not_one e = omega arith

outdated_by_promotion :
    (assert_still_leader 2
        (promote 2 (run_events (tick 1 answered ∷ session_dies 1 ∷ []) (initial 0)))
      ≡ true)
    × (assert_still_leader 1
          (promote 2 (run_events (tick 1 answered ∷ session_dies 1 ∷ []) (initial 0)))
        ≡ false)
outdated_by_promotion = promoted_outdates 0 (tick 1 answered ∷ session_dies 1 ∷ []) 2 1 two_not_one
