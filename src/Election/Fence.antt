-- ===== src/Election/Fence.antt =====
-- The fence: at most one node is authoritative, and the one that was promoted last.
use vault_runner_api.Prelude.{
  ℕ, ◌+◌, ◌≡◌, ◌≢◌, ◌≤◌, Bool, true, false, some, List, [], ◌∷◌, if◌then◌else◌, arith,
}
use vault_runner_api.Election.{
  Cluster, Outcome, answered, lost_before, lost_after_lock, Event, tick, beat, step_down, shutdown,
  session_dies, close, promote, try_acquire, tick_node, demote, beat_node, shutdown_node,
  assert_still_leader, step, run_events, initial,
}

-- No fence that a node has is above the row's, and no two nodes have the same one.
pub record IsFenced (c : Cluster) : Type 0 where
  pub bounded : (n f : ℕ) → (c.nodes n).my_fence ≡ some f → f ≤ c.fence
  pub unique : (m n f : ℕ) → (c.nodes m).my_fence ≡ some f → (c.nodes n).my_fence ≡ some f → m ≡ n

-- A step after which every node has the fence that it had, or none.
Forgets : Cluster → Cluster → Type 0
Forgets c d =
    (d.fence ≡ c.fence)
    × ((n f : ℕ) → (d.nodes n).my_fence ≡ some f → (c.nodes n).my_fence ≡ some f)

Forgets-IsFenced : (c d : Cluster) → Forgets c d → IsFenced c → IsFenced d
unfolding Forgets
Forgets-IsFenced c d (same, kept) h = record {
  bounded = λ n f e. rw same (h.bounded n f (kept n f e));
  unique = λ m n f e e'. h.unique m n f (kept m f e) (kept n f e');
}

promote-IsFenced : (n : ℕ) (c : Cluster) → IsFenced c → IsFenced (promote n c)
unfolding promote
promote-IsFenced n c h = record {
  bounded = λ m f e. ground (arith, h.bounded m f);
  unique = λ m k f e e'. ground (arith, h.bounded m f, h.bounded k f, h.unique m k f);
}

close-Forgets : (n : ℕ) (c : Cluster) → Forgets c (close n c)
unfolding Forgets close
close-Forgets n c = (ground arith, λ m f e. ground arith)

demote-Forgets : (n : ℕ) (c : Cluster) → Forgets c (demote n c)
unfolding Forgets close demote
demote-Forgets n c = (ground arith, λ m f e. ground arith)

shutdown-Forgets : (n : ℕ) (c : Cluster) → Forgets c (shutdown_node n c)
unfolding Forgets close shutdown_node
shutdown-Forgets n c = (ground arith, λ m f e. ground arith)

take_lock-IsFenced :
    (n : ℕ) (free : Bool) (c : Cluster)
    → IsFenced c
    → IsFenced (if free then record c { holder = some n } else c)
take_lock-IsFenced n true c h = record { bounded = h.bounded; unique = h.unique }
take_lock-IsFenced n false c h = h

take_fence-IsFenced :
    (n : ℕ) (free : Bool) (c : Cluster) → IsFenced c → IsFenced (if free then promote n c else c)
take_fence-IsFenced n true c h = promote-IsFenced n c h
take_fence-IsFenced n false c h = h

try_acquire-IsFenced :
    (n : ℕ) (o : Outcome) (c : Cluster) → IsFenced c → IsFenced (try_acquire n o c)
unfolding try_acquire
try_acquire-IsFenced n answered c h = take_fence-IsFenced n _ c h
try_acquire-IsFenced n lost_before c h = h
try_acquire-IsFenced n lost_after_lock c h = take_lock-IsFenced n _ c h

if-IsFenced : (b : Bool) (c d : Cluster) → IsFenced c → IsFenced d → IsFenced (if b then c else d)
if-IsFenced true c d h k = h
if-IsFenced false c d h k = k

tick-IsFenced : (n : ℕ) (o : Outcome) (c : Cluster) → IsFenced c → IsFenced (tick_node n o c)
unfolding tick_node try_acquire
tick-IsFenced n o c h = if-IsFenced _ c _ h (try_acquire-IsFenced n o c h)

beat-IsFenced : (n : ℕ) (ok : Bool) (c : Cluster) → IsFenced c → IsFenced (beat_node n ok c)
unfolding beat_node
beat-IsFenced n ok c h =
    if-IsFenced _ c _ h (if-IsFenced _ c _ h (Forgets-IsFenced c _ (demote-Forgets n c) h))

-- Every step keeps the fences in order.
pub step-IsFenced : (e : Event) (c : Cluster) → IsFenced c → IsFenced (step e c)
unfolding step
step-IsFenced (tick n o) c h = tick-IsFenced n o c h
step-IsFenced (beat n ok) c h = beat-IsFenced n ok c h
step-IsFenced (step_down n) c h = Forgets-IsFenced c _ (demote-Forgets n c) h
step-IsFenced (shutdown n) c h = Forgets-IsFenced c _ (shutdown-Forgets n c) h
step-IsFenced (session_dies n) c h = Forgets-IsFenced c _ (close-Forgets n c) h

run_events-IsFenced : (es : List Event) (c : Cluster) → IsFenced c → IsFenced (run_events es c)
unfolding run_events
run_events-IsFenced [] c h = h
run_events-IsFenced (e ∷ es) c h = run_events-IsFenced es (step e c) (step-IsFenced e c h)

initial-IsFenced : (fence : ℕ) → IsFenced (initial fence)
initial-IsFenced fence = record { bounded = λ n f e. cc; unique = λ m n f e e'. cc }

authoritative :
    (c : Cluster) (m n : ℕ)
    → IsFenced c
    → assert_still_leader m c ≡ true
    → assert_still_leader n c ≡ true
    → m ≡ n
unfolding assert_still_leader
authoritative c m n h k l = ground (arith, h.unique m n c.fence)

outdated :
    (c : Cluster) (n m : ℕ)
    → m ≢ n
    → IsFenced c
    → (assert_still_leader n (promote n c) ≡ true) × (assert_still_leader m (promote n c) ≡ false)
unfolding assert_still_leader promote
outdated c n m other h = (ground arith, ground (arith, h.bounded m (c.fence + 1)))

-- After whatever steps of however many nodes, with sessions that die and calls that fail at any
-- point, no two nodes pass the fence check.
pub one_authoritative_leader :
    (fence : ℕ) (es : List Event) (m n : ℕ)
    → assert_still_leader m (run_events es (initial fence)) ≡ true
    → assert_still_leader n (run_events es (initial fence)) ≡ true
    → m ≡ n
one_authoritative_leader fence es m n h k =
    authoritative (run_events es (initial fence)) m n
      (run_events-IsFenced es (initial fence) (initial-IsFenced fence)) h k

-- A node that is promoted passes the fence check, and from then on every other node fails it.
pub promoted_outdates :
    (fence : ℕ) (es : List Event) (n m : ℕ)
    → m ≢ n
    → (assert_still_leader n (promote n (run_events es (initial fence))) ≡ true)
      × (assert_still_leader m (promote n (run_events es (initial fence))) ≡ false)
promoted_outdates fence es n m other =
    outdated (run_events es (initial fence)) n m other
      (run_events-IsFenced es (initial fence) (initial-IsFenced fence))
