-- ===== src/Fairness/Epochs/Serving/Allocated.antt =====
-- The seeds that rounds are given, however the calls of the service overlap.
use vault_runner_api.Prelude.{ℕ, Option, none, some, List, [], ◌∷◌, map, arith, refl}
use mathlib.Core.List.{Memᴰ}
use mathlib.Core.Option as Option
use vault_runner_api.Prelude.Members.{All}
use vault_runner_api.Prog.{ret, ◌>>◌}
use vault_runner_api.Prog.Schedule.{interleave}
use vault_runner_api.Prog.Safe.{Safe, Safe-ret, Safe-bind}
use vault_runner_api.Prog.Among.{AllSafe, interleave-Safe, AllSafe-answer}
use vault_runner_api.World.{Text}
use vault_runner_api.Fairness.Epochs.{FairnessDb, FairnessAction, Sources}
use vault_runner_api.Fairness.Epochs.Serving.{
  ServiceCall, allocates, maintains, clock, takes, reveals, ServedSeed, take_seed, reveal_seed,
  serve,
}
use vault_runner_api.Fairness.Epochs.Serving.Booted.{IsBooted}
use vault_runner_api.Fairness.Epochs.Serving.Rows.{Kept, Later, overlap}
use vault_runner_api.Fairness.Epochs.Serving.Served.{AnyError, quiet_safe}
use vault_runner_api.Fairness.Epochs.Serving.Granted.{
  IsGranted, Grants, IsGranted-Later, allocate_seed_safe, maintain_safe,
}

-- The settings of the nodes on which the salt provider is asked.
abbrev pub nodes : List ServiceCall → List Sources
nodes [] = []
nodes (allocates x ∷ cs) = x ∷ nodes cs
nodes (maintains node x ∷ cs) = x ∷ nodes cs
nodes (_ ∷ cs) = nodes cs

-- The boot guard let the node of the call start.
abbrev pub OnBooted : ServiceCall → Type 0
OnBooted (allocates x) = IsBooted x
OnBooted (maintains node x) = IsBooted x
OnBooted _ = Unit

abbrev pub no_epochs : ℕ → FairnessDb
no_epochs now = record {
  chains = [];
  seeds = [];
  events = [];
  next_id = 0;
  now = now;
  maintaining = [];
}

abbrev Answer : Type 0
Answer = Option (Sources × ServedSeed)

module _ (sha256_hex : Text → Text) (xs : List Sources) where
  abbrev Answered : FairnessDb → Answer → Type 0
  Answered s none = Unit
  Answered s (some (x, served)) = IsGranted xs x s served

  Answered-Later : (a : Answer) (s t : FairnessDb) → Later s t → Answered s a → Answered t a
  Answered-Later none s t past h = tt
  Answered-Later (some (x, served)) s t past h = IsGranted-Later xs x s t served past h

  quiet_answer :
      (m : FairnessAction (Unit {0})) (s : FairnessDb)
      → Safe (overlap xs) AnyError (λ _ _. Unit) m s
      → Safe (overlap xs) AnyError Answered (m >> ret none) s
  quiet_answer m s h = Safe-bind m _ s h (λ _ t _ _. Safe-ret none t tt)

  to_answer :
      (x : Sources) (o : Option ServedSeed) (t : FairnessDb)
      → Grants xs x t o
      → Safe (overlap xs) AnyError Answered (ret (Option.map (λ u. (x, u)) o)) t
  to_answer x none t h = Safe-ret none t tt
  to_answer x (some served) t h = Safe-ret (some (x, served)) t h

  serve_safe :
      (c : ServiceCall) (s : FairnessDb)
      → ((x : Sources) → Memᴰ x (nodes (c ∷ [])) → Memᴰ x xs)
      → OnBooted c
      → Safe (overlap xs) AnyError Answered (serve sha256_hex c) s
  unfolding take_seed reveal_seed
  serve_safe (allocates x) s among booted =
      Safe-bind _ _ s (allocate_seed_safe sha256_hex xs x (among x (Memᴰ.head refl)) booted s)
        (λ o t _ granted. to_answer x o t granted)
  serve_safe (maintains node x) s among booted =
      quiet_answer _ s (maintain_safe sha256_hex xs x (among x (Memᴰ.head refl)) booted node s)
  serve_safe (clock now) s among booted =
      quiet_answer _ s (quiet_safe xs _ s (λ t. refl) (λ t. omega arith))
  serve_safe (takes id) s among booted =
      quiet_answer _ s (quiet_safe xs _ s (λ t. refl) (λ t. omega arith))
  serve_safe (reveals id) s among booted =
      quiet_answer _ s (quiet_safe xs _ s (λ t. refl) (λ t. omega arith))

  first_node :
      (c : ServiceCall) (cs : List ServiceCall) (x : Sources)
      → Memᴰ x (nodes (c ∷ []))
      → Memᴰ x (nodes (c ∷ cs))
  first_node (allocates y) cs x (Memᴰ.head e) = Memᴰ.head e
  first_node (allocates y) cs x (Memᴰ.tail m) = elim m [ ]
  first_node (maintains node y) cs x (Memᴰ.head e) = Memᴰ.head e
  first_node (maintains node y) cs x (Memᴰ.tail m) = elim m [ ]
  first_node (clock now) cs x m = elim m [ ]
  first_node (takes id) cs x m = elim m [ ]
  first_node (reveals id) cs x m = elim m [ ]

  later_node :
      (c : ServiceCall) (cs : List ServiceCall) (x : Sources)
      → Memᴰ x (nodes cs)
      → Memᴰ x (nodes (c ∷ cs))
  later_node (allocates y) cs x m = Memᴰ.tail m
  later_node (maintains node y) cs x m = Memᴰ.tail m
  later_node (clock now) cs x m = m
  later_node (takes id) cs x m = m
  later_node (reveals id) cs x m = m

  all_safe :
      (cs : List ServiceCall) (s : FairnessDb)
      → ((x : Sources) → Memᴰ x (nodes cs) → Memᴰ x xs)
      → All OnBooted cs
      → AllSafe (overlap xs) AnyError Answered Answered-Later (map (serve sha256_hex) cs) s
  all_safe [] s among booted = tt
  all_safe (c ∷ cs) s among booted = (
    (serve_safe c s (λ x m. among x (first_node c cs x m)) booted.0).all,
    all_safe cs s (λ x m. among x (later_node c cs x m)) booted.1,
  )

no_epochs-Kept : (xs : List Sources) (now : ℕ) → Kept xs (no_epochs now)
no_epochs-Kept xs now = record {
  unique = λ c m. elim m [ ];
  fresh = λ c m. elim m [ ];
  rows = λ c m. elim m [ ];
}

-- From a database with no epochs on, and whatever calls of the service run on nodes that the
-- boot guard let start, of whatever modes and providers and as many as you like, and however
-- their single actions interleave, so that `maintain` overlaps `allocateSeed`: a seed that
-- `allocateSeed` answers on a node is not the public one of its chain, no round had it when it
-- was read, and it comes with a known salt; in strict mode its epoch is one of a block; and the
-- salt of an epoch of a block is the hash of the block that the epoch was committed to, which
-- more than half of the RPCs of one of the nodes report as finalized.
pub allocate_seed-IsGranted :
    (sha256_hex : Text → Text) (calls : List ServiceCall) (sched : List ℕ) (now : ℕ) (x : Sources)
    (served : ServedSeed)
    → All OnBooted calls
    → Memᴰ
        (ret (some (x, served)))
        (interleave sched (map (serve sha256_hex) calls) (no_epochs now)).0
    → IsGranted
        (nodes calls)
        x
        (interleave sched (map (serve sha256_hex) calls) (no_epochs now)).1
        served
allocate_seed-IsGranted sha256_hex calls sched now x served booted answered =
    let xs = nodes calls in
    let ps = map (serve sha256_hex) calls in
    let (safe, _) =
      interleave-Safe (overlap xs) AnyError (Answered sha256_hex xs) (Answered-Later sha256_hex xs)
        sched ps (no_epochs now) (all_safe sha256_hex xs calls (no_epochs now) (λ y m. m) booted)
        (no_epochs-Kept xs now) in
    AllSafe-answer (overlap xs) AnyError (Answered sha256_hex xs) (Answered-Later sha256_hex xs)
      (interleave sched ps (no_epochs now)).0 (interleave sched ps (no_epochs now)).1
      (some (x, served)) safe answered
