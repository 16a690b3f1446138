-- ===== src/Fairness/Epochs/Serving/Granted.antt =====
-- The seeds that are given, and the upkeep, while other calls act.
use vault_runner_api.Prelude.{
  ℕ, ◌≤◌, Bool, true, false, Option, none, some, List, [], ◌∷◌, ◌==◌, is_some, find, select, ltb,
  true-false, ◌≡◌, refl, sym, ap, ◌∙◌, arith, inl, inr, Option-cases, Bool-cases,
}
use mathlib.Core.List.{Memᴰ}
use vault_runner_api.Prelude.Sorted.{insert, sort}
use vault_runner_api.Prelude.Members.{All, first_by, first_by-Mem, find-Mem}
use vault_runner_api.Prog.Safe.{
  Safe, Safe-ret, Safe-throw, Safe-read, Safe-write, Safe-atom, Safe-if, Safe-option, Safe-bind,
  Safe-try_catch, Safe-for_each,
}
use vault_runner_api.World.{Text}
use vault_runner_api.Fairness.Salt.{is_eth_block}
use vault_runner_api.Fairness.Epochs.Serving.Booted.{IsBooted}
use vault_runner_api.Fairness.Epochs.{
  pending, active, Chain, FairnessDb, has_chain_id, in_status, find_active, is_unused,
  next_unused_seed, Sources,
}
use vault_runner_api.Fairness.Epochs.Serving.{
  try_resolve, armed_with, ServedSeed, read_seed, arm_pending, start_pass, end_pass, roll_over,
  allocate_seed, commit_next, maintain,
}
use vault_runner_api.Fairness.Epochs.Serving.Rows.{BlockHash, Later, overlap, unchanged}
use vault_runner_api.Fairness.Epochs.Serving.Served.{
  AnyError, Seen, Seen-Later, CanServe, CanServe-Later, query_safe, quiet_safe, retire_safe,
  try_resolve-Resolves, salted-Kept,
}
use vault_runner_api.Fairness.Epochs.Serving.Opened.{create_epoch_safe}
use vault_runner_api.Fairness.Epochs.Serving.Ensured.{ensure_active_chain_safe}

module _ (xs : List Sources) (x : Sources) where
  -- The seed is not the public one of its chain, no round had it when it was read, and its salt is that of an epoch that may serve.
  abbrev pub IsGranted : FairnessDb → ServedSeed → Type 0
  IsGranted s served =
      (1 ≤ served.seed.chain_index)
      × (served.seed.taken ≡ false)
      × (c : Chain) × (find (has_chain_id served.seed.chain_id) s.chains ≡ some c)
      × (x.strict ≡ true → is_eth_block c.salt_source ≡ true)
      × (h : Text) × (served.salt ≡ some h)
      × (is_eth_block c.salt_source ≡ true → (t : ℕ) × (c.target_block ≡ some t) × BlockHash xs t h)

  pub IsGranted-Later :
      (s t : FairnessDb) (served : ServedSeed) → Later s t → IsGranted s served → IsGranted t served
  IsGranted-Later s t served past (index, free, c, found, block, h, has, hash) =
      let (d, found', (source, target, _)) = past served.seed.chain_id c found in
      (
        index,
        free,
        d,
        found',
        λ strict. ap is_eth_block source ∙ block strict,
        h,
        has,
        λ eth.
            let (n, at_block, known) = hash (ap is_eth_block (sym source) ∙ eth) in
            (n, target ∙ at_block, known),
      )

  abbrev pub Grants : FairnessDb → Option ServedSeed → Type 0
  Grants s none = Unit
  Grants s (some served) = IsGranted s served

module _ (sha256_hex : Text → Text) (xs : List Sources) (x : Sources) (here : Memᴰ x xs)
    (booted : IsBooted x) where
  -- The seed that is read, with the salt of its epoch.
  read_seed_safe :
      (id : ℕ) (s : FairnessDb)
      → CanServe xs x s id
      → Safe (overlap xs) AnyError (Grants xs x) (read_seed id) s
  unfolding read_seed next_unused_seed
  read_seed_safe id s serves = Safe-read _ s λ t past kept.
      let (d, found, salted, block) = CanServe-Later xs x s t id past serves in
      let there = (find-Mem (has_chain_id id) d t.chains found).0 in
      elim (Option-cases
        (first_by (is_unused id) (λ a b. ltb a.chain_index b.chain_index) t.seeds)) [
          | inl nothing ↦ rw nothing tt
          | inr (seed, e) ↦
              let hit = (first_by-Mem (is_unused id) _ seed t.seeds e).1 in
              let own : seed.chain_id ≡ id = ground arith in
              let index : 1 ≤ seed.chain_index = ground arith in
              let free : seed.taken ≡ false = ground arith in
              elim (Option-cases d.salt) [
                | inl missing ↦ elim (true-false (sym salted ∙ ap is_some missing)) [ ]
                | inr (h, has) ↦
                    rw (e, own, found)
                      (
                        index,
                        free,
                        d,
                        refl,
                        block,
                        h,
                        has,
                        λ eth. (kept.rows d there).by_block eth h has,
                      )
              ]
        ]

  roll_over_safe :
      (c : Chain) (s : FairnessDb)
      → Safe (overlap xs) AnyError (Grants xs x) (roll_over sha256_hex x c) s
  unfolding roll_over
  roll_over_safe c s = Safe-bind _ _ s (retire_safe xs c s) λ _ t _ _.
      Safe-bind _ _ t (ensure_active_chain_safe sha256_hex xs x here booted t) λ o v _ serves.
        Safe-option o _ _ v (λ _. Safe-ret none v tt)
          λ n e. Safe-bind _ _ v (read_seed_safe n.id v (rw e at serves)) λ q w _ granted.
            Safe-option q _ _ w (λ _. Safe-throw _ w tt)
              (λ seed e'. Safe-ret (some seed) w (rw e' at granted))

  pub allocate_seed_safe :
      (s : FairnessDb) → Safe (overlap xs) AnyError (Grants xs x) (allocate_seed sha256_hex x) s
  unfolding allocate_seed
  allocate_seed_safe s =
      Safe-bind _ _ s (ensure_active_chain_safe sha256_hex xs x here booted s) λ o t _ serves.
        Safe-option o _ _ t (λ _. Safe-ret none t tt)
          λ c e. Safe-bind _ _ t (read_seed_safe c.id t (rw e at serves)) λ q v _ granted.
            Safe-option q _ _ v (λ _. roll_over_safe c v)
              (λ seed e'. Safe-ret (some seed) v (rw e' at granted))

  arm_pending_safe :
      (c : Chain) (s : FairnessDb)
      → Seen xs c s
      → Safe (overlap xs) AnyError (λ _ _. Unit) (arm_pending x c) s
  unfolding arm_pending
  arm_pending_safe c s seen =
      Safe-option (try_resolve x c) _ _ s (λ _. Safe-ret tt s tt)
        λ h e.
          let resolves = try_resolve-Resolves xs x c h here booted seen.0.by_block e in
          Safe-bind {P = λ _ _. Unit} _ _ s
            (Safe-write _ s λ t past kept. (
              salted-Kept xs t kept c h (armed_with h t.now) (Seen-Later xs c s t past seen)
                  resolves
                  (record { same_id = λ d. refl; same_row = λ d. (refl, refl, λ has. refl) })
                  (λ d. refl) (λ d e. ground arith),
              tt,
            ))
            (λ _ t _ _. quiet_safe xs _ t (λ v. refl) (λ v. omega arith))

  commit_next_safe :
      (s : FairnessDb) → Safe (overlap xs) AnyError (λ _ _. Unit) (commit_next sha256_hex x) s
  unfolding commit_next find_active
  commit_next_safe s = Safe-bind _ _ s (query_safe xs (in_status active) _ s) λ o t _ _.
      Safe-option o _ _ t (λ _. Safe-ret tt t tt)
        λ c _. Safe-bind {P = λ _ _. Unit} _ _ t (Safe-read _ t (λ v past kept. tt)) λ queued v _ _.
          Safe-if (queued == 0) _ _ v
            (λ _.
              Safe-bind _ _ v (create_epoch_safe xs x booted sha256_hex false v)
                (λ _ w _ _. Safe-ret tt w tt))
            (λ _. Safe-ret tt v tt)

  module _ (s : FairnessDb) where
    insert-All :
        (before : Chain → Chain → Bool) (c : Chain) (cs : List Chain)
        → Seen xs c s
        → All (λ d. Seen xs d s) cs
        → All (λ d. Seen xs d s) (insert before c cs)
    insert-All before c [] h k = (h, tt)
    insert-All before c (d ∷ cs) h k = elim (Bool-cases (before c d)) [
      | inl first ↦ rw first (h, k)
      | inr later ↦ rw later (k.0, insert-All before c cs h k.1)
    ]

    due-All :
        (before : Chain → Chain → Bool) (cs : List Chain)
        → ((c : Chain) → Memᴰ c cs → Seen xs c s)
        → All (λ d. Seen xs d s) (sort before (select (in_status pending) cs))
    due-All before [] h = tt
    due-All before (c ∷ cs) h =
        let rest = due-All before cs (λ d m. h d (Memᴰ.tail m)) in
        elim (Bool-cases (in_status pending c)) [
          | inl waits ↦ rw waits (insert-All before c _ (h c (Memᴰ.head refl)) rest)
          | inr other ↦ rw other rest
        ]

  pub maintain_safe :
      (node : ℕ) (s : FairnessDb)
      → Safe (overlap xs) AnyError (λ _ _. Unit) (maintain sha256_hex node x) s
  unfolding maintain start_pass end_pass
  maintain_safe node s =
      Safe-bind {P = λ _ _. Unit} _ _ s
        (Safe-atom _ s λ t past kept.
          elim (Bool-cases (is_some (find (λ n. n == node) t.maintaining))) [
            | inl busy ↦
                rw busy
                  ((kept, λ i e found. (e, found, (refl, refl, λ h. h))), λ a e. tt, λ e h. tt)
            | inr idle ↦ rw idle (unchanged xs t kept _ refl (omega arith), λ a e. tt, λ e h. tt)
          ])
        λ mine t _ _.
          Safe-if mine _ _ t
            (λ _.
              Safe-bind _ _ t
                (Safe-try_catch {X = AnyError} _ _ t
                  (Safe-bind {P = λ v cs. All (λ c. Seen xs c v) cs} _ _ t
                    (Safe-read _ t λ v past kept.
                      due-All v _ v.chains
                        (λ c m. (kept.rows c m, c, kept.unique c m, (refl, refl, λ h. h))))
                    λ cs v _ seen.
                      Safe-bind _ _ v
                        (Safe-for_each (λ c w. Seen xs c w) (λ c a b. Seen-Later xs c a b) cs
                          (arm_pending x) v arm_pending_safe seen)
                        (λ _ w _ _. commit_next_safe w))
                  (λ e v _. Safe-ret tt v tt))
                (λ _ v _ _. quiet_safe xs _ v (λ w. refl) (λ w. omega arith)))
            (λ _. Safe-ret tt t tt)
