-- ===== src/Fairness/Epochs/Views/Hidden.antt =====
-- What the public views do not depend on.
use vault_runner_api.Prelude.{
  ℕ, Bool, Option, none, some, List, [], ◌∷◌, map, ◌==◌, find, select, count_where, is_some,
  if◌then◌else◌, leb, ◌≡◌, refl, ap, inl, inr, arith, Bool-cases, Option-cases,
}
use mathlib.Core.Option as Option
use vault_runner_api.Prelude.Sorted.{insert, sort}
use vault_runner_api.World.{Text}
use vault_runner_api.Fairness.Epochs.{
  Chain, Seed, FairnessDb, first_asc, first_desc, in_status, find_active, active,
}
use vault_runner_api.Fairness.Epochs.Serving.{is_queued}
use vault_runner_api.Fairness.Epochs.Views.{
  is_revealed, salt_public, public_salt, to_next, to_commit, to_entry, to_epoch_seeds,
  get_current_commit, list_epochs, epoch_seeds,
}

module _ (other_text : Text → Text) (other_salt : Text → Text) where
  -- A seed that is not revealed, with other texts.
  abbrev pub disguise_seed : Seed → Seed
  disguise_seed s = record s {
    seed = if is_some s.revealed_at then s.seed else other_text s.seed;
    seed_hash = if is_some s.revealed_at then s.seed_hash else other_text s.seed_hash;
  }

  -- An epoch that is not served yet, with another salt.
  abbrev pub disguise_chain : Chain → Chain
  disguise_chain c = record c {
    salt = if salt_public c.status then c.salt else Option.map other_salt c.salt;
  }

  abbrev pub disguise : FairnessDb → FairnessDb
  disguise db = record db {
    chains = map disguise_chain db.chains;
    seeds = map disguise_seed db.seeds;
  }

  select-disguise :
      (id : ℕ) (ss : List Seed)
      → select (is_revealed id) (map disguise_seed ss) ≡ select (is_revealed id) ss
  select-disguise id [] = refl
  select-disguise id (s ∷ ss) = elim (Bool-cases (is_some s.revealed_at)) [
    | inl shown ↦ rw (shown, select-disguise id ss) refl
    | inr hidden ↦ rw (hidden, select-disguise id ss) (ground arith)
  ]

  count-disguise :
      (id : ℕ) (ss : List Seed)
      → count_where (is_revealed id) (map disguise_seed ss) ≡ count_where (is_revealed id) ss
  count-disguise id [] = refl
  count-disguise id (s ∷ ss) = rw (count-disguise id ss) refl

  -- A query that does not read the salt.
  module _ (p : Chain → Bool) (blind : (c : Chain) → p (disguise_chain c) ≡ p c) where
    first_asc-disguise :
        (cs : List Chain)
        → first_asc p (map disguise_chain cs) ≡ Option.map disguise_chain (first_asc p cs)
    first_asc-disguise [] = refl
    first_asc-disguise (c ∷ cs) = elim (Option-cases (first_asc p cs)) [
      | inl nothing ↦ rw (blind c, first_asc-disguise cs, nothing) (ground arith)
      | inr (d, e) ↦ rw (blind c, first_asc-disguise cs, e) (ground arith)
    ]

    first_desc-disguise :
        (cs : List Chain)
        → first_desc p (map disguise_chain cs) ≡ Option.map disguise_chain (first_desc p cs)
    first_desc-disguise [] = refl
    first_desc-disguise (c ∷ cs) = elim (Option-cases (first_desc p cs)) [
      | inl nothing ↦ rw (blind c, first_desc-disguise cs, nothing) (ground arith)
      | inr (d, e) ↦ rw (blind c, first_desc-disguise cs, e) (ground arith)
    ]

    find-disguise :
        (cs : List Chain) → find p (map disguise_chain cs) ≡ Option.map disguise_chain (find p cs)
    find-disguise [] = refl
    find-disguise (c ∷ cs) = rw (blind c, find-disguise cs) (ground arith)

  abbrev in_order : Chain → Chain → Bool
  in_order c d = leb c.epoch d.epoch

  insert-disguise :
      (c : Chain) (cs : List Chain)
      → insert in_order (disguise_chain c) (map disguise_chain cs)
        ≡ map disguise_chain (insert in_order c cs)
  insert-disguise c [] = refl
  insert-disguise c (d ∷ cs) = rw (insert-disguise c cs) (ground arith)

  sort-disguise :
      (cs : List Chain)
      → sort in_order (map disguise_chain cs) ≡ map disguise_chain (sort in_order cs)
  sort-disguise [] = refl
  sort-disguise (c ∷ cs) = rw (sort-disguise cs) (insert-disguise c (sort in_order cs))

  public_salt-disguise : (c : Chain) → public_salt (disguise_chain c) ≡ public_salt c
  public_salt-disguise c = ground arith

  map-row :
      {A : Type 0} (f g : Chain → A)
      → ((c : Chain) → f (disguise_chain c) ≡ g c)
      → (o : Option Chain) → Option.map f (Option.map disguise_chain o) ≡ Option.map g o
  map-row f g same none = refl
  map-row f g same (some c) = ap some (same c)

  map-rows :
      {A : Type 0} (f g : Chain → A)
      → ((c : Chain) → f (disguise_chain c) ≡ g c)
      → (cs : List Chain) → map f (map disguise_chain cs) ≡ map g cs
  map-rows f g same [] = refl
  map-rows f g same (c ∷ cs) = rw (same c, map-rows f g same cs) refl

  module _ (db : FairnessDb) where
    to_epoch_seeds-disguise :
        (c : Chain) → to_epoch_seeds (disguise db) (disguise_chain c) ≡ to_epoch_seeds db c
    to_epoch_seeds-disguise c = rw (select-disguise c.id db.seeds, public_salt-disguise c) refl

    epoch_seeds_hidden : (epoch : ℕ) → epoch_seeds epoch (disguise db) ≡ epoch_seeds epoch db
    unfolding epoch_seeds
    epoch_seeds_hidden epoch = rw (find-disguise (λ c. c.epoch == epoch) (λ c. refl) db.chains) (
        map-row (to_epoch_seeds (disguise db)) (to_epoch_seeds db) to_epoch_seeds-disguise
          (find (λ c. c.epoch == epoch) db.chains))

  module _ (sha256_of_utf8 : Text → Text)
      (same_hash : (s : Text) → sha256_of_utf8 (other_salt s) ≡ sha256_of_utf8 s)
      (db : FairnessDb) where
    salt_hash-disguise :
        (c : Chain)
        → Option.map sha256_of_utf8 (disguise_chain c).salt ≡ Option.map sha256_of_utf8 c.salt
    salt_hash-disguise c = elim (Option-cases c.salt) [
      | inl unknown ↦ rw unknown (ground arith)
      | inr (s, e) ↦ rw e (ground (arith, same_hash s))
    ]

    to_commit-disguise :
        (c : Chain)
        → to_commit sha256_of_utf8 (disguise db) (disguise_chain c) ≡ to_commit sha256_of_utf8 db c
    to_commit-disguise c =
        rw
          (
            salt_hash-disguise c,
            count-disguise c.id db.seeds,
            first_asc-disguise is_queued (λ c. refl) db.chains,
            map-row to_next to_next (λ c. refl) (first_asc is_queued db.chains),
          )
          refl

    current_commit_hidden :
        get_current_commit sha256_of_utf8 (disguise db) ≡ get_current_commit sha256_of_utf8 db
    unfolding get_current_commit find_active
    current_commit_hidden = rw (first_desc-disguise (in_status active) (λ c. refl) db.chains) (
        map-row (to_commit sha256_of_utf8 (disguise db)) (to_commit sha256_of_utf8 db)
          to_commit-disguise (first_desc (in_status active) db.chains))

    to_entry-disguise :
        (c : Chain)
        → to_entry sha256_of_utf8 (disguise db) (disguise_chain c) ≡ to_entry sha256_of_utf8 db c
    to_entry-disguise c =
        rw (salt_hash-disguise c, count-disguise c.id db.seeds, public_salt-disguise c) refl

    list_epochs_hidden : list_epochs sha256_of_utf8 (disguise db) ≡ list_epochs sha256_of_utf8 db
    unfolding list_epochs
    list_epochs_hidden = rw (sort-disguise db.chains) (
        map-rows (to_entry sha256_of_utf8 (disguise db)) (to_entry sha256_of_utf8 db)
          to_entry-disguise (sort in_order db.chains))

    -- Whatever texts the seeds have that are not revealed, and whatever salt of the same hash an
    -- epoch has that is not served yet, the current commitment, the list of the epochs and the
    -- seeds of an epoch are shown the same.
    pub views_hidden :
        (epoch : ℕ)
        → (get_current_commit sha256_of_utf8 (disguise db) ≡ get_current_commit sha256_of_utf8 db)
          × (list_epochs sha256_of_utf8 (disguise db) ≡ list_epochs sha256_of_utf8 db)
          × (epoch_seeds epoch (disguise db) ≡ epoch_seeds epoch db)
    views_hidden epoch = (current_commit_hidden, list_epochs_hidden, epoch_seeds_hidden db epoch)
