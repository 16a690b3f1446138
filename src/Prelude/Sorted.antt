-- ===== src/Prelude/Sorted.antt =====
-- A stable insertion sort, and the search for a key that stands in a list at most once.
use mathlib.Core.Path.{◌≡◌, refl}
use mathlib.Core.Logic.{inl, inr}
use mathlib.Core.Bool.{Bool, true}
use mathlib.Core.Option.{none, some}
use mathlib.Core.List.{List, [], ◌∷◌}
use native.Mathlib.Omega.{arith}
use vault_runner_api.Prelude.Tests.{if◌then◌else◌, Bool-cases}
use vault_runner_api.Prelude.Lists.{find}

module _ {A : Type 0} (p : A → Bool) where
  -- No row after one that passes the test passes it.
  abbrev pub AtMostOnce : List A → Type 0
  AtMostOnce [] = Unit
  AtMostOnce (x ∷ xs) = (p x ≡ true → find p xs ≡ none) × AtMostOnce xs

module _ {A : Type 0} (before : A → A → Bool) where
  abbrev pub insert : A → List A → List A
  insert x [] = x ∷ []
  insert x (y ∷ ys) = if before x y then x ∷ y ∷ ys else y ∷ insert x ys

  -- `.sort(compare)`, which is stable; `before` is whether `compare` is not positive.
  abbrev pub sort : List A → List A
  sort [] = []
  sort (x ∷ xs) = insert x (sort xs)

  module _ (p : A → Bool) where
    find-insert :
        (x : A) (xs : List A)
        → (p x ≡ true → find p xs ≡ none)
        → find p (insert x xs) ≡ (if p x then some x else find p xs)
    find-insert x [] h = refl
    find-insert x (y ∷ ys) h = elim (Bool-cases (before x y)) [
      | inl first ↦ rw first refl
      | inr later ↦ rw later (ground (arith, find-insert x ys))
    ]

    pub find-sort : (xs : List A) → AtMostOnce p xs → find p (sort xs) ≡ find p xs
    find-sort [] h = refl
    find-sort (x ∷ xs) h = elim (Bool-cases (p x)) [
      | inl hit ↦ ground (arith, find-insert x (sort xs), find-sort xs h.1, h.0 hit)
      | inr miss ↦ ground (arith, find-insert x (sort xs), find-sort xs h.1)
    ]
