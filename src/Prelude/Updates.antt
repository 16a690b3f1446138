-- ===== src/Prelude/Updates.antt =====
-- What an update of rows does to a query.

use mathlib.Core.Path.{◌≡◌, refl, sym, ap, ◌∙◌}
use mathlib.Core.Logic.{inl, inr}
use mathlib.Core.Bool.{Bool, true, false}
use mathlib.Core.Option.{some}
use mathlib.Core.List.{List, [], ◌∷◌}
use native.Mathlib.Omega.{arith}
use vault_runner_api.Prelude.Tests.{◌==◌, Bool-cases}
use vault_runner_api.Prelude.Lists.{find, update_where, count_where}

module _ {A : Type 0} (p q : A → Bool) where
  found_first : (b x : A) (xs : List A) → p x ≡ true → find p (x ∷ xs) ≡ some b → x ≡ b
  found_first b x xs hit h = ground arith

  pub find-update_where :
      (f : A → A) (b : A) (xs : List A)
      → ((a : A) → p (f a) ≡ p a)
      → q b ≡ true
      → find p xs ≡ some b
      → find p (update_where q f xs) ≡ some (f b)
  find-update_where f b [] k e h = ground arith
  find-update_where f b (x ∷ xs) k e h = elim (Bool-cases (p x)) [
    | inl here ↦
        let same = found_first b x xs here h in rw (same, e, k b, sym (ap p same) ∙ here) refl
    | inr other ↦ elim (Bool-cases (q x)) [
      | inl hit ↦ rw (hit, k x, other) (find-update_where f b xs k e (ground arith))
      | inr miss ↦ rw (miss, other) (find-update_where f b xs k e (ground arith))
    ]
  ]

  pub count_where-find :
      (b : A) (xs : List A) → q b ≡ true → find p xs ≡ some b → (count_where q xs == 0) ≡ false
  count_where-find b [] e h = ground arith
  count_where-find b (x ∷ xs) e h = ground (arith, count_where-find b xs)
