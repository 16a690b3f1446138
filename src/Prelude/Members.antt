-- ===== src/Prelude/Members.antt =====
-- Rows of a list, and what holds of all of them.
use mathlib.Core.Path.{◌≡◌, refl, sym, ap, ◌∙◌}
use mathlib.Core.Logic.{◌⊎◌, inl, inr}
use mathlib.Core.Bool.{Bool, true, false}
use mathlib.Core.Option.{Option, none, some}
use mathlib.Core.List.{List, [], ◌∷◌, Memᴰ}
use native.Mathlib.Omega.{arith}
use vault_runner_api.Prelude.Tests.{true-false, if◌then◌else◌, some_injective, Bool-cases}
use vault_runner_api.Prelude.Lists.{find, update_where}

module _ {A : Type 0} (P : A → Type 0) where
  abbrev pub All : List A → Type 0
  All [] = Unit
  All (x ∷ xs) = P x × All xs

  pub All-Mem : (a : A) (xs : List A) → All xs → Memᴰ a xs → P a
  All-Mem a [] h m = elim m [ ]
  All-Mem a (x ∷ xs) h (Memᴰ.head e) = rw e h.0
  All-Mem a (x ∷ xs) h (Memᴰ.tail m) = All-Mem a xs h.1 m

  pub All-update_where :
      (p : A → Bool) (f : A → A)
      → ((a : A) → P a → P (f a))
      → (xs : List A) → All xs
      → All (update_where p f xs)
  All-update_where p f keeps [] h = tt
  All-update_where p f keeps (x ∷ xs) h = elim (Bool-cases (p x)) [
    | inl hit ↦ rw hit (keeps x h.0, All-update_where p f keeps xs h.1)
    | inr miss ↦ rw miss (h.0, All-update_where p f keeps xs h.1)
  ]

pub Mem-update_where :
    {A : Type 0} (p : A → Bool) (f : A → A) (a : A) (xs : List A)
    → p a ≡ true
    → Memᴰ a xs
    → Memᴰ (f a) (update_where p f xs)
Mem-update_where p f a [] hit m = elim m [ ]
Mem-update_where p f a (x ∷ xs) hit (Memᴰ.head e) = rw (sym e, hit) (Memᴰ.head refl)
Mem-update_where p f a (x ∷ xs) hit (Memᴰ.tail m) = Memᴰ.tail (Mem-update_where p f a xs hit m)

module _ {A : Type 0} (p : A → Bool) (before : A → A → Bool) where
  abbrev pub nearer : A → Option A → A
  nearer x none = x
  nearer x (some y) = if before y x then y else x

  -- `findFirst` with an order: of the rows that pass the test, the first in the order.
  abbrev pub first_by : List A → Option A
  first_by [] = none
  first_by (x ∷ xs) = let rest = first_by xs in if p x then some (nearer x rest) else rest

  nearer_cases : (x a : A) (o : Option A) → nearer x o ≡ a → (a ≡ x) ⊎ (o ≡ some a)
  nearer_cases x a none h = inl (sym h)
  nearer_cases x a (some y) h = elim (Bool-cases (before y x)) [
    | inl first ↦ inr (ground arith)
    | inr later ↦ inl (ground arith)
  ]

  head_cases :
      (x a : A) (xs : List A)
      → first_by (x ∷ xs) ≡ some a
      → ((a ≡ x) × (p x ≡ true)) ⊎ (first_by xs ≡ some a)
  head_cases x a xs h = elim (Bool-cases (p x)) [
    | inl hit ↦
        let near : nearer x (first_by xs) ≡ a = ground arith in
        elim (nearer_cases x a (first_by xs) near) [
          | inl here ↦ inl (here, hit)
          | inr there ↦ inr there
        ]
    | inr miss ↦ inr (ground arith)
  ]

  pub first_by-Mem : (a : A) (xs : List A) → first_by xs ≡ some a → Memᴰ a xs × (p a ≡ true)
  first_by-Mem a [] h = ground arith
  first_by-Mem a (x ∷ xs) h = elim (head_cases x a xs h) [
    | inl (here, hit) ↦ (Memᴰ.head here, rw here hit)
    | inr there ↦ let found = first_by-Mem a xs there in (Memᴰ.tail found.0, found.1)
  ]

pub All-weaken :
    {A : Type 0} (P Q : A → Type 0) → ((a : A) → P a → Q a) → (xs : List A) → All P xs → All Q xs
All-weaken P Q f [] h = tt
All-weaken P Q f (x ∷ xs) h = (f x h.0, All-weaken P Q f xs h.1)

pub find-Mem :
    {A : Type 0} (p : A → Bool) (a : A) (xs : List A)
    → find p xs ≡ some a
    → Memᴰ a xs × (p a ≡ true)
find-Mem p a [] h = ground arith
find-Mem p a (x ∷ xs) h = elim (Bool-cases (p x)) [
  | inl hit ↦
      let same : x ≡ a = some_injective x a (rw hit at h) in
      (Memᴰ.head (sym same), rw (sym same) hit)
  | inr miss ↦ let rest = find-Mem p a xs (rw miss at h) in (Memᴰ.tail rest.0, rest.1)
]

module _ {A : Type 0} (p : A → Bool) (a : A) where
  later_row : (x : A) (xs : List A) → Memᴰ a (x ∷ xs) → p x ≡ false → p a ≡ true → Memᴰ a xs
  later_row x xs (Memᴰ.head e) miss h = elim (true-false (sym h ∙ ap p e ∙ miss)) [ ]
  later_row x xs (Memᴰ.tail m) miss h = m

  pub find-some : (xs : List A) → Memᴰ a xs → p a ≡ true → (b : A) × (find p xs ≡ some b)
  find-some [] m h = elim m [ ]
  find-some (x ∷ xs) m h = elim (Bool-cases (p x)) [
    | inl hit ↦ (x, rw hit refl)
    | inr miss ↦ let (b, e) = find-some xs (later_row x xs m miss h) h in (b, rw miss e)
  ]

  pub first_by-some :
      (before : A → A → Bool) (xs : List A)
      → Memᴰ a xs
      → p a ≡ true
      → (b : A) × (first_by p before xs ≡ some b)
  first_by-some before [] m h = elim m [ ]
  first_by-some before (x ∷ xs) m h = elim (Bool-cases (p x)) [
    | inl hit ↦ (nearer p before x (first_by p before xs), rw hit refl)
    | inr miss ↦ let (b, e) = first_by-some before xs (later_row x xs m miss h) h in (b, rw miss e)
  ]
