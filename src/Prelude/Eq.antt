-- ===== src/Prelude/Eq.antt =====
-- Boolean equality of keys as an interface, and a map in the order of insertion.
use mathlib.Core.Path.{◌≡◌, refl, sym, ◌∙◌}
use mathlib.Core.Logic.{◌↔◌, inl, inr}
use mathlib.Core.Bool.{Bool, true, false}
use mathlib.Core.Option.{Option, none, some}
use mathlib.Core.List.{List, [], ◌∷◌}
use native.Mathlib.Omega.{arith}
use vault_runner_api.Prelude.Tests.{if◌then◌else◌, Bool-cases}

pub record Eq (A : Type 0) : Type 0 where
  pub beq : A → A → Bool
  pub beq_iff : (a b : A) → (beq a b ≡ true) ↔ (a ≡ b)

module _ {K : Type 0} ⦃e : Eq K⦄ where
  beq_sym : (a b : K) → e.beq a b ≡ false → e.beq b a ≡ false
  beq_sym a b h = elim (Bool-cases (e.beq b a)) [
    | inl same ↦ cc ((e.beq_iff a b).1 (sym ((e.beq_iff b a).0 same)))
    | inr other ↦ other
  ]

-- A JavaScript `Map`: setting a key that is there leaves it at its place.
module _ {K V : Type 0} ⦃e : Eq K⦄ where
  abbrev pub lookup : K → List (K × V) → Option V
  lookup k [] = none
  lookup k ((j, v) ∷ m) = if e.beq j k then some v else lookup k m

  -- `map.get(k) ?? d`
  abbrev pub get_or : V → K → List (K × V) → V
  get_or d k [] = d
  get_or d k ((j, v) ∷ m) = if e.beq j k then v else get_or d k m

  -- `map.set(k, f(map.get(k) ?? d))`
  abbrev pub upsert : K → (V → V) → V → List (K × V) → List (K × V)
  upsert k f d [] = (k, f d) ∷ []
  upsert k f d ((j, v) ∷ m) = if e.beq j k then (j, f v) ∷ m else (j, v) ∷ upsert k f d m

  abbrev pub Distinct : List (K × V) → Type 0
  Distinct [] = Unit
  Distinct ((j, v) ∷ m) = (lookup j m ≡ none) × Distinct m

  pub get_or-upsert :
      (d : V) (k j : K) (f : V → V) (m : List (K × V))
      → get_or d j (upsert k f d m) ≡ (if e.beq k j then f (get_or d j m) else get_or d j m)
  get_or-upsert d k j f [] = refl
  get_or-upsert d k j f ((i, v) ∷ m) =
      ground (arith, e.beq_iff i k, e.beq_iff i j, e.beq_iff k j, get_or-upsert d k j f m)

  pub lookup-upsert_other :
      (d : V) (k j : K) (f : V → V) (m : List (K × V))
      → e.beq k j ≡ false
      → lookup j (upsert k f d m) ≡ lookup j m
  lookup-upsert_other d k j f [] h = rw h refl
  lookup-upsert_other d k j f ((i, v) ∷ m) h =
      ground (arith, e.beq_iff i k, e.beq_iff i j, e.beq_iff k j, lookup-upsert_other d k j f m)

  pub upsert-Distinct :
      (d : V) (k : K) (f : V → V) (m : List (K × V)) → Distinct m → Distinct (upsert k f d m)
  upsert-Distinct d k f [] h = (refl, tt)
  upsert-Distinct d k f ((i, v) ∷ m) h = elim (Bool-cases (e.beq i k)) [
    | inl same ↦ rw same (h.0, h.1)
    | inr other ↦
        rw other
          (lookup-upsert_other d k i f m (beq_sym i k other) ∙ h.0, upsert-Distinct d k f m h.1)
  ]

  pub get_or-missing : (d : V) (k : K) (m : List (K × V)) → lookup k m ≡ none → get_or d k m ≡ d
  get_or-missing d k [] h = refl
  get_or-missing d k ((j, v) ∷ m) h = ground (arith, get_or-missing d k m)
