-- ===== src/Prelude/Texts.antt =====
-- Texts as the codes of their characters: `trim`, `split(":")` and `startsWith` of the language.
use Prim.Native.Char.{code}
use Prim.Native.String.{String}
use Prim.Native.Nat.{ℕ}
use mathlib.Core.Path.{◌≡◌, refl}
use mathlib.Core.Bool.{Bool, true, false, ◌&&◌, ◌||◌}
use mathlib.Core.List.{List, [], ◌∷◌, ◌++◌}
use native.Mathlib.Omega.{arith}
use vault_runner_api.Prelude.Tests.{if◌then◌else◌, leb, ◌==◌}

abbrev pub codes : String → List ℕ
codes String.[] = []
codes (String.◌∷◌ c s) = code c ∷ codes s

abbrev pub is_nil : List ℕ → Bool
is_nil [] = true
is_nil (c ∷ s) = false

abbrev pub one_of : ℕ → List ℕ → Bool
one_of c [] = false
one_of c (d ∷ ds) = if c == d then true else one_of c ds

-- What `trim` takes off: the white space and the line ends of the language.
abbrev pub is_space : ℕ → Bool
is_space c =
    (leb 9 c && leb c 13)
    || (leb 0x2000 c && leb c 0x200A)
    || one_of c (32 ∷ 0xA0 ∷ 0x1680 ∷ 0x2028 ∷ 0x2029 ∷ 0x202F ∷ 0x205F ∷ 0x3000 ∷ 0xFEFF ∷ [])

abbrev pub trim_start : List ℕ → List ℕ
trim_start [] = []
trim_start (c ∷ s) = let rest = trim_start s in if is_space c then rest else c ∷ s

abbrev pub trim_end : List ℕ → List ℕ
trim_end [] = []
trim_end (c ∷ s) = let rest = trim_end s in if is_nil rest && is_space c then [] else c ∷ rest

unfoldable pub trim : List ℕ → List ℕ
trim s = trim_end (trim_start s)

abbrev cons_first : ℕ → List (List ℕ) → List (List ℕ)
cons_first c [] = (c ∷ []) ∷ []
cons_first c (p ∷ ps) = (c ∷ p) ∷ ps

unfoldable pub split_on : ℕ → List ℕ → List (List ℕ)
split_on d [] = [] ∷ []
split_on d (c ∷ s) = let rest = split_on d s in if c == d then [] ∷ rest else cons_first c rest

-- The parts of a text are its pieces without the separator, joined by it.
abbrev pub lacks : ℕ → List ℕ → Bool
lacks d [] = true
lacks d (c ∷ s) = if c == d then false else lacks d s

pub split_on-last : (d : ℕ) (s : List ℕ) → lacks d s ≡ true → split_on d s ≡ s ∷ []
unfolding split_on
split_on-last d [] h = refl
split_on-last d (c ∷ s) h = ground (arith, split_on-last d s)

pub split_on-part :
    (d : ℕ) (s t : List ℕ) → lacks d s ≡ true → split_on d (s ++ d ∷ t) ≡ s ∷ split_on d t
unfolding split_on
split_on-part d [] t h = ground arith
split_on-part d (c ∷ s) t h = ground (arith, split_on-part d s t)

pub is_nil-append : (s t : List ℕ) → is_nil t ≡ false → is_nil (s ++ t) ≡ false
is_nil-append [] t n = n
is_nil-append (c ∷ s) t n = refl

-- A text whose end is not trimmed is not trimmed after anything.
pub trim_end-append :
    (s t : List ℕ) → is_nil t ≡ false → trim_end t ≡ t → trim_end (s ++ t) ≡ s ++ t
trim_end-append [] t n h = h
trim_end-append (c ∷ s) t n h = ground (arith, trim_end-append s t, is_nil-append s t)
