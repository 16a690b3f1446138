-- ===== src/Operator/Sessions/Tags.antt =====
-- The tag of a wallet determines the operator, the player, the currency and the mode.
use vault_runner_api.Prelude.{
  ℕ, Bool, true, false, [], ◌∷◌, ◌++◌, if◌then◌else◌, ◌≡◌, refl, sym, ap, ◌∙◌, arith,
}
use mathlib.Core.List.{append_assoc, append-nil, append_cancel_left}
use vault_runner_api.Prelude.Texts.{codes, is_nil, lacks}
use vault_runner_api.World.{Text, to_upper}
use vault_runner_api.Operator.Sessions.{colon, base_of, demo_suffix, tag_of}

abbrev pub demo_word : Text
demo_word = codes "demo"

-- A code of a currency as sessions keep it.
abbrev pub IsCode : Text → Type 0
IsCode c = (lacks colon c ≡ true) × (is_nil c ≡ false) × (to_upper c ≡ c)

pub code_not_demo : (c : Text) → to_upper c ≡ c → c ≡ demo_word → ⊥
code_not_demo [] up e = ground arith
code_not_demo (c ∷ cs) up e = ground arith

pub lacks_append : (s t : Text) → lacks colon (s ++ colon ∷ t) ≡ false
lacks_append [] t = refl
lacks_append (c ∷ s) t = ground (arith, lacks_append s t)

cons_injective : (a b : ℕ) (s t : Text) → a ∷ s ≡ b ∷ t → (a ≡ b) × (s ≡ t)
cons_injective a b s t h = (cc, cc)

-- Two texts that are cut at their first colon, and two that are cut at their last.
first_colon :
    (s s' t t' : Text)
    → lacks colon s ≡ true
    → lacks colon s' ≡ true
    → s ++ colon ∷ t ≡ s' ++ colon ∷ t'
    → (s ≡ s') × (t ≡ t')
first_colon [] [] t t' h h' e = (refl, (cons_injective _ _ t t' e).1)
first_colon [] (c ∷ s') t t' h h' e =
    let same = cons_injective colon c t (s' ++ colon ∷ t') e in ground arith
first_colon (c ∷ s) [] t t' h h' e =
    let same = cons_injective c colon (s ++ colon ∷ t) t' e in ground arith
first_colon (c ∷ s) (d ∷ s') t t' h h' e =
    let same = cons_injective c d (s ++ colon ∷ t) (s' ++ colon ∷ t') e in
    let rest = first_colon s s' t t' (ground arith) (ground arith) same.1 in
    (rw (same.0, rest.0) refl, rest.1)

pub last_colon :
    (s s' t t' : Text)
    → lacks colon t ≡ true
    → lacks colon t' ≡ true
    → s ++ colon ∷ t ≡ s' ++ colon ∷ t'
    → (s ≡ s') × (t ≡ t')
last_colon [] [] t t' h h' e = (refl, (cons_injective _ _ t t' e).1)
last_colon [] (c ∷ s') t t' h h' e =
    let same = cons_injective colon c t (s' ++ colon ∷ t') e in
    ground (arith, lacks_append s' t', same.1)
last_colon (c ∷ s) [] t t' h h' e =
    let same = cons_injective c colon (s ++ colon ∷ t) t' e in
    ground (arith, lacks_append s t, same.1)
last_colon (c ∷ s) (d ∷ s') t t' h h' e =
    let same = cons_injective c d (s ++ colon ∷ t) (s' ++ colon ∷ t') e in
    let rest = last_colon s s' t t' h h' same.1 in (rw (same.0, rest.0) refl, rest.1)

base_of-append : (o p r : Text) → base_of o p ++ r ≡ codes "op:" ++ (o ++ colon ∷ (p ++ colon ∷ r))
base_of-append o p r =
    rw
      (
        append_assoc (codes "op:") (o ++ colon ∷ (p ++ colon ∷ [])) r,
        append_assoc o (colon ∷ (p ++ colon ∷ [])) r,
        append_assoc p (colon ∷ []) r,
      )
      refl

pub base_injective :
    (o o' p p' r r' : Text)
    → lacks colon o ≡ true
    → lacks colon o' ≡ true
    → base_of o p ++ r ≡ base_of o' p' ++ r'
    → (o ≡ o') × (p ++ colon ∷ r ≡ p' ++ colon ∷ r')
base_injective o o' p p' r r' h h' e = first_colon o o' (p ++ colon ∷ r) (p' ++ colon ∷ r') h h' (
    append_cancel_left (codes "op:") _ _ (sym (base_of-append o p r) ∙ e ∙ base_of-append o' p' r'))

pub two_colons : (p c w : Text) → p ++ colon ∷ (c ++ colon ∷ w) ≡ (p ++ colon ∷ c) ++ colon ∷ w
two_colons p c w = sym (append_assoc p (colon ∷ c) (colon ∷ w))

pub demo_lacks : lacks colon demo_word ≡ true
demo_lacks = refl

body_injective :
    (p p' c c' : Text) (d d' : Bool)
    → IsCode c
    → IsCode c'
    → p ++ colon ∷ (c ++ (if d then demo_suffix else []))
      ≡ p' ++ colon ∷ (c' ++ (if d' then demo_suffix else []))
    → (p ≡ p') × (c ≡ c') × (d ≡ d')
body_injective p p' c c' true true h h' e =
    let outer =
      last_colon (p ++ colon ∷ c) (p' ++ colon ∷ c') demo_word demo_word demo_lacks demo_lacks
        (sym (two_colons p c demo_word) ∙ e ∙ two_colons p' c' demo_word) in
    let inner = last_colon p p' c c' h.0 h'.0 outer.0 in (inner.0, inner.1, refl)
body_injective p p' c c' false false h h' e =
    let inner = last_colon p p' c c' h.0 h'.0 (rw (append-nil c, append-nil c') at e) in
    (inner.0, inner.1, refl)
body_injective p p' c c' true false h h' e =
    let outer =
      last_colon (p ++ colon ∷ c) p' demo_word c' demo_lacks h'.0
        (sym (two_colons p c demo_word) ∙ (rw (append-nil c') at e)) in
    elim (code_not_demo c' h'.2 (sym outer.1)) [ ]
body_injective p p' c c' false true h h' e =
    let outer =
      last_colon p (p' ++ colon ∷ c') c demo_word h.0 demo_lacks
        ((rw (append-nil c) at e) ∙ two_colons p' c' demo_word) in
    elim (code_not_demo c h.2 outer.1) [ ]

pub tag_injective :
    (o o' p p' c c' : Text) (d d' : Bool)
    → lacks colon o ≡ true
    → lacks colon o' ≡ true
    → IsCode c
    → IsCode c'
    → tag_of o p c d ≡ tag_of o' p' c' d'
    → (o ≡ o') × (p ≡ p') × (c ≡ c') × (d ≡ d')
tag_injective o o' p p' c c' d d' h h' k k' e =
    let (same, rest) = base_injective o o' p p' _ _ h h' e in
    let (player, currency, mode) = body_injective p p' c c' d d' k k' rest in
    (same, player, currency, mode)

pub tag_cut : (o p c : Text) → tag_of o p c false ≡ (codes "op:" ++ (o ++ colon ∷ p)) ++ colon ∷ c
tag_cut o p c =
    ap (λ r. base_of o p ++ r) (append-nil c)
    ∙ base_of-append o p c
    ∙ ap (λ r. codes "op:" ++ r) (sym (append_assoc o (colon ∷ p) (colon ∷ c)))
    ∙ sym (append_assoc (codes "op:") (o ++ colon ∷ p) (colon ∷ c))
