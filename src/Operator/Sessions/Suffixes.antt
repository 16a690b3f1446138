-- ===== src/Operator/Sessions/Suffixes.antt =====
-- Which tags the query of a player of an operator hits.
use vault_runner_api.Prelude.{
  true-false, ℕ, Bool, true, false, ◌&&◌, some, [], ◌∷◌, ◌++◌, ◌==◌, is_some, if◌then◌else◌, ◌≡◌,
  refl, sym, ap, ◌∙◌, inl, inr, ◌⊎◌, arith, Bool-cases, Option-cases, some_injective, none-some,
  ==_iff,
}
use mathlib.Core.List.{append-nil}
use vault_runner_api.Prelude.Texts.{lacks}
use vault_runner_api.Prog.{on_option}
use vault_runner_api.World.{Text, text_eq, text_eq_iff}
use vault_runner_api.Operator.Sessions.{GameSession, colon, base_of, demo_suffix, tag_of}
use vault_runner_api.Operator.Sessions.Upkeep.{after, is_suffix_rest, is_suffix}
use vault_runner_api.Operator.Sessions.Tags.{
  demo_word, IsCode, code_not_demo, demo_lacks, last_colon, lacks_append, two_colons,
  base_injective,
}

-- Prefixes and suffixes.
after_append : (b r : Text) → after b (b ++ r) ≡ some r
after_append [] r = refl
after_append (c ∷ b) r = rw (id_eq c) (after_append b r)
  where
    id_eq : (n : ℕ) → (n == n) ≡ true
    id_eq n = (==_iff n n).1 refl

after_split : (b t r : Text) → after b t ≡ some r → t ≡ b ++ r
after_split [] t r h = some_injective t r h
after_split (c ∷ b) [] r h = elim (none-some r h) [ ]
after_split (c ∷ b) (d ∷ t) r h = elim (Bool-cases (c == d)) [
  | inl same ↦ let rest = after_split b t r (rw same at h) in rw (rest, (==_iff c d).0 same) refl
  | inr other ↦ elim (none-some r (rw other at h)) [ ]
]

suffix_rest_cases :
    (s : Text)
    → is_suffix_rest s ≡ true
    → (lacks colon s ≡ true) ⊎ ((x : Text) × (s ≡ x ++ demo_suffix) × (lacks colon x ≡ true))
suffix_rest_cases [] h = inl refl
suffix_rest_cases (c ∷ s) h = elim (Bool-cases (c == colon)) [
  | inl cut ↦
      let demo = (text_eq_iff s demo_word).0 (rw cut at h) in
      inr ([], rw ((==_iff c colon).0 cut, demo) refl, refl)
  | inr other ↦ elim (suffix_rest_cases s (rw other at h)) [
    | inl clear ↦ inl (rw other clear)
    | inr (x, same, clear) ↦ inr (c ∷ x, ap (λ t. c ∷ t) same, rw other clear)
  ]
]

suffix_cases :
    (s : Text)
    → is_suffix s ≡ true
    → (lacks colon s ≡ true) ⊎ ((x : Text) × (s ≡ x ++ demo_suffix) × (lacks colon x ≡ true))
suffix_cases [] h = ground arith
suffix_cases (c ∷ s) h = elim (Bool-cases (c == colon)) [
  | inl cut ↦ ground arith
  | inr other ↦ elim (suffix_rest_cases s (rw other at h)) [
    | inl clear ↦ inl (rw other clear)
    | inr (x, same, clear) ↦ inr (c ∷ x, ap (λ t. c ∷ t) same, rw other clear)
  ]
]

code_suffix_rest :
    (c : Text) (d : Bool)
    → lacks colon c ≡ true
    → is_suffix_rest (c ++ (if d then demo_suffix else [])) ≡ true
code_suffix_rest [] true h = refl
code_suffix_rest [] false h = refl
code_suffix_rest (x ∷ c) d h = elim (Bool-cases (x == colon)) [
  | inl cut ↦ ground arith
  | inr other ↦ rw other (code_suffix_rest c d (rw other at h))
]

code_suffix :
    (c : Text) (d : Bool) → IsCode c → is_suffix (c ++ (if d then demo_suffix else [])) ≡ true
code_suffix [] d (clear, given, up) = ground arith
code_suffix (x ∷ c) d (clear, given, up) = elim (Bool-cases (x == colon)) [
  | inl cut ↦ ground arith
  | inr other ↦ rw other (code_suffix_rest c d (rw other at clear))
]

-- A suffix after the player of the query leaves the player of the tag no choice.
player_of_suffix :
    (p q c r : Text) (d : Bool)
    → lacks colon p ≡ true
    → IsCode c
    → is_suffix r ≡ true
    → q ++ colon ∷ (c ++ (if d then demo_suffix else [])) ≡ p ++ colon ∷ r
    → q ≡ p
player_of_suffix p q c r false clear code suffix e = elim (suffix_cases r suffix) [
  | inl plain ↦ (last_colon q p c r code.0 plain (rw (append-nil c) at e)).0
  | inr (x, same, plain) ↦
      let cut =
        last_colon q (p ++ colon ∷ x) c demo_word code.0 demo_lacks
          ((rw (append-nil c) at e) ∙ ap (λ r. p ++ colon ∷ r) same ∙ two_colons p x demo_word) in
      elim (code_not_demo c code.2 cut.1) [ ]
]
player_of_suffix p q c r true clear code suffix e = elim (suffix_cases r suffix) [
  | inl plain ↦
      let cut =
        last_colon (q ++ colon ∷ c) p demo_word r demo_lacks plain
          (sym (two_colons q c demo_word) ∙ e) in
      elim (true-false (sym clear ∙ ap (lacks colon) (sym cut.0) ∙ lacks_append q c)) [ ]
  | inr (x, same, plain) ↦
      let outer =
        last_colon (q ++ colon ∷ c) (p ++ colon ∷ x) demo_word demo_word demo_lacks demo_lacks (
          sym (two_colons q c demo_word)
          ∙ e
          ∙ ap (λ r. p ++ colon ∷ r) same
          ∙ two_colons p x demo_word) in
      (last_colon q p c x code.0 plain outer.0).0
]

-- The query of one player of an operator.
module _ (operator player : Text) where
  abbrev pub is_of_player : GameSession → Bool
  is_of_player s = text_eq s.operator_id operator && text_eq s.player_id player

  abbrev pub hits : Text → Bool
  hits name =
      is_some (after (base_of operator player) name)
      && on_option (after (base_of operator player) name) false is_suffix

  pub own_hit : (c : Text) (d : Bool) → IsCode c → hits (tag_of operator player c d) ≡ true
  own_hit c d code =
      rw (after_append (base_of operator player) (c ++ (if d then demo_suffix else [])))
        (code_suffix c d code)

module _ (operator player : Text) (uuid : lacks colon operator ≡ true)
    (clear : lacks colon player ≡ true) where
  pub hit_own :
      (o q c : Text) (d : Bool)
      → lacks colon o ≡ true
      → IsCode c
      → hits operator player (tag_of o q c d) ≡ true
      → (o ≡ operator) × (q ≡ player)
  hit_own o q c d uuid' code h =
      elim (Option-cases (after (base_of operator player) (tag_of o q c d))) [
        | inl other ↦ elim (true-false (sym (rw other at h))) [ ]
        | inr (r, found) ↦
            let cut =
              base_injective o operator q player _ r uuid' uuid
                (after_split (base_of operator player) (tag_of o q c d) r found) in
            (cut.0, player_of_suffix player q c r d clear code (rw found at h) cut.1)
      ]
