-- ===== src/Fairness/Chain/Links.antt =====
-- Every seed of a generated chain verifies against the one before it, back to the commit.
use vault_runner_api.Prelude.{
  ℕ, zero, suc, ◌+◌, ◌-◌, ◌≡◌, ◌<◌, ◌∙◌, ap, true, some, List, [], ◌∷◌, length, get_elem?, arith,
}
use vault_runner_api.World.{Text, text_eq_refl, text_eq→≡}
use vault_runner_api.Fairness.Chain.{hash_first, fill, generate_seed_chain, verify_chain_link}

module _ (sha256_hex : Text → Text) where
  -- Neighbours are linked.
  abbrev pub IsLinked : List Text → Type 0
  IsLinked [] = Unit
  IsLinked (p ∷ []) = Unit
  IsLinked (p ∷ s ∷ chain) = (verify_chain_link sha256_hex s p ≡ true) × IsLinked (s ∷ chain)

  -- The hash applied a number of times.
  abbrev pub hashed : ℕ → Text → Text
  hashed zero s = s
  hashed (suc k) s = sha256_hex (hashed k s)

  hash_first-IsLinked :
      (chain : List Text) → IsLinked chain → IsLinked (hash_first sha256_hex chain)
  unfolding verify_chain_link
  hash_first-IsLinked [] h = tt
  hash_first-IsLinked (s ∷ chain) h = (text_eq_refl (sha256_hex s), h)

  fill-IsLinked : (k : ℕ) (chain : List Text) → IsLinked chain → IsLinked (fill sha256_hex k chain)
  unfolding fill
  fill-IsLinked zero chain h = h
  fill-IsLinked (suc k) chain h =
      fill-IsLinked k (hash_first sha256_hex chain) (hash_first-IsLinked chain h)

  length-fill :
      (k : ℕ) (s : Text) (chain : List Text)
      → length (fill sha256_hex k (s ∷ chain)) ≡ k + length (s ∷ chain)
  unfolding fill
  length-fill zero s chain = omega arith
  length-fill (suc k) s chain = omega (arith, length-fill k (sha256_hex s) (s ∷ chain))

  -- A chain of the length asked for is generated, from 2 on; each seed of it hashes to the one
  -- before.
  pub generate_seed_chain-IsLinked :
      (n : ℕ) (last : Text)
      → 1 < n
      → (chain : List Text) × (generate_seed_chain sha256_hex n last ≡ some chain)
        × (length chain ≡ n)
        × IsLinked chain
  unfolding generate_seed_chain
  generate_seed_chain-IsLinked n last h = (
    fill sha256_hex (n - 1) (last ∷ []),
    ground arith,
    omega (arith, length-fill (n - 1) last []),
    fill-IsLinked (n - 1) (last ∷ []) tt,
  )

  -- A seed at place k, whatever its origin, that passes the check link by link back to the
  -- public commit hashes to the commit in k steps.
  pub linked_seed_lem :
      (chain : List Text) (k : ℕ) (commit seed : Text)
      → IsLinked (commit ∷ chain)
      → get_elem? (commit ∷ chain) k ≡ some seed
      → hashed k seed ≡ commit
  unfolding verify_chain_link
  linked_seed_lem chain zero commit seed h e = cc
  linked_seed_lem [] (suc k) commit seed h e = cc
  linked_seed_lem (s ∷ chain) (suc k) commit seed h e =
      ap sha256_hex (linked_seed_lem chain k s seed h.1 e) ∙ text_eq→≡ (sha256_hex s) commit h.0
