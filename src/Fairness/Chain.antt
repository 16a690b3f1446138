-- ===== src/Fairness/Chain.antt =====
-- fairness/seed-chain.ts: the chain of committed seeds. SHA-256 on hex texts and the random last
-- seed are parameters.
pub mod Links
use vault_runner_api.Prelude.{
  ℕ, zero, suc, ◌-◌, Bool, Option, none, some, List, [], ◌∷◌, ltb, if◌then◌else◌,
}
use vault_runner_api.World.{Text, text_eq}

module _ (sha256_hex : Text → Text) where
  abbrev hash_first : List Text → List Text
  hash_first [] = []
  hash_first (s ∷ chain) = sha256_hex s ∷ s ∷ chain

  -- The loop from `length - 2` down to 0: each round puts the hash of the first seed in front.
  unfoldable pub fill : ℕ → List Text → List Text
  fill zero chain = chain
  fill (suc left) chain = fill left (hash_first chain)

  -- `none` is the error on a length below 2.
  unfoldable pub generate_seed_chain : ℕ → Text → Option (List Text)
  generate_seed_chain length last =
      if ltb length 2 then none else some (fill (length - 1) (last ∷ []))

  unfoldable pub verify_chain_link : Text → Text → Bool
  verify_chain_link seed prev_seed = text_eq (sha256_hex seed) prev_seed
