-- ===== src/Tests/Fairness.antt =====
-- Crash points and a small seed chain, with a hash that counts.
use vault_runner_api.Prelude.{
  ℕ, ◌+◌, ◌*◌, ◌/◌, ◌^◌, [], ◌∷◌, List, some, ◌≡◌, ◌≤◌, ◌<◌, ◌↔◌, refl, arith, length,
}
use vault_runner_api.World.{Text}
use vault_runner_api.Fairness.Crash.{crash_cents, compute_crash}
use vault_runner_api.Fairness.Crash.Edge.{crash_cents_share, compute_crash_range, crash_cents_anti}
use vault_runner_api.Fairness.Chain.{generate_seed_chain, verify_chain_link}
use vault_runner_api.Fairness.Chain.Links.{
  IsLinked, hashed, generate_seed_chain-IsLinked, linked_seed_lem,
}

crash_cents_share_example : (200 ≤ crash_cents 1000) ↔ (1000 < 97 * (2 ^ 52 + 1) / 200)
crash_cents_share_example = crash_cents_share 200 1000 (omega arith) (omega arith)

abbrev constant_hmac : List ℕ → Text → List ℕ
constant_hmac seed salt = 8 ∷ 0 ∷ []

crash_between :
    (100 ≤ compute_crash constant_hmac (1 ∷ []) [])
    × (compute_crash constant_hmac (1 ∷ []) [] ≤ 100_000_000)
crash_between = compute_crash_range constant_hmac (1 ∷ []) []

crash_cents_anti_example : crash_cents 9 ≤ crash_cents 3
crash_cents_anti_example = crash_cents_anti 3 9 (omega arith)

-- A stand-in for SHA-256: it puts a character in front.
abbrev count_hash : Text → Text
count_hash s = 1 ∷ s

generate_seed_chain-IsLinked_example :
    (chain : List Text) × (generate_seed_chain count_hash 3 (5 ∷ []) ≡ some chain)
    × (length chain ≡ 3)
    × IsLinked count_hash chain
generate_seed_chain-IsLinked_example =
    generate_seed_chain-IsLinked count_hash 3 (5 ∷ []) (omega arith)

links : IsLinked count_hash ((1 ∷ 1 ∷ 5 ∷ []) ∷ (1 ∷ 5 ∷ []) ∷ (5 ∷ []) ∷ [])
unfolding verify_chain_link
links = (refl, (refl, tt))

linked_seed_lem_example : hashed count_hash 2 (5 ∷ []) ≡ 1 ∷ 1 ∷ 5 ∷ []
linked_seed_lem_example =
    linked_seed_lem count_hash ((1 ∷ 5 ∷ []) ∷ (5 ∷ []) ∷ []) 2 (1 ∷ 1 ∷ 5 ∷ []) (5 ∷ []) links refl
