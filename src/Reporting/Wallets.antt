-- ===== src/Reporting/Wallets.antt =====
-- The number of different wallets among bets, and the set that a loop collects of them.
use vault_runner_api.Prelude.{
  ℕ, Bool, true, false, List, [], ◌∷◌, ◌++◌, ◌==◌, length, if◌then◌else◌, ◌≡◌, refl, ◌∙◌, sym,
  arith, inl, inr, Bool-cases,
}
use vault_runner_api.World.{Bet, Text, text_eq}

abbrev pub has_wallet : ℕ → List ℕ → Bool
has_wallet x [] = false
has_wallet x (y ∷ ys) = if y == x then true else has_wallet x ys

abbrev pub distinct : List ℕ → List ℕ
distinct [] = []
distinct (x ∷ xs) = let rest = distinct xs in if has_wallet x rest then rest else x ∷ rest

-- The wallets of the bets in a currency, in the order of the rows.
abbrev pub wallets_in : Text → List Bet → List ℕ
wallets_in c [] = []
wallets_in c (b ∷ bs) =
    let rest = wallets_in c bs in if text_eq b.currency c then b.wallet_id ∷ rest else rest

-- `players.add`; only the size of the set is read.
abbrev pub add_player : ℕ → List ℕ → List ℕ
add_player x players = if has_wallet x players then players else x ∷ players

abbrev pub add_players : List ℕ → List ℕ → List ℕ
add_players [] players = players
add_players (x ∷ xs) players = add_players xs (add_player x players)

has_wallet-distinct : (x : ℕ) (xs : List ℕ) → has_wallet x (distinct xs) ≡ has_wallet x xs
has_wallet-distinct x [] = refl
has_wallet-distinct x (y ∷ ys) = ground (arith, has_wallet-distinct x ys, has_wallet-distinct y ys)

has_wallet-append :
    (x : ℕ) (xs ys : List ℕ)
    → has_wallet x (xs ++ ys) ≡ (if has_wallet x xs then true else has_wallet x ys)
has_wallet-append x [] ys = refl
has_wallet-append x (z ∷ zs) ys = ground (arith, has_wallet-append x zs ys)

-- Where an element stands does not change how many there are.
length-distinct_middle :
    (x : ℕ) (xs ys : List ℕ) → length (distinct (xs ++ x ∷ ys)) ≡ length (distinct (x ∷ (xs ++ ys)))
length-distinct_middle x [] ys = refl
length-distinct_middle x (z ∷ zs) ys = ground (
  arith,
  length-distinct_middle x zs ys,
  has_wallet-distinct z (zs ++ x ∷ ys),
  has_wallet-distinct z (zs ++ ys),
  has_wallet-distinct x (zs ++ ys),
  has_wallet-append z zs (x ∷ ys),
  has_wallet-append z zs ys,
  has_wallet-append x zs ys,
)

-- The set that the loop collects has as many elements as there are different ones.
pub length-add_players :
    (xs players : List ℕ)
    → length (distinct players) ≡ length players
    → length (add_players xs players) ≡ length (distinct (xs ++ players))
length-add_players [] players h = sym h
length-add_players (x ∷ xs) players h = elim (Bool-cases (has_wallet x players)) [
  | inl old ↦ rw old (
      ground (
        arith,
        length-add_players xs players,
        has_wallet-distinct x (xs ++ players),
        has_wallet-append x xs players,
      ))
  | inr new ↦ rw new (
      length-add_players xs (x ∷ players) (ground (arith, has_wallet-distinct x players))
      ∙ length-distinct_middle x xs players)
]
