-- ===== src/Fairness/Oracle/Majority.antt =====
-- The oracle answers the hash that a majority of the configured RPCs reports, and no other.
use vault_runner_api.Prelude.{
  ℕ, ◌+◌, ◌*◌, ◌/◌, ◌≤◌, ◌<◌, ◌≡◌, refl, ◌∙◌, ap, Bool, true, false, Option, none, some, List, [],
  ◌∷◌, find, length, count_where, ltb, leb, if◌then◌else◌, arith, inl, inr, Bool-cases,
  Option-cases,
}
use vault_runner_api.Prelude.Eq.{lookup, get_or, upsert, Distinct, get_or-upsert, upsert-Distinct}
use vault_runner_api.Prog.{ok, err, on_option}
use vault_runner_api.World.{Text, text_eq, text_eq_iff, eq_text}
use vault_runner_api.Fairness.Oracle.{
  Rpc, under_provisioned, vote_of, Votes, tally, finalized_somewhere, best_of, has_count, elect,
  finalized_block_hash,
}

-- The votes, one after the other.
abbrev pub ballots : ℕ → List Rpc → List Text
ballots target [] = []
ballots target (r ∷ rs) =
    let rest = ballots target rs in on_option (vote_of target r) rest (λ h. h ∷ rest)

abbrev pub votes_for : Text → List Text → ℕ
votes_for h xs = count_where (λ x. text_eq x h) xs

-- More than half of `n`.
abbrev pub majority_of : ℕ → List Text → Option Text
majority_of n xs = find (λ h. ltb n (2 * votes_for h xs)) xs

module _ (target : ℕ) where
  get_or-tally :
      (h : Text) (rs : List Rpc) (votes : Votes)
      → get_or 0 h (tally target rs votes) ≡ get_or 0 h votes + votes_for h (ballots target rs)
  unfolding tally
  get_or-tally h [] votes = ground arith
  get_or-tally h (r ∷ rs) votes = elim (Option-cases (vote_of target r)) [
    | inl silent ↦ rw silent (get_or-tally h rs votes)
    | inr (x, e) ↦ rw e (
        get_or-tally h rs (upsert x (λ n. n + 1) 0 votes)
        ∙ ground (arith, get_or-upsert {K = Text} 0 x h (λ n. n + 1) votes))
  ]

  tally-Distinct :
      (rs : List Rpc) (votes : Votes) → Distinct votes → Distinct (tally target rs votes)
  unfolding tally
  tally-Distinct [] votes d = d
  tally-Distinct (r ∷ rs) votes d = elim (Option-cases (vote_of target r)) [
    | inl silent ↦ rw silent (tally-Distinct rs votes d)
    | inr (x, e) ↦ rw e (tally-Distinct rs _ (upsert-Distinct 0 x (λ n. n + 1) votes d))
  ]

  length-ballots : (rs : List Rpc) → length (ballots target rs) ≤ length rs
  length-ballots [] = omega arith
  length-ballots (r ∷ rs) = ground (arith, length-ballots rs)

  ballots_nowhere : (rs : List Rpc) → finalized_somewhere target rs ≡ false → ballots target rs ≡ []
  unfolding vote_of
  ballots_nowhere [] h = refl
  ballots_nowhere (r ∷ rs) h = ground (arith, ballots_nowhere rs)

abbrev total : Votes → ℕ
total [] = 0
total ((h, n) ∷ votes) = n + total votes

total-upsert : (x : Text) (votes : Votes) → total (upsert x (λ n. n + 1) 0 votes) ≡ total votes + 1
total-upsert x [] = refl
total-upsert x ((h, n) ∷ votes) = ground (arith, total-upsert x votes)

total-tally :
    (target : ℕ) (rs : List Rpc) (votes : Votes)
    → total (tally target rs votes) ≡ total votes + length (ballots target rs)
unfolding tally
total-tally target [] votes = ground arith
total-tally target (r ∷ rs) votes = elim (Option-cases (vote_of target r)) [
  | inl silent ↦ rw silent (total-tally target rs votes)
  | inr (x, e) ↦
      rw e (
        total-tally target rs (upsert x (λ n. n + 1) 0 votes)
        ∙ ground (arith, total-upsert x votes))
]

module _ (need : ℕ) where
  abbrev is_high : Text × ℕ → Bool
  is_high (h, n) = leb need n

  -- Entries of at least `need` votes, each counted.
  high_total : (votes : Votes) → count_where is_high votes * need ≤ total votes
  high_total [] = omega arith
  high_total ((h, n) ∷ votes) = grind (arith, high_total votes)

  count_high :
      (k : ℕ) (votes : Votes)
      → need ≤ k
      → count_where (has_count k) votes ≤ count_where is_high votes
  count_high k [] h = omega arith
  count_high k ((x, n) ∷ votes) h = ground (arith, count_high k votes)

  best_of_low :
      (votes : Votes) (acc : Option Text × ℕ)
      → count_where is_high votes ≡ 0
      → acc.1 < need
      → (best_of votes acc).1 < need
  best_of_low [] acc h lt = lt
  best_of_low ((x, n) ∷ votes) acc h lt =
      best_of_low votes (if ltb acc.1 n then (some x, n) else acc) (ground arith) (ground arith)

  best_of_stays :
      (votes : Votes) (b : Option Text) (k : ℕ)
      → count_where is_high votes ≡ 0
      → need ≤ k
      → best_of votes (b, k) ≡ (b, k)
  best_of_stays [] b k h le = refl
  best_of_stays ((x, n) ∷ votes) b k h le = elim (Bool-cases (ltb k n)) [
    | inl more ↦ absurd (ground arith)
    | inr fewer ↦ rw fewer (best_of_stays votes b k (ground arith) le)
  ]

  -- The one entry that has the quorum wins.
  best_of_high :
      (h : Text) (v : ℕ) (votes : Votes) (b : Option Text) (k : ℕ)
      → lookup h votes ≡ some v
      → need ≤ v
      → count_where is_high votes ≤ 1
      → k < need
      → best_of votes (b, k) ≡ (some h, v)
  best_of_high h v [] b k e le one lt = cc
  best_of_high h v ((x, n) ∷ votes) b k e le one lt = elim (Bool-cases (text_eq x h)) [
    | inl same ↦
        let n-v : n ≡ v = ground arith in
        let x-h = (text_eq_iff x h).0 same in
        let more : ltb k n ≡ true = ground arith in
        rw (more, x-h, n-v) (best_of_stays votes (some h) v (ground arith) le)
    | inr other ↦
        let found : lookup h votes ≡ some v = ground arith in
        let some_high = count_lookup h v votes found le in
        elim (Bool-cases (ltb k n)) [
          | inl more ↦
              rw more (best_of_high h v votes (some x) n found le (ground arith) (ground arith))
          | inr fewer ↦ rw fewer (best_of_high h v votes b k found le (ground arith) lt)
        ]
  ]
    where
      count_lookup :
          (h : Text) (v : ℕ) (votes : Votes)
          → lookup h votes ≡ some v
          → need ≤ v
          → 1 ≤ count_where is_high votes
      count_lookup h v [] e le = cc
      count_lookup h v ((x, n) ∷ votes) e le = ground (arith, count_lookup h v votes)

  elect_high :
      (h : Text) (v : ℕ) (votes : Votes)
      → lookup h votes ≡ some v
      → need ≤ v
      → 0 < need
      → total votes < 2 * need
      → elect need votes ≡ some h
  unfolding elect
  elect_high h v votes e le pos lt =
      let one : count_where is_high votes ≤ 1 = grind (arith, high_total votes) in
      let tied = count_high v votes le in
      rw (best_of_high h v votes none 0 e le one pos) (ground arith)

  elect_low : (votes : Votes) → count_where is_high votes ≡ 0 → 0 < need → elect need votes ≡ none
  unfolding elect
  elect_low votes h pos = let low = best_of_low votes (none, 0) h pos in ground arith

  none_high :
      (votes : Votes)
      → Distinct votes
      → ((j : Text) (v : ℕ) → lookup j votes ≡ some v → v < need)
      → count_where is_high votes ≡ 0
  none_high [] d h = refl
  none_high ((x, n) ∷ votes) d h =
      let n-lt : n < need = h x n (ground (arith, (text_eq_iff x x).1 refl)) in
      let rest = none_high votes d.1 (λ j v e. h j v (later j v e)) in ground arith
    where
      later : (j : Text) (v : ℕ) → lookup j votes ≡ some v → lookup j ((x, n) ∷ votes) ≡ some v
      later j v e = ground (arith, text_eq_iff x j, d.0)

lookup-of_get_or :
    (h : Text) (v : ℕ) (votes : Votes) → get_or 0 h votes ≡ v → 0 < v → lookup h votes ≡ some v
lookup-of_get_or h v [] e pos = ground arith
lookup-of_get_or h v ((x, n) ∷ votes) e pos = ground (arith, lookup-of_get_or h v votes)

get_or-of_lookup :
    (h : Text) (v : ℕ) (votes : Votes) → lookup h votes ≡ some v → get_or 0 h votes ≡ v
get_or-of_lookup h v [] e = cc
get_or-of_lookup h v ((x, n) ∷ votes) e = ground (arith, get_or-of_lookup h v votes)

-- A hash that was voted for is among the ballots.
find_none-vote :
    (p : Text → Bool) (j : Text) (xs : List Text)
    → find p xs ≡ none
    → 1 ≤ votes_for j xs
    → p j ≡ false
find_none-vote p j [] e v = absurd (omega arith)
find_none-vote p j (x ∷ xs) e v = ground (arith, text_eq_iff x j, find_none-vote p j xs)

find-true : (p : Text → Bool) (h : Text) (xs : List Text) → find p xs ≡ some h → p h ≡ true
find-true p h [] e = cc
find-true p h (x ∷ xs) e = ground (arith, find-true p h xs)

module _ (target : ℕ) (rpcs : List Rpc) where
  abbrev asked : List Text
  asked = ballots target rpcs

  abbrev quorum : ℕ
  quorum = length rpcs / 2 + 1

  abbrev counted : Votes
  counted = tally target rpcs []

  abbrev has_majority : Text → Bool
  has_majority h = ltb (length rpcs) (2 * votes_for h asked)

  counted_small : total counted < 2 * quorum
  counted_small = omega (arith, total-tally target rpcs [], length-ballots target rpcs)

  elect-majority : elect quorum counted ≡ majority_of (length rpcs) asked
  elect-majority = elim (Option-cases (find has_majority asked)) [
    | inl nobody ↦ rw nobody (
        elect_low quorum counted
          (none_high quorum counted (tally-Distinct target rpcs [] tt) (short nobody))
          (omega arith))
    | inr (h, e) ↦
        let won = find-true has_majority h asked e in
        let enough : quorum ≤ votes_for h asked = ground arith in
        let there =
          lookup-of_get_or h (votes_for h asked) counted
            (omega (arith, get_or-tally target h rpcs [])) (omega arith) in
        rw e
          (elect_high quorum h (votes_for h asked) counted there enough (omega arith) counted_small)
  ]
    where
      short :
          find has_majority asked ≡ none
          → (j : Text) (v : ℕ) → lookup j counted ≡ some v
          → v < quorum
      short nobody j v e =
          let v-votes = get_or-of_lookup j v counted e in
          let all = get_or-tally target j rpcs [] in
          let none_here = find_none-vote has_majority j asked nobody in ground arith

  -- Where enough RPCs are configured, `finalizedBlockHash` answers the hash that more than half
  -- of all configured RPCs report for the block as finalized, if there is one, and null if there
  -- is none; otherwise it throws. So no minority of the RPCs decides a salt, whatever they
  -- report.
  pub finalized_block_hash-majority :
      (min_rpcs : ℕ)
      → finalized_block_hash min_rpcs rpcs target ≡ (
          if ltb (length rpcs) min_rpcs
          then err under_provisioned
          else ok (majority_of (length rpcs) (ballots target rpcs)))
  unfolding finalized_block_hash
  finalized_block_hash-majority min_rpcs = elim (Bool-cases (ltb (length rpcs) min_rpcs)) [
    | inl few ↦ rw few refl
    | inr fine ↦ elim (Bool-cases (finalized_somewhere target rpcs)) [
      | inl some_where ↦ rw (fine, some_where) (ap ok elect-majority)
      | inr nowhere ↦ rw (fine, nowhere, ballots_nowhere target rpcs nowhere) refl
    ]
  ]
