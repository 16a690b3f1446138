-- ===== src/Fairness/Oracle.antt =====
-- fairness/eth-block.ts: the hash of a finalized block, by a quorum of the configured RPCs. What an
-- RPC answers in one pass is data: the number of its finalized and of its latest block, and the
-- hash that it has at a height; `none` where the call fails or has no block. A hash is a text.
pub mod Majority
use vault_runner_api.Prelude.{
  ℕ, ◌+◌, ◌/◌, Bool, true, false, ◌||◌, Option, none, some, List, [], ◌∷◌, ◌==◌, length,
  count_where, ltb, leb, if◌then◌else◌,
}
use vault_runner_api.Prelude.Eq.{Eq, upsert}
use vault_runner_api.Prog.{Result, ok, err, on_option}
use vault_runner_api.World.{Text, eq_text}

pub record Rpc : Type 0 where
  pub latest : Option ℕ
  pub finalized : Option ℕ
  pub hash_at : ℕ → Option Text

pub data OracleError : Type 0 where
  under_provisioned no_block : OracleError

-- `latestBlockNumber`: of the first RPC that answers.
unfoldable pub latest_block_number : List Rpc → Result OracleError ℕ
latest_block_number [] = err no_block
latest_block_number (r ∷ rs) = let rest = latest_block_number rs in on_option r.latest rest ok

-- `finalizedBlockNumber`
unfoldable pub finalized_block_number : List Rpc → Result OracleError ℕ
finalized_block_number [] = err no_block
finalized_block_number (r ∷ rs) =
    let rest = finalized_block_number rs in on_option r.finalized rest ok

abbrev pub has_finalized : ℕ → Rpc → Bool
has_finalized target r = on_option r.finalized false (λ n. leb target n)

-- What one RPC votes for: nothing where the block is not finalized there, or the call fails.
unfoldable pub vote_of : ℕ → Rpc → Option Text
vote_of target r = if has_finalized target r then r.hash_at target else none

abbrev pub Votes : Type 0
Votes = List (Text × ℕ)

-- The loop over the RPCs.
unfoldable pub tally : ℕ → List Rpc → Votes → Votes
tally target [] votes = votes
tally target (r ∷ rs) votes =
    tally target rs (on_option (vote_of target r) votes (λ h. upsert h (λ n. n + 1) 0 votes))

abbrev finalized_somewhere : ℕ → List Rpc → Bool
finalized_somewhere target [] = false
finalized_somewhere target (r ∷ rs) = has_finalized target r || finalized_somewhere target rs

-- The loop over the votes: the first hash with the most of them, and their number.
abbrev pub best_of : Votes → Option Text × ℕ → Option Text × ℕ
best_of [] best = best
best_of ((h, n) ∷ votes) (b, k) = best_of votes (if ltb k n then (some h, n) else (b, k))

abbrev pub has_count : ℕ → Text × ℕ → Bool
has_count k (h, n) = n == k

-- A top that is tied, or below the quorum, is no answer.
unfoldable pub elect : ℕ → Votes → Option Text
elect need votes =
    let (best, best_n) = best_of votes (none, 0) in
    if best_n == 0 || ltb 1 (count_where (has_count best_n) votes)
    then none
    else if leb need best_n
    then best
    else none

-- `finalizedBlockHash`; `min_rpcs` is `minRpcs()`, the least number of RPCs that is trusted.
unfoldable pub finalized_block_hash : ℕ → List Rpc → ℕ → Result OracleError (Option Text)
finalized_block_hash min_rpcs rpcs target =
    if ltb (length rpcs) min_rpcs
    then err under_provisioned
    else if finalized_somewhere target rpcs
    then ok (elect (length rpcs / 2 + 1) (tally target rpcs []))
    else ok none
