-- ===== src/Fairness/Epochs/Views.antt =====
-- fairness/fairness.service.ts: what the public is shown of the epochs. SHA-256 of a text and
-- HMAC-SHA256 are parameters; the constants of the commitment (house edge, formula) are left out.
pub mod Hidden
use vault_runner_api.Prelude.{
  ℕ, ◌-◌, Bool, true, false, not, ◌&&◌, Option, none, some, List, [], ◌∷◌, map, length, ◌==◌, find,
  select, count_where, is_some, if◌then◌else◌, leb,
}
use mathlib.Core.Option as Option
use vault_runner_api.Prelude.Sorted.{sort}
use vault_runner_api.Prog.{on_option}
use vault_runner_api.World.{Text}
use vault_runner_api.Fairness.Crash.{compute_crash}
use vault_runner_api.Fairness.Chain.{verify_chain_link}
use vault_runner_api.Fairness.Salt.{SaltSource}
use vault_runner_api.Fairness.Epochs.{
  EpochStatus, active, exhausted, Chain, Seed, FairnessDb, find_active, first_asc, in_status,
}
use vault_runner_api.Fairness.Epochs.Serving.{is_queued}

pub record NextEpoch : Type 0 where
  pub epoch : ℕ
  pub commit_hash : Text
  pub salt_source : SaltSource
  pub target_chain : Option Text
  pub target_block : Option ℕ
  pub status : EpochStatus

pub record CurrentCommit : Type 0 where
  pub epoch : ℕ
  pub commit_hash : Text
  pub salt_source : SaltSource
  pub salt_hash : Option Text
  pub target_chain : Option Text
  pub target_block : Option ℕ
  pub chain_length : ℕ
  pub rounds_revealed : ℕ
  pub next_epoch : Option NextEpoch

pub record EpochEntry : Type 0 where
  pub epoch : ℕ
  pub commit_hash : Text
  pub salt_source : SaltSource
  pub salt : Option Text
  pub salt_hash : Option Text
  pub target_chain : Option Text
  pub target_block : Option ℕ
  pub length : ℕ
  pub status : EpochStatus
  pub rounds_revealed : ℕ
  pub created_at : ℕ
  pub armed_at : Option ℕ

pub record SeedEntry : Type 0 where
  pub chain_index : ℕ
  pub seed : Text
  pub seed_hash : Text
  pub revealed_at : Option ℕ

pub record EpochSeeds : Type 0 where
  pub epoch : ℕ
  pub commit_hash : Text
  pub salt_source : SaltSource
  pub salt : Option Text
  pub target_chain : Option Text
  pub target_block : Option ℕ
  pub status : EpochStatus
  pub length : ℕ
  pub revealed_count : ℕ
  pub seeds : List SeedEntry

abbrev pub is_revealed : ℕ → Seed → Bool
is_revealed chain_id s = s.chain_id == chain_id && is_some s.revealed_at

-- `Math.max(0, revealed - 1)`
abbrev pub rounds_revealed_of : FairnessDb → Chain → ℕ
rounds_revealed_of db c = count_where (is_revealed c.id) db.seeds - 1

abbrev pub salt_public : EpochStatus → Bool
salt_public active = true
salt_public exhausted = true
salt_public s = false

abbrev pub public_salt : Chain → Option Text
public_salt c = if salt_public c.status then c.salt else none

abbrev pub to_next : Chain → NextEpoch
to_next c = record {
  epoch = c.epoch;
  commit_hash = c.commit_hash;
  salt_source = c.salt_source;
  target_chain = c.target_chain;
  target_block = c.target_block;
  status = c.status;
}

abbrev pub to_seed_entry : Seed → SeedEntry
to_seed_entry s = record {
  chain_index = s.chain_index;
  seed = s.seed;
  seed_hash = s.seed_hash;
  revealed_at = s.revealed_at;
}

module _ (sha256_of_utf8 : Text → Text) where
  abbrev pub to_commit : FairnessDb → Chain → CurrentCommit
  to_commit db c = record {
    epoch = c.epoch;
    commit_hash = c.commit_hash;
    salt_source = c.salt_source;
    salt_hash = Option.map sha256_of_utf8 c.salt;
    target_chain = c.target_chain;
    target_block = c.target_block;
    chain_length = c.length;
    rounds_revealed = rounds_revealed_of db c;
    next_epoch = Option.map to_next (first_asc is_queued db.chains);
  }

  -- `getCurrentCommit`
  unfoldable pub get_current_commit : FairnessDb → Option CurrentCommit
  get_current_commit db = Option.map (to_commit db) (find_active db)

  abbrev pub to_entry : FairnessDb → Chain → EpochEntry
  to_entry db c = record {
    epoch = c.epoch;
    commit_hash = c.commit_hash;
    salt_source = c.salt_source;
    salt = public_salt c;
    salt_hash = Option.map sha256_of_utf8 c.salt;
    target_chain = c.target_chain;
    target_block = c.target_block;
    length = c.length;
    status = c.status;
    rounds_revealed = rounds_revealed_of db c;
    created_at = c.created_at;
    armed_at = c.armed_at;
  }

  -- `listEpochs`
  unfoldable pub list_epochs : FairnessDb → List EpochEntry
  list_epochs db = map (to_entry db) (sort (λ c d. leb c.epoch d.epoch) db.chains)

-- The revealed seeds of the epoch, by index.
abbrev pub revealed_seeds : FairnessDb → Chain → List Seed
revealed_seeds db c =
    sort (λ s t. leb s.chain_index t.chain_index) (select (is_revealed c.id) db.seeds)

abbrev pub to_epoch_seeds : FairnessDb → Chain → EpochSeeds
to_epoch_seeds db c = record {
  epoch = c.epoch;
  commit_hash = c.commit_hash;
  salt_source = c.salt_source;
  salt = public_salt c;
  target_chain = c.target_chain;
  target_block = c.target_block;
  status = c.status;
  length = c.length;
  revealed_count = length (revealed_seeds db c);
  seeds = map to_seed_entry (revealed_seeds db c);
}

-- `epochSeeds`
unfoldable pub epoch_seeds : ℕ → FairnessDb → Option EpochSeeds
epoch_seeds epoch db = Option.map (to_epoch_seeds db) (find (λ c. c.epoch == epoch) db.chains)

-- An empty text counts as no seed.
abbrev pub link_of : (Text → Text) → Text → Option Text → Option Bool
link_of sha256_hex seed (some (d ∷ ds)) = some (verify_chain_link sha256_hex seed (d ∷ ds))
link_of sha256_hex seed p = none

-- `verify`
abbrev pub verify :
    (List ℕ → Text → List ℕ) → (Text → Text) → Text → Text → Option Text → ℕ × Option Bool
verify hmac_sha256 sha256_hex seed salt prev_seed =
    (compute_crash hmac_sha256 seed salt, link_of sha256_hex seed prev_seed)
