-- ===== src/Fairness/Epochs.antt =====
-- fairness/fairness.service.ts: the epochs, each a chain of seeds with a salt, and the seeds that
-- rounds take from them. The engine does not wait for `maintain`, so a call is a program of single
-- actions, one for each statement on the database, between which other calls act. What the salt
-- provider answers, the random bytes and SHA-256 are parameters of a call. A write to an epoch that
-- was read does not fail: epochs are never deleted.
pub mod Serving
pub mod Views
use vault_runner_api.Prelude.{
  ℕ, zero, suc, ◌+◌, ◌≤◌, Bool, true, false, not, ◌&&◌, ◌||◌, Option, none, some, List, [], ◌∷◌,
  ◌++◌, ◌==◌, find, select, update_where, count_where, leb, ltb, if◌then◌else◌, is_some,
}
use vault_runner_api.Prelude.Sorted.{sort}
use vault_runner_api.Prelude.Members.{first_by}
use vault_runner_api.Prog.{Prog, ok, err, ret, throw, ◌>>=◌, ◌>>◌, read, write, atom, on_option}
use vault_runner_api.World.{Text}
use vault_runner_api.Fairness.Chain.{generate_seed_chain}
use vault_runner_api.Fairness.Salt.{
  SaltSource, eth_block, is_eth_block, SaltCommitment, SaltProvider, daily_salt_provider,
}

-- `pending → armed → active → exhausted`
pub data EpochStatus : Type 0 where
  pending armed active exhausted : EpochStatus

abbrev epoch_code : EpochStatus → ℕ
epoch_code pending = 0
epoch_code armed = 1
epoch_code active = 2
epoch_code exhausted = 3

abbrev pub epoch_eq : EpochStatus → EpochStatus → Bool
epoch_eq s t = epoch_code s == epoch_code t

-- `model FairnessChain`
pub record Chain : Type 0 where
  pub id : ℕ
  pub epoch : ℕ
  pub commit_hash : Text
  pub length : ℕ
  pub salt_source : SaltSource
  pub target_chain : Option Text
  pub target_block : Option ℕ
  pub salt : Option Text
  pub status : EpochStatus
  pub created_at : ℕ
  pub armed_at : Option ℕ

-- `model FairnessSeed`, with whether a round refers to it (`rounds: { none: {} }`).
pub record Seed : Type 0 where
  pub id : ℕ
  pub chain_id : ℕ
  pub chain_index : ℕ
  pub seed_hash : Text
  pub seed : Text
  pub revealed_at : Option ℕ
  pub taken : Bool

pub data FallbackReason : Type 0 where
  commit_failed salt_not_ready : FallbackReason

-- The audit log's rows and the metric of a fallback; the flag of the metric is strict mode.
pub data EpochEvent : Type 0 where
  fallback_counted : FallbackReason → Bool → EpochEvent
  epoch_commit : ℕ → EpochStatus → Text → EpochEvent
  salt_fallback : ℕ → FallbackReason → EpochEvent
  salt_armed : ℕ → EpochStatus → EpochEvent

-- The tables, what the log is told, and the nodes whose `maintaining` is set.
pub record FairnessDb : Type 0 where
  pub chains : List Chain
  pub seeds : List Seed
  pub events : List EpochEvent
  pub next_id : ℕ
  pub now : ℕ
  pub maintaining : List ℕ

pub data FairnessError : Type 0 where
  chain_exhausted record_not_found duplicate_epoch chain_too_short : FairnessError

abbrev pub FairnessAction : Type 0 → Type 0
FairnessAction A = Prog FairnessDb FairnessError A

-- `findFirst` with `orderBy: { epoch: "asc" }` and `"desc"`
abbrev pub first_asc : (Chain → Bool) → List Chain → Option Chain
first_asc p cs = first_by p (λ d c. ltb d.epoch c.epoch) cs

abbrev pub first_desc : (Chain → Bool) → List Chain → Option Chain
first_desc p cs = first_by p (λ d c. ltb c.epoch d.epoch) cs

abbrev pub in_status : EpochStatus → Chain → Bool
in_status s c = epoch_eq c.status s

-- `findActive`
unfoldable pub find_active : FairnessDb → Option Chain
find_active db = first_desc (in_status active) db.chains

abbrev pub update_chain : ℕ → (Chain → Chain) → FairnessDb → FairnessDb
update_chain id f db = record db { chains = update_where (λ c. c.id == id) f db.chains }

abbrev pub to_epoch_status : EpochStatus → Chain → Chain
to_epoch_status s c = record c { status = s }

unfoldable pub retire_chain : Chain → FairnessAction (Unit {0})
retire_chain c = write (update_chain c.id (to_epoch_status exhausted))

abbrev pub has_chain_id : ℕ → Chain → Bool
has_chain_id id c = c.id == id

-- The update answers the row that it wrote.
unfoldable pub promote : ℕ → FairnessAction (Option Chain)
promote id = atom λ db.
    on_option (find (has_chain_id id) db.chains) (err record_not_found, db)
      λ c. (ok (some (to_epoch_status active c)), update_chain id (to_epoch_status active) db)

-- `(max ?? -1) + 1`
abbrev pub new_epoch : List Chain → ℕ
new_epoch [] = 0
new_epoch (c ∷ cs) = let rest = new_epoch cs in if leb rest c.epoch then c.epoch + 1 else rest

abbrev pub seed_row : ℕ → ℕ → Text → Text → ℕ → ℕ → Seed
seed_row id chain_id hash seed index now = record {
  id = id;
  chain_id = chain_id;
  chain_index = index;
  seed_hash = hash;
  seed = seed;
  revealed_at = if index == 0 then some now else none;
  taken = false;
}

abbrev pub log_event : EpochEvent → FairnessDb → FairnessDb
log_event e db = record db { events = e ∷ db.events }

-- `nextUnusedSeed`: of the chain's seeds from index 1 on that no round has, the lowest index.
abbrev pub is_unused : ℕ → Seed → Bool
is_unused chain_id s = s.chain_id == chain_id && (leb 1 s.chain_index && not s.taken)

abbrev pub lowest : (Seed → Bool) → List Seed → Option Seed
lowest p ss = first_by p (λ t s. ltb t.chain_index s.chain_index) ss

unfoldable pub next_unused_seed : ℕ → FairnessDb → Option Seed
next_unused_seed chain_id db = lowest (is_unused chain_id) db.seeds

-- What a call of `createEpoch` has to go on.
pub record Sources : Type 0 where
  pub strict : Bool
  pub provider : SaltProvider
  pub chain_length : ℕ
  pub random_salt : Text
  pub last_seed : Text

-- A salt for a new epoch, with the reason where the random one stands in; `none` is the refusal of
-- strict mode.
pub record Chosen : Type 0 where
  pub commitment : SaltCommitment
  pub fallback : Option FallbackReason

abbrev pub random_commitment : Text → SaltCommitment
random_commitment bytes = record {
  source = SaltSource.random;
  salt = some bytes;
  target_chain = none;
  target_block = none;
}

abbrev pub fall_back : Sources → FallbackReason → FairnessAction (Option Chosen)
fall_back x reason =
    write (log_event (fallback_counted reason x.strict))
    >> ret (
        if x.strict
        then none
        else some (record { commitment = random_commitment x.random_salt; fallback = some reason }))

unfoldable pub choose_salt : Sources → Bool → FairnessAction (Option Chosen)
choose_salt x activate = on_option x.provider.commit (fall_back x commit_failed) λ c.
    if activate && not (is_some c.salt)
    then fall_back x salt_not_ready
    else ret (some (record { commitment = c; fallback = none }))

abbrev pub new_status : Bool → SaltCommitment → EpochStatus
new_status activate c = if is_some c.salt then (if activate then active else armed) else pending

abbrev pub head_or_empty : List Text → Text
head_or_empty [] = []
head_or_empty (s ∷ seeds) = s

module _ (sha256_hex : Text → Text) where
  abbrev pub seed_rows : ℕ → ℕ → ℕ → ℕ → List Text → List Seed
  seed_rows id chain_id index now [] = []
  seed_rows id chain_id index now (s ∷ ss) =
      seed_row id chain_id (sha256_hex s) s index now
      ∷ seed_rows (id + 1) chain_id (index + 1) now ss

  abbrev pub id_after : ℕ → List Text → ℕ
  id_after n [] = n
  id_after n (s ∷ ss) = id_after (n + 1) ss

  -- `fairnessSeed.createMany`
  unfoldable pub insert_seeds : ℕ → List Text → FairnessDb → FairnessDb
  insert_seeds chain_id seeds db = record db {
    seeds = seed_rows db.next_id chain_id 0 db.now seeds ++ db.seeds;
    next_id = id_after db.next_id seeds;
  }

  abbrev pub new_chain : Sources → Bool → ℕ → SaltCommitment → List Text → FairnessDb → Chain
  new_chain x activate epoch c seeds db = record {
    id = db.next_id;
    epoch = epoch;
    commit_hash = head_or_empty seeds;
    length = x.chain_length;
    salt_source = c.source;
    target_chain = c.target_chain;
    target_block = c.target_block;
    salt = c.salt;
    status = new_status activate c;
    created_at = db.now;
    armed_at = if is_some c.salt then some db.now else none;
  }

  -- `fairnessChain.create`; the number of an epoch is unique.
  unfoldable pub insert_chain :
      Sources → Bool → ℕ → SaltCommitment → List Text → FairnessAction Chain
  insert_chain x activate epoch c seeds = atom λ db.
      let chain = new_chain x activate epoch c seeds db in
      if is_some (find (λ d. d.epoch == epoch) db.chains)
      then (err duplicate_epoch, db)
      else (ok chain, record db { chains = chain ∷ db.chains; next_id = db.next_id + 1 })

  -- The rows of the epoch, and what the audit log is told of it.
  unfoldable pub insert_epoch :
      Sources → Bool → ℕ → Chosen → List Text → FairnessAction (Option Chain)
  insert_epoch x activate epoch chosen seeds = do
    chain ← insert_chain x activate epoch chosen.commitment seeds
    write (insert_seeds chain.id seeds)
    write (log_event (epoch_commit epoch chain.status chain.commit_hash))
    on_option chosen.fallback (ret tt) (λ r. write (log_event (salt_fallback epoch r)))
    if is_some chain.salt then write (log_event (salt_armed epoch chain.status)) else ret tt
    ret (some chain)

  -- `createEpoch`. A chain of fewer than two seeds is an error that `chain_length` rules out.
  unfoldable pub create_epoch : Sources → Bool → FairnessAction (Option Chain)
  create_epoch x activate = do
    epoch ← read (λ db. new_epoch db.chains)
    chosen ← choose_salt x activate
    on_option chosen (ret none) λ c.
        on_option (generate_seed_chain sha256_hex x.chain_length x.last_seed)
          (throw chain_too_short) (insert_epoch x activate epoch c)
