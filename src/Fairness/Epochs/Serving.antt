-- ===== src/Fairness/Epochs/Serving.antt =====
-- fairness/fairness.service.ts: which epoch serves, the seeds that rounds take, and the upkeep.
pub mod Cold
pub mod Idle
pub mod Booted
pub mod Rows
pub mod Served
pub mod Opened
pub mod Ensured
pub mod Granted
pub mod Allocated
use vault_runner_api.Prelude.{
  ℕ, zero, suc, Bool, true, false, not, ◌&&◌, ◌||◌, Option, none, some, List, [], ◌∷◌, ◌==◌, select,
  find, update_where, count_where, leb, if◌then◌else◌, is_some,
}
use mathlib.Core.Option as Option
use vault_runner_api.Prelude.Sorted.{sort}
use vault_runner_api.Prog.{
  ok, ret, throw, ◌>>=◌, ◌>>◌, read, write, atom, try_catch, for_each, on_option,
}
use vault_runner_api.World.{Text}
use vault_runner_api.Fairness.Salt.{is_eth_block, SaltCommitment, SaltProvider}
use vault_runner_api.Fairness.Epochs.{
  EpochStatus, pending, armed, active, exhausted, Chain, Seed, EpochEvent, salt_armed, FairnessDb,
  first_asc, in_status, find_active, update_chain, to_epoch_status, retire_chain, promote,
  log_event, next_unused_seed, Sources, create_epoch, FairnessAction, has_chain_id, chain_exhausted,
}

abbrev pub commitment_of : Chain → SaltCommitment
commitment_of c = record {
  source = c.salt_source;
  salt = c.salt;
  target_chain = c.target_chain;
  target_block = c.target_block;
}

-- `tryResolve`
abbrev pub try_resolve : Sources → Chain → Option Text
try_resolve x c = x.provider.resolve (commitment_of c)

abbrev pub with_salt : Text → ℕ → Chain → Chain
with_salt salt now c = record c { salt = some salt; armed_at = some now }

abbrev pub armed_with : Text → ℕ → Chain → Chain
armed_with salt now c = record c { salt = some salt; status = armed; armed_at = some now }

abbrev pub is_refused : Sources → Chain → Bool
is_refused x c = x.strict && not (is_eth_block c.salt_source)

-- A seed with the salt of its epoch (`include: { chain: … }`), from which the round's crash point
-- is computed.
pub record ServedSeed : Type 0 where
  pub seed : Seed
  pub salt : Option Text

abbrev pub with_chain_salt : FairnessDb → Seed → ServedSeed
with_chain_salt db s = record {
  seed = s;
  salt = on_option (find (has_chain_id s.chain_id) db.chains) none (λ c. c.salt);
}

unfoldable pub read_seed : ℕ → FairnessAction (Option ServedSeed)
read_seed chain_id = read λ db. Option.map (with_chain_salt db) (next_unused_seed chain_id db)

-- One pending epoch of `maintain`.
unfoldable pub arm_pending : Sources → Chain → FairnessAction (Unit {0})
arm_pending x c = on_option (try_resolve x c) (ret tt) λ salt.
    write (λ db. update_chain c.id (armed_with salt db.now) db)
    >> write (log_event (salt_armed c.epoch armed))

abbrev pub is_queued : Chain → Bool
is_queued c = in_status pending c || in_status armed c

abbrev pub due : FairnessDb → List Chain
due db = sort (λ c d. leb c.epoch d.epoch) (select (in_status pending) db.chains)

-- `if (this.maintaining) return; this.maintaining = true`: whether the pass may go on.
unfoldable pub start_pass : ℕ → FairnessAction Bool
start_pass node = atom λ db.
    if is_some (find (λ n. n == node) db.maintaining)
    then (ok false, db)
    else (ok true, record db { maintaining = node ∷ db.maintaining })

unfoldable pub end_pass : ℕ → FairnessAction (Unit {0})
end_pass node = write λ db. record db { maintaining = select (λ n. not (n == node)) db.maintaining }

module _ (sha256_hex : Text → Text) where
  -- A pending epoch whose salt is there is promoted with it; else a fresh one is opened.
  unfoldable pub activate_pending : Sources → FairnessAction (Option Chain)
  activate_pending x = do
    found ← read (λ db. first_asc (in_status pending) db.chains)
    on_option found (create_epoch sha256_hex x true) λ c.
        on_option (try_resolve x c) (create_epoch sha256_hex x true)
          λ salt. write (λ db. update_chain c.id (with_salt salt db.now) db) >> promote c.id

  unfoldable pub activate_armed : Sources → FairnessAction (Option Chain)
  activate_armed x = do
    found ← read (λ db. first_asc (in_status armed) db.chains)
    on_option found (activate_pending x)
        λ c. if is_refused x c then retire_chain c >> activate_pending x else promote c.id

  -- `ensureActiveChain`
  unfoldable pub ensure_active_chain : Sources → FairnessAction (Option Chain)
  ensure_active_chain x = do
    found ← read find_active
    on_option found (activate_armed x)
        λ c. if is_refused x c then retire_chain c >> activate_armed x else ret (some c)

  -- The chain has no seed left: the one after it is asked.
  unfoldable pub roll_over : Sources → Chain → FairnessAction (Option ServedSeed)
  roll_over x c = do
    retire_chain c
    next ← ensure_active_chain x
    on_option next (ret none)
        λ n. read_seed n.id >>= λ seed. on_option seed (throw chain_exhausted) (λ s. ret (some s))

  -- `allocateSeed`; `none` is the stall.
  unfoldable pub allocate_seed : Sources → FairnessAction (Option ServedSeed)
  allocate_seed x = do
    chain ← ensure_active_chain x
    on_option chain (ret none)
        λ c. read_seed c.id >>= λ seed. on_option seed (roll_over x c) (λ s. ret (some s))

  -- A new epoch is committed where one is active and none is queued.
  unfoldable pub commit_next : Sources → FairnessAction (Unit {0})
  commit_next x = do
    found ← read find_active
    on_option found (ret tt) λ c. read (λ db. count_where is_queued db.chains) >>= λ queued.
        if queued == 0 then create_epoch sha256_hex x false >> ret tt else ret tt

  -- `maintain` on a node.
  unfoldable pub maintain : ℕ → Sources → FairnessAction (Unit {0})
  maintain node x = do
    mine ← start_pass node
    if mine
        then try_catch (read due >>= λ cs. for_each cs (arm_pending x) >> commit_next x)
            (λ e. ret tt)
          >> end_pass node
        else ret tt

-- The engine's `round.create`, as far as it takes a seed, and `revealSeed`.
abbrev pub update_seed : ℕ → (Seed → Seed) → FairnessDb → FairnessDb
update_seed id f db = record db { seeds = update_where (λ s. s.id == id) f db.seeds }

unfoldable pub take_seed : ℕ → FairnessAction (Unit {0})
take_seed id = write (update_seed id (λ s. record s { taken = true }))

unfoldable pub reveal_seed : ℕ → FairnessAction (Unit {0})
reveal_seed id = write λ db. update_seed id (λ s. record s { revealed_at = some db.now }) db

-- A call of the service on a node, or the clock. An allocation answers with the settings of the
-- node that asked.
pub data ServiceCall : Type 0 where
  clock : ℕ → ServiceCall
  allocates : Sources → ServiceCall
  maintains : ℕ → Sources → ServiceCall
  takes reveals : ℕ → ServiceCall

module _ (sha256_hex : Text → Text) where
  abbrev pub serve : ServiceCall → FairnessAction (Option (Sources × ServedSeed))
  serve (allocates x) = allocate_seed sha256_hex x >>= λ s. ret (Option.map (λ t. (x, t)) s)
  serve (maintains node x) = maintain sha256_hex node x >> ret none
  serve (clock now) = write (λ db. record db { now = now }) >> ret none
  serve (takes id) = take_seed id >> ret none
  serve (reveals id) = reveal_seed id >> ret none
