-- ===== src/Tests/Epochs.antt =====
-- Block salts, epochs and their seeds, with three RPCs and a hash that puts a character in front.
use vault_runner_api.Prelude.{
  ℕ, map, true, false, none, some, List, [], ◌∷◌, ◌≡◌, refl, length, ltb, if◌then◌else◌,
}
use vault_runner_api.Prelude.Texts.{codes, trim, split_on}
use mathlib.Core.List.{Memᴰ}
use vault_runner_api.Prelude.Members.{All}
use vault_runner_api.Prog.{ok, err, ret, read, write, atom, try_catch, for_each, ◌>>=◌}
use vault_runner_api.Prog.Schedule.{interleave, step_at, advance}
use vault_runner_api.World.{Text, text_eq}
use vault_runner_api.Fairness.Oracle.{
  Rpc, under_provisioned, elect, tally, vote_of, finalized_block_hash,
}
use vault_runner_api.Fairness.Oracle.Majority.{ballots, majority_of, finalized_block_hash-majority}
use vault_runner_api.Fairness.Chain.{generate_seed_chain, fill}
use vault_runner_api.Fairness.Salt.{SaltSource, daily_salt_provider, eth_block_salt_provider}
use vault_runner_api.Fairness.Epochs.{
  exhausted, Seed, FairnessDb, Sources, create_epoch, find_active, choose_salt, insert_epoch,
  insert_chain, insert_seeds, next_unused_seed,
}
use vault_runner_api.Fairness.Epochs.Views.{get_current_commit, list_epochs, epoch_seeds}
use vault_runner_api.Fairness.Epochs.Views.Hidden.{disguise, views_hidden}
use vault_runner_api.Fairness.Epochs.Serving.{
  ServedSeed, ServiceCall, allocates, maintains, serve, allocate_seed, maintain,
  ensure_active_chain, activate_armed, activate_pending, read_seed, start_pass, end_pass,
  commit_next,
}
use vault_runner_api.Fairness.Epochs.Serving.Idle.{IsIdle, IsRealMoney}
use vault_runner_api.Fairness.Epochs.Serving.Cold.{NeverGranted, attempts, cold_start_stalls}
use vault_runner_api.Fairness.Epochs.Serving.Booted.{IsBooted}
use vault_runner_api.Fairness.Boot.{
  Env, unset, assert_fairness_boot_config, make_salt_provider, min_rpcs, rpc_urls,
}
use vault_runner_api.Fairness.Epochs.Serving.Granted.{IsGranted}
use vault_runner_api.Fairness.Epochs.Serving.Allocated.{nodes, no_epochs, allocate_seed-IsGranted}

abbrev rpc_with : Text → Rpc
rpc_with h = record { latest = some 300; finalized = some 200; hash_at = λ n. some h }

abbrev three_urls : Text
three_urls = codes "a, b,c"

abbrev two_of_three : Text → Rpc
two_of_three url = rpc_with (if text_eq url (98 ∷ []) then 8 ∷ [] else 7 ∷ [])

abbrev rpcs : List Rpc
rpcs = rpc_with (7 ∷ []) ∷ rpc_with (8 ∷ []) ∷ rpc_with (7 ∷ []) ∷ []

finalized_block_hash-majority_example : finalized_block_hash 3 rpcs 150 ≡ (
    if ltb (length rpcs) 3
    then err under_provisioned
    else ok (majority_of (length rpcs) (ballots 150 rpcs)))
finalized_block_hash-majority_example = finalized_block_hash-majority 150 rpcs 3

-- Two of three agree.
hash_agreed : finalized_block_hash 3 rpcs 150 ≡ ok (some (7 ∷ []))
unfolding finalized_block_hash elect tally vote_of
hash_agreed = refl

abbrev count_hash : Text → Text
count_hash s = 1 ∷ s

abbrev demo : Sources
demo = record {
  strict = false;
  provider = daily_salt_provider (9 ∷ []);
  chain_length = 2;
  random_salt = 6 ∷ [];
  last_seed = 5 ∷ [];
}

abbrev real_money : Sources
real_money = record demo { strict = true; provider = eth_block_salt_provider none 3 rpcs }

abbrev empty : FairnessDb
empty = record { chains = []; seeds = []; events = []; next_id = 0; now = 40; maintaining = [] }

abbrev demo_env : Env
demo_env = record {
  require_block_salt = false;
  eth_block_type = false;
  eth_rpc_urls = some three_urls;
  eth_rpc_min = some 3;
  eth_salt_lead = unset;
}

demo-IsBooted : IsBooted demo
unfolding make_salt_provider assert_fairness_boot_config
demo-IsBooted = (demo_env, two_of_three, 9 ∷ [], refl, refl)

abbrev real_money_env : Env
real_money_env = record demo_env { require_block_salt = true; eth_block_type = true }

real_money_starts : make_salt_provider two_of_three [] real_money_env ≡ ok real_money.provider
unfolding make_salt_provider assert_fairness_boot_config min_rpcs rpc_urls trim split_on
real_money_starts = refl

real_money-IsRealMoney : IsRealMoney real_money
real_money-IsRealMoney = (refl, (real_money_env, two_of_three, [], refl, real_money_starts))

-- Two attempts and the upkeep of two nodes, which overlap.
abbrev cold_calls : List ServiceCall
cold_calls = maintains 0 real_money ∷ allocates real_money ∷ maintains 1 real_money ∷ []

abbrev cold_sched : List ℕ
cold_sched = 0 ∷ 1 ∷ 0 ∷ 1 ∷ 2 ∷ 1 ∷ 1 ∷ 0 ∷ 1 ∷ 2 ∷ 0 ∷ 1 ∷ []

cold_start_stalls_example :
    (All NeverGranted (interleave cold_sched (map (serve count_hash) cold_calls) empty).0
      × IsIdle (interleave cold_sched (map (serve count_hash) cold_calls) empty).1.chains)
    × (attempts count_hash (real_money ∷ real_money ∷ []) empty ≡ ok none ∷ ok none ∷ [])
cold_start_stalls_example =
    cold_start_stalls count_hash cold_calls cold_sched (real_money ∷ real_money ∷ []) empty
      (real_money-IsRealMoney, (real_money-IsRealMoney, (real_money-IsRealMoney, tt)))
      (real_money-IsRealMoney, (real_money-IsRealMoney, tt)) tt

abbrev first_seed : Seed
first_seed = record {
  id = 2;
  chain_id = 0;
  chain_index = 1;
  seed_hash = 1 ∷ 5 ∷ [];
  seed = 5 ∷ [];
  revealed_at = none;
  taken = false;
}

abbrev first_served : ServedSeed
first_served = record { seed = first_seed; salt = some (9 ∷ []) }

-- The upkeep of a node begins before the first allocation and ends after it.
abbrev first_calls : List ServiceCall
first_calls = maintains 0 demo ∷ allocates demo ∷ []

abbrev first_sched : List ℕ
first_sched = 0 ∷ 1 ∷ 0 ∷ 1 ∷ 1 ∷ 1 ∷ 1 ∷ 1 ∷ 1 ∷ 0 ∷ 1 ∷ 1 ∷ 0 ∷ 0 ∷ 0 ∷ []

first_allocated :
    Memᴰ
      (ret (some (demo, first_served)))
      (interleave first_sched (map (serve count_hash) first_calls) (no_epochs 40)).0
unfolding interleave step_at advance allocate_seed ensure_active_chain activate_armed
    activate_pending find_active create_epoch choose_salt insert_epoch insert_chain insert_seeds
    generate_seed_chain fill read_seed next_unused_seed maintain start_pass end_pass commit_next
    read write atom try_catch for_each ◌>>=◌
first_allocated = Memᴰ.tail (Memᴰ.head refl)

allocate_seed-IsGranted_example :
    IsGranted
      (nodes first_calls)
      demo
      (interleave first_sched (map (serve count_hash) first_calls) (no_epochs 40)).1
      first_served
allocate_seed-IsGranted_example =
    allocate_seed-IsGranted count_hash first_calls first_sched 40 demo first_served
      (demo-IsBooted, (demo-IsBooted, tt)) first_allocated

-- An epoch with one seed that is not revealed.
abbrev one_hidden : FairnessDb
one_hidden = record empty {
  chains =
      record {
        id = 0;
        epoch = 0;
        commit_hash = 1 ∷ 5 ∷ [];
        length = 2;
        salt_source = SaltSource.random;
        target_chain = none;
        target_block = none;
        salt = some (9 ∷ []);
        status = exhausted;
        created_at = 40;
        armed_at = some 40;
      }
      ∷ [];
  seeds = first_seed ∷ [];
}

abbrev short_hash : Text → Text
short_hash s = []

views_hidden_example :
    (get_current_commit short_hash (disguise count_hash count_hash one_hidden)
      ≡ get_current_commit short_hash one_hidden)
    × (list_epochs short_hash (disguise count_hash count_hash one_hidden)
        ≡ list_epochs short_hash one_hidden)
    × (epoch_seeds 0 (disguise count_hash count_hash one_hidden) ≡ epoch_seeds 0 one_hidden)
views_hidden_example = views_hidden count_hash count_hash short_hash (λ s. refl) one_hidden 0
