-- ===== src/Fairness/Boot.antt =====
-- fairness/fairness.module.ts, and the settings that fairness/eth-block.ts reads: what a node that
-- takes real money must be configured with before it starts.
use vault_runner_api.Prelude.{
  ℕ, Bool, true, false, not, ◌||◌, Option, none, some, List, [], ◌∷◌, map, length, select, leb, ltb,
  if◌then◌else◌,
}
use vault_runner_api.Prelude.Texts.{codes, is_nil, trim, split_on}
use vault_runner_api.Prog.{Result, ok, err, on_option}
use vault_runner_api.World.{Text}
use vault_runner_api.Fairness.Oracle.{Rpc}
use vault_runner_api.Fairness.Salt.{
  SaltProvider, daily_salt_provider, eth_block_salt_provider, min_lead_blocks,
}

-- ETH_SALT_LEAD_BLOCKS: unset or empty, no finite number, or a number, rounded down.
pub data LeadSetting : Type 0 where
  unset not_a_number : LeadSetting
  lead : ℕ → LeadSetting

-- The environment: FAIRNESS_REQUIRE_BLOCK_SALT is "true", SALT_PROVIDER_TYPE is "eth-block", the
-- text of ETH_RPC_URLS, and ETH_RPC_MIN as a number, rounded down, where it is one.
pub record Env : Type 0 where
  pub require_block_salt : Bool
  pub eth_block_type : Bool
  pub eth_rpc_urls : Option Text
  pub eth_rpc_min : Option ℕ
  pub eth_salt_lead : LeadSetting

abbrev pub default_rpcs : List Text
default_rpcs =
    codes "https://ethereum-rpc.publicnode.com"
    ∷ codes "https://eth.drpc.org"
    ∷ codes "https://eth-mainnet.public.blastapi.io"
    ∷ codes "https://eth-pokt.nodies.app"
    ∷ []

abbrev pub comma : ℕ
comma = 44

abbrev pub urls_of : Text → List Text
urls_of [] = default_rpcs
urls_of (c ∷ cs) = select (λ s. not (is_nil s)) (map trim (split_on comma (c ∷ cs)))

-- `rpcUrls`
unfoldable pub rpc_urls : Option Text → List Text
rpc_urls none = default_rpcs
rpc_urls (some env) = urls_of (trim env)

-- `minRpcs`
unfoldable pub min_rpcs : Option ℕ → ℕ
min_rpcs none = 1
min_rpcs (some n) = if leb 1 n then n else 1

pub data BootError : Type 0 where
  random_primary_salt : BootError
  rpc_min_too_low rpcs_too_few : ℕ → BootError
  lead_too_small : BootError

abbrev is_lead_refused : LeadSetting → Bool
is_lead_refused unset = false
is_lead_refused not_a_number = true
is_lead_refused (lead n) = ltb n min_lead_blocks

-- `assertFairnessBootConfig`
unfoldable pub assert_fairness_boot_config : Env → Option BootError
assert_fairness_boot_config env =
    let least = min_rpcs env.eth_rpc_min in
    let urls = length (rpc_urls env.eth_rpc_urls) in
    if not env.require_block_salt
    then none
    else if not env.eth_block_type
    then some random_primary_salt
    else if ltb least 3
    then some (rpc_min_too_low least)
    else if ltb urls 3 || ltb urls least
    then some (rpcs_too_few urls)
    else if is_lead_refused env.eth_salt_lead
    then some lead_too_small
    else none

abbrev pub lead_number : LeadSetting → Option ℕ
lead_number (lead n) = some n
lead_number s = none

-- `makeSaltProvider`, with what the RPC behind a URL answers and the bytes that are drawn.
unfoldable pub make_salt_provider : (Text → Rpc) → Text → Env → Result BootError SaltProvider
make_salt_provider rpc_at bytes env =
    on_option (assert_fairness_boot_config env)
      (ok (
        if env.eth_block_type
        then eth_block_salt_provider (lead_number env.eth_salt_lead) (min_rpcs env.eth_rpc_min)
            (map rpc_at (rpc_urls env.eth_rpc_urls))
        else daily_salt_provider bytes))
      err
