-- ===== src/Fairness/Salt.antt =====
-- fairness/salt.provider.ts: where the salt of an epoch comes from. What the RPCs answer and the
-- random bytes are data of a call; `none` for a commitment is an error.
use vault_runner_api.Prelude.{
  ℕ, ◌+◌, Bool, true, false, Option, none, some, List, ◌==◌, leb, if◌then◌else◌,
}
use vault_runner_api.Prelude.Texts.{codes}
use vault_runner_api.Prog.{Result, ok, err, on_option}
use vault_runner_api.World.{Text}
use vault_runner_api.Fairness.Oracle.{Rpc, latest_block_number, finalized_block_hash}

pub data SaltSource : Type 0 where
  random eth_block : SaltSource

abbrev pub is_eth_block : SaltSource → Bool
is_eth_block SaltSource.random = false
is_eth_block eth_block = true

pub record SaltCommitment : Type 0 where
  pub source : SaltSource
  pub salt : Option Text
  pub target_chain : Option Text
  pub target_block : Option ℕ

pub record SaltProvider : Type 0 where
  pub commit : Option SaltCommitment
  pub resolve : SaltCommitment → Option Text

-- `DailySaltProvider`, with the bytes that it draws.
abbrev pub daily_salt_provider : Text → SaltProvider
daily_salt_provider bytes = record {
  commit = some (record {
    source = SaltSource.random;
    salt = some bytes;
    target_chain = none;
    target_block = none;
  });
  resolve = λ c. c.salt;
}

abbrev pub min_lead_blocks : ℕ
min_lead_blocks = 128

-- `lead()`: the environment can only raise it; `none` where it is unset or no number.
unfoldable pub lead_of : Option ℕ → ℕ
lead_of none = min_lead_blocks
lead_of (some n) = if leb min_lead_blocks n then n else min_lead_blocks

abbrev pub ok_or_none : {E A : Type 0} → Result E (Option A) → Option A
ok_or_none (ok a) = a
ok_or_none (err e) = none

abbrev head_of : {E : Type 0} → Result E ℕ → Option ℕ
head_of (ok n) = some n
head_of (err e) = none

-- A target of 0 counts as none.
abbrev pub hash_of_target : ℕ → List Rpc → Option ℕ → Option Text
hash_of_target min_rpcs rpcs none = none
hash_of_target min_rpcs rpcs (some t) =
    if t == 0 then none else ok_or_none (finalized_block_hash min_rpcs rpcs t)

-- `EthBlockSaltProvider`. An error of `resolve` is taken for "not yet" by the one caller, so both
-- are `none`.
unfoldable pub eth_block_salt_provider : Option ℕ → ℕ → List Rpc → SaltProvider
eth_block_salt_provider env_lead min_rpcs rpcs = record {
  commit = on_option (head_of (latest_block_number rpcs)) none λ head. some (record {
    source = eth_block;
    salt = none;
    target_chain = some (codes "ethereum");
    target_block = some (head + lead_of env_lead);
  });
  resolve = λ c. on_option c.salt (hash_of_target min_rpcs rpcs c.target_block) some;
}
