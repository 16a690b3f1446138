-- ===== src/Fairness/Epochs/Serving/Booted.antt =====
-- What the boot guard leaves of the settings.
use vault_runner_api.Prelude.{
  ℕ, false, Option, none, List, map, ◌≡◌, sym, inl, inr, ◌⊎◌, ◌∙◌, Bool-cases, Option-cases,
  none-some,
}
use vault_runner_api.Prog.{Result, ok, err}
use vault_runner_api.World.{Text}
use vault_runner_api.Fairness.Oracle.{Rpc}
use vault_runner_api.Fairness.Salt.{SaltProvider, daily_salt_provider, eth_block_salt_provider}
use vault_runner_api.Fairness.Boot.{
  Env, BootError, lead_number, min_rpcs, rpc_urls, assert_fairness_boot_config, make_salt_provider,
}
use vault_runner_api.Fairness.Epochs.{Sources}

-- The settings are those of a node that has started, at some answers of the RPCs.
abbrev pub IsBooted : Sources → Type 0
IsBooted x =
    (env : Env) × (rpc_at : Text → Rpc) × (bytes : Text) × (x.strict ≡ env.require_block_salt)
    × (make_salt_provider rpc_at bytes env ≡ ok x.provider)

abbrev pub HasBlocks : SaltProvider → Type 0
HasBlocks p =
    (env_lead : Option ℕ) × (least : ℕ) × (rpcs : List Rpc) × (p
      ≡ eth_block_salt_provider env_lead least rpcs)

abbrev answered : SaltProvider → Result BootError SaltProvider
answered p = ok p

ok_injective : (a b : SaltProvider) → answered a ≡ answered b → a ≡ b
ok_injective a b h = cc

err_ok : (e : BootError) (p : SaltProvider) → err e ≡ answered p → ⊥
err_ok e p h = cc

lenient_lem :
    (env : Env)
    → assert_fairness_boot_config env ≡ none
    → env.eth_block_type ≡ false
    → env.require_block_salt ≡ false
unfolding assert_fairness_boot_config
lenient_lem env fine random = elim (Bool-cases env.require_block_salt) [
  | inl strict ↦ elim (none-some _ (sym (rw (strict, random) at fine))) [ ]
  | inr lenient ↦ lenient
]

pub booted_cases :
    (x : Sources)
    → IsBooted x
    → HasBlocks x.provider
      ⊎ ((x.strict ≡ false) × (bytes : Text) × (x.provider ≡ daily_salt_provider bytes))
unfolding make_salt_provider
booted_cases x (env, rpc_at, bytes, strict, made) =
    elim (Option-cases (assert_fairness_boot_config env)) [
      | inr (e, refused) ↦ elim (err_ok e x.provider (rw refused at made)) [ ]
      | inl fine ↦ elim (Bool-cases env.eth_block_type) [
        | inl blocks ↦ inl (
          lead_number env.eth_salt_lead,
          min_rpcs env.eth_rpc_min,
          map rpc_at (rpc_urls env.eth_rpc_urls),
          sym (ok_injective _ x.provider (rw (fine, blocks) at made)),
        )
        | inr random ↦ inr (
          strict ∙ lenient_lem env fine random,
          bytes,
          sym (ok_injective _ x.provider (rw (fine, random) at made)),
        )
      ]
    ]
