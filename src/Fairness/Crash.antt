-- ===== src/Fairness/Crash.antt =====
-- fairness/crash.ts: the crash multiplier of a hash. A hex text is the list of its digits, each
-- below 16; a multiplier is in hundredths. HMAC-SHA256 is a parameter.
pub mod Edge
use vault_runner_api.Prelude.{ℕ, ◌+◌, ◌*◌, ◌/◌, ◌^◌, List, [], ◌∷◌, ltb, if◌then◌else◌, take}
use vault_runner_api.World.{Text}

-- `E`, 52 bits
pub entropy : ℕ
entropy = 2 ^ 52

-- `FACTOR * (E + 1n)`, with FACTOR = round(100 * (1 - 0.03))
pub pool : ℕ
unfolding entropy
pool = 97 * (entropy + 1)

pub max_cents : ℕ
max_cents = 100_000_000

-- The two clamps, in their order.
pub clamp : ℕ → ℕ
clamp cents =
    let raised = if ltb cents 100 then 100 else cents in
    if ltb max_cents raised then max_cents else raised

pub crash_cents : ℕ → ℕ
crash_cents h = clamp (pool / (h + 1))

-- `BigInt("0x" + hex)`, most significant digit first
pub hex_value : ℕ → List ℕ → ℕ
hex_value acc [] = acc
hex_value acc (d ∷ ds) = hex_value (acc * 16 + d) ds

pub crash_from_hmac_hex : List ℕ → ℕ
crash_from_hmac_hex hex = crash_cents (hex_value 0 (take 13 hex))

module _ (hmac_sha256 : List ℕ → Text → List ℕ) where
  pub compute_crash : List ℕ → Text → ℕ
  compute_crash seed salt = crash_from_hmac_hex (hmac_sha256 seed salt)
