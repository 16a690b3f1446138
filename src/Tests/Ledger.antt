-- ===== src/Tests/Ledger.antt =====
-- The internal ledger on concrete states.
use vault_runner_api.Prelude.{ℕ, none, [], ◌∷◌, ◌≡◌, refl}
use vault_runner_api.Prelude.Int.{pos, negsuc, ◌+ℤ◌, ◌-ℤ◌}
use vault_runner_api.Prog.{ok, run, ◌>>=◌, read, atom, transaction, try_catch}
use vault_runner_api.Prog.Keeps.{Keeps}
use vault_runner_api.World.{World, Key, LedgerTransaction, bet_debit, refund, panel_a}
use vault_runner_api.Wallet.Provider.{Direction, ReverseParams}
use vault_runner_api.Wallet.Ledger.{
  record_entry, record_body, post, create_entry, find_entry, debit, reverse, reset_to, wallet_at,
}
use vault_runner_api.Wallet.Ledger.Idempotent.{Recorded, record_entry-again, record_entry-Recorded}
use vault_runner_api.Wallet.Ledger.Reverse.{reverse-debit}
use vault_runner_api.Wallet.Ledger.Sound.{IsSound, reset_to-IsSound}
use vault_runner_api.Tests.Worlds.{open_world}

abbrev stake_key : Key
stake_key = Key.debit 7 101 panel_a

-- The row of a stake of 40, and the state after it.
abbrev stake_row : LedgerTransaction
stake_row = record {
  id = 50;
  wallet_id = 1;
  type = bet_debit;
  amount = negsuc 39;
  balance_after = pos 60;
  ref = none;
  idempotency_key = stake_key;
}

abbrev staked_world : World
staked_world = record open_world {
  wallets = record { id = 1; user_id = 101; currency = 69 ∷ 85 ∷ 82 ∷ []; balance = pos 60 } ∷ [];
  ledger = stake_row ∷ [];
  next_id = 51;
}

recorded :
    run (record_entry 1 (negsuc 39) bet_debit stake_key none) open_world
    ≡ (ok stake_row, staked_world)
unfolding run record_entry record_body post create_entry find_entry read atom transaction try_catch
    ◌>>=◌ ◌+ℤ◌
recorded = refl

debited :
    run (debit 1 40 bet_debit stake_key none) open_world
    ≡ (ok (record { id = 50; balance_after = pos 60 }), staked_world)
unfolding run debit record_entry record_body post create_entry find_entry read atom transaction
    try_catch ◌>>=◌ ◌+ℤ◌ ◌-ℤ◌
debited = refl

-- The second record of the key, for 30 now, answers the first row.
record_entry-again_example :
    run (record_entry 1 (negsuc 29) bet_debit stake_key none) staked_world
    ≡ (ok stake_row, staked_world)
record_entry-again_example =
    record_entry-again 1 1 (negsuc 39) (negsuc 29) bet_debit bet_debit stake_key none none
      open_world staked_world stake_row recorded

record_entry-Recorded_example :
    Recorded 1
      (negsuc 39)
      stake_key
      open_world
      (run (record_entry 1 (negsuc 39) bet_debit stake_key none) open_world)
record_entry-Recorded_example =
    record_entry-Recorded 1 (negsuc 39) bet_debit stake_key none open_world

abbrev refund_of_stake : ReverseParams
refund_of_stake = record {
  original_key = stake_key;
  reverse_key = Key.void_refund 9;
  amount = 40;
  original_direction = Direction.debit;
  type = refund;
  ref = none;
  intent = none;
}

reverse-debit_example :
    (u : World) × (run (reverse 1 refund_of_stake) staked_world ≡ (ok tt, u))
    × ((j : ℕ) → wallet_at j u.wallets ≡ wallet_at j open_world.wallets)
reverse-debit_example =
    reverse-debit 1 40 bet_debit stake_key none refund_of_stake open_world staked_world
      (record { id = 50; balance_after = pos 60 }) refl debited refl refl refl

reset_to-IsSound_example : Keeps (IsSound (λ id. pos 100)) (reset_to 1 (pos 500) (Key.other 3) none)
reset_to-IsSound_example = reset_to-IsSound (λ id. pos 100) 1 (pos 500) (Key.other 3) none
