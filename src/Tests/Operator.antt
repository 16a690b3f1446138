-- ===== src/Tests/Operator.antt =====
-- The operator's wallet, its rollbacks and its configuration on concrete inputs.
use vault_runner_api.Prelude.{ℕ, none, some, [], ◌∷◌, true, false, ◌≡◌, ◌⊎◌, refl}
use vault_runner_api.Prog.{ok, ret, run, Prog}
use vault_runner_api.Prog.Keeps.{Keeps, Keeps-ret}
use vault_runner_api.Prog.Throws.{Throws}
use vault_runner_api.World.{
  World, Key, bet_debit, payout_credit, panel_a, payout_pending, transaction_id_too_long,
  operator_error, WalletRollback, of_bet, void_refund, RollbackStatus, pending, confirmed,
}
use vault_runner_api.World.Tables.{Action}
use vault_runner_api.Wallet.Rollbacks.{
  RollbackClaim, claim, confirm, record_emit_failure, drain_pending, has_live_lease, acquire_lease,
  ref_of,
}
use vault_runner_api.Wallet.Rollbacks.OnceOnly.{
  Never, rollbacks-Throws, acquire_lease_lem, acquire_lease-again,
}
use vault_runner_api.Wallet.Seamless.{OperatorSession, credit, debit, rollback_once}
use vault_runner_api.Wallet.Seamless.Policy.{
  SentAtMost, DebitError, credit-SentAtMost, seamless_errors, rollback_once_confirmed,
}
use vault_runner_api.Risk.{PerBetLimits}
use vault_runner_api.Bets.Types.{EffectiveRg}
use vault_runner_api.Operator.Rg.{
  RgConfig, effective_rg_for, resolve_rg, parse_rg_config, is_valid_config, limit_for, serialize_rg,
  deserialize_rg, SerializedRg, number, read_field, convert,
}
use vault_runner_api.Operator.Rg.Claims.{
  IsCarried, deserialize_rg-serialize_rg, deserialize_rg-IsCarried,
}
use vault_runner_api.Operator.Limits.{
  effective_limits_for, parse_bet_limits, are_valid_limits, is_valid_limit, find_limits,
  serialize_bet_limits, deserialize_bet_limits,
}
use vault_runner_api.Operator.Limits.Claims.{IsOrdered, deserialize-serialize_bet_limits}
use vault_runner_api.Tests.Worlds.{open_world, euro}

abbrev length_of : Key → ℕ
length_of key = 88

abbrev session : OperatorSession
session = record { operator_id = 5; player_id = 101 }

abbrev sessions : ℕ → Action OperatorSession
sessions wallet_id = ret session

abbrev stake_key : Key
stake_key = Key.debit 7 101 panel_a

credit-SentAtMost_example :
    Keeps (SentAtMost 0) (credit length_of true 3 sessions 1 90 payout_credit (Key.payout 9) none)
credit-SentAtMost_example =
    credit-SentAtMost length_of true 3 sessions 0 1 90 payout_credit (Key.payout 9) none
      (Keeps-ret session)

seamless_errors_example :
    Throws
      (DebitError length_of true)
      (debit length_of true 3 sessions 1 40 bet_debit stake_key none)
    × Throws
        (λ e. (e ≡ payout_pending) ⊎ (e ≡ transaction_id_too_long))
        (credit length_of true 3 sessions 1 40 bet_debit stake_key none)
seamless_errors_example =
    seamless_errors length_of true 2 sessions session 1 refl 40 bet_debit stake_key none

-- A void refund of bet 9 that is owed, or done.
abbrev owed : RollbackStatus → WalletRollback
owed status = record {
  id = 3;
  operator_id = 5;
  player_id = 101;
  transaction_id = stake_key;
  subject = of_bet 9;
  reason = void_refund;
  bet_id = some 9;
  amount = some 40;
  status = status;
  attempts = 0;
  last_error = none;
  lease_until = none;
  resolved_at = none;
}

abbrev owing_world : RollbackStatus → World
owing_world status = record open_world { rollbacks = owed status ∷ [] }

rollback_once_confirmed_example :
    run
      (rollback_once length_of true session stake_key
        (some (record { ref_id = 9 }))
        void_refund
        true
        (some 40))
      (owing_world confirmed)
    ≡ (ok tt, owing_world confirmed)
unfolding ref_of
rollback_once_confirmed_example =
    rollback_once_confirmed length_of session stake_key (some (record { ref_id = 9 })) void_refund
      true (some 40) (owing_world confirmed) (owed confirmed) refl refl refl refl

-- After the first swap, and an hour later.
abbrev leased_world : World
leased_world = record (run (acquire_lease 3 pending none) (owing_world pending)).1 {
  now = 3_601_000;
}

acquire_lease-again_example :
    ((run (acquire_lease 3 pending none) (owing_world pending)).0 ≡ ok true)
    × ((run (acquire_lease 3 pending none) leased_world).0 ≡ ok false)
    × ((run (acquire_lease 3 pending none) leased_world).1.rollbacks ≡ leased_world.rollbacks)
unfolding has_live_lease
acquire_lease-again_example =
    acquire_lease-again 3 pending none (owing_world pending) leased_world refl refl refl
      (acquire_lease_lem 3 pending none (owing_world pending) refl).2 refl

abbrev refund_claim : RollbackClaim
refund_claim = record {
  operator_id = 5;
  player_id = 101;
  transaction_id = stake_key;
  reason = void_refund;
  bet_id = some 9;
  amount = some 40;
}

abbrev failing_emit : ℕ → ℕ → Key → Action (Unit {0})
failing_emit operator player key = Prog.throw operator_error

rollbacks-Throws_example :
    Throws Never (claim refund_claim)
    × Throws Never (confirm (ref_of refund_claim))
    × Throws Never (record_emit_failure (ref_of refund_claim) operator_error)
    × Throws Never (drain_pending failing_emit 50)
rollbacks-Throws_example =
    rollbacks-Throws refund_claim (ref_of refund_claim) operator_error failing_emit 50

-- "eur", as an old row may spell it
abbrev config : RgConfig
config = record {
  reality_check_interval_sec = some 3600;
  max_session_sec = none;
  enforce_reality_check = none;
  limits =
      (101 ∷ 117 ∷ 114 ∷ [], record { max_session_loss = some 500; max_session_wager = none }) ∷ [];
}

abbrev controls : EffectiveRg
controls = record {
  reality_check_interval_sec = some 3600;
  max_session_sec = none;
  enforce_reality_check = true;
  max_session_loss = some 500;
  max_session_wager = none;
}

resolved : effective_rg_for (some config) euro ≡ some controls
unfolding effective_rg_for parse_rg_config is_valid_config resolve_rg limit_for
resolved = refl

deserialize_rg-serialize_rg_example : deserialize_rg (some (serialize_rg controls)) ≡ some controls
deserialize_rg-serialize_rg_example =
    deserialize_rg-serialize_rg (some config) euro controls resolved

abbrev claim_of_a_day : SerializedRg
claim_of_a_day = record {
  reality_check_interval_sec = none;
  max_session_sec = some (number 86400);
  enforce_reality_check = some false;
  max_session_loss = none;
  max_session_wager = none;
}

abbrev controls_of_a_day : EffectiveRg
controls_of_a_day = record {
  reality_check_interval_sec = none;
  max_session_sec = some 86400;
  enforce_reality_check = false;
  max_session_loss = none;
  max_session_wager = none;
}

read_day : deserialize_rg (some claim_of_a_day) ≡ some controls_of_a_day
unfolding deserialize_rg read_field convert
read_day = refl

read_back_bounds : IsCarried controls_of_a_day
read_back_bounds = deserialize_rg-IsCarried (some claim_of_a_day) controls_of_a_day read_day

abbrev euro_limits : PerBetLimits
euro_limits = record { min_bet = 10; max_bet = 10000; max_win_per_bet = 1000000 }

resolved_limits : effective_limits_for (some ((euro, euro_limits) ∷ [])) euro ≡ some euro_limits
unfolding effective_limits_for parse_bet_limits are_valid_limits is_valid_limit find_limits
resolved_limits = refl

read_back_limits :
    IsOrdered euro_limits
    × (deserialize_bet_limits (some (serialize_bet_limits euro_limits)) ≡ some euro_limits)
read_back_limits =
    deserialize-serialize_bet_limits (some ((euro, euro_limits) ∷ [])) euro euro_limits
      resolved_limits
