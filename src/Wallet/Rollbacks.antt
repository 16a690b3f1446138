-- ===== src/Wallet/Rollbacks.antt =====
-- wallet/wallet-rollback.service.ts: the durable record of the operator rollbacks that are owed.
-- Each database call may fail; what the service then does is part of the model. The operator's
-- rollback call is a parameter of the drain.
pub mod OnceOnly
use vault_runner_api.Prelude.{
  ℕ, ◌+◌, Bool, true, false, not, ◌&&◌, ◌||◌, Option, none, some, List, [], ◌∷◌, ◌==◌,
  if◌then◌else◌, find, select, update_where, count_where, is_some, ltb, take, length,
}
use vault_runner_api.Prog.{
  Result, ok, err, ret, throw, ◌>>=◌, ◌>>◌, try_catch, caught, on_result, on_option, read, atom,
  for_each,
}
use vault_runner_api.World.{
  World, Key, key_eq, Reason, unique_violation, RollbackReason, ambiguous_debit, transient_debit,
  void_reclaim, void_refund, restart_refund, RollbackStatus, pending, draining, confirmed,
  DedupeSubject, of_bet, of_transaction, WalletRollback,
}
use vault_runner_api.World.Tables.{Action, date_now, may_fail}

-- `RollbackClaim`
pub record RollbackClaim : Type 0 where
  pub operator_id : ℕ
  pub player_id : ℕ
  pub transaction_id : Key
  pub reason : RollbackReason
  pub bet_id : Option ℕ
  pub amount : Option ℕ

-- `RollbackRef`: the once-only identity, an operator with a dedupe key.
pub record RollbackRef : Type 0 where
  pub operator_id : ℕ
  pub subject : DedupeSubject
  pub reason : RollbackReason

-- What `claim` answers beside the reference.
pub data ClaimOutcome : Type 0 where
  already_confirmed in_flight acquired : ClaimOutcome

abbrev reason_code : RollbackReason → ℕ
reason_code ambiguous_debit = 0
reason_code transient_debit = 1
reason_code void_reclaim = 2
reason_code void_refund = 3
reason_code restart_refund = 4

abbrev pub reason_eq : RollbackReason → RollbackReason → Bool
reason_eq r s = reason_code r == reason_code s

abbrev pub subject_eq : DedupeSubject → DedupeSubject → Bool
subject_eq (of_bet b) (of_bet c) = b == c
subject_eq (of_transaction k) (of_transaction l) = key_eq k l
subject_eq _ _ = false

abbrev rollback_status_code : RollbackStatus → ℕ
rollback_status_code pending = 0
rollback_status_code draining = 1
rollback_status_code confirmed = 2

abbrev pub rollback_status_eq : RollbackStatus → RollbackStatus → Bool
rollback_status_eq s t = rollback_status_code s == rollback_status_code t

-- `betId ?? transactionId`
abbrev subject_of : Option ℕ → Key → DedupeSubject
subject_of none k = of_transaction k
subject_of (some b) k = of_bet b

-- `dedupeKeyOf`, with the operator
unfoldable pub ref_of : RollbackClaim → RollbackRef
ref_of c = record {
  operator_id = c.operator_id;
  subject = subject_of c.bet_id c.transaction_id;
  reason = c.reason;
}

-- `where: { operatorId, dedupeKey }`
abbrev pub has_ref : RollbackRef → WalletRollback → Bool
has_ref ref r =
    r.operator_id == ref.operator_id
    && (subject_eq r.subject ref.subject && reason_eq r.reason ref.reason)

abbrev lease_eq : Option ℕ → Option ℕ → Bool
lease_eq none none = true
lease_eq (some a) (some b) = a == b
lease_eq _ _ = false

-- `DRAIN_LEASE_MS`
abbrev drain_lease_ms : ℕ
drain_lease_ms = 60_000

unfoldable pub find_rollback : RollbackRef → Action (Option WalletRollback)
find_rollback ref = may_fail (read (λ w. find (has_ref ref) w.rollbacks))

-- `walletRollback.updateMany`
unfoldable pub update_rollbacks :
    (WalletRollback → Bool) → (ℕ → WalletRollback → WalletRollback) → Action ℕ
update_rollbacks p f = may_fail (
    atom λ w. (
      ok (count_where p w.rollbacks),
      record w { rollbacks = update_where p (f w.now) w.rollbacks },
    ))

-- A row currently owned by some emitter.
unfoldable pub has_live_lease : RollbackStatus → Option ℕ → ℕ → Bool
has_live_lease status lease_until now =
    rollback_status_eq status draining && on_option lease_until false (λ t. ltb now t)

-- The row is still in the state that was read.
abbrev pub still_in : ℕ → RollbackStatus → Option ℕ → WalletRollback → Bool
still_in id status lease r =
    r.id == id
    && (rollback_status_eq r.status status
        && (not (rollback_status_eq status draining) || lease_eq r.lease_until lease))

abbrev leased : ℕ → WalletRollback → WalletRollback
leased now r = record r { status = draining; lease_until = some (now + drain_lease_ms) }

-- The compare-and-swap of the lease.
unfoldable pub acquire_lease : ℕ → RollbackStatus → Option ℕ → Action Bool
acquire_lease id status lease =
    update_rollbacks (still_in id status lease) leased >>= λ count. ret (count == 1)

unfoldable pub bump_attempts : ℕ → Action (Unit {0})
bump_attempts id =
    try_catch
      (update_rollbacks (λ r. r.id == id) (λ now r. record r { attempts = r.attempts + 1 }) >>= λ _.
        ret tt)
      (λ _. ret tt)

abbrev confirmed_or_in_flight : Option WalletRollback → ClaimOutcome
confirmed_or_in_flight none = in_flight
confirmed_or_in_flight (some r) =
    if rollback_status_eq r.status confirmed then already_confirmed else in_flight

-- The row of a first sighting, draining already, so that the inserter owns the emit.
abbrev first_row : RollbackClaim → ℕ → ℕ → WalletRollback
first_row c id now = record {
  id = id;
  operator_id = c.operator_id;
  player_id = c.player_id;
  transaction_id = c.transaction_id;
  subject = subject_of c.bet_id c.transaction_id;
  reason = c.reason;
  bet_id = c.bet_id;
  amount = c.amount;
  status = draining;
  attempts = 0;
  last_error = none;
  lease_until = some (now + drain_lease_ms);
  resolved_at = none;
}

unfoldable pub create_rollback : RollbackClaim → Action (Unit {0})
create_rollback c = may_fail (
    atom λ w.
      if is_some (find (has_ref (ref_of c)) w.rollbacks) then (err unique_violation, w) else (
        ok tt,
        record w { rollbacks = first_row c w.next_id w.now ∷ w.rollbacks; next_id = w.next_id + 1 },
      ))

abbrev is_unique_violation : Reason → Bool
is_unique_violation unique_violation = true
is_unique_violation _ = false

unfoldable pub claim_new : RollbackClaim → Action ClaimOutcome
claim_new c = try_catch (create_rollback c >>= λ _. ret acquired) λ e.
    if is_unique_violation e
    then find_rollback (ref_of c) >>= (λ row. ret (confirmed_or_in_flight row))
    else throw e

unfoldable pub claim_lost : RollbackClaim → WalletRollback → Action ClaimOutcome
claim_lost c existing = do
  after ← find_rollback (ref_of c)
  bump_attempts existing.id
  ret (confirmed_or_in_flight after)

unfoldable pub claim_unowned : RollbackClaim → WalletRollback → Action ClaimOutcome
claim_unowned c existing = do
  won ← acquire_lease existing.id existing.status existing.lease_until
  if won then ret acquired else claim_lost c existing

unfoldable pub claim_existing : RollbackClaim → WalletRollback → Action ClaimOutcome
claim_existing c existing =
    if rollback_status_eq existing.status confirmed
    then ret already_confirmed
    else date_now >>= (λ now.
      if has_live_lease existing.status existing.lease_until now
      then bump_attempts existing.id >> ret in_flight
      else claim_unowned c existing)

-- Never throws: where the store fails, the caller emits.
unfoldable pub claim : RollbackClaim → Action ClaimOutcome
claim c =
    try_catch
      (find_rollback (ref_of c) >>= λ existing. on_option existing (claim_new c) (claim_existing c))
      (λ _. ret acquired)

abbrev resolved : ℕ → WalletRollback → WalletRollback
resolved now r = record r {
  status = confirmed;
  resolved_at = some now;
  last_error = none;
  lease_until = none;
}

unfoldable pub confirm : RollbackRef → Action (Unit {0})
confirm ref = try_catch (update_rollbacks (has_ref ref) resolved >>= λ _. ret tt) (λ _. ret tt)

abbrev owed_again : Reason → ℕ → WalletRollback → WalletRollback
owed_again e now r = record r { last_error = some e; status = pending; lease_until = none }

unfoldable pub record_emit_failure : RollbackRef → Reason → Action (Unit {0})
record_emit_failure ref e =
    try_catch (update_rollbacks (has_ref ref) (owed_again e) >>= λ _. ret tt) (λ _. ret tt)

-- What the drain scans for: pending, or draining on a lease that is expired or missing.
abbrev pub is_owed : ℕ → WalletRollback → Bool
is_owed now r =
    rollback_status_eq r.status pending
    || (rollback_status_eq r.status draining && on_option r.lease_until true (λ t. ltb t now))

abbrev row_ref : WalletRollback → RollbackRef
row_ref r = record { operator_id = r.operator_id; subject = r.subject; reason = r.reason }

-- The `catch` of one emit: one more attempt, and the lease is released.
unfoldable pub release_row : WalletRollback → Reason → Action Bool
release_row r e =
    try_catch
      (update_rollbacks (λ x. x.id == r.id)
          (λ now x. record x {
            attempts = r.attempts + 1;
            last_error = some e;
            status = pending;
            lease_until = none;
          })
        >>= λ _. ret tt)
      (λ _. ret tt)
    >> ret false

module _ (emit : ℕ → ℕ → Key → Action (Unit {0})) where
  unfoldable pub drain_acquired : WalletRollback → Action Bool
  drain_acquired r =
      try_catch (emit r.operator_id r.player_id r.transaction_id >> confirm (row_ref r) >> ret true)
        (release_row r)

  -- One row of the scan: whether this pass confirmed it.
  unfoldable pub drain_row : WalletRollback → Action Bool
  drain_row r = do
    taken ← caught (acquire_lease r.id r.status r.lease_until)
    on_result taken (λ won. if won then drain_acquired r else ret false) (λ e. ret false)

  unfoldable pub drain_pending : ℕ → Action ℕ
  drain_pending limit = do
    now ← date_now
    rows ← caught (may_fail (read (λ w. select (is_owed now) w.rollbacks)))
    on_result rows
        (λ owed.
          for_each (take limit owed) drain_row >>= (λ done. ret (length (select (λ d. d) done))))
        (λ e. ret 0)

-- `countPending`
unfoldable pub count_pending : Action ℕ
count_pending = read (λ w.
    count_where (λ r. rollback_status_eq r.status pending || rollback_status_eq r.status draining)
      w.rollbacks)
