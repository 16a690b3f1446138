-- ===== src/Wallet/Rollbacks/OnceOnly.antt =====
-- The rollback ledger: its calls never throw, and one lease has one owner.
use vault_runner_api.Prelude.{
  ℕ, ◌≡◌, refl, Bool, true, false, Option, none, some, List, [], ◌∷◌, ◌==◌, find, update_where,
  count_where, arith, ◌∙◌, ap, Bool-cases, inl, inr,
}
use vault_runner_api.Prog.{ok, ret, run, read, atom, ◌>>=◌, try_catch, on_option}
use vault_runner_api.Prog.Throws.{
  Throws, throws_rules, Throws-ret, Throws-read, Throws-bind, Throws-result, Throws-caught,
  Throws-for_each,
}
use vault_runner_api.Prog.Run.{run-bind, run-try_catch, and_then, or_else}
use vault_runner_api.World.{World, Key, Reason, RollbackStatus, WalletRollback, confirmed}
use vault_runner_api.World.Tables.{Action, may_fail, next_fault, date_now}
use vault_runner_api.Wallet.Rollbacks.{
  RollbackClaim, RollbackRef, already_confirmed, acquired, ref_of, has_ref, find_rollback,
  update_rollbacks, has_live_lease, still_in, leased, acquire_lease, claim, claim_existing,
  claim_new, confirm, record_emit_failure, release_row, drain_acquired, drain_row, drain_pending,
  resolved,
}

abbrev map_some : {A : Type 0} → (A → A) → Option A → Option A
map_some f none = none
map_some f (some x) = some (f x)

abbrev pub Never : Reason → Type 0
Never e = ⊥

drain_row-Throws :
    (emit : ℕ → ℕ → Key → Action (Unit {0})) (r : WalletRollback) → Throws Never (drain_row emit r)
unfolding drain_row drain_acquired release_row
drain_row-Throws emit r = Throws-bind _ _ (Throws-caught _) (λ taken. search throws_rules depth 9)

drain_pending-Throws :
    (emit : ℕ → ℕ → Key → Action (Unit {0})) (limit : ℕ) → Throws Never (drain_pending emit limit)
unfolding drain_pending date_now
drain_pending-Throws emit limit = Throws-bind _ _ (Throws-read _) λ now.
    Throws-bind _ _ (Throws-caught _) λ rows.
      Throws-result rows _ _
        (λ owed.
          Throws-bind _ _ (Throws-for_each _ _ (drain_row-Throws emit)) (λ done. Throws-ret _))
        (λ e. Throws-ret _)

pub claim-Throws : (c : RollbackClaim) → Throws Never (claim c)
unfolding claim
claim-Throws c = search throws_rules

pub record_emit_failure-Throws :
    (ref : RollbackRef) (e : Reason) → Throws Never (record_emit_failure ref e)
unfolding record_emit_failure
record_emit_failure-Throws ref e = search throws_rules

-- The store's own failures never reach the caller: neither a claim, a confirmation, a recorded
-- failure nor a drain throws, whatever the database and the operator do.
pub rollbacks-Throws :
    (c : RollbackClaim) (ref : RollbackRef) (e : Reason) (emit : ℕ → ℕ → Key → Action (Unit {0}))
    (limit : ℕ)
    → Throws Never (claim c)
      × Throws Never (confirm ref)
      × Throws Never (record_emit_failure ref e)
      × Throws Never (drain_pending emit limit)
unfolding confirm
rollbacks-Throws c ref e emit limit = (
  claim-Throws c,
  search throws_rules,
  record_emit_failure-Throws ref e,
  drain_pending-Throws emit limit,
)

-- Once a lease that was not live is taken, the same compare-and-swap finds no row any more.
count-leased :
    (id : ℕ) (st : RollbackStatus) (lease : Option ℕ) (now : ℕ) (rows : List WalletRollback)
    → has_live_lease st lease now ≡ false
    → count_where (still_in id st lease) (update_where (still_in id st lease) (leased now) rows) ≡ 0
unfolding has_live_lease
count-leased id st lease now [] h = refl
count-leased id st lease now (r ∷ rows) h = ground (arith, count-leased id st lease now rows h)

abbrev swapped : ℕ → RollbackStatus → Option ℕ → World → List WalletRollback
swapped id st lease w = update_where (still_in id st lease) (leased w.now) w.rollbacks

-- A swap, when the database answers.
pub acquire_lease_lem :
    (id : ℕ) (st : RollbackStatus) (lease : Option ℕ) (w : World)
    → w.faults ≡ []
    → ((run (acquire_lease id st lease) w).0
        ≡ ok (count_where (still_in id st lease) w.rollbacks == 1))
      × ((run (acquire_lease id st lease) w).1.rollbacks ≡ swapped id st lease w)
      × ((run (acquire_lease id st lease) w).1.faults ≡ [])
unfolding acquire_lease update_rollbacks may_fail next_fault atom run ◌>>=◌ read
acquire_lease_lem id st lease w nofault = (rw nofault refl, rw nofault refl, rw nofault refl)

unmatched_same :
    (p : WalletRollback → Bool) (f : WalletRollback → WalletRollback) (rows : List WalletRollback)
    → count_where p rows ≡ 0
    → update_where p f rows ≡ rows
unmatched_same p f [] h = refl
unmatched_same p f (r ∷ rows) h = ground (arith, unmatched_same p f rows)

-- Of two callers that read the same state of one row, whose lease is not live, the first to swap
-- owns the row, and the second owns nothing and changes no row, whatever else has happened
-- between the two, as long as nothing wrote to the table of rollbacks, and when the database
-- answers both.
pub acquire_lease-again :
    (id : ℕ) (st : RollbackStatus) (lease : Option ℕ) (w v : World)
    → w.faults ≡ []
    → has_live_lease st lease w.now ≡ false
    → count_where (still_in id st lease) w.rollbacks ≡ 1
    → v.faults ≡ []
    → v.rollbacks ≡ (run (acquire_lease id st lease) w).1.rollbacks
    → ((run (acquire_lease id st lease) w).0 ≡ ok true)
      × ((run (acquire_lease id st lease) v).0 ≡ ok false)
      × ((run (acquire_lease id st lease) v).1.rollbacks ≡ v.rollbacks)
acquire_lease-again id st lease w v nofault h one quiet between =
    let (won, rows, _) = acquire_lease_lem id st lease w nofault in
    let (lost, rows', _) = acquire_lease_lem id st lease v quiet in
    let gone : count_where (still_in id st lease) v.rollbacks ≡ 0 =
      rw (between, rows) (count-leased id st lease w.now w.rollbacks h) in
    (
      won ∙ rw one refl,
      lost ∙ rw gone refl,
      rows' ∙ unmatched_same (still_in id st lease) (leased v.now) v.rollbacks gone,
    )

find-update_where :
    {A : Type 0} (p : A → Bool) (f : A → A) (xs : List A) (x : A)
    → ((y : A) → p (f y) ≡ p y)
    → find p xs ≡ some x
    → find p (update_where p f xs) ≡ some (f x)
find-update_where p f [] x k h = cc
find-update_where p f (y ∷ xs) x k h = elim (Bool-cases (p y)) [
  | inl hit ↦ rw (hit, k y, hit) (ap (map_some f) (rw hit at h))
  | inr miss ↦ rw (miss, miss) (find-update_where p f xs x k (rw miss at h))
]

-- The rows of a reference after its confirmation.
pub confirm_lem :
    (ref : RollbackRef) (w : World) (r : WalletRollback)
    → w.faults ≡ []
    → find (has_ref ref) w.rollbacks ≡ some r
    → (find (has_ref ref) (run (confirm ref) w).1.rollbacks ≡ some (resolved w.now r))
      × ((run (confirm ref) w).1.faults ≡ [])
      × ((run (confirm ref) w).1.sent ≡ w.sent)
unfolding confirm update_rollbacks may_fail next_fault atom run ◌>>=◌ read try_catch
confirm_lem ref w r nofault h = (
  rw nofault (find-update_where (has_ref ref) (resolved w.now) w.rollbacks r (λ y. refl) h),
  rw nofault refl,
  rw nofault refl,
)

find_rollback_lem :
    (ref : RollbackRef) (w : World)
    → w.faults ≡ []
    → run (find_rollback ref) w ≡ (ok (find (has_ref ref) w.rollbacks), record w { faults = [] })
unfolding find_rollback may_fail next_fault atom run ◌>>=◌ read
find_rollback_lem ref w nofault = rw nofault refl

claim_existing_lem :
    (c : RollbackClaim) (r : WalletRollback) (w : World)
    → r.status ≡ confirmed
    → run (claim_existing c r) w ≡ (ok already_confirmed, w)
unfolding claim_existing run
claim_existing_lem c r w done = rw done refl

-- A claim of a reversal that is confirmed is told so, and changes no row.
pub claim_confirmed_lem :
    (c : RollbackClaim) (w : World) (r : WalletRollback)
    → w.faults ≡ []
    → find (has_ref (ref_of c)) w.rollbacks ≡ some r
    → r.status ≡ confirmed
    → run (claim c) w ≡ (ok already_confirmed, record w { faults = [] })
unfolding claim
claim_confirmed_lem c w r nofault h done =
    run-try_catch (find_rollback (ref_of c) >>= λ o. on_option o (claim_new c) (claim_existing c))
      (λ _. ret acquired) w
    ∙ ap (λ m. or_else m (λ _. ret acquired))
        (run-bind (find_rollback (ref_of c)) (λ o. on_option o (claim_new c) (claim_existing c)) w
          ∙ ap (λ m. and_then m (λ o. on_option o (claim_new c) (claim_existing c)))
              (find_rollback_lem (ref_of c) w nofault)
          ∙ ap (λ o. run (on_option o (claim_new c) (claim_existing c)) (record w { faults = [] }))
              h
          ∙ claim_existing_lem c r (record w { faults = [] }) done)
