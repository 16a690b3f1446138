-- ===== src/Wallet/Seamless/Policy.antt =====
-- What the operator's wallet does when a call fails: a payout is never rolled back, each error is
-- one of a few, and a reversal that is confirmed is not emitted again.
use vault_runner_api.Prelude.{
  ℕ, zero, suc, ◌≡◌, ◌≤◌, ◌⊎◌, inl, inr, refl, ◌∙◌, ap, Bool, true, false, Option, some, [], ◌==◌,
  if◌then◌else◌, ltb, find, count_where, arith,
}
use vault_runner_api.Prog.{ok, ret, run, ◌>>=◌}
use vault_runner_api.Prog.Run.{run-bind, and_then}
use vault_runner_api.Prog.Keeps.{
  Keeps, Keeps-atom, Keeps-bind, Keeps-try_catch, Keeps-if, Keeps-throw, Keeps-ret,
}
use vault_runner_api.Prog.Throws.{
  Throws, Throws-try_catch, Throws-if, Throws-throw, Throws-bind, Throws-ret, Throws-weaken,
}
use vault_runner_api.World.{
  World, Key, LedgerType, LedgerRef, Reason, payout_pending, insufficient_balance,
  wallet_unavailable, wallet_error, CallKind, RollbackReason, WalletRollback, confirmed,
  transaction_id_too_long, ambiguous_debit, transient_debit,
}
use vault_runner_api.World.Tables.{Action}
use vault_runner_api.Wallet.Provider.{WalletTxResult}
use vault_runner_api.Wallet.Rollbacks.{RollbackClaim, has_ref, ref_of, claim}
use vault_runner_api.Wallet.Rollbacks.OnceOnly.{
  claim_confirmed_lem, claim-Throws, record_emit_failure-Throws,
}
use vault_runner_api.Wallet.Seamless.{
  OperatorSession, call, assert_tx_id_length, move_win, move_bet, bet_failure, credit, debit,
  claim_of, owns_emit, emit_once, emit_owned, emit_unwired, rollback_once, safe_rollback,
  is_insufficient_funds, is_operator_timeout,
}

abbrev is_rollback : CallKind → Bool
is_rollback CallKind.rollback = true
is_rollback _ = false

-- How many rollbacks were put on the operator's wire.
abbrev pub rollbacks_sent : World → ℕ
rollbacks_sent w = count_where (λ c. is_rollback c.kind) w.sent

abbrev pub SentAtMost : ℕ → World → Type 0
SentAtMost n w = rollbacks_sent w ≤ n

module _ (key_length : Key → ℕ) (with_store : Bool) where
  call_win-Keeps :
      (n player amount : ℕ) (key : Key) → Keeps (SentAtMost n) (call CallKind.win player amount key)
  unfolding call
  call_win-Keeps n player amount key = Keeps-atom _ (λ w h. omega (arith, h))

  move_win-Keeps :
      (n left : ℕ) (s : OperatorSession) (amount : ℕ) (key : Key)
      → Keeps (SentAtMost n) (move_win key_length with_store left s amount key)
  unfolding move_win
  move_win-Keeps n zero s amount key = Keeps-throw _
  move_win-Keeps n (suc left) s amount key =
      Keeps-try_catch _ _ (call_win-Keeps n s.player_id amount key)
        (λ e. Keeps-if (left == 0) _ _ (Keeps-throw _) (move_win-Keeps n left s amount key))

  assert-Keeps :
      (P : World → Type 0) (key : Key) → Keeps P (assert_tx_id_length key_length with_store key)
  unfolding assert_tx_id_length
  assert-Keeps P key = Keeps-if _ _ _ (Keeps-throw _) (Keeps-ret _)

  module _ (max_retries : ℕ) (resolve_session : ℕ → Action OperatorSession) where
    -- However its calls fail, a credit puts no rollback on the operator's wire, where the lookup
    -- of the session puts none.
    pub credit-SentAtMost :
        (n wallet_id amount : ℕ) (type : LedgerType) (key : Key) (ref : Option LedgerRef)
        → Keeps (SentAtMost n) (resolve_session wallet_id)
        → Keeps
            (SentAtMost n)
            (credit key_length with_store max_retries resolve_session wallet_id amount type key ref)
    unfolding credit
    credit-SentAtMost n wallet_id amount type key ref h = Keeps-bind _ _ h λ s.
        Keeps-bind _ _ (assert-Keeps (SentAtMost n) key)
          (λ _. move_win-Keeps n max_retries s amount key)

  move_win-Throws :
      (left : ℕ) (s : OperatorSession) (amount : ℕ) (key : Key)
      → Throws (λ e. e ≡ payout_pending) (move_win key_length with_store (suc left) s amount key)
  unfolding move_win
  move_win-Throws zero s amount key = Throws-try_catch _ _ (λ e. Throws-throw _ refl)
  move_win-Throws (suc left) s amount key =
      Throws-try_catch _ _ (λ e.
        Throws-if (suc left == 0) _ _ (Throws-throw _ refl) (move_win-Throws left s amount key))

  -- The errors of a debit: refused by the operator, ambiguous, given up, or never sent.
  abbrev pub DebitError : Reason → Type 0
  DebitError e =
      (e ≡ insufficient_balance)
      ⊎ (e ≡ wallet_unavailable)
      ⊎ (e ≡ wallet_error)
      ⊎ (e ≡ transaction_id_too_long)

  assert-Throws : (key : Key) → Throws DebitError (assert_tx_id_length key_length with_store key)
  unfolding assert_tx_id_length
  assert-Throws key = Throws-if _ _ _ (Throws-throw _ (inr (inr (inr refl)))) (Throws-ret tt)

  safe_rollback-Throws :
      (s : OperatorSession) (key : Key) (ref : Option LedgerRef) (reason : RollbackReason)
      → Throws DebitError (safe_rollback key_length with_store s key ref reason)
  unfolding safe_rollback rollback_once emit_once emit_owned emit_unwired
  safe_rollback-Throws s key ref reason = Throws-bind _ _ (assert-Throws key) λ _.
      Throws-if with_store _ _
        (Throws-bind _ _ (Throws-weaken _ (λ e. absurd) (claim-Throws _)) λ o.
          Throws-if _ _ _
            (Throws-try_catch _ _ λ e.
              Throws-bind _ _ (Throws-weaken _ (λ e. absurd) (record_emit_failure-Throws _ e))
                (λ _. Throws-ret tt))
            (Throws-ret tt))
        (Throws-try_catch _ _ (λ e. Throws-ret tt))

  bet_failure-Throws :
      (left : ℕ) (s : OperatorSession) (key : Key) (ref : Option LedgerRef)
      (retry : Action WalletTxResult) (e : Reason)
      → ((left == 0) ≡ true) ⊎ Throws DebitError retry
      → Throws DebitError (bet_failure key_length with_store left s key ref retry e)
  unfolding bet_failure
  bet_failure-Throws left s key ref retry e h =
      let gave_up =
        Throws-bind _ _ (safe_rollback-Throws s key ref transient_debit)
          (λ _. Throws-throw _ (inr (inr (inl refl)))) in
      Throws-if (is_insufficient_funds e) _ _ (Throws-throw _ (inl refl)) (
        Throws-if (is_operator_timeout e) _ _
          (Throws-bind _ _ (safe_rollback-Throws s key ref ambiguous_debit)
            (λ _. Throws-throw _ (inr (inl refl))))
          (elim h [
            | inl last ↦ rw last gave_up
            | inr next ↦ Throws-if (left == 0) _ _ gave_up next
          ]))

  move_bet-Throws :
      (left : ℕ) (s : OperatorSession) (amount : ℕ) (key : Key) (ref : Option LedgerRef)
      → Throws DebitError (move_bet key_length with_store (suc left) s amount key ref)
  unfolding move_bet
  move_bet-Throws zero s amount key ref =
      Throws-try_catch _ _ (λ e. bet_failure-Throws 0 s key ref _ e (inl refl))
  move_bet-Throws (suc left) s amount key ref = Throws-try_catch _ _ (λ e.
      bet_failure-Throws (suc left) s key ref _ e (inr (move_bet-Throws left s amount key ref)))

  module _ (n : ℕ) (resolve_session : ℕ → Action OperatorSession) (s : OperatorSession)
      (wallet_id : ℕ) (known : resolve_session wallet_id ≡ ret s) where
    -- With at least one attempt and a known session, a debit throws only one of its four errors,
    -- and a credit only "payout_pending" or the refusal of a key that is too long.
    pub seamless_errors :
        (amount : ℕ) (type : LedgerType) (key : Key) (ref : Option LedgerRef)
        → Throws DebitError
            (debit key_length with_store (suc n) resolve_session wallet_id amount type key ref)
          × Throws
              (λ e. (e ≡ payout_pending) ⊎ (e ≡ transaction_id_too_long))
              (credit key_length with_store (suc n) resolve_session wallet_id amount type key ref)
    unfolding debit credit ◌>>=◌ assert_tx_id_length
    seamless_errors amount type key ref = (
      rw known (Throws-bind _ _ (assert-Throws key) (λ _. move_bet-Throws n s amount key ref)),
      rw known (
          Throws-bind _ _ (Throws-if _ _ _ (Throws-throw _ (inr refl)) (Throws-ret tt))
            (λ _. Throws-weaken _ (λ e. inl) (move_win-Throws n s amount key))),
    )

-- A reversal whose row is confirmed is not emitted again, when the key is not too long and the
-- database answers: nothing is sent, no row changes, and the caller goes on.
pub rollback_once_confirmed :
    (key_length : Key → ℕ) (s : OperatorSession) (key : Key) (ref : Option LedgerRef)
    (reason : RollbackReason) (propagate : Bool) (amount : Option ℕ) (w : World)
    (r : WalletRollback)
    → ltb 200 (key_length key) ≡ false
    → w.faults ≡ []
    → find (has_ref (ref_of (claim_of key_length true s key ref reason amount))) w.rollbacks
      ≡ some r
    → r.status ≡ confirmed
    → run (rollback_once key_length true s key ref reason propagate amount) w
      ≡ (ok tt, record w { faults = [] })
unfolding rollback_once emit_once assert_tx_id_length run ◌>>=◌
rollback_once_confirmed key_length s key ref reason propagate amount w r short nofault found done =
    rw short (
      run-bind (claim c)
        (λ o. if owns_emit o then emit_owned key_length true s key (ref_of c) propagate else ret tt)
        w
      ∙ ap
          (λ m. and_then m (λ o.
            if owns_emit o then emit_owned key_length true s key (ref_of c) propagate else ret tt))
          (claim_confirmed_lem c w r nofault found done))
  where
    c : RollbackClaim
    c = claim_of key_length true s key ref reason amount
