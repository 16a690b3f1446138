-- ===== src/Wallet/Seamless.antt =====
-- wallet/seamless-operator-wallet.ts: the operator's wallet as the money source. The operator is
-- any service: what it answers is the list `replies` of the state, one for each request, and no
-- answer is a timeout; every request is kept in `sent`. The session of a wallet, the length of a
-- key as text, and whether a rollback store is wired are parameters.
pub mod Policy
use vault_runner_api.Prelude.{
  ℕ, zero, suc, ◌+◌, Bool, true, false, Option, none, some, List, [], ◌∷◌, ◌==◌, if◌then◌else◌, ltb,
}
use vault_runner_api.Prelude.Int.{ℤ}
use vault_runner_api.Prog.{
  Result, ok, err, ret, throw, ◌>>=◌, ◌>>◌, try_catch, on_option, read, atom, lift, caught,
  on_result,
}
use vault_runner_api.World.{
  World, Key, LedgerType, LedgerRef, Reason, payout_pending, insufficient_balance,
  wallet_unavailable, wallet_error, insufficient_funds, operator_timeout, operator_error,
  transaction_id_too_long, OperatorReply, done, refused, CallKind, OperatorCall, RollbackReason,
  ambiguous_debit, transient_debit, void_reclaim, void_refund,
}
use vault_runner_api.World.Tables.{Action}
use vault_runner_api.Wallet.Provider.{WalletTxResult, Direction, ReverseParams, WalletProvider}
use vault_runner_api.Wallet.Rollbacks.{
  RollbackClaim, RollbackRef, ClaimOutcome, already_confirmed, in_flight, acquired, ref_of, claim,
  confirm, record_emit_failure,
}

-- `OperatorSession`; currency and round are context for the operator's statement.
pub record OperatorSession : Type 0 where
  pub operator_id : ℕ
  pub player_id : ℕ

abbrev first_reply : List OperatorReply → OperatorReply
first_reply [] = refused operator_timeout
first_reply (r ∷ rs) = r

abbrev later_replies : List OperatorReply → List OperatorReply
later_replies [] = []
later_replies (r ∷ rs) = rs

abbrev to_result : OperatorReply → Result Reason WalletTxResult
to_result (done id balance) = ok (record { id = id; balance_after = balance })
to_result (refused e) = err e

-- One request to the operator.
unfoldable pub call : CallKind → ℕ → ℕ → Key → Action WalletTxResult
call kind player amount key = atom λ w. (
  to_result (first_reply w.replies),
  record w {
    replies = later_replies w.replies;
    sent = record { kind = kind; player = player; amount = amount; transaction_id = key } ∷ w.sent;
  },
)

abbrev pub is_insufficient_funds : Reason → Bool
is_insufficient_funds insufficient_funds = true
is_insufficient_funds _ = false

abbrev pub is_operator_timeout : Reason → Bool
is_operator_timeout operator_timeout = true
is_operator_timeout _ = false

abbrev owns_emit : ClaimOutcome → Bool
owns_emit acquired = true
owns_emit _ = false

abbrev default_intent : Direction → RollbackReason
default_intent Direction.credit = void_reclaim
default_intent Direction.debit = void_refund

abbrev ref_bet : Option LedgerRef → Option ℕ
ref_bet none = none
ref_bet (some r) = some r.ref_id

module _ (key_length : Key → ℕ) (with_store : Bool) where
  -- `assertTxIdLength`
  unfoldable pub assert_tx_id_length : Key → Action (Unit {0})
  assert_tx_id_length key =
      if ltb 200 (key_length key) then throw transaction_id_too_long else ret tt

  abbrev claim_of :
      OperatorSession → Key → Option LedgerRef → RollbackReason → Option ℕ → RollbackClaim
  claim_of s key ref reason amount = record {
    operator_id = s.operator_id;
    player_id = s.player_id;
    transaction_id = key;
    reason = reason;
    bet_id = ref_bet ref;
    amount = amount;
  }

  unfoldable pub emit : OperatorSession → Key → Action (Unit {0})
  emit s key = call CallKind.rollback s.player_id 0 key >>= λ _. ret tt

  abbrev rethrow_if : Bool → Reason → Action (Unit {0})
  rethrow_if propagate e = if propagate then throw e else ret tt

  -- The emit of the caller that owns it.
  unfoldable pub emit_owned : OperatorSession → Key → RollbackRef → Bool → Action (Unit {0})
  emit_owned s key ref propagate =
      try_catch (emit s key >> confirm ref)
        (λ e. record_emit_failure ref e >> rethrow_if propagate e)

  unfoldable pub emit_unwired : OperatorSession → Key → Bool → Action (Unit {0})
  emit_unwired s key propagate = try_catch (emit s key) (rethrow_if propagate)

  unfoldable pub emit_once : OperatorSession → Key → RollbackClaim → Bool → Action (Unit {0})
  emit_once s key c propagate = do
    outcome ← claim c
    if owns_emit outcome then emit_owned s key (ref_of c) propagate else ret tt

  unfoldable pub rollback_once :
      OperatorSession
      → Key
      → Option LedgerRef
      → RollbackReason
      → Bool
      → Option ℕ
      → Action (Unit {0})
  rollback_once s key ref reason propagate amount =
      assert_tx_id_length key
      >> (if with_store
          then emit_once s key (claim_of s key ref reason amount) propagate
          else emit_unwired s key propagate)

  unfoldable pub safe_rollback :
      OperatorSession → Key → Option LedgerRef → RollbackReason → Action (Unit {0})
  safe_rollback s key ref reason = rollback_once s key ref reason false none

  -- The attempts of a credit that are left: never a rollback.
  unfoldable pub move_win : ℕ → OperatorSession → ℕ → Key → Action WalletTxResult
  move_win zero s amount key = throw operator_error
  move_win (suc left) s amount key =
      let retry = move_win left s amount key in
      try_catch (call CallKind.win s.player_id amount key)
        (λ e. if left == 0 then throw payout_pending else retry)

  -- What a failed attempt of a debit does; `retry` is the next attempt.
  unfoldable pub bet_failure :
      ℕ
      → OperatorSession
      → Key
      → Option LedgerRef
      → Action WalletTxResult
      → Reason
      → Action WalletTxResult
  bet_failure left s key ref retry e =
      if is_insufficient_funds e
      then throw insufficient_balance
      else if is_operator_timeout e
      then safe_rollback s key ref ambiguous_debit >> throw wallet_unavailable
      else if left == 0
      then safe_rollback s key ref transient_debit >> throw wallet_error
      else retry

  unfoldable pub move_bet : ℕ → OperatorSession → ℕ → Key → Option LedgerRef → Action WalletTxResult
  move_bet zero s amount key ref = throw operator_error
  move_bet (suc left) s amount key ref =
      let retry = move_bet left s amount key ref in
      try_catch (call CallKind.bet s.player_id amount key) (bet_failure left s key ref retry)

  -- With no attempt allowed at all (`maxRetries` 0) the source throws `undefined`, here `operator_error`.
  module _ (max_retries : ℕ) (resolve_session : ℕ → Action OperatorSession) where
    unfoldable pub debit : ℕ → ℕ → LedgerType → Key → Option LedgerRef → Action WalletTxResult
    debit wallet_id amount type key ref = do
      s ← resolve_session wallet_id
      assert_tx_id_length key
      move_bet max_retries s amount key ref

    unfoldable pub credit : ℕ → ℕ → LedgerType → Key → Option LedgerRef → Action WalletTxResult
    credit wallet_id amount type key ref = do
      s ← resolve_session wallet_id
      assert_tx_id_length key
      move_win max_retries s amount key

    unfoldable pub rollback : ℕ → Key → Option LedgerRef → Action (Unit {0})
    rollback wallet_id key ref = do
      s ← resolve_session wallet_id
      rollback_once s key ref ambiguous_debit false none

    unfoldable pub reverse : ℕ → ReverseParams → Action (Unit {0})
    reverse wallet_id p = do
      s ← resolve_session wallet_id
      rollback_once s p.original_key p.ref
          (on_option p.intent (default_intent p.original_direction) (λ i. i)) true (some p.amount)

    unfoldable pub get_balance : ℕ → Action ℤ
    get_balance wallet_id = do
      s ← resolve_session wallet_id
      r ← call CallKind.balance s.player_id 0 (Key.other 0)
      ret r.balance_after

    abbrev pub seamless_operator_wallet : WalletProvider
    seamless_operator_wallet = record {
      debit = debit;
      credit = credit;
      rollback = rollback;
      reverse = reverse;
      get_balance = get_balance;
    }
