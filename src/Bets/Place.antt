-- ===== src/Bets/Place.antt =====
-- `BetsService.placeBet`, with the wallet lookup and the session accounting that it uses.
mod Session
use vault_runner_api.Prelude.{
  sum_where, ℕ, zero, suc, ◌+◌, ◌*◌, Bool, true, false, not, ◌&&◌, ◌||◌, Option, none, some, List,
  [], ◌∷◌, ◌==◌, if◌then◌else◌, find, select, is_some, ltb, leb,
}
use vault_runner_api.Prelude.Int.{ℤ, pos, ◌+ℤ◌, ◌-ℤ◌, ltb_ℤ}
use vault_runner_api.Prog.{
  Result, ok, err, ret, throw, ◌>>=◌, ◌>>◌, try_catch, caught, on_result, read, transaction,
  on_option,
}
use vault_runner_api.World.{
  to_upper, Bet, Wallet, World, Panel, reserving, betting, bet_debit, Key, round_exposure_cap,
  Reason, rejected, rg_block, placed, failed, betting_closed, reality_check_pending,
  session_time_limit, already_bet, bet_failed, session_wager_limit, session_loss_limit,
  insufficient_balance, wallet_owner_mismatch, wallet_unavailable, reserve_failed, debit_failed,
  record_not_found, unique_violation, bet_activate, Text, text_eq, status_eq, phase_eq,
  is_committed,
}
use vault_runner_api.World.Tables.{
  Action, find_bet, update_bets, delete_bet, date_now, report, random_uuid, may_fail,
}
use vault_runner_api.Money.{is_wagered_status, is_won_status}
use vault_runner_api.Risk.{
  RiskLimits, PerBetLimits, check_bet_amount, potential_payout, check_round_exposure,
}
use vault_runner_api.Wallet.Provider.{WalletProvider, WalletTxResult}
use vault_runner_api.Wallet.Ledger.{wallet_at}
use vault_runner_api.Bets.Types.{
  PublicRoundState, EffectiveRg, RgContext, BetResult, accepted, declined,
}
use vault_runner_api.Bets.Updates.{has_id, has_status, in_slot, activated, stamped_debit}
pub use vault_runner_api.Bets.Place.Session.{
  PlaceRequest, Accounting, session_accounting, RgSession, active_rg, rg_refusal, session_refusal,
}

-- `wallet`: the wallet that the session is bound to, owned by this user, or the user's own.
unfoldable pub resolve_wallet : ℕ → Option ℕ → Action Wallet
resolve_wallet user_id none = do
  found ← read (λ w. find (λ x. x.user_id == user_id) w.wallets)
  on_option found (throw record_not_found) ret
resolve_wallet user_id (some wallet_id) = do
  found ← read (λ w. wallet_at wallet_id w.wallets)
  on_option found (throw record_not_found)
      (λ x. if x.user_id == user_id then ret x else throw wallet_owner_mismatch)

abbrev is_owner_mismatch : Reason → Bool
is_owner_mismatch wallet_owner_mismatch = true
is_owner_mismatch _ = false

-- A failed lookup is counted under a label of its own, and answers no wallet.
unfoldable pub wallet_or_null : ℕ → Option ℕ → Action (Option Wallet)
wallet_or_null user_id wallet_id =
    try_catch (resolve_wallet user_id wallet_id >>= λ x. ret (some x)) λ e.
      report (rejected (if is_owner_mismatch e then wallet_owner_mismatch else wallet_unavailable))
      >> ret none

module _ (limits : RiskLimits) where
  -- Σ of what the house could owe on the committed bets of a round in one currency
  unfoldable pub committed_exposure : ℕ → Text → List Bet → ℕ
  committed_exposure round ccy bets =
      sum_where (λ b. b.round_id == round && (is_committed b.status && text_eq b.currency ccy))
        (λ b. potential_payout limits b.amount) bets

  -- The row that the reservation inserts.
  unfoldable pub reserved_bet : PlaceRequest → ℕ → ℕ → Wallet → ℕ → Bet
  reserved_bet req round id x now = record {
    id = id;
    round_id = round;
    user_id = req.user_id;
    wallet_id = x.id;
    panel = req.panel;
    amount = req.amount;
    auto_cashout = req.auto_cashout;
    status = reserving;
    cashout_mult = none;
    payout = 0;
    demo = req.demo;
    operator_id = req.operator_id;
    currency = to_upper x.currency;
    max_win_per_bet = on_option req.limits none (λ l. some l.max_win_per_bet);
    debit_tx_id = none;
    payout_tx_id = none;
    created_at = now;
    settled_at = none;
  }

  -- `tx.bet.create`: refuses an id or a (round, user, panel) that is there.
  unfoldable pub create_bet : Bet → World → Result Reason (Unit {0}) × World
  create_bet b w =
      if is_some (find (λ c. has_id b.id c || in_slot b.round_id b.user_id b.panel c) w.bets)
      then (err unique_violation, w)
      else (ok tt, record w { bets = b ∷ w.bets })

  -- PHASE 1, under the round's advisory lock: exposure, session caps, and the reserved row.
  unfoldable pub reserve_body :
      PlaceRequest → Option RgSession → ℕ → ℕ → Wallet → World → Result Reason (Unit {0}) × World
  reserve_body req session round id x w =
      let current = committed_exposure round (to_upper x.currency) w.bets in
      let since = on_option session 0 (λ s. s.since) in
      let acc = session_accounting x.id since w.bets in
      let reserved =
        sum_where
          (λ b. b.round_id == round && (b.wallet_id == x.id && status_eq b.status reserving))
          (λ b. b.amount) w.bets in
      let created = create_bet (reserved_bet req round id x w.now) w in
      let refusal = session_refusal session acc reserved req.amount in
      on_result (check_round_exposure limits current req.amount)
        (λ _. on_option refusal created (λ e. (err e, w))) (λ e. (err e, w))

abbrev is_refusal : Reason → Bool
is_refusal round_exposure_cap = true
is_refusal session_wager_limit = true
is_refusal session_loss_limit = true
is_refusal _ = false

abbrev is_session_refusal : Reason → Bool
is_session_refusal session_wager_limit = true
is_session_refusal session_loss_limit = true
is_session_refusal _ = false

abbrev is_unique_violation : Reason → Bool
is_unique_violation unique_violation = true
is_unique_violation _ = false

-- The `catch` of the reservation. A metric that the source counts inside the transaction is not
-- undone with it, so it is counted here.
unfoldable pub refuse_reservation : Panel → Reason → Action BetResult
refuse_reservation panel e =
    if is_refusal e
    then (if is_session_refusal e then report (rg_block e) else ret tt)
      >> report (rejected e)
      >> ret (declined e panel)
    else if is_unique_violation e
    then ret (declined already_bet panel)
    else report (rejected reserve_failed) >> ret (declined bet_failed panel)

-- The end of the activation when the database stays down: the row is stamped, and left to
-- recovery.
unfoldable pub give_up_activation : ℕ → Panel → ℕ → Action BetResult
give_up_activation id panel tx =
    try_catch (may_fail (update_bets (has_status id reserving) (stamped_debit tx)) >>= λ _. ret tt)
      (λ _. ret tt)
    >> report (failed bet_activate)
    >> ret (declined bet_failed panel)

-- One attempt to flip the row to 'active', a compare-and-swap on 'reserving'.
unfoldable pub flip_to_active : PlaceRequest → ℕ → Wallet → WalletTxResult → Action BetResult
flip_to_active req id x tx = do
  count ← may_fail (update_bets (has_status id reserving) (activated tx.id))
  if count == 0
      then report (failed bet_activate) >> ret (declined bet_failed req.panel)
      else report (placed req.amount)
        >> ret (accepted req.panel tx.balance_after (some id) x.currency)

-- The loop over the attempts that are left.
unfoldable pub activate : ℕ → PlaceRequest → ℕ → Wallet → WalletTxResult → Action BetResult
activate zero req id x tx = ret (declined bet_failed req.panel)
activate (suc left) req id x tx =
    let retry = activate left req id x tx in
    try_catch (flip_to_active req id x tx)
      λ e. if left == 0 then give_up_activation id req.panel tx.id else retry

abbrev debit_reason : Reason → Reason
debit_reason insufficient_balance = insufficient_balance
debit_reason _ = bet_failed

abbrev debit_label : Reason → Reason
debit_label insufficient_balance = insufficient_balance
debit_label _ = debit_failed

-- A debit that failed moved no money: the reservation is dropped.
unfoldable pub release_reservation : ℕ → Panel → Reason → Action BetResult
release_reservation id panel e =
    try_catch (delete_bet id) (λ _. ret tt)
    >> report (rejected (debit_label e))
    >> ret (declined (debit_reason e) panel)

module _ (limits : RiskLimits) (wallet : WalletProvider) where
  -- PHASE 2, outside the lock: the debit, under the key of the logical bet, then the activation.
  unfoldable pub debit_and_activate : PlaceRequest → ℕ → ℕ → Wallet → Action BetResult
  debit_and_activate req round id x = do
    moved ← caught (
        wallet.debit x.id req.amount bet_debit (Key.debit round req.user_id req.panel)
          (some (record { ref_id = id })))
    on_result moved (activate 3 req id x) (release_reservation id req.panel)

  -- The reservation: `none` where the row is there, or what the player is answered.
  unfoldable pub reserve :
      PlaceRequest → Option RgSession → ℕ → ℕ → Wallet → Action (Option BetResult)
  reserve req session round id x =
      try_catch (transaction (reserve_body limits req session round id x) >>= λ _. ret none)
        (λ e. refuse_reservation req.panel e >>= λ r. ret (some r))

  unfoldable pub reserve_and_debit : PlaceRequest → Option RgSession → ℕ → Wallet → Action BetResult
  reserve_and_debit req session round x = do
    id ← random_uuid
    refused ← reserve req session round id x
    on_option refused (debit_and_activate req round id x) (λ r. ret r)

  -- The slot's row, if any, must be one that is still being reserved.
  unfoldable pub place_in_round : PlaceRequest → Option RgSession → ℕ → Action BetResult
  place_in_round req session round = do
    existing ← find_bet (in_slot round req.user_id req.panel)
    if on_option existing false (λ b. not (status_eq b.status reserving))
        then ret (declined already_bet req.panel)
        else do
          x ← wallet_or_null req.user_id req.wallet_id
          on_option x (ret (declined bet_failed req.panel)) (reserve_and_debit req session round)

  unfoldable pub place_checked : PlaceRequest → ℕ → Action BetResult
  place_checked req round = do
    now ← date_now
    let session = active_rg req
    on_option (rg_refusal session now) (place_in_round req session round)
        λ e. report (rejected e) >> report (rg_block e) >> ret (declined e req.panel)

  unfoldable pub place_bet : Option PublicRoundState → PlaceRequest → Action BetResult
  place_bet view req = on_option view (ret (declined betting_closed req.panel)) λ state.
      if phase_eq state.phase betting
      then on_result (check_bet_amount limits req.amount req.limits)
          (λ _. place_checked req state.round_id)
          (λ e. report (rejected e) >> ret (declined e req.panel))
      else ret (declined betting_closed req.panel)
