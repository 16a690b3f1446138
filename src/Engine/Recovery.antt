-- ===== src/Engine/Recovery.antt =====
-- The recoveries of the engine: rounds that are closed with a refund, reservations that were left
-- behind, and bets left active on a closed round. Revealing a seed and the listeners of the
-- `settle` event are parameters.
pub mod Keeps
use vault_runner_api.Prelude.{
  ℕ, ◌+◌, Bool, true, false, not, ◌&&◌, ◌||◌, Option, none, some, List, [], ◌∷◌, ◌==◌,
  if◌then◌else◌, select, find, length, take, ltb, leb, is_some,
}
use vault_runner_api.Prog.{ret, ◌>>=◌, ◌>>◌, try_catch, on_option, read, for_each}
use vault_runner_api.World.{
  World, Bet, Round, BetStatus, active, reserving, cancelling, cancelled, Phase, waiting, betting,
  running, crashed, settling, completed, LedgerType, refund, Key, RollbackReason, restart_refund,
  Reason, status_eq, phase_eq,
}
use vault_runner_api.World.Tables.{
  Action, find_bets, update_bets, update_bet, delete_bet, find_rounds, update_rounds, update_round,
  date_now,
}
use vault_runner_api.Wallet.Provider.{Direction, ReverseParams, WalletProvider}
use vault_runner_api.Wallet.Ledger.{find_entry}
use vault_runner_api.Bets.Updates.{has_status, in_round, to_status, settled_as}

-- The refund of a stake: the original debit is reversed, under the restart key and intent.
abbrev pub restart_refund_of : Bet → ReverseParams
restart_refund_of bet = record {
  original_key = Key.debit bet.round_id bet.user_id bet.panel;
  reverse_key = Key.restart_refund bet.id;
  amount = bet.amount;
  original_direction = Direction.debit;
  type = refund;
  ref = some (record { ref_id = bet.id });
  intent = some restart_refund;
}

abbrev pub completed_round : ℕ → Round → Round
completed_round now r = record r { status = completed; settled_at = some now }

abbrev pub stamped_crash : ℕ → Round → Round
stamped_crash now r = record r { crashed_at = some now }

-- `OPEN_PHASES`
unfoldable pub is_open_phase : Phase → Bool
is_open_phase completed = false
is_open_phase _ = true

-- The outcome is settled, and money may be owed on it.
unfoldable pub is_post_outcome : Phase → Bool
is_post_outcome running = true
is_post_outcome crashed = true
is_post_outcome settling = true
is_post_outcome _ = false

-- Why a round is not resumed.
pub data Unresumable : Type 0 where
  missing_seed corrupt_crash_point missing_phase_ends_at ancient no_started_at : Unresumable

abbrev is_pre_outcome : Phase → Bool
is_pre_outcome waiting = true
is_pre_outcome betting = true
is_pre_outcome _ = false

-- `RESUME_MAX_STALENESS_MS` is 30,000; a crash point of 1.00 is an outcome, not corruption.
abbrev lapsed : Round → ℕ → ℕ → Option Unresumable
lapsed r phase_ends_at now =
    if is_pre_outcome r.status && ltb (phase_ends_at + 30_000) now
    then some ancient
    else if is_post_outcome r.status && not (is_some r.started_at)
    then some no_started_at
    else none

unfoldable pub unresumable_reason : Round → ℕ → Option Unresumable
unresumable_reason r now =
    if not (is_some r.seed_id)
    then some missing_seed
    else if ltb r.crash_point 100
    then some corrupt_crash_point
    else on_option r.phase_ends_at (some missing_phase_ends_at) (λ t. lapsed r t now)

-- Newest first.
abbrev insert_newest : Round → List Round → List Round
insert_newest r [] = r ∷ []
insert_newest r (s ∷ rs) =
    let rest = insert_newest r rs in if leb s.created_at r.created_at then r ∷ s ∷ rs else s ∷ rest

abbrev pub newest_first : List Round → List Round
newest_first [] = []
newest_first (r ∷ rs) = insert_newest r (newest_first rs)

module _ (wallet : WalletProvider) where
  -- One bet of a round that is closed; a failure leaves it for the later sweep.
  unfoldable pub refund_active : Bet → Action (Unit {0})
  refund_active bet =
      try_catch
        (wallet.reverse bet.wallet_id (restart_refund_of bet)
          >> update_bet bet.id (settled_as cancelled))
        (λ _. ret tt)

  unfoldable pub close_and_refund_round : ℕ → Action (Unit {0})
  close_and_refund_round round_id = do
    bets ← find_bets (in_round round_id active)
    for_each bets refund_active
    update_round round_id completed_round

  -- The refund of a claimed slot, if the ledger has its debit; else the slot is dropped.
  unfoldable pub reverse_slot : Bet → Action (Unit {0})
  reverse_slot bet = do
    let debit_key = Key.debit bet.round_id bet.user_id bet.panel
    wallet.rollback bet.wallet_id debit_key (some (record { ref_id = bet.id }))
    debited ← find_entry debit_key
    on_option debited (try_catch (delete_bet bet.id) (λ _. ret tt)) λ _.
        wallet.credit bet.wallet_id bet.amount refund (Key.restart_refund bet.id)
          (some (record { ref_id = bet.id }))
        >> update_bet bet.id (settled_as cancelled)

  -- The claim of a slot that is still reserving; one that is cancelling was claimed before.
  unfoldable pub claim_slot : Bet → Action Bool
  claim_slot bet =
      if status_eq bet.status reserving
      then update_bets (has_status bet.id reserving) (to_status cancelling)
        >>= (λ count. ret (not (count == 0)))
      else ret true

  unfoldable pub recover_slot : Bet → Action Bool
  recover_slot bet = do
    claimed ← claim_slot bet
    if claimed then try_catch (reverse_slot bet >> ret true) (λ _. ret false) else ret false

  abbrev is_stranded_slot : ℕ → ℕ → Bet → Bool
  is_stranded_slot older_than now b =
      (status_eq b.status reserving || status_eq b.status cancelling)
      && (older_than == 0 || ltb (b.created_at + older_than) now)

  unfoldable pub recover_reserving_bets : ℕ → Action ℕ
  recover_reserving_bets older_than = do
    now ← date_now
    slots ← find_bets (is_stranded_slot older_than now)
    recovered ← for_each slots recover_slot
    ret (length (select (λ d. d) recovered))

  -- `round: { status: "completed", crashedAt: null, settledAt: { lt: cutoff } }`
  abbrev closed_before : ℕ → ℕ → Round → Bool
  closed_before older_than now r =
      phase_eq r.status completed
      && (not (is_some r.crashed_at)
          && on_option r.settled_at false (λ t. ltb (t + older_than) now))

  abbrev stranded_in : ℕ → ℕ → List Round → Bet → Bool
  stranded_in older_than now rounds b =
      status_eq b.status active
      && on_option (find (λ r. r.id == b.round_id) rounds) false (closed_before older_than now)

  unfoldable pub heal_stranded : Bet → Action Bool
  heal_stranded bet =
      try_catch
        (wallet.reverse bet.wallet_id (restart_refund_of bet)
          >> update_bets (has_status bet.id active) (settled_as cancelled)
          >>= λ count. ret (not (count == 0)))
        (λ _. ret false)

  unfoldable pub recover_stranded_active_bets : ℕ → Action ℕ
  recover_stranded_active_bets older_than = do
    stranded ← read (λ w. select (stranded_in older_than w.now w.rounds) w.bets)
    healed ← for_each (take 100 stranded) heal_stranded
    ret (length (select (λ d. d) healed))

  unfoldable pub recover_interrupted_rounds : Action (Unit {0})
  recover_interrupted_rounds = do
    recover_reserving_bets 0
    recover_stranded_active_bets 0
    stuck ← find_rounds (λ r. is_open_phase r.status)
    for_each stuck (λ r. close_and_refund_round r.id)
    ret tt

  module _ (reveal_seed on_settle : ℕ → Action (Unit {0})) where
    abbrev reveal_of : Option ℕ → Action (Unit {0})
    reveal_of seed = on_option seed (ret tt) reveal_seed

    -- A stale round whose outcome is settled is settled, not refunded.
    unfoldable pub settle_stale : Round → Action (Unit {0})
    settle_stale r =
        reveal_of r.seed_id
        >> (if is_some r.crashed_at
            then ret 0
            else update_rounds (λ x. x.id == r.id && not (is_some x.crashed_at)) stamped_crash)
        >> on_settle r.id
        >> update_round r.id completed_round

    unfoldable pub close_stale_extra : Round → Action (Unit {0})
    close_stale_extra r =
        if is_post_outcome r.status then settle_stale r else close_and_refund_round r.id

    -- The newest open round, if it can be resumed, after the older ones are closed.
    unfoldable pub choose_candidate : List Round → Action (Option Round)
    choose_candidate [] = ret none
    choose_candidate (candidate ∷ stale) = do
      for_each stale close_stale_extra
      now ← date_now
      on_option (unresumable_reason candidate now) (ret (some candidate))
          (λ _. close_and_refund_round candidate.id >> ret none)

    -- Answers the round that `resumeRound` is handed.
    unfoldable pub resume_or_recover : Action (Option Round)
    resume_or_recover = do
      recover_reserving_bets 0
      open_rounds ← find_rounds (λ r. is_open_phase r.status)
      choose_candidate (newest_first open_rounds)
