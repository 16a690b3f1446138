-- ===== src/Tests/Slots.antt =====
-- A slot that is cancelled while the wallet is down or a recovery runs, a round that is settled,
-- and a bet that is voided.
use vault_runner_api.Prelude.{map, ℕ, ◌≡◌, refl, ◌∙◌, List, [], ◌∷◌, some}
use vault_runner_api.Prelude.Int.{pos, ◌+ℤ◌}
use vault_runner_api.Prog.{
  ok, err, run, throw, ◌>>=◌, read, atom, transaction, try_catch, caught, for_each, request,
}
use vault_runner_api.Prog.Schedule.{interleave, step_at, advance}
use vault_runner_api.Engine.Recovery.{close_and_refund_round, refund_active}
use vault_runner_api.Prog.Keeps.{Keeps-throw}
use vault_runner_api.World.{
  BetStatus, running, World, Wallet, Bet, panel_a, active, busted, cancelled, betting,
  no_active_bet, Reason,
}
use vault_runner_api.World.Tables.{
  find_bet, find_bets, update_bets, update_bet, update_round, Action,
}
use vault_runner_api.Wallet.Provider.{WalletProvider, KeepsWallet}
use vault_runner_api.Wallet.Ledger.{
  ledger_service, credit, record_entry, record_body, post, create_entry, find_entry, reverse,
  reverse_by,
}
use vault_runner_api.Wallet.Ledger.Sound.{ledger_service-KeepsWallet}
use vault_runner_api.Bets.Types.{BetResult, declined}
use vault_runner_api.Bets.Cancel.{cancel_bet, cancel_in_round, cancel_read, currency_of}
use vault_runner_api.Bets.Cancel.Again.{cancel_bet-again}
use vault_runner_api.Risk.{default_limits}
use vault_runner_api.Bets.CashOut.{claim_and_pay}
use vault_runner_api.Bets.CashOut.Kept.{WonEnd, payout, claimed, credit_of, claim_and_pay-WonEnd}
use vault_runner_api.Bets.Reconcile.{confirm_pending}
use vault_runner_api.Bets.Reconcile.Owed.{PassEnd, owed_credit, confirm_pending-PassEnd}
use vault_runner_api.Bets.Void.{void_bet}
use vault_runner_api.Bets.Void.Ends.{claimed as voiding_claimed, VoidEnd, void_bet-VoidEnd}
use vault_runner_api.Bets.Settle.{settle_round}
use vault_runner_api.Bets.Settle.Busted.{IsSettled, settle_round-IsSettled}
use vault_runner_api.Calls.Safety.{record_body-bets}
use vault_runner_api.Tests.Worlds.{world_of, bet_in, view_of, flying_world, euro}

-- A wallet that cannot confirm a credit.
abbrev down_wallet : WalletProvider
down_wallet = record ledger_service {
  credit = λ id amount type key ref. throw Reason.payout_pending;
}

down_wallet-KeepsWallet : (bs : List Bet) → KeepsWallet (λ v. v.bets ≡ bs) down_wallet
down_wallet-KeepsWallet bs =
    let base : KeepsWallet (λ v. v.bets ≡ bs) ledger_service =
      ledger_service-KeepsWallet _
        (λ id signed type key ref w h. record_body-bets id signed type key ref w ∙ h) in
    record {
      debit_keeps = base.debit_keeps;
      credit_keeps = λ id amount type key ref. Keeps-throw _;
      rollback_keeps = base.rollback_keeps;
      reverse_keeps = base.reverse_keeps;
      get_balance_keeps = base.get_balance_keeps;
    }

pub ledger_service-LeavesBets : (bs : List Bet) → KeepsWallet (λ v. v.bets ≡ bs) ledger_service
ledger_service-LeavesBets bs =
    ledger_service-KeepsWallet _
      (λ id signed type key ref w h. record_body-bets id signed type key ref w ∙ h)

abbrev staked : World
staked = world_of (bet_in 9 active ∷ []) betting

abbrev cancelling : Action BetResult
cancelling = cancel_bet down_wallet (view_of betting) 101 panel_a

-- The refund throws, the bet is cancelled, and no balance has changed.
refund_lost : run cancelling staked ≡ (
  err Reason.payout_pending,
  record staked { bets = record (bet_in 9 cancelled) { settled_at = some 1000 } ∷ [] },
)
unfolding run cancel_bet cancel_in_round cancel_read currency_of find_bet update_bets read atom
    ◌>>=◌
refund_lost = refl

cancel_bet-again_example :
    run cancelling (run cancelling staked).1
    ≡ (ok (declined no_active_bet panel_a), (run cancelling staked).1)
cancel_bet-again_example =
    cancel_bet-again down_wallet 101 panel_a 7 staked (bet_in 9 active) refl refl
      down_wallet-KeepsWallet

settle_round-IsSettled_example : IsSettled 7 flying_world (run (settle_round 7) flying_world)
settle_round-IsSettled_example = settle_round-IsSettled 7 flying_world

-- The closing of a round, which has read the active bets, and the player's cancellation.
abbrev racing : List (Action (Unit {0}))
racing =
    request (close_and_refund_round ledger_service 7)
    ∷ request (cancel_bet ledger_service (view_of betting) 101 panel_a)
    ∷ []

abbrev schedule : List ℕ
schedule = 0 ∷ 1 ∷ 1 ∷ 1 ∷ 1 ∷ 1 ∷ 0 ∷ 0 ∷ 0 ∷ 0 ∷ []

-- One stake of 40 comes back twice.
refunded_twice :
    map (λ (x : Wallet). x.balance) (interleave schedule racing staked).1.wallets ≡ pos 180 ∷ []
unfolding interleave step_at advance request close_and_refund_round refund_active cancel_bet
    cancel_in_round cancel_read currency_of find_bet find_bets update_bets update_bet update_round
    read atom transaction try_catch caught for_each ◌>>=◌ ◌+ℤ◌ credit record_entry record_body post
    create_entry find_entry reverse reverse_by
refunded_twice = refl

-- The same stake, lost.
abbrev lost : World
lost = world_of (bet_in 9 busted ∷ []) running

void_bet-VoidEnd_example :
    VoidEnd ledger_service
      (bet_in 9 busted)
      (voiding_claimed (bet_in 9 busted) lost)
      (run (void_bet ledger_service 5 9) lost)
void_bet-VoidEnd_example =
    void_bet-VoidEnd ledger_service 5 (bet_in 9 busted) lost refl refl refl
      ledger_service-LeavesBets

claim_and_pay-WonEnd_example :
    WonEnd 101 panel_a
      (bet_in 9 active)
      150
      (payout default_limits down_wallet 101 panel_a (bet_in 9 active) 150 euro)
      euro
      1000
      (run
        (credit_of default_limits down_wallet 101 panel_a (bet_in 9 active) 150 euro)
        (claimed default_limits down_wallet 101 panel_a (bet_in 9 active) 150 euro flying_world))
      (run
        (claim_and_pay default_limits down_wallet 101 panel_a (bet_in 9 active) 150 euro)
        flying_world)
claim_and_pay-WonEnd_example =
    claim_and_pay-WonEnd default_limits down_wallet 101 panel_a (bet_in 9 active) 150 euro
      flying_world refl refl down_wallet-KeepsWallet

-- The same bet, won and owed.
abbrev owing : World
owing = world_of (bet_in 9 BetStatus.payout_pending ∷ []) running

confirm_pending-PassEnd_example :
    PassEnd
      (bet_in 9 BetStatus.payout_pending)
      (run (owed_credit ledger_service (bet_in 9 BetStatus.payout_pending)) owing)
      (run (confirm_pending ledger_service (bet_in 9 BetStatus.payout_pending)) owing)
confirm_pending-PassEnd_example =
    confirm_pending-PassEnd ledger_service (bet_in 9 BetStatus.payout_pending) owing refl refl
      ledger_service-LeavesBets
