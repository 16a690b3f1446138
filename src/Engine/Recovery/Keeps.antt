-- ===== src/Engine/Recovery/Keeps.antt =====
-- The recoveries keep, action by action, every invariant that the bets and the wallet keep.
use vault_runner_api.Prelude.{ℕ, List, [], ◌∷◌, arith}
use vault_runner_api.Prog.Keeps.{
  Keeps, keeps_rules, Keeps-read, Keeps-bind, Keeps-ret, Keeps-for_each,
}
use vault_runner_api.World.{World, Bet, Round, Key, active, cancelled, cancelling, reserving}
use vault_runner_api.World.Tables.{Action, update_bets, update_bet}
use vault_runner_api.World.Keeps.{
  Withstands, Releases, find_bets-Keeps, update_bets-Keeps, update_bet-Keeps, delete_bet-Keeps,
  find_rounds-Keeps, update_rounds-Keeps, update_round-Keeps, date_now-Keeps,
}
use vault_runner_api.Wallet.Provider.{WalletProvider, KeepsWallet}
use vault_runner_api.Wallet.Ledger.{find_entry}
use vault_runner_api.Bets.Updates.{has_id, has_status, to_status, settled_as}
use vault_runner_api.Engine.Recovery.{
  refund_active, close_and_refund_round, reverse_slot, claim_slot, recover_slot,
  recover_reserving_bets, heal_stranded, recover_stranded_active_bets, recover_interrupted_rounds,
  settle_stale, close_stale_extra, choose_candidate, resume_or_recover,
}

cancelling-Releases : (id : ℕ) → Releases (has_status id reserving) (to_status cancelling)
cancelling-Releases id b n h = ground arith

closed-Releases : (id : ℕ) → Releases (λ b. has_id id b) (settled_as cancelled)
closed-Releases id b n h = ground arith

healed-Releases : (id : ℕ) → Releases (has_status id active) (settled_as cancelled)
healed-Releases id b n h = ground arith

module _ (P : World → Type 0) (k : Withstands P) (wallet : WalletProvider)
    (money : KeepsWallet P wallet) where
  closed_update-Keeps : (id : ℕ) → Keeps P (update_bet id (settled_as cancelled))
  closed_update-Keeps id = update_bet-Keeps P k id _ (closed-Releases id)

  refund_active-Keeps : (bet : Bet) → Keeps P (refund_active wallet bet)
  unfolding refund_active
  refund_active-Keeps bet = search (keeps_rules, money.reverse_keeps, closed_update-Keeps)

  pub close_and_refund_round-Keeps : (round : ℕ) → Keeps P (close_and_refund_round wallet round)
  unfolding close_and_refund_round
  close_and_refund_round-Keeps round =
      search (keeps_rules, find_bets-Keeps P k, refund_active-Keeps, update_round-Keeps P k)

  entry-Keeps : (key : Key) → Keeps P (find_entry key)
  unfolding find_entry
  entry-Keeps key = Keeps-read _

  reverse_slot-Keeps : (bet : Bet) → Keeps P (reverse_slot wallet bet)
  unfolding reverse_slot
  reverse_slot-Keeps bet = search (
    keeps_rules,
    money.rollback_keeps,
    entry-Keeps,
    delete_bet-Keeps P k,
    money.credit_keeps,
    closed_update-Keeps,
  )

  claim_update-Keeps :
      (id : ℕ) → Keeps P (update_bets (has_status id reserving) (to_status cancelling))
  claim_update-Keeps id = update_bets-Keeps P k _ _ (cancelling-Releases id)

  claim_slot-Keeps : (bet : Bet) → Keeps P (claim_slot wallet bet)
  unfolding claim_slot
  claim_slot-Keeps bet = search (keeps_rules, claim_update-Keeps)

  recover_slot-Keeps : (bet : Bet) → Keeps P (recover_slot wallet bet)
  unfolding recover_slot
  recover_slot-Keeps bet = search (keeps_rules, claim_slot-Keeps, reverse_slot-Keeps)

  pub recover_reserving_bets-Keeps : (older : ℕ) → Keeps P (recover_reserving_bets wallet older)
  unfolding recover_reserving_bets
  recover_reserving_bets-Keeps older =
      Keeps-bind _ _ (date_now-Keeps P k)
        (λ now. search (keeps_rules, find_bets-Keeps P k, recover_slot-Keeps))

  heal_update-Keeps : (id : ℕ) → Keeps P (update_bets (has_status id active) (settled_as cancelled))
  heal_update-Keeps id = update_bets-Keeps P k _ _ (healed-Releases id)

  heal_stranded-Keeps : (bet : Bet) → Keeps P (heal_stranded wallet bet)
  unfolding heal_stranded
  heal_stranded-Keeps bet = search (keeps_rules, money.reverse_keeps, heal_update-Keeps)

  pub recover_stranded_active_bets-Keeps :
      (older : ℕ) → Keeps P (recover_stranded_active_bets wallet older)
  unfolding recover_stranded_active_bets
  recover_stranded_active_bets-Keeps older = search (keeps_rules, heal_stranded-Keeps)

  pub recover_interrupted_rounds-Keeps : Keeps P (recover_interrupted_rounds wallet)
  unfolding recover_interrupted_rounds
  recover_interrupted_rounds-Keeps =
      search
        (
          keeps_rules,
          recover_reserving_bets-Keeps,
          recover_stranded_active_bets-Keeps,
          find_rounds-Keeps P k,
          close_and_refund_round-Keeps,
        )
        depth 9

  module _ (reveal_seed on_settle : ℕ → Action (Unit {0}))
      (reveals : (seed : ℕ) → Keeps P (reveal_seed seed))
      (settles : (round : ℕ) → Keeps P (on_settle round)) where
    settle_stale-Keeps : (r : Round) → Keeps P (settle_stale wallet reveal_seed on_settle r)
    unfolding settle_stale
    settle_stale-Keeps r =
        search (keeps_rules, reveals, settles, update_rounds-Keeps P k, update_round-Keeps P k)
          depth 8

    close_stale_extra-Keeps :
        (r : Round) → Keeps P (close_stale_extra wallet reveal_seed on_settle r)
    unfolding close_stale_extra
    close_stale_extra-Keeps r =
        search (keeps_rules, settle_stale-Keeps, close_and_refund_round-Keeps)

    choose_candidate-Keeps :
        (rs : List Round) → Keeps P (choose_candidate wallet reveal_seed on_settle rs)
    unfolding choose_candidate
    choose_candidate-Keeps [] = Keeps-ret _
    choose_candidate-Keeps (r ∷ rs) =
        Keeps-bind _ _ (Keeps-for_each rs _ close_stale_extra-Keeps) λ _.
          Keeps-bind _ _ (date_now-Keeps P k)
            (λ now. search (keeps_rules, close_and_refund_round-Keeps))

    pub resume_or_recover-Keeps : Keeps P (resume_or_recover wallet reveal_seed on_settle)
    unfolding resume_or_recover
    resume_or_recover-Keeps =
        search
          (keeps_rules, recover_reserving_bets-Keeps, find_rounds-Keeps P k, choose_candidate-Keeps)
