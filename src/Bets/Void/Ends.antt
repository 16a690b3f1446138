-- ===== src/Bets/Void/Ends.antt =====
-- How a void of a settled bet ends.
use vault_runner_api.Prelude.{
  ℕ, ◌≡◌, refl, sym, ◌∙◌, ap, inl, inr, Bool-cases, ltb, Bool, true, false, Option, none, some,
  List, ◌==◌, find, update_where, count_where, if◌then◌else◌, arith, ◌||◌, find-update_where,
  count_where-find,
}
use vault_runner_api.Prog.{
  Result, ok, err, throw, act, run, ret, ◌>>=◌, ◌>>◌, on_option, read, write, atom,
}
use vault_runner_api.Prog.Run.{and_then, run-bind}
use vault_runner_api.Prog.Keeps.{Keeps, keeps_rules, run-Keeps}
use vault_runner_api.World.{
  World, Reason, Bet, BetStatus, voiding, voided, busted, cashed_out, status_eq, bet_void, Key,
  payout_credit, refund, bet_state_changed, bet_not_found,
}
use vault_runner_api.World.Tables.{Action, find_bet, update_bets, report}
use vault_runner_api.Wallet.Provider.{Direction, WalletProvider, KeepsWallet}
use vault_runner_api.Bets.Types.{VoidResult}
use vault_runner_api.Bets.CashOut.Kept.{SameMoney}
use vault_runner_api.Bets.Updates.{has_id, has_status, to_status}
use vault_runner_api.Bets.Void.{
  void_bet, void_settled, void_by_status, perform_void_reversals, claim_void, void_result,
  reclaim_of, void_refund_of,
}

-- The bet taken for the void.
abbrev pub claimed : Bet → World → World
claimed b w = record w {
  bets = update_where (has_status b.id b.status) (to_status voiding w.now) w.bets;
}

-- The payout, where there is one, is taken back from the wallet.
abbrev pub reclaimed : WalletProvider → Bet → World → Result Reason (Unit {0}) × World
reclaimed wallet b s =
    if ltb 0 b.payout
    then run
        (wallet.reverse b.wallet_id (record {
          original_key = Key.payout b.id;
          reverse_key = Key.void_reclaim b.id;
          amount = b.payout;
          original_direction = Direction.credit;
          type = payout_credit;
          ref = some (record { ref_id = b.id });
          intent = none;
        }))
        s
    else (ok tt, s)

-- The stake is given back to it.
abbrev pub refunded : WalletProvider → Bet → World → Result Reason (Unit {0}) × World
refunded wallet b s =
    run
      (wallet.reverse b.wallet_id (record {
        original_key = Key.debit b.round_id b.user_id b.panel;
        reverse_key = Key.void_refund b.id;
        amount = b.amount;
        original_direction = Direction.debit;
        type = refund;
        ref = some (record { ref_id = b.id });
        intent = none;
      }))
      s

-- Voided, with the payout taken back and the stake given back; or, where one of the two threw, in
-- 'voiding', with the money as the reversals that ran left it, and with no refund where the
-- payout was not taken back.
pub data VoidEnd (wallet : WalletProvider) (b : Bet) (s : World)
    (r : Result Reason VoidResult × World) : Type 0 where
  reversed :
      (reclaimed wallet b s).0 ≡ ok tt
      → (refunded wallet b (reclaimed wallet b s).1).0 ≡ ok tt
      → r.0 ≡ ok (void_result b voided true b.payout)
      → find (has_id b.id) r.1.bets ≡ some (record b { status = voided })
      → SameMoney (refunded wallet b (reclaimed wallet b s).1).1 r.1
      → VoidEnd wallet b s r
  reclaim_failed :
      (e : Reason)
      → (reclaimed wallet b s).0 ≡ err e
      → r.0 ≡ err e
      → find (has_id b.id) r.1.bets ≡ some (record b { status = voiding })
      → SameMoney (reclaimed wallet b s).1 r.1
      → VoidEnd wallet b s r
  refund_failed :
      (e : Reason)
      → (reclaimed wallet b s).0 ≡ ok tt
      → (refunded wallet b (reclaimed wallet b s).1).0 ≡ err e
      → r.0 ≡ err e
      → find (has_id b.id) r.1.bets ≡ some (record b { status = voiding })
      → SameMoney (refunded wallet b (reclaimed wallet b s).1).1 r.1
      → VoidEnd wallet b s r

-- What follows the reversals.
abbrev finish : ℕ → Bet → Action (Unit {0}) → Action VoidResult
finish op b m =
    m
    >> update_bets (has_status b.id voiding) (to_status voided)
    >> report (bet_void op b.id b.status)
    >> ret (void_result b voided true b.payout)

run-finish :
    (op : ℕ) (b : Bet) (m : Action (Unit {0})) (s : World)
    → run (finish op b m) s ≡ and_then (run m s) (λ _. finish op b (ret tt))
unfolding run ◌>>=◌
run-finish op b (ret a) s = refl
run-finish op b (throw e) s = refl
run-finish op b (act u k) s = run-finish op b (k s) (u s)

finished_row :
    (b : Bet) (w : World)
    → find (has_id b.id) w.bets ≡ some (to_status voiding 0 b)
    → find (has_id b.id) (update_where (has_status b.id voiding) (to_status voided w.now) w.bets)
      ≡ some (to_status voided 0 b)
finished_row b w h =
    find-update_where (has_id b.id) (has_status b.id voiding) (to_status voided w.now)
      (to_status voiding 0 b) w.bets (λ c. refl) (ground arith) h

-- The end, by the outcome of the one reversal and of the other.
module _ (wallet : WalletProvider) (op : ℕ) (b : Bet) (s : World) where
  refund_end :
      (r : Result Reason (Unit {0}) × World)
      → (reclaimed wallet b s).0 ≡ ok tt
      → refunded wallet b (reclaimed wallet b s).1 ≡ r
      → find (has_id b.id) r.1.bets ≡ some (to_status voiding 0 b)
      → VoidEnd wallet b s (and_then r (λ _. finish op b (ret tt)))
  unfolding run ◌>>=◌ update_bets report atom write
  refund_end (ok u, v) back h row =
      reversed back (ap (λ r. r.0) h) refl (finished_row b v row)
        (sym (ap (λ r. r.1.wallets) h), sym (ap (λ r. r.1.ledger) h))
  refund_end (err e, v) back h row =
      refund_failed e back (ap (λ r. r.0) h) refl row
        (sym (ap (λ r. r.1.wallets) h), sym (ap (λ r. r.1.ledger) h))

  reclaim_end :
      (r : Result Reason (Unit {0}) × World)
      → reclaimed wallet b s ≡ r
      → find (has_id b.id) r.1.bets ≡ some (to_status voiding 0 b)
      → ((bs : List Bet) → KeepsWallet (λ v. v.bets ≡ bs) wallet)
      → VoidEnd wallet b s (
          and_then
            (and_then r (λ _. wallet.reverse b.wallet_id (void_refund_of b)))
            (λ _. finish op b (ret tt)))
  reclaim_end (ok u, v) h row money =
      let kept =
        run-Keeps (wallet.reverse b.wallet_id (void_refund_of b)) v
          ((money v.bets).reverse_keeps b.wallet_id (void_refund_of b)) refl in
      refund_end (refunded wallet b v) (ap (λ r. r.0) h) (ap (λ r. refunded wallet b r.1) h)
        (rw kept row)
  reclaim_end (err e, v) h row money =
      reclaim_failed e (ap (λ r. r.0) h) refl row
        (sym (ap (λ r. r.1.wallets) h), sym (ap (λ r. r.1.ledger) h))

abbrev is_settled : BetStatus → Bool
is_settled st = status_eq st busted || status_eq st cashed_out

settled_void :
    (wallet : WalletProvider) (op : ℕ) (b : Bet) (st : BetStatus)
    → is_settled st ≡ true
    → void_by_status wallet st op b ≡ void_settled wallet op b
unfolding void_by_status
settled_void wallet op b BetStatus.reserving h = ground arith
settled_void wallet op b BetStatus.active h = ground arith
settled_void wallet op b BetStatus.cashed_out h = refl
settled_void wallet op b BetStatus.busted h = refl
settled_void wallet op b BetStatus.cancelled h = ground arith
settled_void wallet op b BetStatus.cancelling h = ground arith
settled_void wallet op b BetStatus.payout_pending h = ground arith
settled_void wallet op b BetStatus.voiding h = ground arith
settled_void wallet op b BetStatus.voided h = ground arith

module _ (wallet : WalletProvider) (op : ℕ) (b : Bet) where
  abbrev on_found : Option Bet → Action VoidResult
  on_found found = on_option found (throw bet_not_found) λ bet.
      if on_option bet.operator_id false (λ o. o == op)
      then void_by_status wallet bet.status op bet
      else throw bet_not_found

  run_found :
      (w : World) → run (void_bet wallet op b.id) w ≡ run (on_found (find (has_id b.id) w.bets)) w
  unfolding run void_bet find_bet read ◌>>=◌
  run_found w = refl

  abbrev on_claimed : Bool → Action VoidResult
  on_claimed lost =
      finish op b
        ((if lost then throw bet_state_changed else ret tt) >> perform_void_reversals wallet b)

  run_settled :
      (w : World)
      → status_eq b.status voiding ≡ false
      → run (void_settled wallet op b) w
        ≡ run (on_claimed (count_where (has_status b.id b.status) w.bets == 0)) (claimed b w)
  unfolding run void_settled claim_void update_bets atom ◌>>=◌
  run_settled w e = rw e refl

  abbrev reclaim_action : Action (Unit {0})
  reclaim_action = if ltb 0 b.payout then wallet.reverse b.wallet_id (reclaim_of b) else ret tt

  run_reclaim : (s : World) → run reclaim_action s ≡ reclaimed wallet b s
  unfolding run
  run_reclaim s = elim (Bool-cases (ltb 0 b.payout)) [
    | inl some_payout ↦ rw some_payout refl
    | inr no_payout ↦ rw no_payout refl
  ]

  run_reversals :
      (s : World)
      → run (perform_void_reversals wallet b) s
        ≡ and_then (reclaimed wallet b s) (λ _. wallet.reverse b.wallet_id (void_refund_of b))
  unfolding perform_void_reversals
  run_reversals s =
      let back = λ (_ : Unit {0}). wallet.reverse b.wallet_id (void_refund_of b) in
      run-bind reclaim_action back s ∙ ap (λ r. and_then r back) (run_reclaim s)

  reclaim-Keeps :
      (bs : List Bet)
      → KeepsWallet (λ v. v.bets ≡ bs) wallet
      → Keeps (λ v. v.bets ≡ bs) reclaim_action
  reclaim-Keeps bs money = search (keeps_rules, money.reverse_keeps)

  run_void :
      (w : World)
      → find (has_id b.id) w.bets ≡ some b
      → b.operator_id ≡ some op
      → is_settled b.status ≡ true
      → run (void_bet wallet op b.id) w
        ≡ run (finish op b (perform_void_reversals wallet b)) (claimed b w)
  unfolding ◌>>=◌
  run_void w found mine settled =
      let own : on_option b.operator_id false (λ o. o == op) ≡ true = rw mine (ground arith) in
      let some_row =
        count_where-find (has_id b.id) (has_status b.id b.status) b w.bets (ground arith) found in
      run_found w
      ∙ (ap (λ f. run (on_found f) w) found
          ∙ (ap
                (λ t.
                  run (if t then void_by_status wallet b.status op b else throw bet_not_found) w)
                own
              ∙ (ap (λ m. run m w) (settled_void wallet op b b.status settled)
                  ∙ (run_settled w (ground arith)
                      ∙ ap (λ t. run (on_claimed t) (claimed b w)) some_row))))

  -- An operator's void of its own settled bet, run alone, with a wallet that leaves the rows of
  -- bets alone, takes the bet into 'voiding', takes a payout back from its wallet, then gives
  -- its stake back to it, each under its own key. Where both reversals succeed, the bet is
  -- voided and answered as reversed; where the first throws, the second is not made; and where
  -- one throws, that error is thrown and the bet stays in 'voiding', where the sweep of
  -- interrupted voids finds it. Balances and journal are as the reversals that were made left
  -- them.
  pub void_bet-VoidEnd :
      (w : World)
      → find (has_id b.id) w.bets ≡ some b
      → b.operator_id ≡ some op
      → is_settled b.status ≡ true
      → ((bs : List Bet) → KeepsWallet (λ v. v.bets ≡ bs) wallet)
      → VoidEnd wallet b (claimed b w) (run (void_bet wallet op b.id) w)
  void_bet-VoidEnd w found mine settled money =
      let s = claimed b w in
      let row =
        find-update_where (has_id b.id) (has_status b.id b.status) (to_status voiding w.now) b
          w.bets (λ c. refl) (ground arith) found in
      let kept = run-Keeps reclaim_action s (reclaim-Keeps s.bets (money s.bets)) refl in
      let same = ap (λ (r : Result Reason (Unit {0}) × World). r.1.bets) (run_reclaim s) in
      rw
        (
          run_void w found mine settled,
          run-finish op b (perform_void_reversals wallet b) s,
          run_reversals s,
        )
        (reclaim_end wallet op b s (reclaimed wallet b s) refl (rw (sym same ∙ kept) row) money)
