-- ===== src/Bets/Cancel/Again.antt =====
-- A cancellation that claimed its bet is the last one, whatever became of its refund.
use vault_runner_api.Prelude.{
  ℕ, ◌≡◌, refl, ◌∙◌, ap, true, false, Option, none, some, List, ◌==◌, find, update_where,
  count_where, if◌then◌else◌, arith, find-update_where, count_where-find,
}
use vault_runner_api.Prog.{ok, run, ret, ◌>>=◌, on_option, read, atom}
use vault_runner_api.World.{
  World, Bet, Panel, betting, active, cancelled, refund, Key, no_active_bet, status_eq, Text,
}
use vault_runner_api.World.Tables.{Action, find_bet, update_bets}
use vault_runner_api.Prog.Keeps.{Keeps-bind, Keeps-ret, run-Keeps}
use vault_runner_api.Wallet.Provider.{WalletProvider, KeepsWallet, WalletTxResult}
use vault_runner_api.Wallet.Ledger.{wallet_at}
use vault_runner_api.Bets.Types.{PublicRoundState, BetResult, accepted, declined}
use vault_runner_api.Bets.Updates.{has_status, in_slot, settled_as}
use vault_runner_api.Bets.Cancel.{cancel_bet, cancel_in_round, cancel_read, currency_of}

-- The state once the bet of the slot is claimed.
abbrev claimed : ℕ → World → World
claimed id w = record w {
  bets = update_where (has_status id active) (settled_as cancelled w.now) w.bets;
}

module _ (wallet : WalletProvider) (user : ℕ) (panel : Panel) (round : ℕ) where
  abbrev view : Option PublicRoundState
  view = some (record { round_id = round; phase = betting })

  abbrev refunded : Text → WalletTxResult → Action BetResult
  refunded currency tx = ret (accepted panel tx.balance_after none currency)

  abbrev refund_of : Bet → Action WalletTxResult
  refund_of b =
      wallet.credit b.wallet_id b.amount refund (Key.refund b.id) (some (record { ref_id = b.id }))

  abbrev on_found : Option Bet → Action BetResult
  on_found found = on_option found (ret (declined no_active_bet panel)) λ bet.
      if status_eq bet.status active
      then cancel_read wallet panel bet
      else ret (declined no_active_bet panel)

  abbrev on_count : Bet → Text → ℕ → Action BetResult
  on_count b currency count =
      if count == 0 then ret (declined no_active_bet panel) else refund_of b >>= refunded currency

  abbrev currency_in : World → Bet → Text
  currency_in w b = on_option (wallet_at b.wallet_id w.wallets) b.currency (λ x. x.currency)

  run_found :
      (w : World)
      → run (cancel_bet wallet view user panel) w
        ≡ run (on_found (find (in_slot round user panel) w.bets)) w
  unfolding run cancel_bet cancel_in_round find_bet read ◌>>=◌
  run_found w = refl

  run_count :
      (w : World) (b : Bet)
      → run (cancel_read wallet panel b) w
        ≡ run
            (on_count b (currency_in w b) (count_where (has_status b.id active) w.bets))
            (claimed b.id w)
  unfolding run cancel_read currency_of update_bets read atom ◌>>=◌
  run_count w b = refl

  module _ (w : World) (b : Bet) (found : find (in_slot round user panel) w.bets ≡ some b) where
    run_claim :
        status_eq b.status active ≡ true
        → run (cancel_bet wallet view user panel) w
          ≡ run (refund_of b >>= refunded (currency_in w b)) (claimed b.id w)
    run_claim a =
        let some_row =
          count_where-find (in_slot round user panel) (has_status b.id active) b w.bets
            (rw a (ground arith)) found in
        run_found w
        ∙ (rw (found, a) (run_count w b)
            ∙ ap
                (λ t.
                  run
                    (if t
                      then ret (declined no_active_bet panel)
                      else refund_of b >>= refunded (currency_in w b))
                    (claimed b.id w))
                some_row)

    run_decline :
        status_eq b.status active ≡ false
        → run (cancel_bet wallet view user panel) w ≡ (ok (declined no_active_bet panel), w)
    unfolding run
    run_decline a = run_found w ∙ rw (found, a) refl

    still_there :
        b.status ≡ active
        → ((bs : List Bet) → KeepsWallet (λ v. v.bets ≡ bs) wallet)
        → find (in_slot round user panel) (run (cancel_bet wallet view user panel) w).1.bets
          ≡ some (settled_as cancelled w.now b)
    still_there a money =
        let keeps =
          Keeps-bind _ (refunded (currency_in w b))
            ((money (claimed b.id w).bets).credit_keeps b.wallet_id b.amount refund
              (Key.refund b.id) (some (record { ref_id = b.id })))
            (λ tx. Keeps-ret _) in
        rw
          (
            run_claim (ground arith),
            run-Keeps (refund_of b >>= refunded (currency_in w b)) (claimed b.id w) keeps refl,
          )
          (find-update_where (in_slot round user panel) (has_status b.id active)
            (settled_as cancelled w.now) b w.bets (λ c. refl) (ground arith) found)

  -- Once a cancellation, run alone, found an active bet in its slot, and whether its refund
  -- succeeds or throws, the same cancellation afterwards is declined and changes nothing, if the
  -- wallet leaves the rows of bets alone: nothing is refunded twice, and a refund that threw is
  -- not tried again.
  pub cancel_bet-again :
      (w : World) (b : Bet)
      → find (in_slot round user panel) w.bets ≡ some b
      → b.status ≡ active
      → ((bs : List Bet) → KeepsWallet (λ v. v.bets ≡ bs) wallet)
      → run (cancel_bet wallet view user panel) (run (cancel_bet wallet view user panel) w).1
        ≡ (ok (declined no_active_bet panel), (run (cancel_bet wallet view user panel) w).1)
  cancel_bet-again w b found a money =
      run_decline (run (cancel_bet wallet view user panel) w).1 (settled_as cancelled w.now b)
        (still_there w b found a money) refl
