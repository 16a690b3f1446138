-- ===== src/Bets/CashOut/Gate.antt =====
-- How a cash-out ends: the crash gate holds of the database, whatever the view says.
use vault_runner_api.Prelude.{
  ℕ, ◌≡◌, ◌<◌, refl, true, Option, some, find, List, inl, inr, Bool-cases, Option-cases, arith,
  ◌==◌, if◌then◌else◌,
}
use vault_runner_api.Prog.{Result, ok, run, ret, on_option, ◌>>=◌, read}
use vault_runner_api.World.{
  World, Bet, Round, Panel, active, running, Text, status_eq, phase_eq, status_eq_iff, phase_eq_iff,
  too_late, no_active_bet, Reason,
}
use vault_runner_api.Wallet.Ledger.{wallet_at}
use vault_runner_api.World.Tables.{find_bet}
use vault_runner_api.Risk.{RiskLimits}
use vault_runner_api.Wallet.Provider.{WalletProvider, KeepsWallet}
use vault_runner_api.Bets.Types.{PublicRoundState, CashoutResult, not_paid}
use vault_runner_api.Bets.Updates.{has_id, in_slot}
use vault_runner_api.Bets.Cancel.{currency_of}
use vault_runner_api.Bets.CashOut.Kept.{WonEnd, payout, claimed, credit_of, claim_and_pay-WonEnd}
use vault_runner_api.Bets.CashOut.{
  round_of, below_crash, claim_and_pay, gate_and_claim, cash_out_read, cash_out_in_round, cash_out,
}

gate_open :
    (r : Round) (m : ℕ) → below_crash r m ≡ true → (r.status ≡ running) × (m < r.crash_point)
unfolding below_crash
gate_open r m h = ground (arith, phase_eq_iff r.status running)

-- The currency of the bet's wallet, or of the bet where the wallet has no row.
abbrev pub currency_in : World → Bet → Text
currency_in w b = on_option (wallet_at b.wallet_id w.wallets) b.currency (λ x. x.currency)

module _ (limits : RiskLimits) (wallet : WalletProvider) (user : ℕ) (panel : Panel) where
  -- What justifies a payment at `m`: in the slot of the round stands an active bet, and its own
  -- round runs and crashes later.
  pub record IsDue (round m : ℕ) (w : World) : Type 0 where
    pub bet : Bet
    pub in_flight : Round
    pub found : find (in_slot round user panel) w.bets ≡ some bet
    pub is_active : bet.status ≡ active
    pub of_bet : find (λ r. r.id == bet.round_id) w.rounds ≡ some in_flight
    pub is_running : in_flight.status ≡ running
    pub below : m < in_flight.crash_point

  -- Refused, and nothing is changed; or due, and the win of the bet that is due ends as `WonEnd`
  -- says of the credit of its payout.
  pub data CashOutEnd (round m : ℕ) (w : World) (r : Result Reason CashoutResult × World)
      : Type 0 where
    refused : (e : Reason) → r ≡ (ok (not_paid e user panel), w) → CashOutEnd round m w r
    due :
        (d : IsDue round m w)
        → (let currency = currency_in w d.bet in
            WonEnd user panel d.bet m
              (payout limits wallet user panel d.bet m currency)
              currency
              w.now
              (run
                (credit_of limits wallet user panel d.bet m currency)
                (claimed limits wallet user panel d.bet m currency w))
              r)
        → CashOutEnd round m w r

  module _ (round target : ℕ) (w : World) where
    run-slot :
        run (cash_out_in_round limits wallet user panel target round) w
        ≡ run
            (on_option
              (find (in_slot round user panel) w.bets)
              (ret (not_paid no_active_bet user panel))
              (cash_out_read limits wallet user panel target))
            w
    unfolding cash_out_in_round find_bet read run ◌>>=◌
    run-slot = refl

    module _ (bet : Bet) where
      abbrev currency : Text
      currency = currency_in w bet

      run-row :
          run (cash_out_read limits wallet user panel target bet) w
          ≡ run
              (if status_eq bet.status active
                then on_option
                    (find (λ r. r.id == bet.round_id) w.rounds)
                    (ret (not_paid too_late user panel))
                    (gate_and_claim limits wallet user panel target bet currency)
                else ret (not_paid no_active_bet user panel))
              w
      unfolding cash_out_read read currency_of round_of run ◌>>=◌
      run-row = refl

      run-gate :
          (r : Round)
          → run (gate_and_claim limits wallet user panel target bet currency r) w
            ≡ run
                (if below_crash r target
                  then claim_and_pay limits wallet user panel bet target currency
                  else ret (not_paid too_late user panel))
                w
      unfolding gate_and_claim
      run-gate r = refl

      module _ (found : find (in_slot round user panel) w.bets ≡ some bet)
          (row : find (has_id bet.id) w.bets ≡ some bet)
          (money : (bs : List Bet) → KeepsWallet (λ v. v.bets ≡ bs) wallet) where
        gated :
            (r : Round)
            → find (λ r. r.id == bet.round_id) w.rounds ≡ some r
            → status_eq bet.status active ≡ true
            → CashOutEnd round target w
                (run (gate_and_claim limits wallet user panel target bet currency r) w)
        unfolding run
        gated r of_bet is_on = elim (Bool-cases (below_crash r target)) [
          | inr late ↦ rw (run-gate r, late) (refused too_late refl)
          | inl open_gate ↦
              let (is_running, before_crash) = gate_open r target open_gate in
              let is_active = (status_eq_iff bet.status active).0 is_on in
              rw (run-gate r, open_gate)
                (due
                  (record {
                    bet = bet;
                    in_flight = r;
                    found = found;
                    is_active = is_active;
                    of_bet = of_bet;
                    is_running = is_running;
                    below = before_crash;
                  })
                  (claim_and_pay-WonEnd limits wallet user panel bet target currency w row is_active
                    money))
        ]

        row_end :
            CashOutEnd round target w (run (cash_out_read limits wallet user panel target bet) w)
        unfolding run
        row_end = elim (Bool-cases (status_eq bet.status active)) [
          | inr off ↦ rw (run-row, off) (refused no_active_bet refl)
          | inl is_on ↦ elim (Option-cases (find (λ r. r.id == bet.round_id) w.rounds)) [
            | inl lost ↦ rw (run-row, is_on, lost) (refused too_late refl)
            | inr (r, of_bet) ↦ rw (run-row, is_on, of_bet) (gated r of_bet is_on)
          ]
        ]

    slot_end :
        ((bet : Bet)
          → find (in_slot round user panel) w.bets ≡ some bet
          → find (has_id bet.id) w.bets ≡ some bet)
        → ((bs : List Bet) → KeepsWallet (λ v. v.bets ≡ bs) wallet)
        → CashOutEnd round target w
            (run (cash_out_in_round limits wallet user panel target round) w)
    unfolding run
    slot_end unique money = elim (Option-cases (find (in_slot round user panel) w.bets)) [
      | inl missing ↦ rw (run-slot, missing) (refused no_active_bet refl)
      | inr (bet, found) ↦ rw (run-slot, found) (row_end bet found (unique bet found) money)
    ]

  -- A cash-out at a multiplier, run alone, where ids are unique, with a wallet that leaves the
  -- rows of bets alone: either it answers that nothing is paid and changes nothing, or there
  -- stands in the slot an active bet whose own round runs and crashes strictly above the
  -- multiplier, and then that bet is taken and the floored and capped payout is credited to its
  -- wallet under its key, and the answer, in the wallet's currency, the bet's row, the balances
  -- and the journal are those of that credit: paid where it confirmed a transaction, owed where
  -- it threw.
  pub cash_out-CashOutEnd :
      (view : PublicRoundState) (live : ℕ) (at : Option ℕ) (w : World)
      → ((bet : Bet)
          → find (in_slot view.round_id user panel) w.bets ≡ some bet
          → find (has_id bet.id) w.bets ≡ some bet)
      → ((bs : List Bet) → KeepsWallet (λ v. v.bets ≡ bs) wallet)
      → CashOutEnd view.round_id
          (on_option at live (λ m. m))
          w
          (run (cash_out limits wallet (some view) live user panel at) w)
  unfolding cash_out run
  cash_out-CashOutEnd view live at w unique money =
      elim (Bool-cases (phase_eq view.phase running)) [
        | inr other ↦ rw other (refused too_late refl)
        | inl on ↦ rw on (slot_end view.round_id (on_option at live (λ m. m)) w unique money)
      ]
