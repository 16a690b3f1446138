-- ===== src/Bets/Keeps/Place.antt =====
-- `placeBet` keeps an invariant action by action, if its reservation does.
use vault_runner_api.Prelude.{ℕ, zero, suc, Option, none, some}
use vault_runner_api.Prog.{transaction, ◌>>=◌, on_option, ret}
use vault_runner_api.Prog.Keeps.{
  Keeps, keeps_rules, Keeps-transaction, Keeps-try_catch, Keeps-if, Keeps-bind,
}
use vault_runner_api.World.{Wallet, World, Panel, Reason, reserving}
use vault_runner_api.World.Tables.{update_bets}
use vault_runner_api.World.Keeps.{
  Withstands, find_bet-Keeps, update_bets-Keeps, delete_bet-Keeps, date_now-Keeps, report-Keeps,
  random_uuid-Keeps, may_fail-Keeps,
}
use vault_runner_api.Risk.{RiskLimits}
use vault_runner_api.Wallet.Provider.{WalletProvider, KeepsWallet, WalletTxResult}
use vault_runner_api.Bets.Types.{PublicRoundState}
use vault_runner_api.Bets.Updates.{has_status, activated, stamped_debit}
use vault_runner_api.Bets.Place.{
  PlaceRequest, RgSession, resolve_wallet, wallet_or_null, reserve_body, refuse_reservation,
  give_up_activation, flip_to_active, activate, release_reservation, debit_and_activate, reserve,
  reserve_and_debit, place_in_round, place_checked, place_bet,
}
use vault_runner_api.Bets.Keeps.Releases.{activated-Releases, stamped_debit-Releases}

module _ (P : World → Type 0) (k : Withstands P) where
  resolve_wallet-Keeps : (u : ℕ) (id : Option ℕ) → Keeps P (resolve_wallet u id)
  unfolding resolve_wallet
  resolve_wallet-Keeps u none = search keeps_rules
  resolve_wallet-Keeps u (some id) = search keeps_rules

  wallet_or_null-Keeps : (u : ℕ) (id : Option ℕ) → Keeps P (wallet_or_null u id)
  unfolding wallet_or_null
  wallet_or_null-Keeps u id = search (keeps_rules, resolve_wallet-Keeps, report-Keeps P k)

  refuse_reservation-Keeps : (panel : Panel) (e : Reason) → Keeps P (refuse_reservation panel e)
  unfolding refuse_reservation
  refuse_reservation-Keeps panel e = search (keeps_rules, report-Keeps P k) depth 8

  activated_update-Keeps :
      (id tx : ℕ) → Keeps P (update_bets (has_status id reserving) (activated tx))
  activated_update-Keeps id tx = update_bets-Keeps P k _ _ (activated-Releases id tx)

  stamped_update-Keeps :
      (id tx : ℕ) → Keeps P (update_bets (has_status id reserving) (stamped_debit tx))
  stamped_update-Keeps id tx = update_bets-Keeps P k _ _ (stamped_debit-Releases id tx)

  flip_to_active-Keeps :
      (req : PlaceRequest) (id : ℕ) (x : Wallet) (tx : WalletTxResult)
      → Keeps P (flip_to_active req id x tx)
  unfolding flip_to_active
  flip_to_active-Keeps req id x tx =
      search (keeps_rules, may_fail-Keeps P k, activated_update-Keeps, report-Keeps P k)

  give_up_activation-Keeps :
      (id : ℕ) (panel : Panel) (tx : ℕ) → Keeps P (give_up_activation id panel tx)
  unfolding give_up_activation
  give_up_activation-Keeps id panel tx =
      search (keeps_rules, may_fail-Keeps P k, stamped_update-Keeps, report-Keeps P k) depth 8

  activate-Keeps :
      (left : ℕ) (req : PlaceRequest) (id : ℕ) (x : Wallet) (tx : WalletTxResult)
      → Keeps P (activate left req id x tx)
  unfolding activate
  activate-Keeps zero req id x tx = search keeps_rules
  activate-Keeps (suc left) req id x tx =
      Keeps-try_catch _ _ (flip_to_active-Keeps req id x tx) (λ e.
        Keeps-if _ _ _ (give_up_activation-Keeps id req.panel tx.id)
          (activate-Keeps left req id x tx))

  release_reservation-Keeps :
      (id : ℕ) (panel : Panel) (e : Reason) → Keeps P (release_reservation id panel e)
  unfolding release_reservation
  release_reservation-Keeps id panel e =
      search (keeps_rules, delete_bet-Keeps P k, report-Keeps P k)

  module _ (limits : RiskLimits) (wallet : WalletProvider) (money : KeepsWallet P wallet)
      (reserves : (req : PlaceRequest) (s : Option RgSession) (round id : ℕ) (x : Wallet)
          (w : World)
        → P w
        → P (reserve_body limits req s round id x w).1) where
    debit_and_activate-Keeps :
        (req : PlaceRequest) (round id : ℕ) (x : Wallet)
        → Keeps P (debit_and_activate limits wallet req round id x)
    unfolding debit_and_activate
    debit_and_activate-Keeps req round id x =
        search (keeps_rules, money.debit_keeps, activate-Keeps, release_reservation-Keeps)

    reservation-Keeps :
        (req : PlaceRequest) (s : Option RgSession) (round id : ℕ) (x : Wallet)
        → Keeps P (transaction (reserve_body limits req s round id x))
    reservation-Keeps req s round id x = Keeps-transaction _ (reserves req s round id x)

    reserve-Keeps :
        (req : PlaceRequest) (s : Option RgSession) (round id : ℕ) (x : Wallet)
        → Keeps P (reserve limits wallet req s round id x)
    unfolding reserve
    reserve-Keeps req s round id x =
        search (keeps_rules, reservation-Keeps, refuse_reservation-Keeps)

    reserve_rest-Keeps :
        (req : PlaceRequest) (s : Option RgSession) (round id : ℕ) (x : Wallet)
        → Keeps P (
            reserve limits wallet req s round id x >>= λ refused.
            on_option refused (debit_and_activate limits wallet req round id x) (λ r. ret r))
    reserve_rest-Keeps req s round id x =
        search (keeps_rules, reserve-Keeps, debit_and_activate-Keeps)

    reserve_and_debit-Keeps :
        (req : PlaceRequest) (s : Option RgSession) (round : ℕ) (x : Wallet)
        → Keeps P (reserve_and_debit limits wallet req s round x)
    unfolding reserve_and_debit
    reserve_and_debit-Keeps req s round x =
        Keeps-bind _ _ (random_uuid-Keeps P k) (λ id. reserve_rest-Keeps req s round id x)

    place_in_round-Keeps :
        (req : PlaceRequest) (s : Option RgSession) (round : ℕ)
        → Keeps P (place_in_round limits wallet req s round)
    unfolding place_in_round
    place_in_round-Keeps req s round =
        search (keeps_rules, find_bet-Keeps P k, wallet_or_null-Keeps, reserve_and_debit-Keeps)
          depth 8

    place_checked-Keeps :
        (req : PlaceRequest) (round : ℕ) → Keeps P (place_checked limits wallet req round)
    unfolding place_checked
    place_checked-Keeps req round =
        Keeps-bind _ _ (date_now-Keeps P k)
          (λ now. search (keeps_rules, place_in_round-Keeps, report-Keeps P k) depth 8)

    pub place_bet-Keeps :
        (view : Option PublicRoundState) (req : PlaceRequest)
        → Keeps P (place_bet limits wallet view req)
    unfolding place_bet
    place_bet-Keeps view req = search (keeps_rules, place_checked-Keeps, report-Keeps P k) depth 8
