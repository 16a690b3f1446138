-- ===== src/Bets/Settle.antt =====
-- `BetsService.settleRound`: on the crash, the bets that are still active are busted.
pub mod Busted
use vault_runner_api.Prelude.{ℕ, List, [], ◌∷◌, map}
use vault_runner_api.Prog.{ret, ◌>>=◌, ◌>>◌}
use vault_runner_api.World.{Bet, Panel, active, busted}
use vault_runner_api.World.Tables.{Action, find_bets, update_bets}
use vault_runner_api.Bets.Updates.{in_round, settled_as}

unfoldable pub bust_round : ℕ → List Bet → Action (List (ℕ × Panel))
bust_round round_id [] = ret []
bust_round round_id (b ∷ bs) =
    update_bets (in_round round_id active) (settled_as busted)
    >> ret (map (λ (c : Bet). (c.user_id, c.panel)) (b ∷ bs))

unfoldable pub settle_round : ℕ → Action (List (ℕ × Panel))
settle_round round_id = find_bets (in_round round_id active) >>= bust_round round_id
