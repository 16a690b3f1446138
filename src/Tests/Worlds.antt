-- ===== src/Tests/Worlds.antt =====
-- Concrete states of the tables.
use vault_runner_api.Prelude.{ℕ, ◌+◌, Bool, none, some, [], ◌∷◌, List, Option}
use vault_runner_api.Prelude.Int.{ℤ, pos}
use vault_runner_api.World.{
  World, Wallet, Round, Bet, BetStatus, active, running, betting, Phase, panel_a, Text,
}
use vault_runner_api.Bets.Types.{PublicRoundState}
use vault_runner_api.Bets.Place.{PlaceRequest}

-- "EUR"
abbrev pub euro : Text
euro = 69 ∷ 85 ∷ 82 ∷ []

abbrev pub wallet_of : ℕ → ℤ → Wallet
wallet_of id v = record { id = id; user_id = 100 + id; currency = euro; balance = v }

abbrev pub round_in : Phase → Round
round_in p = record {
  id = 7;
  seed_id = some 1;
  crash_point = 250;
  status = p;
  phase_ends_at = none;
  started_at = none;
  crashed_at = none;
  settled_at = none;
  created_at = 0;
}

-- A stake of 40 of user 101, in round 7.
abbrev pub bet_in : ℕ → BetStatus → Bet
bet_in id st = record {
  id = id;
  round_id = 7;
  user_id = 101;
  wallet_id = 1;
  panel = panel_a;
  amount = 40;
  auto_cashout = none;
  status = st;
  cashout_mult = none;
  payout = 0;
  demo = Bool.false;
  operator_id = some 5;
  currency = euro;
  max_win_per_bet = none;
  debit_tx_id = none;
  payout_tx_id = none;
  created_at = 0;
  settled_at = none;
}

abbrev pub world_of : List Bet → Phase → World
world_of bets p = record {
  bets = bets;
  rounds = round_in p ∷ [];
  wallets = wallet_of 1 (pos 100) ∷ [];
  ledger = [];
  profiles = [];
  rollbacks = [];
  replies = [];
  sent = [];
  events = [];
  faults = [];
  next_id = 50;
  now = 1000;
}

-- One player with 100, and a round that takes bets.
abbrev pub open_world : World
open_world = world_of [] betting

-- The same player's bet of 40 in flight.
abbrev pub flying_world : World
flying_world = world_of (bet_in 9 active ∷ []) running

abbrev pub view_of : Phase → Option PublicRoundState
view_of p = some (record { round_id = 7; phase = p })

abbrev pub stake_of : ℕ → PlaceRequest
stake_of n = record {
  user_id = 101;
  panel = panel_a;
  amount = n;
  auto_cashout = none;
  wallet_id = none;
  limits = none;
  demo = Bool.false;
  rg_ctx = none;
  operator_id = none;
}
