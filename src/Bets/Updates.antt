-- ===== src/Bets/Updates.antt =====
-- The conditions and the changes of the `updateMany` and `update` calls of bets.service.ts.
use vault_runner_api.Prelude.{ℕ, Bool, some, ◌&&◌, ◌==◌}
use vault_runner_api.World.{Bet, BetStatus, Panel, active, cashed_out, panel_eq, status_eq}

-- `where: { id }`
abbrev pub has_id : ℕ → Bet → Bool
has_id id b = b.id == id

-- `where: { id, status }`, the condition of a compare-and-swap
abbrev pub has_status : ℕ → BetStatus → Bet → Bool
has_status id st b = b.id == id && status_eq b.status st

-- the unique `roundId_userId_panel`
abbrev pub in_slot : ℕ → ℕ → Panel → Bet → Bool
in_slot round user panel b = b.round_id == round && (b.user_id == user && panel_eq b.panel panel)

-- `where: { roundId, status }`
abbrev pub in_round : ℕ → BetStatus → Bet → Bool
in_round round st b = b.round_id == round && status_eq b.status st

abbrev pub to_status : BetStatus → ℕ → Bet → Bet
to_status st now b = record b { status = st }

-- `{ status, settledAt: new Date() }`
abbrev pub settled_as : BetStatus → ℕ → Bet → Bet
settled_as st now b = record b { status = st; settled_at = some now }

abbrev pub activated : ℕ → ℕ → Bet → Bet
activated tx now b = record b { status = active; debit_tx_id = some tx }

abbrev pub stamped_debit : ℕ → ℕ → Bet → Bet
stamped_debit tx now b = record b { debit_tx_id = some tx }

abbrev pub won : ℕ → ℕ → ℕ → Bet → Bet
won mult payout now b = record b {
  status = cashed_out;
  cashout_mult = some mult;
  payout = payout;
  settled_at = some now;
}

abbrev pub stamped_payout : ℕ → ℕ → Bet → Bet
stamped_payout tx now b = record b { payout_tx_id = some tx }

abbrev pub confirmed_payout : ℕ → ℕ → Bet → Bet
confirmed_payout tx now b = record b { status = cashed_out; payout_tx_id = some tx }
