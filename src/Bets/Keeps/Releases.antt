-- ===== src/Bets/Keeps/Releases.antt =====
-- Every update of the handlers follows its row: same bet, same stake, never committed anew.
use vault_runner_api.Prelude.{ℕ, arith}
use vault_runner_api.World.{
  BetStatus, reserving, active, busted, cancelled, payout_pending, voiding, voided,
}
use vault_runner_api.World.Keeps.{Releases}
use vault_runner_api.Bets.Updates.{
  has_id, has_status, in_round, to_status, settled_as, activated, stamped_debit, won,
  stamped_payout, confirmed_payout,
}

pub activated-Releases : (id tx : ℕ) → Releases (has_status id reserving) (activated tx)
activated-Releases id tx b n h = ground arith

pub stamped_debit-Releases : (id tx : ℕ) → Releases (has_status id reserving) (stamped_debit tx)
stamped_debit-Releases id tx b n h = ground arith

pub cancelled-Releases : (id : ℕ) → Releases (has_status id active) (settled_as cancelled)
cancelled-Releases id b n h = ground arith

pub won-Releases : (id mult payout : ℕ) → Releases (has_status id active) (won mult payout)
won-Releases id mult payout b n h = ground arith

pub pending-Releases : (id : ℕ) → Releases (λ b. has_id id b) (to_status payout_pending)
pending-Releases id b n h = ground arith

pub stamped_payout-Releases : (id tx : ℕ) → Releases (λ b. has_id id b) (stamped_payout tx)
stamped_payout-Releases id tx b n h = ground arith

pub busted-Releases : (round : ℕ) → Releases (in_round round active) (settled_as busted)
busted-Releases round b n h = ground arith

pub voiding-Releases : (id : ℕ) (st : BetStatus) → Releases (has_status id st) (to_status voiding)
voiding-Releases id st b n h = ground arith

pub voided-Releases : (id : ℕ) → Releases (has_status id voiding) (to_status voided)
voided-Releases id b n h = ground arith

pub confirmed-Releases : (id tx : ℕ) → Releases (has_status id payout_pending) (confirmed_payout tx)
confirmed-Releases id tx b n h = ground arith
