-- ===== src/World/Types.antt =====
-- Enumerations and keys of the money path. The source keeps them as strings.
use vault_runner_api.Prelude.{
  if◌then◌else◌, leb, ◌-◌, ℕ, Bool, true, false, ◌≡◌, refl, ◌↔◌, ◌&&◌, ◌==◌, arith, List, [], ◌∷◌,
}
use vault_runner_api.Prelude.Eq.{Eq}

pub data Panel : Type 0 where
  panel_a panel_b : Panel

-- `Bet.status`
pub data BetStatus : Type 0 where
  reserving cancelling active cashed_out busted cancelled payout_pending voiding voided : BetStatus

-- `Phase` of game/round-types.ts, also `Round.status`
pub data Phase : Type 0 where
  waiting betting running crashed settling completed : Phase

-- `LedgerType`
pub data LedgerType : Type 0 where
  deposit withdrawal bet_debit payout_credit refund adjustment : LedgerType

-- Idempotency keys, one constructor for each template literal of the source:
-- `bet:{round}:{user}:{panel}:debit`, `bet:{id}:payout`, `bet:{id}:refund`,
-- `bet:{id}:restart_refund`, `bet:{id}:void_reclaim`, `bet:{id}:void_refund`, and any other key.
pub data Key : Type 0 where
  debit : ℕ → ℕ → Panel → Key
  payout : ℕ → Key
  refund : ℕ → Key
  restart_refund : ℕ → Key
  void_reclaim : ℕ → Key
  void_refund : ℕ → Key
  other : ℕ → Key

-- The reason strings that a handler answers, that a metric is labelled with, or that an error has.
pub data Reason : Type 0 where
  betting_closed invalid_amount reality_check_pending session_time_limit already_bet : Reason
  bet_failed round_exposure_cap session_wager_limit session_loss_limit : Reason
  insufficient_balance no_active_bet too_late wallet_owner_mismatch wallet_unavailable : Reason
  reserve_failed debit_failed amount_must_be_positive amount_must_not_be_negative : Reason
  record_not_found unique_violation payout_pending wallet_error database_error : Reason
  bet_not_found bet_not_settled bet_transient bet_state_changed : Reason
  insufficient_funds operator_timeout operator_error transaction_id_too_long : Reason
  bet_activate cashout_credit auto_cashout void_reconcile payout_reconcile : Reason

-- A text as the codes of its characters, for currency codes.
abbrev pub Text : Type 0
Text = List ℕ

abbrev pub text_eq : Text → Text → Bool
text_eq [] [] = true
text_eq (a ∷ s) (b ∷ t) = a == b && text_eq s t
text_eq _ _ = false

-- `toUpperCase` of a currency code
abbrev pub to_upper : Text → Text
to_upper [] = []
to_upper (c ∷ s) = (if leb 97 c && leb c 122 then c - 32 else c) ∷ to_upper s

abbrev pub panel_eq : Panel → Panel → Bool
panel_eq panel_a panel_a = true
panel_eq panel_b panel_b = true
panel_eq _ _ = false

abbrev status_code : BetStatus → ℕ
status_code reserving = 0
status_code cancelling = 1
status_code active = 2
status_code cashed_out = 3
status_code busted = 4
status_code cancelled = 5
status_code payout_pending = 6
status_code voiding = 7
status_code voided = 8

abbrev pub status_eq : BetStatus → BetStatus → Bool
status_eq s t = status_code s == status_code t

abbrev phase_code : Phase → ℕ
phase_code waiting = 0
phase_code betting = 1
phase_code running = 2
phase_code crashed = 3
phase_code settling = 4
phase_code completed = 5

abbrev pub phase_eq : Phase → Phase → Bool
phase_eq s t = phase_code s == phase_code t

abbrev pub key_eq : Key → Key → Bool
key_eq (Key.debit r u p) (Key.debit r' u' p') = r == r' && u == u' && panel_eq p p'
key_eq (Key.payout b) (Key.payout b') = b == b'
key_eq (Key.refund b) (Key.refund b') = b == b'
key_eq (Key.restart_refund b) (Key.restart_refund b') = b == b'
key_eq (Key.void_reclaim b) (Key.void_reclaim b') = b == b'
key_eq (Key.void_refund b) (Key.void_refund b') = b == b'
key_eq (Key.other n) (Key.other n') = n == n'
key_eq _ _ = false

-- `status: { in: ["active", "reserving"] }`
abbrev pub is_committed : BetStatus → Bool
is_committed active = true
is_committed reserving = true
is_committed _ = false

pub status_eq_iff : (s t : BetStatus) → (status_eq s t ≡ true) ↔ (s ≡ t)
status_eq_iff s t = ground arith

pub phase_eq_iff : (s t : Phase) → (phase_eq s t ≡ true) ↔ (s ≡ t)
phase_eq_iff s t = ground arith

pub key_eq_iff : (k l : Key) → (key_eq k l ≡ true) ↔ (k ≡ l)
key_eq_iff k l = ground arith

pub key_eq_refl : (k : Key) → key_eq k k ≡ true
key_eq_refl k = (key_eq_iff k k).1 refl

pub text_eq→≡ : (s t : Text) → text_eq s t ≡ true → s ≡ t
text_eq→≡ [] [] h = refl
text_eq→≡ [] (b ∷ t) h = cc
text_eq→≡ (a ∷ s) [] h = cc
text_eq→≡ (a ∷ s) (b ∷ t) h = ground (arith, text_eq→≡ s t)

pub text_eq_refl : (s : Text) → text_eq s s ≡ true
text_eq_refl [] = refl
text_eq_refl (a ∷ s) = ground (arith, text_eq_refl s)

pub text_eq_iff : (s t : Text) → (text_eq s t ≡ true) ↔ (s ≡ t)
text_eq_iff s t = (text_eq→≡ s t, λ h. rw h (text_eq_refl t))

instance abbrev pub eq_text : Eq Text
eq_text = record { beq = text_eq; beq_iff = text_eq_iff }
