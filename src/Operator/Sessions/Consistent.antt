-- ===== src/Operator/Sessions/Consistent.antt =====
-- The wallets and sessions stay consistent.
use vault_runner_api.Prelude.{
  ℕ, ◌+◌, ◌<◌, Bool, true, false, not, ◌||◌, some, List, [], ◌∷◌, find, ltb, update_where,
  count_where, is_some, if◌then◌else◌, ◌≡◌, refl, sym, subst, ◌∙◌, inl, inr, arith, Bool-cases,
  Option-cases,
}
use mathlib.Core.List.{Memᴰ}
use vault_runner_api.Prelude.Texts.{lacks}
use vault_runner_api.Prelude.Members.{All, All-Mem, All-weaken, All-update_where, find-Mem}
use vault_runner_api.Prog.{Result, ok, err}
use vault_runner_api.World.{Text, text_eq, text_eq_iff, to_upper}
use vault_runner_api.Operator.Launch.{
  Operator, LaunchError, unknown_operator, Payload, LaunchToken, VerifiedLaunch, canonical_currency,
  some_currency, given, verify_payload, verify_launch,
}
use vault_runner_api.Operator.Sessions.{
  JournalWallet, GameSession, SessionDb, colon, tag_for, new_wallet, is_journal, ensure_wallet,
  record_session, is_used, fund_demo,
}
use vault_runner_api.Operator.Sessions.Upkeep.{
  mark_reality_check_pending, ack_reality_check, is_live_session, to_pending, to_acked, is_live_in,
  revoke_for_wallet,
}
use vault_runner_api.Operator.Sessions.Tags.{IsCode}
use vault_runner_api.Operator.Sessions.Reached.{
  IsProvisioned, WasVerified, Reached, starts, ensures, records, funds, marks, acks, revokes, waits,
  IsBound, IdsDiffer, IsConsistent,
}

err_ok : (e : LaunchError) {A : Type 0} (a : A) → ◌≡◌ {A = Result LaunchError A} (err e) (ok a) → ⊥
err_ok e a h = cc

some_currency_lem :
    (P : Text → Type 0) (ccy : Text) (cs : List Text)
    → All (λ c. P (to_upper c)) cs
    → some_currency ccy cs ≡ true
    → P ccy
some_currency_lem P ccy [] h e = ground arith
some_currency_lem P ccy (c ∷ cs) h e = elim (Bool-cases (text_eq (to_upper c) ccy)) [
  | inl same ↦ subst P ((text_eq_iff (to_upper c) ccy).0 same) h.0
  | inr other ↦ some_currency_lem P ccy cs h.1 (rw other at e)
]

verify_payload_lem :
    (used : Text → Bool) (op : Operator) (p : Payload) (v : VerifiedLaunch)
    → verify_payload used op p ≡ ok v
    → (v.operator_id ≡ op.id) × (some_currency (canonical_currency v.currency) op.currencies ≡ true)
unfolding verify_payload
verify_payload_lem used op p v e = (ground arith, ground arith)

if_enabled :
    (enabled : Bool) (answer : Result LaunchError VerifiedLaunch) (v : VerifiedLaunch)
    → (if not enabled then err unknown_operator else answer) ≡ ok v
    → answer ≡ ok v
if_enabled true answer v e = e
if_enabled false answer v e = elim (err_ok _ v e) [ ]

verify_launch_lem :
    (operators : List Operator) (used : Text → Bool) (token : LaunchToken) (v : VerifiedLaunch)
    → verify_launch operators used token ≡ ok v
    → (op : Operator) × Memᴰ op operators × (p : Payload) × (verify_payload used op p ≡ ok v)
unfolding verify_launch
verify_launch_lem operators used token v e = elim (Option-cases (given token.unsafe_operator_id)) [
  | inl nobody ↦ elim (err_ok _ v (rw nobody at e)) [ ]
  | inr (id, known) ↦ elim (Option-cases (find (λ op. text_eq op.id id) operators)) [
    | inl unknown ↦ elim (err_ok _ v (rw (known, unknown) at e)) [ ]
    | inr (op, there) ↦
        let checked = if_enabled op.enabled _ v (rw (known, there) at e) in
        elim (Option-cases (token.verified_by op)) [
          | inl forged ↦ elim (err_ok _ v (rw forged at checked)) [ ]
          | inr (p, good) ↦
              (op, (find-Mem (λ op. text_eq op.id id) op operators there).0, p, rw good at checked)
        ]
  ]
]

WasVerified-IsCode :
    (operators : List Operator) (v : VerifiedLaunch)
    → All IsProvisioned operators
    → WasVerified operators v
    → (lacks colon v.operator_id ≡ true) × IsCode (canonical_currency v.currency)
WasVerified-IsCode operators v provisioned (used, token, e) =
    let (op, there, p, good) = verify_launch_lem operators used token v e in
    let (same, listed) = verify_payload_lem used op p v good in
    let (uuid, codes_only) = All-Mem IsProvisioned op operators provisioned there in
    (
      rw same uuid,
      some_currency_lem IsCode (canonical_currency v.currency) op.currencies codes_only listed,
    )

more_wallets :
    (w : JournalWallet) (ws : List JournalWallet) (s : GameSession)
    → IsBound ws s
    → IsBound (w ∷ ws) s
more_wallets w ws s (v, there, id, name, uuid, code) = (v, Memᴰ.tail there, id, name, uuid, code)

below_itself : (a b : ℕ) → a < b → b ≡ a → ⊥
below_itself a b h e = omega arith

ensure_wallet-IsConsistent :
    (currency tag : Text) (db : SessionDb)
    → IsConsistent db
    → IsConsistent (ensure_wallet currency tag db).1
unfolding ensure_wallet
ensure_wallet-IsConsistent currency tag db (differ, fresh, bound) =
    elim (Bool-cases (
      is_some (find (is_journal currency tag) db.wallets)
      || is_some (find (λ w. text_eq w.username tag) db.wallets))) [
        | inl there ↦ rw there (differ, fresh, bound)
        | inr new ↦ rw new (
          new_differs (new_wallet currency tag db) db.wallets differ
              (λ w m. omega (arith, fresh w m)),
          new_fresh,
          All-weaken (IsBound db.wallets) (IsBound (new_wallet currency tag db ∷ db.wallets))
              (more_wallets (new_wallet currency tag db) db.wallets) db.sessions bound,
        )
      ]
  where
    new_fresh :
        (w : JournalWallet)
        → Memᴰ w (new_wallet currency tag db ∷ db.wallets)
        → w.id < db.next_id + 2
    new_fresh w (Memᴰ.head e) = rw e (omega arith)
    new_fresh w (Memᴰ.tail m) = omega (arith, fresh w m)

    new_differs :
        (v : JournalWallet) (ws : List JournalWallet)
        → IdsDiffer ws
        → ((w : JournalWallet) → Memᴰ w ws → w.id < v.id)
        → IdsDiffer (v ∷ ws)
    new_differs v ws differ below w w' (Memᴰ.head e) (Memᴰ.head e') same = e ∙ sym e'
    new_differs v ws differ below w w' (Memᴰ.head e) (Memᴰ.tail m) same =
        elim (below_itself _ _ (below w' m) (rw e at same)) [ ]
    new_differs v ws differ below w w' (Memᴰ.tail m) (Memᴰ.head e) same =
        elim (below_itself _ _ (below w m) (sym (rw e at same))) [ ]
    new_differs v ws differ below w w' (Memᴰ.tail m) (Memᴰ.tail m') same = differ w w' m m' same

record_session-IsConsistent :
    (v : VerifiedLaunch) (w : JournalWallet) (db : SessionDb)
    → (lacks colon v.operator_id ≡ true) × IsCode (canonical_currency v.currency)
    → Memᴰ w db.wallets
    → w.username ≡ tag_for v
    → IsConsistent db
    → IsConsistent (record_session v w db).1
unfolding record_session
record_session-IsConsistent v w db (uuid, code) there tagged (differ, fresh, bound) =
    elim (Bool-cases (is_used db v.jti)) [
      | inl used ↦ rw used (differ, fresh, bound)
      | inr new ↦
          rw new
            (differ, λ u m. omega (arith, fresh u m), ((w, there, refl, tagged, uuid, code), bound))
    ]

update_sessions-IsConsistent :
    (p : GameSession → Bool) (f : GameSession → GameSession) (db : SessionDb)
    → ((s : GameSession) → IsBound db.wallets s → IsBound db.wallets (f s))
    → IsConsistent db
    → IsConsistent (record db { sessions = update_where p f db.sessions })
update_sessions-IsConsistent p f db keeps (differ, fresh, bound) =
    (differ, fresh, All-update_where (IsBound db.wallets) p f keeps db.sessions bound)

pub revoke_for_wallet-IsConsistent :
    (id : ℕ) (db : SessionDb) → IsConsistent db → IsConsistent (revoke_for_wallet id db).1
unfolding revoke_for_wallet
revoke_for_wallet-IsConsistent id db h =
    let kept =
      update_sessions-IsConsistent (is_live_in id) (λ s. record s { revoked_at = some db.now }) db
        (λ s b. b) h in
    elim (Bool-cases (ltb 0 (count_where (is_live_in id) db.sessions))) [
      | inl some_live ↦ rw some_live kept
      | inr none_live ↦ rw none_live kept
    ]

fund_demo-IsConsistent :
    (s : GameSession) (db : SessionDb) → IsConsistent db → IsConsistent (fund_demo s db)
unfolding fund_demo
fund_demo-IsConsistent s db h = elim (Bool-cases s.demo) [
  | inl demo ↦ rw demo h
  | inr real ↦ rw real h
]

module _ (operators : List Operator) (provisioned : All IsProvisioned operators) where
  pub Reached-IsConsistent : (db : SessionDb) → Reached operators db → IsConsistent db
  unfolding mark_reality_check_pending ack_reality_check
  Reached-IsConsistent _ (starts now) = (λ w w' m. elim m [ ], λ w m. elim m [ ], tt)
  Reached-IsConsistent _ (ensures v db was r) =
      ensure_wallet-IsConsistent (canonical_currency v.currency) (tag_for v) db
        (Reached-IsConsistent db r)
  Reached-IsConsistent _ (records v w db was there tagged r) =
      record_session-IsConsistent v w db (WasVerified-IsCode operators v provisioned was) there
        tagged (Reached-IsConsistent db r)
  Reached-IsConsistent _ (funds s db r) = fund_demo-IsConsistent s db (Reached-IsConsistent db r)
  Reached-IsConsistent _ (marks id due db r) =
      update_sessions-IsConsistent (is_live_session id) (to_pending db.now due) db (λ s b. b)
        (Reached-IsConsistent db r)
  Reached-IsConsistent _ (acks id due db r) =
      update_sessions-IsConsistent (is_live_session id) (to_acked db.now due) db (λ s b. b)
        (Reached-IsConsistent db r)
  Reached-IsConsistent _ (revokes id db r) =
      revoke_for_wallet-IsConsistent id db (Reached-IsConsistent db r)
  Reached-IsConsistent _ (waits now db r) = Reached-IsConsistent db r
