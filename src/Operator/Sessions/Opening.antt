-- ===== src/Operator/Sessions/Opening.antt =====
-- `openFromToken` is made of the atomic actions.
use vault_runner_api.Prelude.{
  ℕ, Bool, true, false, ◌&&◌, ◌||◌, Option, some, List, find, ltb, is_some, count_where, ◌≡◌, refl,
  sym, ap, subst, ◌∙◌, inl, inr, arith, Bool-cases, Option-cases, some_injective,
}
use mathlib.Core.List.{Memᴰ}
use vault_runner_api.Prelude.Members.{find-Mem}
use vault_runner_api.Prog.{Result, ok, err}
use vault_runner_api.World.{Text, text_eq, text_eq_iff}
use vault_runner_api.Operator.Launch.{
  Operator, LaunchError, LaunchToken, VerifiedLaunch, canonical_currency, verify_launch,
}
use vault_runner_api.Operator.Sessions.{
  JournalWallet, GameSession, SessionDb, tag_for, new_wallet, is_journal, ensure_wallet, is_used,
  record_session, fund_demo, open_verified, finish_open, open_from_token,
}
use vault_runner_api.Operator.Sessions.Upkeep.{
  mark_reality_check_pending, ack_reality_check, is_live_in, revoke_for_wallet,
}
use vault_runner_api.Operator.Sessions.Reached.{
  WasVerified, Reached, starts, ensures, records, funds, marks, acks, revokes, waits,
}
use vault_runner_api.Operator.Sessions.Once.{sessions-ensure_wallet}

and_second : (a b : Bool) → (a && b) ≡ true → b ≡ true
and_second true b h = h
and_second false b h = ground arith

operators-record_session :
    (v : VerifiedLaunch) (w : JournalWallet) (db : SessionDb)
    → (record_session v w db).1.operators ≡ db.operators
unfolding record_session
operators-record_session v w db = elim (Bool-cases (is_used db v.jti)) [
  | inl used ↦ rw used refl
  | inr new ↦ rw new refl
]

operators-fund_demo : (s : GameSession) (db : SessionDb) → (fund_demo s db).operators ≡ db.operators
unfolding fund_demo
operators-fund_demo s db = elim (Bool-cases s.demo) [
  | inl demo ↦ rw demo refl
  | inr real ↦ rw real refl
]

operators-revoke_for_wallet :
    (id : ℕ) (db : SessionDb) → (revoke_for_wallet id db).1.operators ≡ db.operators
unfolding revoke_for_wallet
operators-revoke_for_wallet id db =
    elim (Bool-cases (ltb 0 (count_where (is_live_in id) db.sessions))) [
      | inl some_live ↦ rw some_live refl
      | inr none_live ↦ rw none_live refl
    ]

ensured :
    (currency tag : Text) (db : SessionDb) (w : JournalWallet)
    → (ensure_wallet currency tag db).0 ≡ some w
    → Memᴰ w (ensure_wallet currency tag db).1.wallets × (w.username ≡ tag)
unfolding ensure_wallet
ensured currency tag db w h =
    elim (Bool-cases (
      is_some (find (is_journal currency tag) db.wallets)
      || is_some (find (λ w. text_eq w.username tag) db.wallets))) [
        | inl there ↦
            let (row, hit) = find-Mem (is_journal currency tag) w db.wallets (rw there at h) in
            rw there (row, (text_eq_iff w.username tag).0 (and_second _ _ hit))
        | inr new ↦
            let same = some_injective (new_wallet currency tag db) w (rw new at h) in
            rw new (Memᴰ.head (sym same), ap (λ w. w.username) (sym same))
      ]

module _ (operators : List Operator) where
  same_operators : (db : SessionDb) → Reached operators db → db.operators ≡ operators
  unfolding mark_reality_check_pending ack_reality_check
  same_operators _ (starts now) = refl
  same_operators _ (ensures v db was r) =
      (sessions-ensure_wallet (canonical_currency v.currency) (tag_for v) db).1
      ∙ same_operators db r
  same_operators _ (records v w db was there tagged r) =
      operators-record_session v w db ∙ same_operators db r
  same_operators _ (funds s db r) = operators-fund_demo s db ∙ same_operators db r
  same_operators _ (marks id due db r) = same_operators db r
  same_operators _ (acks id due db r) = same_operators db r
  same_operators _ (revokes id db r) = operators-revoke_for_wallet id db ∙ same_operators db r
  same_operators _ (waits now db r) = same_operators db r

  finish_open-Reached :
      (op : Option Operator) (w : JournalWallet)
      (answer : Result LaunchError GameSession × SessionDb)
      → Reached operators answer.1
      → Reached operators (finish_open op w answer).1
  finish_open-Reached op w (err e, db) r = r
  finish_open-Reached op w (ok s, db) r = funds s db r

  open_verified-Reached :
      (answer : Result LaunchError VerifiedLaunch) (db : SessionDb)
      → ((v : VerifiedLaunch) → answer ≡ ok v → WasVerified operators v)
      → Reached operators db
      → Reached operators (open_verified answer db).1
  open_verified-Reached (err e) db was r = r
  open_verified-Reached (ok v) db was r =
      let currency = canonical_currency v.currency in
      let db' = (ensure_wallet currency (tag_for v) db).1 in
      let r' = ensures v db (was v refl) r in
      elim (Option-cases (ensure_wallet currency (tag_for v) db).0) [
        | inl missing ↦ rw missing r'
        | inr (w, there) ↦
            let (row, tagged) = ensured currency (tag_for v) db w there in
            rw there (
              finish_open-Reached (find (λ op. text_eq op.id v.operator_id) db.operators) w
                (record_session v w db') (records v w db' (was v refl) row tagged r'))
      ]

  pub open_from_token-Reached :
      (token : LaunchToken) (db : SessionDb)
      → Reached operators db
      → Reached operators (open_from_token token db).1
  unfolding open_from_token
  open_from_token-Reached token db r =
      open_verified-Reached (verify_launch db.operators (is_used db) token) db
        (λ v e. (
          is_used db,
          token,
          subst (λ ops. verify_launch ops (is_used db) token ≡ ok v) (same_operators db r) e,
        ))
        r
