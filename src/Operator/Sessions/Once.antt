-- ===== src/Operator/Sessions/Once.antt =====
-- A launch token opens one session at most.
use vault_runner_api.Prelude.{
  ℕ, ◌≤◌, Bool, false, ◌||◌, some, List, [], ◌∷◌, find, ltb, is_some, update_where, count_where,
  ◌≡◌, refl, subst, inl, inr, arith, Bool-cases,
}
use vault_runner_api.World.{Text, text_eq, text_eq_iff}
use vault_runner_api.Operator.Launch.{Operator, VerifiedLaunch, canonical_currency}
use vault_runner_api.Operator.Sessions.{
  JournalWallet, GameSession, SessionDb, tag_for, is_journal, ensure_wallet, has_jti, is_used,
  record_session, fund_demo,
}
use vault_runner_api.Operator.Sessions.Upkeep.{
  is_live_session, to_pending, to_acked, mark_reality_check_pending, ack_reality_check, is_live_in,
  revoke_for_wallet,
}
use vault_runner_api.Operator.Sessions.Reached.{
  Reached, starts, ensures, records, funds, marks, acks, revokes, waits,
}

module _ {A : Type 0} (q : A → Bool) where
  count_kept :
      (p : A → Bool) (f : A → A)
      → ((a : A) → q (f a) ≡ q a)
      → (xs : List A) → count_where q (update_where p f xs) ≡ count_where q xs
  count_kept p f same [] = refl
  count_kept p f same (x ∷ xs) = elim (Bool-cases (p x)) [
    | inl hit ↦ rw (hit, same x, count_kept p f same xs) refl
    | inr miss ↦ rw (miss, count_kept p f same xs) refl
  ]

  count_unfound : (xs : List A) → is_some (find q xs) ≡ false → count_where q xs ≡ 0
  count_unfound [] h = refl
  count_unfound (x ∷ xs) h = elim (Bool-cases (q x)) [
    | inl hit ↦ ground arith
    | inr miss ↦ rw (miss, count_unfound xs (rw miss at h)) refl
  ]

pub sessions-ensure_wallet :
    (currency tag : Text) (db : SessionDb)
    → ((ensure_wallet currency tag db).1.sessions ≡ db.sessions)
      × ((ensure_wallet currency tag db).1.operators ≡ db.operators)
unfolding ensure_wallet
sessions-ensure_wallet currency tag db =
    elim (Bool-cases (
      is_some (find (is_journal currency tag) db.wallets)
      || is_some (find (λ w. text_eq w.username tag) db.wallets))) [
        | inl there ↦ rw there (refl, refl)
        | inr new ↦ rw new (refl, refl)
      ]

sessions-fund_demo : (s : GameSession) (db : SessionDb) → (fund_demo s db).sessions ≡ db.sessions
unfolding fund_demo
sessions-fund_demo s db = elim (Bool-cases s.demo) [
  | inl demo ↦ rw demo refl
  | inr real ↦ rw real refl
]

record_once :
    (jti : Text) (v : VerifiedLaunch) (w : JournalWallet) (db : SessionDb)
    → count_where (has_jti jti) db.sessions ≤ 1
    → count_where (has_jti jti) (record_session v w db).1.sessions ≤ 1
unfolding record_session
record_once jti v w db h = elim (Bool-cases (is_used db v.jti)) [
  | inl used ↦ rw used h
  | inr new ↦ elim (Bool-cases (text_eq v.jti jti)) [
    | inr other ↦ rw (new, other) (omega (arith, h))
    | inl same ↦
        let unused =
          subst (λ j. count_where (has_jti j) db.sessions ≡ 0) ((text_eq_iff v.jti jti).0 same)
            (count_unfound (has_jti v.jti) db.sessions new) in
        rw (new, same) (omega (arith, unused))
  ]
]

revoke_once :
    (jti : Text) (id : ℕ) (db : SessionDb)
    → count_where (has_jti jti) (revoke_for_wallet id db).1.sessions
      ≡ count_where (has_jti jti) db.sessions
unfolding revoke_for_wallet
revoke_once jti id db =
    let kept =
      count_kept (has_jti jti) (is_live_in id) (λ s. record s { revoked_at = some db.now })
        (λ s. refl) db.sessions in
    elim (Bool-cases (ltb 0 (count_where (is_live_in id) db.sessions))) [
      | inl some_live ↦ rw some_live kept
      | inr none_live ↦ rw none_live kept
    ]

-- However launches overlap, and whatever else happens, no two sessions are opened with the same
-- jti: a launch token opens one session at most.
pub jti_opens_once :
    (operators : List Operator) (jti : Text) (db : SessionDb)
    → Reached operators db
    → count_where (has_jti jti) db.sessions ≤ 1
unfolding mark_reality_check_pending ack_reality_check
jti_opens_once operators jti _ (starts now) = omega arith
jti_opens_once operators jti _ (ensures v db was r) =
    rw (sessions-ensure_wallet (canonical_currency v.currency) (tag_for v) db).0
      (jti_opens_once operators jti db r)
jti_opens_once operators jti _ (records v w db was there tagged r) =
    record_once jti v w db (jti_opens_once operators jti db r)
jti_opens_once operators jti _ (funds s db r) =
    rw (sessions-fund_demo s db) (jti_opens_once operators jti db r)
jti_opens_once operators jti _ (marks id due db r) = omega (
  arith,
  count_kept (has_jti jti) (is_live_session id) (to_pending db.now due) (λ s. refl) db.sessions,
  jti_opens_once operators jti db r,
)
jti_opens_once operators jti _ (acks id due db r) = omega (
  arith,
  count_kept (has_jti jti) (is_live_session id) (to_acked db.now due) (λ s. refl) db.sessions,
  jti_opens_once operators jti db r,
)
jti_opens_once operators jti _ (revokes id db r) =
    rw (revoke_once jti id db) (jti_opens_once operators jti db r)
jti_opens_once operators jti _ (waits now db r) = jti_opens_once operators jti db r
