-- ===== src/Operator/Sessions/Modes.antt =====
-- The mode and the operator of a wallet are those of every session that is bound to it.
use vault_runner_api.Prelude.{
  or_true, ℕ, Bool, true, false, not, some, List, [], ◌∷◌, ◌++◌, ◌==◌, ◌≡◌, refl, sym, ap, subst,
  ◌∙◌, inl, inr, arith, Bool-cases, ==_iff,
}
use mathlib.Core.List.{Memᴰ, append_assoc}
use vault_runner_api.Prelude.Texts.{codes, is_nil}
use vault_runner_api.Prelude.Members.{
  All, All-Mem, find-Mem, find-some, first_by-some, first_by-Mem,
}
use vault_runner_api.World.{Text, text_eq, text_eq_iff}
use vault_runner_api.Operator.Launch.{Operator}
use vault_runner_api.Operator.Sessions.{GameSession, SessionDb, colon, base_of, demo_suffix, tag_of}
use vault_runner_api.Operator.Sessions.Upkeep.{
  ends_with, is_real_name, is_demo_wallet, is_newer, resolve_session,
}
use vault_runner_api.Operator.Sessions.Tags.{
  demo_word, IsCode, code_not_demo, demo_lacks, tag_cut, last_colon, tag_injective,
}
use vault_runner_api.Operator.Sessions.Reached.{IsProvisioned, Reached, IsBound, IsConsistent}
use vault_runner_api.Operator.Sessions.Consistent.{Reached-IsConsistent}

-- Two sessions of one wallet.
same_wallet :
    (db : SessionDb) (s t : GameSession)
    → IsConsistent db
    → Memᴰ s db.sessions
    → Memᴰ t db.sessions
    → s.wallet_id ≡ t.wallet_id
    → (s.operator_id ≡ t.operator_id)
      × (s.player_id ≡ t.player_id)
      × (s.currency ≡ t.currency)
      × (s.demo ≡ t.demo)
same_wallet db s t (differ, fresh, bound) ms mt same =
    let (w, there, id, name, uuid, code) = All-Mem (IsBound db.wallets) s db.sessions bound ms in
    let (u, there', id', name', uuid', code') =
      All-Mem (IsBound db.wallets) t db.sessions bound mt in
    let one = differ w u there there' (sym id ∙ same ∙ id') in
    tag_injective s.operator_id t.operator_id s.player_id t.player_id s.currency t.currency s.demo
      t.demo uuid uuid' code code' (sym name ∙ ap (λ w. w.username) one ∙ name')

text_eq_refl : (s : Text) → text_eq s s ≡ true
text_eq_refl s = (text_eq_iff s s).1 refl

id_eq : (n : ℕ) → (n == n) ≡ true
id_eq n = (==_iff n n).1 refl

ends_with_self : (c : ℕ) (e : Text) → ends_with (c ∷ e) (c ∷ e) ≡ true
ends_with_self c e = rw (text_eq_refl (c ∷ e)) refl

ends_with_append : (c : ℕ) (s e : Text) → ends_with (c ∷ e) (s ++ c ∷ e) ≡ true
ends_with_append c [] e = ends_with_self c e
ends_with_append c (d ∷ s) e =
    rw (ends_with_append c s e) (or_true (text_eq (c ∷ e) (d ∷ s ++ c ∷ e)))

ends_with_split : (e s : Text) → is_nil e ≡ false → ends_with e s ≡ true → (x : Text) × (s ≡ x ++ e)
ends_with_split e [] n h = ground arith
ends_with_split e (c ∷ s) n h = elim (Bool-cases (text_eq e (c ∷ s))) [
  | inl here ↦ ([], sym ((text_eq_iff e (c ∷ s)).0 here))
  | inr later ↦
      let (x, same) = ends_with_split e s n (rw later at h) in (c ∷ x, ap (λ t. c ∷ t) same)
]

real_name_lem :
    (o p c : Text) (d : Bool)
    → is_real_name (tag_of o p c d) ≡ not (ends_with demo_suffix (tag_of o p c d))
real_name_lem o p c d = refl

demo_name_ends : (o p c : Text) → ends_with demo_suffix (tag_of o p c true) ≡ true
demo_name_ends o p c =
    subst (λ t. ends_with demo_suffix t ≡ true) (append_assoc (base_of o p) c demo_suffix)
      (ends_with_append colon (base_of o p ++ c) demo_word)

real_name_ends : (o p c : Text) → IsCode c → ends_with demo_suffix (tag_of o p c false) ≡ false
real_name_ends o p c code = elim (Bool-cases (ends_with demo_suffix (tag_of o p c false))) [
  | inr fine ↦ fine
  | inl ends ↦
      let (x, same) = ends_with_split demo_suffix (tag_of o p c false) refl ends in
      let cut =
        last_colon (codes "op:" ++ (o ++ colon ∷ p)) x c demo_word code.0 demo_lacks
          (sym (tag_cut o p c) ∙ same) in
      elim (code_not_demo c code.2 cut.1) [ ]
]

-- The name of a wallet tells its mode.
is_real_name-tag_of : (o p c : Text) (d : Bool) → IsCode c → is_real_name (tag_of o p c d) ≡ not d
is_real_name-tag_of o p c true h = real_name_lem o p c true ∙ ap not (demo_name_ends o p c)
is_real_name-tag_of o p c false h = real_name_lem o p c false ∙ ap not (real_name_ends o p c h)

not-not : (b : Bool) → not (not b) ≡ b
not-not true = refl
not-not false = refl

-- With operators whose ids are UUIDs and whose currencies are codes, and in every state that
-- overlapping launches, checks and revocations lead to, all sessions of a wallet agree on its
-- mode and its operator, player and currency: `isDemoWallet` answers the mode of each of them,
-- also where the sessions are gone and only the wallet's tag is left, and the resolver answers
-- the operator, the player and the currency of each of them.
pub wallet_mode_fixed :
    (operators : List Operator) (db : SessionDb) (s : GameSession)
    → All IsProvisioned operators
    → Reached operators db
    → Memᴰ s db.sessions
    → (is_demo_wallet s.wallet_id db ≡ s.demo)
      × (is_demo_wallet s.wallet_id (record db { sessions = [] }) ≡ s.demo)
      × (resolve_session s.wallet_id db ≡ some (s.operator_id, s.player_id, s.currency))
unfolding is_demo_wallet resolve_session
wallet_mode_fixed operators db s provisioned reached there =
    let ok_db = Reached-IsConsistent operators provisioned db reached in
    let (w, in_wallets, id, name, uuid, code) =
      All-Mem (IsBound db.wallets) s db.sessions ok_db.2 there in
    let (t, found) =
      find-some (λ t. t.wallet_id == s.wallet_id) s db.sessions there (id_eq s.wallet_id) in
    let hit = find-Mem (λ t. t.wallet_id == s.wallet_id) t db.sessions found in
    let agree = same_wallet db t s ok_db hit.0 there ((==_iff t.wallet_id s.wallet_id).0 hit.1) in
    let (l, latest) =
      first_by-some (λ t. t.wallet_id == s.wallet_id) s is_newer db.sessions there
        (id_eq s.wallet_id) in
    let last = first_by-Mem (λ t. t.wallet_id == s.wallet_id) is_newer l db.sessions latest in
    let same = same_wallet db l s ok_db last.0 there ((==_iff l.wallet_id s.wallet_id).0 last.1) in
    let (u, listed) =
      find-some (λ w. w.id == s.wallet_id) w db.wallets in_wallets
        ((==_iff w.id s.wallet_id).1 (sym id)) in
    let row = find-Mem (λ w. w.id == s.wallet_id) u db.wallets listed in
    let one = ok_db.0 u w row.0 in_wallets ((==_iff u.id s.wallet_id).0 row.1 ∙ id) in
    (
      rw found agree.3,
      rw listed (
          ap (λ u. not (is_real_name u.username)) one
          ∙ ap (λ n. not (is_real_name n)) name
          ∙ ap not (is_real_name-tag_of s.operator_id s.player_id s.currency s.demo code)
          ∙ not-not s.demo),
      rw (latest, same.0, same.1, same.2) refl,
    )
