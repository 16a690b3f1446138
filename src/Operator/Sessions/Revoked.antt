-- ===== src/Operator/Sessions/Revoked.antt =====
-- Which sessions the revocation of a player reaches.
use vault_runner_api.Prelude.{
  or_true, ℕ, Bool, true, false, ◌&&◌, ◌||◌, ◌++◌, Option, none, some, ◌⊎◌, is_some, List, [], ◌∷◌,
  select, update_where, count_where, ◌==◌, ltb, ◌≡◌, refl, sym, ap, subst, ◌∙◌, inl, inr, arith,
  Bool-cases, ==_iff,
}
use mathlib.Core.List.{Memᴰ, append-nil}
use vault_runner_api.Prelude.Texts.{lacks}
use vault_runner_api.Prelude.Members.{All, All-weaken}
use vault_runner_api.World.{Text, text_eq, text_eq_iff, to_upper}
use vault_runner_api.Operator.Launch.{Operator}
use vault_runner_api.Operator.Sessions.{
  JournalWallet, GameSession, SessionDb, colon, base_of, demo_suffix, tag_of,
}
use vault_runner_api.Operator.Sessions.Upkeep.{
  is_live_row, is_live_in, revoke_for_wallet, is_candidate, is_revoked_wallet, given_currency,
  after, revoke_wallets, revoke_for_operator_player,
}
use vault_runner_api.Operator.Sessions.Tags.{IsCode, tag_injective}
use vault_runner_api.Operator.Sessions.Suffixes.{is_of_player, hits, hit_own, own_hit}
use vault_runner_api.Operator.Sessions.Reached.{
  IsProvisioned, Reached, IsBound, IdsDiffer, IsConsistent,
}
use vault_runner_api.Operator.Sessions.Consistent.{Reached-IsConsistent}

module _ {A : Type 0} (f : A → A) where
  update_again :
      (p q r : A → Bool)
      → ((a : A) → q a ≡ true → (p (f a) ≡ false) × (r a ≡ true))
      → ((a : A) → q a ≡ false → r a ≡ p a)
      → (xs : List A) → update_where p f (update_where q f xs) ≡ update_where r f xs
  update_again p q r hit miss [] = refl
  update_again p q r hit miss (x ∷ xs) = elim (Bool-cases (q x)) [
    | inl was ↦
        let (stays, same) = hit x was in
        rw (was, stays, same) (ap (λ l. f x ∷ l) (update_again p q r hit miss xs))
    | inr other ↦ elim (Bool-cases (p x)) [
      | inl late ↦
          rw (other, miss x other, late) (ap (λ l. f x ∷ l) (update_again p q r hit miss xs))
      | inr never ↦
          rw (other, miss x other, never) (ap (λ l. x ∷ l) (update_again p q r hit miss xs))
    ]
  ]

  update_same :
      (p q : A → Bool) (xs : List A)
      → All (λ a. p a ≡ q a) xs
      → update_where p f xs ≡ update_where q f xs
  update_same p q [] h = refl
  update_same p q (x ∷ xs) h = rw (h.0, update_same p q xs h.1) refl

and_false : (a : Bool) → (a && false) ≡ false
and_false true = refl
and_false false = refl

or_cases : (a b : Bool) → (a || b) ≡ true → (a ≡ true) ⊎ (b ≡ true)
or_cases true b h = inl refl
or_cases false b h = inr h

first_live : (a b l : Bool) → (a && l) ≡ true → ((a || b) && l) ≡ true
first_live true b l h = h
first_live false b l h = elim (Bool-cases b) [ inl t ↦ ground arith | inr f ↦ ground arith ]

other_live : (a b l : Bool) → (a && l) ≡ false → ((a || b) && l) ≡ (b && l)
other_live true true l h = refl
other_live true false l h = h
other_live false b l h = refl

iff_bool : (a b : Bool) → (a ≡ true → b ≡ true) → (b ≡ true → a ≡ true) → a ≡ b
iff_bool true b f g = sym (f refl)
iff_bool false true f g = g refl
iff_bool false false f g = refl

and_parts : (a b : Bool) → (a && b) ≡ true → (a ≡ true) × (b ≡ true)
and_parts true b h = (refl, h)
and_parts false b h = ground arith

abbrev in_wallets : List JournalWallet → GameSession → Bool
in_wallets [] s = false
in_wallets (w ∷ ws) s = s.wallet_id == w.id || in_wallets ws s

abbrev live_of : List JournalWallet → GameSession → Bool
live_of ws s = in_wallets ws s && is_live_row s

abbrev revoked_now : ℕ → GameSession → GameSession
revoked_now now s = record s { revoked_at = some now }

sessions-revoke_for_wallet :
    (id : ℕ) (db : SessionDb)
    → ((revoke_for_wallet id db).1.sessions
        ≡ update_where (is_live_in id) (revoked_now db.now) db.sessions)
      × ((revoke_for_wallet id db).1.now ≡ db.now)
unfolding revoke_for_wallet
sessions-revoke_for_wallet id db =
    elim (Bool-cases (ltb 0 (count_where (is_live_in id) db.sessions))) [
      | inl found ↦ rw found (refl, refl)
      | inr nothing ↦ rw nothing (refl, refl)
    ]

update_none : {A : Type 0} (f : A → A) (xs : List A) → update_where (λ a. false) f xs ≡ xs
update_none f [] = refl
update_none f (x ∷ xs) = ap (λ l. x ∷ l) (update_none f xs)

sessions-revoke_wallets :
    (ws : List JournalWallet) (db : SessionDb)
    → (revoke_wallets ws db).1.sessions ≡ update_where (live_of ws) (revoked_now db.now) db.sessions
unfolding revoke_wallets
sessions-revoke_wallets [] db = sym (update_none (revoked_now db.now) db.sessions)
sessions-revoke_wallets (w ∷ ws) db =
    let first = sessions-revoke_for_wallet w.id db in
    sessions-revoke_wallets ws (revoke_for_wallet w.id db).1
    ∙ ap (λ n. update_where (live_of ws) (revoked_now n) (revoke_for_wallet w.id db).1.sessions)
        first.1
    ∙ ap (λ l. update_where (live_of ws) (revoked_now db.now) l) first.0
    ∙ update_again (revoked_now db.now) (live_of ws) (is_live_in w.id) (live_of (w ∷ ws))
        (λ s h. (
          and_false (in_wallets ws (revoked_now db.now s)),
          first_live (s.wallet_id == w.id) (in_wallets ws s) (is_live_row s) h,
        ))
        (λ s h. other_live (s.wallet_id == w.id) (in_wallets ws s) (is_live_row s) h) db.sessions

-- A wallet that is selected has its sessions in the selection, and conversely.
selected_in :
    (p : JournalWallet → Bool) (w : JournalWallet) (s : GameSession) (ws : List JournalWallet)
    → Memᴰ w ws
    → s.wallet_id ≡ w.id
    → p w ≡ true
    → in_wallets (select p ws) s ≡ true
selected_in p w s [] m e h = elim m [ ]
selected_in p w s (u ∷ ws) (Memᴰ.head same) e h =
    rw (sym same, h, (==_iff s.wallet_id w.id).1 e) refl
selected_in p w s (u ∷ ws) (Memᴰ.tail m) e h = elim (Bool-cases (p u)) [
  | inl hit ↦ rw (hit, selected_in p w s ws m e h) (or_true (s.wallet_id == u.id))
  | inr miss ↦ rw miss (selected_in p w s ws m e h)
]

in_selected :
    (p : JournalWallet → Bool) (s : GameSession) (ws : List JournalWallet)
    → in_wallets (select p ws) s ≡ true
    → (u : JournalWallet) × Memᴰ u ws × (s.wallet_id ≡ u.id) × (p u ≡ true)
in_selected p s [] h = ground arith
in_selected p s (u ∷ ws) h = elim (Bool-cases (p u)) [
  | inr miss ↦
      let (v, there, id, hit) = in_selected p s ws (rw miss at h) in (v, Memᴰ.tail there, id, hit)
  | inl hit ↦ elim (Bool-cases (s.wallet_id == u.id)) [
    | inl here ↦ (u, Memᴰ.head refl, (==_iff s.wallet_id u.id).0 here, hit)
    | inr other ↦
        let (v, there, id, good) = in_selected p s ws (rw (hit, other) at h) in
        (v, Memᴰ.tail there, id, good)
  ]
]

-- A query that reads the tag, and the sessions whose tags it hits.
query_own :
    (query : JournalWallet → Bool) (own : GameSession → Bool) (ws : List JournalWallet)
    → IdsDiffer ws
    → ((s : GameSession) (w : JournalWallet)
        → w.username ≡ tag_of s.operator_id s.player_id s.currency s.demo
        → lacks colon s.operator_id ≡ true
        → IsCode s.currency
        → query w ≡ own s)
    → (s : GameSession) → IsBound ws s
    → live_of (select query ws) s ≡ (own s && is_live_row s)
query_own query own ws differ reads s (w, there, id, name, uuid, code) =
    ap (λ b. b && is_live_row s)
      (iff_bool (in_wallets (select query ws) s) (own s)
        (λ h.
          let (u, in_ws, same, hit) = in_selected query s ws h in
          let one = differ u w in_ws there (sym same ∙ id) in
          sym (reads s w name uuid code) ∙ ap query (sym one) ∙ hit)
        (λ h. selected_in query w s ws there id (reads s w name uuid code ∙ h)))

module _ (operator player : Text) (uuid : lacks colon operator ≡ true) where
  tag_at :
      (s : GameSession)
      → is_of_player operator player s ≡ true
      → tag_of s.operator_id s.player_id s.currency s.demo
        ≡ tag_of operator player s.currency s.demo
  tag_at s h =
      let (o, p) = and_parts (text_eq s.operator_id operator) (text_eq s.player_id player) h in
      rw ((text_eq_iff s.operator_id operator).0 o, (text_eq_iff s.player_id player).0 p) refl

  all_reads :
      lacks colon player ≡ true
      → (s : GameSession) (w : JournalWallet)
      → w.username ≡ tag_of s.operator_id s.player_id s.currency s.demo
      → lacks colon s.operator_id ≡ true
      → IsCode s.currency
      → is_revoked_wallet (base_of operator player) none w ≡ is_of_player operator player s
  all_reads clear s w name uuid' code =
      iff_bool _ (is_of_player operator player s)
        (λ h.
          let (o, p) =
            hit_own operator player uuid clear s.operator_id s.player_id s.currency s.demo uuid'
              code (subst (λ n. hits operator player n ≡ true) name h) in
          rw ((text_eq_iff s.operator_id operator).1 o, (text_eq_iff s.player_id player).1 p) refl)
        (λ h.
          subst (λ n. hits operator player n ≡ true) (sym (name ∙ tag_at s h))
            (own_hit operator player s.currency s.demo code))

  abbrev in_currency : Text → GameSession → Bool
  in_currency c s = is_of_player operator player s && text_eq s.currency (to_upper c)

  same_code :
      (c : Text) (d : Bool) (s : GameSession)
      → IsCode (to_upper c)
      → lacks colon s.operator_id ≡ true
      → IsCode s.currency
      → tag_of s.operator_id s.player_id s.currency s.demo ≡ tag_of operator player (to_upper c) d
      → in_currency c s ≡ true
  same_code c d s code uuid' code' e =
      let (o, p, k, m) =
        tag_injective s.operator_id operator s.player_id player s.currency (to_upper c) s.demo d
          uuid' uuid code' code e in
      rw
        (
          (text_eq_iff s.operator_id operator).1 o,
          (text_eq_iff s.player_id player).1 p,
          (text_eq_iff s.currency (to_upper c)).1 k,
        )
        refl

  real_tag : (c : Text) → base_of operator player ++ c ≡ tag_of operator player c false
  real_tag c = ap (λ r. base_of operator player ++ r) (sym (append-nil c))

  exact_hits :
      (c : Text) (d : Bool)
      → IsCode (to_upper c)
      → (w : JournalWallet) → w.username ≡ tag_of operator player (to_upper c) d
      → is_candidate (base_of operator player) (some c) w ≡ true
  exact_hits c false code w name =
      rw
        ((text_eq_iff w.username (base_of operator player ++ to_upper c)).1
          (name ∙ sym (real_tag (to_upper c))))
        refl
  exact_hits c true code w name =
      rw ((text_eq_iff w.username (base_of operator player ++ (to_upper c ++ demo_suffix))).1 name)
        (or_true (text_eq w.username (base_of operator player ++ to_upper c)))

  one_reads :
      (c : Text)
      → IsCode (to_upper c)
      → (s : GameSession) (w : JournalWallet)
      → w.username ≡ tag_of s.operator_id s.player_id s.currency s.demo
      → lacks colon s.operator_id ≡ true
      → IsCode s.currency
      → is_revoked_wallet (base_of operator player) (some c) w ≡ in_currency c s
  one_reads c code s w name uuid' code' =
      iff_bool _ (in_currency c s)
        (λ h.
          elim (or_cases _ _
            (and_parts (is_candidate (base_of operator player) (some c) w) _ h).0) [
              | inl real ↦ same_code c false s code uuid' code' (
                  sym name
                  ∙ (text_eq_iff w.username (base_of operator player ++ to_upper c)).0 real
                  ∙ real_tag (to_upper c))
              | inr demo ↦ same_code c true s code uuid' code' (
                  sym name
                  ∙ (text_eq_iff w.username
                        (base_of operator player ++ (to_upper c ++ demo_suffix))).0
                      demo)
            ])
        (λ h.
          let (own, k) =
            and_parts (is_of_player operator player s) (text_eq s.currency (to_upper c)) h in
          let named : w.username ≡ tag_of operator player (to_upper c) s.demo =
            name
            ∙ tag_at s own
            ∙ ap (λ k. tag_of operator player k s.demo)
                ((text_eq_iff s.currency (to_upper c)).0 k) in
          let filtered =
            subst (λ n. hits operator player n ≡ true) (sym named)
              (own_hit operator player (to_upper c) s.demo code) in
          rw
            (
              exact_hits c s.demo code w named,
              (and_parts (is_some (after (base_of operator player) w.username)) _ filtered).1,
            )
            refl)

  revoked_by :
      (currency : Option Text) (own : GameSession → Bool) (db : SessionDb)
      → IsConsistent db
      → ((s : GameSession) (w : JournalWallet)
          → w.username ≡ tag_of s.operator_id s.player_id s.currency s.demo
          → lacks colon s.operator_id ≡ true
          → IsCode s.currency
          → is_revoked_wallet (base_of operator player) (given_currency currency) w ≡ own s)
      → (revoke_for_operator_player operator player currency db).1.sessions
        ≡ update_where (λ s. own s && is_live_row s) (revoked_now db.now) db.sessions
  unfolding revoke_for_operator_player
  revoked_by currency own db consistent reads =
      let query = is_revoked_wallet (base_of operator player) (given_currency currency) in
      sessions-revoke_wallets (select query db.wallets) db
      ∙ update_same (revoked_now db.now) (live_of (select query db.wallets))
          (λ s. own s && is_live_row s) db.sessions
          (All-weaken (IsBound db.wallets) _
            (λ s bound. query_own query own db.wallets consistent.0 reads s bound) db.sessions
            consistent.2)

  given_lem : (c : Text) → IsCode (to_upper c) → given_currency (some c) ≡ some c
  given_lem [] code = ground arith
  given_lem (x ∷ c) code = refl

  -- With operators whose ids are UUIDs and whose currencies are codes, in every state that
  -- overlapping launches, checks and revocations lead to: an operator that revokes a player
  -- marks as revoked exactly the live sessions, real and demo, of that player with that
  -- operator, in the currency that it names, or in all where it names none; the player's id has
  -- no colon. Every other session it leaves as it was.
  pub revoked_exactly :
      (operators : List Operator) (db : SessionDb) (currency : Text)
      → All IsProvisioned operators
      → Reached operators db
      → lacks colon player ≡ true
      → IsCode (to_upper currency)
      → ((revoke_for_operator_player operator player none db).1.sessions
          ≡ update_where
              (λ s. is_of_player operator player s && is_live_row s)
              (λ s. record s { revoked_at = some db.now })
              db.sessions)
        × ((revoke_for_operator_player operator player (some currency) db).1.sessions
            ≡ update_where
                (λ s. in_currency currency s && is_live_row s)
                (λ s. record s { revoked_at = some db.now })
                db.sessions)
  revoked_exactly operators db currency provisioned reached clear code =
      let consistent = Reached-IsConsistent operators provisioned db reached in
      (
        revoked_by none (is_of_player operator player) db consistent (all_reads clear),
        revoked_by (some currency) (in_currency currency) db consistent
            (rw (given_lem currency code) (one_reads currency code)),
      )
