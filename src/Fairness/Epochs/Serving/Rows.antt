-- ===== src/Fairness/Epochs/Serving/Rows.antt =====
-- What holds of the row of every epoch, and how a row changes, whatever calls overlap.
use vault_runner_api.Prelude.{
  ℕ, ◌+◌, ◌≤◌, ◌<◌, Bool, true, false, Option, some, List, [], ◌∷◌, ◌==◌, is_some, find,
  update_where, if◌then◌else◌, ◌≡◌, refl, ◌∙◌, ap, arith, inl, inr, Bool-cases,
}
use mathlib.Core.List.{Memᴰ}
use vault_runner_api.Prelude.Members.{find-Mem}
use vault_runner_api.Prog.{ok}
use vault_runner_api.Prog.Safe.{Rely}
use vault_runner_api.World.{Text}
use vault_runner_api.Fairness.Oracle.{Rpc, finalized_block_hash}
use vault_runner_api.Fairness.Salt.{is_eth_block, eth_block_salt_provider}
use vault_runner_api.Fairness.Epochs.{
  pending, armed, active, Chain, FairnessDb, has_chain_id, update_chain, Sources,
}

module _ {A : Type 0} (p : A → Bool) (f : A → A) where
  abbrev updated : A → A
  updated a = if p a then f a else a

  Mem-updated :
      (d : A) (cs : List A) → Memᴰ d (update_where p f cs) → (c : A) × Memᴰ c cs × (d ≡ updated c)
  Mem-updated d [] m = elim m [ ]
  Mem-updated d (c ∷ cs) (Memᴰ.head e) = (c, Memᴰ.head refl, e)
  Mem-updated d (c ∷ cs) (Memᴰ.tail m) =
      let (a, there, e) = Mem-updated d cs m in (a, Memᴰ.tail there, e)

  find-updated :
      (q : A → Bool) (c : A) (cs : List A)
      → ((a : A) → q (f a) ≡ q a)
      → find q cs ≡ some c
      → find q (update_where p f cs) ≡ some (updated c)
  find-updated q c [] k h = ground arith
  find-updated q c (a ∷ cs) k h = ground (arith, k a, find-updated q c cs k)

module _ (xs : List Sources) where
  -- The hash of a block, which more than half of the RPCs of one of the nodes report as finalized.
  abbrev pub BlockHash : ℕ → Text → Type 0
  BlockHash t h =
      (x : Sources) × Memᴰ x xs
      × (env_lead : Option ℕ) × (least : ℕ) × (rpcs : List Rpc) × (x.provider
          ≡ eth_block_salt_provider env_lead least rpcs)
      × (finalized_block_hash least rpcs t ≡ ok (some h))

  -- A salt that an epoch of a block has is the hash of its block.
  abbrev pub SaltedByBlock : Chain → Type 0
  SaltedByBlock c =
      is_eth_block c.salt_source ≡ true
      → (h : Text) → c.salt ≡ some h
      → (t : ℕ) × (c.target_block ≡ some t) × BlockHash t h

  -- Only an epoch of a block waits for its salt, and one that is armed or active has its salt.
  pub record RowOk (c : Chain) : Type 0 where
    pub waits : c.status ≡ pending → is_eth_block c.salt_source ≡ true
    pub is_armed : c.status ≡ armed → is_some c.salt ≡ true
    pub is_active : c.status ≡ active → is_some c.salt ≡ true
    pub by_block : SaltedByBlock c

  pub record Kept (db : FairnessDb) : Type 0 where
    pub unique : (c : Chain) → Memᴰ c db.chains → find (has_chain_id c.id) db.chains ≡ some c
    pub fresh : (c : Chain) → Memᴰ c db.chains → c.id < db.next_id
    pub rows : (c : Chain) → Memᴰ c db.chains → RowOk c

-- A row stays, with its source and its block, and a salt that it has is not taken away.
abbrev pub SameChain : Chain → Chain → Type 0
SameChain c d =
    (d.salt_source ≡ c.salt_source)
    × (d.target_block ≡ c.target_block)
    × (is_some c.salt ≡ true → is_some d.salt ≡ true)

abbrev pub Later : FairnessDb → FairnessDb → Type 0
Later s t =
    (i : ℕ) (c : Chain)
    → find (has_chain_id i) s.chains ≡ some c
    → (d : Chain) × (find (has_chain_id i) t.chains ≡ some d) × SameChain c d

pub Later-trans : (s t u : FairnessDb) → Later s t → Later t u → Later s u
Later-trans s t u h k i c e =
    let (d, found, (source, target, salted)) = h i c e in
    let (d', found', (source', target', salted')) = k i d found in
    (d', found', (source' ∙ source, target' ∙ target, λ has. salted' (salted has)))

abbrev pub overlap : List Sources → Rely FairnessDb
overlap xs = record {
  later = Later;
  holds = Kept xs;
  same = λ s i c e. (c, e, (refl, refl, λ h. h));
  trans = Later-trans;
}

-- An update of an epoch that keeps its id, its source, its block and, as a salt, the one it has.
pub record KeepsRow (f : Chain → Chain) : Type 0 where
  pub same_id : (c : Chain) → (f c).id ≡ c.id
  pub same_row : (c : Chain) → SameChain c (f c)

module _ (xs : List Sources) (db : FairnessDb) (kept : Kept xs db) where
  pub unchanged :
      (db' : FairnessDb)
      → db'.chains ≡ db.chains
      → db.next_id ≤ db'.next_id
      → Kept xs db' × Later db db'
  unchanged db' e more = (
    record {
      unique = λ c m. rw e (kept.unique c (rw e at m));
      fresh = λ c m. let below = kept.fresh c (rw e at m) in omega arith;
      rows = λ c m. kept.rows c (rw e at m);
    },
    λ i c found. (c, rw e found, (refl, refl, λ h. h)),
  )

  module _ (i : ℕ) (f : Chain → Chain) (keeps : KeepsRow f) where
    same_test : (j : ℕ) (c : Chain) → has_chain_id j (f c) ≡ has_chain_id j c
    same_test j c = ap (λ n. n == j) (keeps.same_id c)

    updated_row :
        (c : Chain)
        → (updated (has_chain_id i) f c).id ≡ c.id × SameChain c (updated (has_chain_id i) f c)
    updated_row c = elim (Bool-cases (has_chain_id i c)) [
      | inl hit ↦ rw hit (keeps.same_id c, keeps.same_row c)
      | inr miss ↦ rw miss (refl, (refl, refl, λ h. h))
    ]

    pub found_updated :
        (c : Chain)
        → find (has_chain_id i) db.chains ≡ some c
        → find (has_chain_id i) (update_chain i f db).chains ≡ some (f c)
    found_updated c found =
        let hit = (find-Mem (has_chain_id i) c db.chains found).1 in
        find-updated (has_chain_id i) f (has_chain_id i) c db.chains (same_test i) found
        ∙ ap (λ b. some (if b then f c else c)) hit

    pub update_chain-Kept :
        ((c : Chain) → Memᴰ c db.chains → c.id ≡ i → RowOk xs c → RowOk xs (f c))
        → Kept xs (update_chain i f db) × Later db (update_chain i f db)
    update_chain-Kept ok_row = (
      record {
        unique = λ d m.
            let (c, there, e) = Mem-updated (has_chain_id i) f d db.chains m in
            let id = (updated_row c).0 in
            rw (e, id)
              (find-updated (has_chain_id i) f (has_chain_id c.id) c db.chains (same_test c.id)
                (kept.unique c there));
        fresh = λ d m.
            let (c, there, e) = Mem-updated (has_chain_id i) f d db.chains m in
            let id = (updated_row c).0 in rw (e, id) (kept.fresh c there);
        rows = λ d m.
            let (c, there, e) = Mem-updated (has_chain_id i) f d db.chains m in rw e (row c there);
      },
      λ j c found. (
        updated (has_chain_id i) f c,
        find-updated (has_chain_id i) f (has_chain_id j) c db.chains (same_test j) found,
        (updated_row c).1,
      ),
    )
      where
        row : (c : Chain) → Memᴰ c db.chains → RowOk xs (updated (has_chain_id i) f c)
        row c there = elim (Bool-cases (has_chain_id i c)) [
          | inl hit ↦ rw hit (ok_row c there (ground arith) (kept.rows c there))
          | inr miss ↦ rw miss (kept.rows c there)
        ]

  -- A new row, under a new id.
  module _ (c : Chain) (new : c.id ≡ db.next_id) (ok_row : RowOk xs c) where
    abbrev pub inserted : FairnessDb
    inserted = record db { chains = c ∷ db.chains; next_id = db.next_id + 1 }

    other_id : (d : Chain) → Memᴰ d db.chains → has_chain_id d.id c ≡ false
    other_id d m = let below = kept.fresh d m in rw new (ground arith)

    found_below :
        (j : ℕ) (d : Chain)
        → find (has_chain_id j) db.chains ≡ some d
        → find (has_chain_id j) (c ∷ db.chains) ≡ some d
    found_below j d found =
        let (there, hit) = find-Mem (has_chain_id j) d db.chains found in
        let same : d.id ≡ j = ground arith in rw (rw same at (other_id d there)) found

    pub inserted-Kept : Kept xs inserted × Later db inserted
    inserted-Kept = (
      record { unique = first; fresh = below; rows = row },
      λ j d found. (d, found_below j d found, (refl, refl, λ h. h)),
    )
      where
        first :
            (d : Chain) → Memᴰ d (c ∷ db.chains) → find (has_chain_id d.id) (c ∷ db.chains) ≡ some d
        first d (Memᴰ.head e) = rw e (ground arith)
        first d (Memᴰ.tail m) = found_below d.id d (kept.unique d m)

        below : (d : Chain) → Memᴰ d (c ∷ db.chains) → d.id < db.next_id + 1
        below d (Memᴰ.head e) = rw (e, new) (omega arith)
        below d (Memᴰ.tail m) = let h = kept.fresh d m in omega arith

        row : (d : Chain) → Memᴰ d (c ∷ db.chains) → RowOk xs d
        row d (Memᴰ.head e) = rw e ok_row
        row d (Memᴰ.tail m) = kept.rows d m
