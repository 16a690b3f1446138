-- ===== src/Fairness/Epochs/Serving/Served.antt =====
-- What the actions on epochs keep, and which epochs they answer, while other calls act.
use vault_runner_api.Prelude.{
  ℕ, ◌≤◌, Bool, true, Option, none, some, List, is_some, find, ◌≡◌, refl, sym, subst, ◌∙◌, ap,
  arith, inl, inr, Option-cases, some_injective,
}
use mathlib.Core.List.{Memᴰ}
use vault_runner_api.Prelude.Members.{first_by, first_by-Mem, find-Mem}
use vault_runner_api.Prog.{Result, ok, err, read, write}
use vault_runner_api.Prog.Safe.{Safe, Safe-read, Safe-write, Safe-atom}
use vault_runner_api.World.{Text}
use vault_runner_api.Fairness.Oracle.{Rpc, finalized_block_hash}
use vault_runner_api.Fairness.Salt.{
  is_eth_block, ok_or_none, hash_of_target, eth_block_salt_provider,
}
use vault_runner_api.Fairness.Epochs.Serving.Booted.{IsBooted, booted_cases}
use vault_runner_api.Fairness.Epochs.{
  pending, active, exhausted, Chain, FairnessDb, FairnessError, has_chain_id, to_epoch_status,
  update_chain, retire_chain, promote, Sources,
}
use vault_runner_api.Fairness.Epochs.Serving.{try_resolve}
use vault_runner_api.Fairness.Epochs.Serving.Rows.{
  BlockHash, SaltedByBlock, RowOk, Kept, SameChain, Later, overlap, KeepsRow, unchanged,
  update_chain-Kept,
}

abbrev pub AnyError : FairnessError → Type 0
AnyError e = Unit

ok_hash :
    {E : Type 0} (r : Result E (Option Text)) (h : Text) → ok_or_none r ≡ some h → r ≡ ok (some h)
ok_hash (ok a) h e = ap ok e
ok_hash (err x) h e = ground arith

module _ (xs : List Sources) where
  -- A row that was read: as it was then, it was sound, and it is still there.
  abbrev pub Seen : Chain → FairnessDb → Type 0
  Seen c s = RowOk xs c × (d : Chain) × (find (has_chain_id c.id) s.chains ≡ some d) × SameChain c d

  pub Seen-Later : (c : Chain) (s t : FairnessDb) → Later s t → Seen c s → Seen c t
  Seen-Later c s t past (row, d, found, (source, target, salted)) =
      let (d', found', (source', target', salted')) = past c.id d found in
      (row, d', found', (source' ∙ source, target' ∙ target, λ has. salted' (salted has)))

  -- An epoch that may serve: its salt is there, and in strict mode it is a block's.
  abbrev pub CanServe : Sources → FairnessDb → ℕ → Type 0
  CanServe x s id =
      (d : Chain) × (find (has_chain_id id) s.chains ≡ some d)
      × (is_some d.salt ≡ true)
      × (x.strict ≡ true → is_eth_block d.salt_source ≡ true)

  pub CanServe-Later :
      (x : Sources) (s t : FairnessDb) (id : ℕ) → Later s t → CanServe x s id → CanServe x t id
  CanServe-Later x s t id past (d, found, salted, block) =
      let (d', found', (source', target', salted')) = past id d found in
      (d', found', salted' salted, λ strict. ap is_eth_block source' ∙ block strict)

  abbrev pub Serves : Sources → FairnessDb → Option Chain → Type 0
  Serves x s none = Unit
  Serves x s (some c) = CanServe x s c.id

  abbrev pub Found : (Chain → Bool) → FairnessDb → Option Chain → Type 0
  Found p s o = (c : Chain) → o ≡ some c → Seen c s × (p c ≡ true)

  pub query_safe :
      (p : Chain → Bool) (before : Chain → Chain → Bool) (s : FairnessDb)
      → Safe (overlap xs) AnyError (Found p) (read (λ db. first_by p before db.chains)) s
  query_safe p before s = Safe-read _ s λ t past kept c e.
      let (there, hit) = first_by-Mem p before c t.chains e in
      ((kept.rows c there, c, kept.unique c there, (refl, refl, λ h. h)), hit)

  pub quiet_safe :
      (u : FairnessDb → FairnessDb) (s : FairnessDb)
      → ((t : FairnessDb) → (u t).chains ≡ t.chains)
      → ((t : FairnessDb) → t.next_id ≤ (u t).next_id)
      → Safe (overlap xs) AnyError (λ _ _. Unit) (write u) s
  quiet_safe u s same more =
      Safe-write u s λ t past kept. (unchanged xs t kept (u t) (same t) (more t), tt)

  -- A status that asks nothing of the salt.
  pub retire_safe :
      (c : Chain) (s : FairnessDb) → Safe (overlap xs) AnyError (λ _ _. Unit) (retire_chain c) s
  unfolding retire_chain
  retire_safe c s = Safe-write _ s λ t past kept. (
    update_chain-Kept xs t kept c.id (to_epoch_status exhausted)
        (record { same_id = λ d. refl; same_row = λ d. (refl, refl, λ h. h) })
        (λ d there id row. record {
          waits = λ e. ground arith;
          is_armed = λ e. ground arith;
          is_active = λ e. ground arith;
          by_block = row.by_block;
        }),
    tt,
  )

  -- The one row with an id.
  pub same_row :
      (t : FairnessDb) (kept : Kept xs t) (i : ℕ) (c d : Chain)
      → Memᴰ c t.chains
      → c.id ≡ i
      → find (has_chain_id i) t.chains ≡ some d
      → d ≡ c
  same_row t kept i c d there id found =
      some_injective d c
        (sym found ∙ subst (λ j. find (has_chain_id j) t.chains ≡ some c) id (kept.unique c there))

  pub promote_safe :
      (x : Sources) (id : ℕ) (s : FairnessDb)
      → CanServe x s id
      → Safe (overlap xs) AnyError (Serves x) (promote id) s
  unfolding promote
  promote_safe x id s serves = Safe-atom _ s λ t past kept.
      let (d, found, salted, block) = CanServe-Later x s t id past serves in
      let (there, hit) = find-Mem (has_chain_id id) d t.chains found in
      let own : d.id ≡ id = ground arith in
      let (kept', later) =
        update_chain-Kept xs t kept id (to_epoch_status active)
          (record { same_id = λ d. refl; same_row = λ d. (refl, refl, λ h. h) })
          (λ c m e row.
            let same = same_row t kept id c d m e found in
            record {
              waits = λ e. ground arith;
              is_armed = λ e. ground arith;
              is_active = λ e. rw (sym same) salted;
              by_block = row.by_block;
            }) in
      rw found (
        (kept', later),
        λ o e.
            let shown : some (to_epoch_status active d) ≡ o = ground arith in
            rw (sym shown, own)
              (CanServe-Later x t (update_chain id (to_epoch_status active) t) id later
                (d, found, salted, block)),
        λ e h. tt,
      )

  target_hash :
      (x : Sources) (env_lead : Option ℕ) (least : ℕ) (rpcs : List Rpc) (target : Option ℕ)
      (h : Text)
      → Memᴰ x xs
      → x.provider ≡ eth_block_salt_provider env_lead least rpcs
      → hash_of_target least rpcs target ≡ some h
      → (t : ℕ) × (target ≡ some t) × BlockHash xs t h
  target_hash x env_lead least rpcs none h here same e = ground arith
  target_hash x env_lead least rpcs (some t) h here same e =
      let answered : ok_or_none (finalized_block_hash least rpcs t) ≡ some h = ground arith in
      (t, refl, (x, here, env_lead, least, rpcs, same, ok_hash _ h answered))

  -- A salt that a node resolves for an epoch of a block is the hash of that block.
  abbrev pub Resolves : Chain → Text → Type 0
  Resolves c h =
      is_eth_block c.salt_source ≡ true → (t : ℕ) × (c.target_block ≡ some t) × BlockHash xs t h

  eth_block-Resolves :
      (x : Sources) (env_lead : Option ℕ) (least : ℕ) (rpcs : List Rpc) (c : Chain) (h : Text)
      → Memᴰ x xs
      → x.provider ≡ eth_block_salt_provider env_lead least rpcs
      → SaltedByBlock xs c
      → try_resolve x c ≡ some h
      → Resolves c h
  unfolding eth_block_salt_provider
  eth_block-Resolves x env_lead least rpcs c h here same known e block =
      elim (Option-cases c.salt) [
        | inl open_salt ↦
            target_hash x env_lead least rpcs c.target_block h here same (rw (same, open_salt) at e)
        | inr (g, has) ↦ known block h (has ∙ rw (same, has) at e)
      ]

  pub try_resolve-Resolves :
      (x : Sources) (c : Chain) (h : Text)
      → Memᴰ x xs
      → IsBooted x
      → SaltedByBlock xs c
      → try_resolve x c ≡ some h
      → Resolves c h
  try_resolve-Resolves x c h here booted known e = elim (booted_cases x booted) [
    | inl (env_lead, least, rpcs, same) ↦
        eth_block-Resolves x env_lead least rpcs c h here same known e
    | inr (lenient, bytes, same) ↦ λ block. known block h (rw same at e)
  ]

  -- The row of an epoch that was seen, with a salt that was resolved for it.
  pub salted_row :
      (c d g : Chain) (h : Text)
      → Resolves c h
      → SameChain c d
      → RowOk xs d
      → g.salt_source ≡ d.salt_source
      → g.target_block ≡ d.target_block
      → g.salt ≡ some h
      → (g.status ≡ pending → d.status ≡ pending)
      → RowOk xs g
  salted_row c d g h resolves (source, target, _) row source' target' has waits = record {
    waits = λ e. ap is_eth_block source' ∙ row.waits (waits e);
    is_armed = λ e. rw has refl;
    is_active = λ e. rw has refl;
    by_block = λ block k e.
        let same : h ≡ k = some_injective h k (sym has ∙ e) in
        let (t, at_block, hash) = resolves (sym (ap is_eth_block (source' ∙ source)) ∙ block) in
        (t, target' ∙ target ∙ at_block, rw (sym same) hash);
  }

  -- An update of the epoch that was seen, which writes a salt that was resolved for it.
  pub salted-Kept :
      (t : FairnessDb) (kept : Kept xs t) (c : Chain) (h : Text) (f : Chain → Chain)
      → Seen c t
      → Resolves c h
      → KeepsRow f
      → ((d : Chain) → (f d).salt ≡ some h)
      → ((d : Chain) → (f d).status ≡ pending → d.status ≡ pending)
      → Kept xs (update_chain c.id f t) × Later t (update_chain c.id f t)
  salted-Kept t kept c h f (_, d, found, same_as) resolves keeps has waits =
      update_chain-Kept xs t kept c.id f keeps λ e m id row.
        let same = same_row t kept c.id e d m id found in
        let (source, target, _) = keeps.same_row e in
        salted_row c e (f e) h resolves (rw (sym same) same_as) row source target (has e) (waits e)
