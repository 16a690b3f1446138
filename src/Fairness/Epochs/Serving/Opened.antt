-- ===== src/Fairness/Epochs/Serving/Opened.antt =====
-- A new epoch, while other calls act.
use vault_runner_api.Prelude.{
  ℕ, ◌+◌, ◌≤◌, Bool, true, false, not, ◌&&◌, Option, none, some, List, [], ◌∷◌, ◌==◌, is_some, find,
  ◌≡◌, refl, sym, arith, inl, inr, ◌⊎◌, Bool-cases,
}
use vault_runner_api.Prog.Safe.{
  Safe, Safe-ret, Safe-throw, Safe-read, Safe-atom, Safe-if, Safe-option, Safe-bind,
}
use vault_runner_api.World.{Text}
use vault_runner_api.Fairness.Chain.{generate_seed_chain}
use vault_runner_api.Fairness.Oracle.{Rpc}
use vault_runner_api.Fairness.Salt.{
  SaltCommitment, is_eth_block, daily_salt_provider, eth_block_salt_provider,
}
use vault_runner_api.Fairness.Epochs.Serving.Booted.{IsBooted, booted_cases}
use vault_runner_api.Fairness.Epochs.{
  Chain, FairnessDb, FallbackReason, commit_failed, salt_not_ready, fall_back, choose_salt, Chosen,
  Sources, id_after, insert_seeds, new_chain, insert_chain, insert_epoch, create_epoch,
}
use vault_runner_api.Fairness.Epochs.Serving.Rows.{RowOk, overlap, inserted-Kept}
use vault_runner_api.Fairness.Epochs.Serving.Served.{
  AnyError, CanServe, CanServe-Later, Serves, quiet_safe,
}

-- What a node may commit to: a block, whose hash is still to come, or, where random salts are let
-- through, one that is known.
abbrev pub Fits : Sources → SaltCommitment → Type 0
Fits x c =
    ((is_eth_block c.source ≡ true) × (c.salt ≡ none))
    ⊎ ((x.strict ≡ false) × (is_some c.salt ≡ true) × (is_eth_block c.source ≡ false))

committed_block :
    (env_lead : Option ℕ) (least : ℕ) (rpcs : List Rpc) (c : SaltCommitment)
    → (eth_block_salt_provider env_lead least rpcs).commit ≡ some c
    → (is_eth_block c.source ≡ true) × (c.salt ≡ none)
unfolding eth_block_salt_provider
committed_block env_lead least rpcs c h = (ground arith, ground arith)

committed_random :
    (bytes : Text) (c : SaltCommitment)
    → (daily_salt_provider bytes).commit ≡ some c
    → (is_some c.salt ≡ true) × (is_eth_block c.source ≡ false)
committed_random bytes c h = (ground arith, ground arith)

booted-Fits :
    (x : Sources) (c : SaltCommitment) → IsBooted x → x.provider.commit ≡ some c → Fits x c
booted-Fits x c booted e = elim (booted_cases x booted) [
  | inl (env_lead, least, rpcs, same) ↦ inl (committed_block env_lead least rpcs c (rw same at e))
  | inr (lenient, bytes, same) ↦
      let (known, random) = committed_random bytes c (rw same at e) in inr (lenient, known, random)
]

module _ (xs : List Sources) (x : Sources) (booted : IsBooted x) where
  abbrev FitsChosen : Bool → FairnessDb → Option Chosen → Type 0
  FitsChosen activate s o =
      (chosen : Chosen)
      → o ≡ some chosen
      → Fits x chosen.commitment × (activate ≡ true → is_some chosen.commitment.salt ≡ true)

  fall_back_safe :
      (activate : Bool) (reason : FallbackReason) (s : FairnessDb)
      → Safe (overlap xs) AnyError (FitsChosen activate) (fall_back x reason) s
  fall_back_safe activate reason s =
      Safe-bind _ _ s (quiet_safe xs _ s (λ t. refl) (λ t. omega arith)) (λ _ t past _.
        Safe-ret _ t (elim (Bool-cases x.strict) [
          | inl strict ↦ rw strict (λ chosen e. ground arith)
          | inr lenient ↦
              rw lenient (λ chosen e. (inr (refl, ground arith, ground arith), λ h. ground arith))
        ]))

  choose_salt_safe :
      (activate : Bool) (s : FairnessDb)
      → Safe (overlap xs) AnyError (FitsChosen activate) (choose_salt x activate) s
  unfolding choose_salt
  choose_salt_safe activate s =
      Safe-option x.provider.commit _ _ s (λ failed. fall_back_safe activate commit_failed s)
        (λ c e.
          Safe-if (activate && not (is_some c.salt)) _ _ s
            (λ late. fall_back_safe activate salt_not_ready s)
            (λ fine. Safe-ret _ s (λ chosen h.
              let same : c ≡ chosen.commitment = ground arith in
              (rw (sym same) (booted-Fits x c booted e), λ on. rw (sym same) (ground arith)))))

  module _ (sha256_hex : Text → Text) (activate : Bool) where
    new_row :
        (epoch : ℕ) (c : SaltCommitment) (seeds : List Text) (db : FairnessDb)
        → Fits x c
        → RowOk xs (new_chain sha256_hex x activate epoch c seeds db)
    new_row epoch c seeds db (inl (block, later)) = record {
      waits = λ e. block;
      is_armed = λ e. ground arith;
      is_active = λ e. ground arith;
      by_block = λ b h e. ground arith;
    }
    new_row epoch c seeds db (inr (lenient, known, random)) = record {
      waits = λ e. ground arith;
      is_armed = λ e. known;
      is_active = λ e. known;
      by_block = λ b h e. ground arith;
    }

    may_serve : (c : SaltCommitment) → Fits x c → x.strict ≡ true → is_eth_block c.source ≡ true
    may_serve c (inl (block, later)) strict = block
    may_serve c (inr (lenient, known, random)) strict = ground arith

    insert_chain_safe :
        (epoch : ℕ) (c : SaltCommitment) (seeds : List Text) (s : FairnessDb)
        → Fits x c
        → (activate ≡ true → is_some c.salt ≡ true)
        → Safe
            (overlap xs)
            AnyError
            (λ t d. activate ≡ true → CanServe xs x t d.id)
            (insert_chain sha256_hex x activate epoch c seeds)
            s
    unfolding insert_chain
    insert_chain_safe epoch c seeds s fits now = Safe-atom _ s λ t past kept.
        let d = new_chain sha256_hex x activate epoch c seeds t in
        elim (Bool-cases (is_some (find (λ (e : Chain). e.epoch == epoch) t.chains))) [
          | inl taken ↦ rw taken (
            (kept, λ i e found. (e, found, (refl, refl, λ h. h))),
            λ e h. ground arith,
            λ e h. tt,
          )
          | inr free ↦ rw free (
            inserted-Kept xs t kept d refl (new_row epoch c seeds t fits),
            λ e h on.
                let same : d ≡ e = ground arith in
                rw (sym same) (d, ground arith, now on, may_serve c fits),
            λ e h. tt,
          )
        ]

    more_ids : (n : ℕ) (seeds : List Text) → n ≤ id_after sha256_hex n seeds
    more_ids n [] = omega arith
    more_ids n (s ∷ seeds) = let h = more_ids (n + 1) seeds in omega arith

    -- What is written about an epoch leaves it as it is.
    insert_epoch_safe :
        (epoch : ℕ) (chosen : Chosen) (seeds : List Text) (s : FairnessDb)
        → Fits x chosen.commitment
        → (activate ≡ true → is_some chosen.commitment.salt ≡ true)
        → Safe
            (overlap xs)
            AnyError
            (λ t o. activate ≡ true → Serves xs x t o)
            (insert_epoch sha256_hex x activate epoch chosen seeds)
            s
    unfolding insert_epoch insert_seeds
    insert_epoch_safe epoch chosen seeds s fits now =
        Safe-bind _ _ s (insert_chain_safe epoch chosen.commitment seeds s fits now) λ d t _ serves.
          Safe-bind _ _ t (quiet_safe xs _ t (λ v. refl) (λ v. more_ids v.next_id seeds))
            λ _ t1 p1 _.
              Safe-bind _ _ t1 (quiet_safe xs _ t1 (λ v. refl) (λ v. omega arith)) λ _ t2 p2 _.
                Safe-bind _ _ t2
                  (Safe-option chosen.fallback _ _ t2 (λ _. Safe-ret tt t2 tt)
                    (λ f _. quiet_safe xs _ t2 (λ v. refl) (λ v. omega arith)))
                  λ _ t3 p3 _.
                    Safe-bind _ _ t3
                      (Safe-if (is_some d.salt) _ _ t3
                        (λ _. quiet_safe xs _ t3 (λ v. refl) (λ v. omega arith))
                        (λ _. Safe-ret tt t3 tt))
                      λ _ t4 p4 _. Safe-ret (some d) t4 λ on. CanServe-Later xs x t3 t4 d.id p4 (
                        CanServe-Later xs x t2 t3 d.id p3 (
                          CanServe-Later xs x t1 t2 d.id p2
                            (CanServe-Later xs x t t1 d.id p1 (serves on))))

    -- An epoch that is opened to serve at once may serve.
    pub create_epoch_safe :
        (s : FairnessDb)
        → Safe
            (overlap xs)
            AnyError
            (λ t o. activate ≡ true → Serves xs x t o)
            (create_epoch sha256_hex x activate)
            s
    unfolding create_epoch
    create_epoch_safe s =
        Safe-bind {P = λ _ _. Unit} _ _ s (Safe-read _ s (λ t past kept. tt)) λ epoch t _ _.
          Safe-bind _ _ t (choose_salt_safe activate t) λ o t1 _ chosen.
            Safe-option o _ _ t1 (λ _. Safe-ret none t1 (λ on. tt))
              λ c e.
                Safe-option (generate_seed_chain sha256_hex x.chain_length x.last_seed) _ _ t1
                  (λ _. Safe-throw _ t1 tt)
                  (λ seeds _.
                    let (fits, now) = chosen c e in insert_epoch_safe epoch c seeds t1 fits now)
