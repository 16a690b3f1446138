-- ===== src/Fairness/Epochs/Serving/Idle.antt =====
-- What calls of the service do in strict mode, while no epoch is pending, armed or active.
use vault_runner_api.Prelude.{
  ℕ, true, false, Option, none, some, List, [], ◌∷◌, ◌==◌, select, is_some, find, ◌≡◌, refl, sym,
  ap, inl, inr, arith, Option-cases, Bool-cases,
}
use vault_runner_api.Prelude.Sorted.{sort}
use vault_runner_api.Prog.{write, for_each}
use vault_runner_api.Prog.Safe.{
  Rely, Safe, Safe-ret, Safe-read, Safe-write, Safe-atom, Safe-if, Safe-bind, Safe-try_catch,
}
use vault_runner_api.World.{Text}
use vault_runner_api.Fairness.Oracle.{Rpc}
use vault_runner_api.Fairness.Salt.{SaltCommitment, eth_block_salt_provider}
use vault_runner_api.Fairness.Epochs.Serving.Booted.{IsBooted, HasBlocks, booted_cases}
use vault_runner_api.Fairness.Epochs.{
  EpochStatus, pending, armed, active, exhausted, epoch_eq, Chain, FairnessDb, FairnessError,
  first_asc, first_desc, in_status, find_active, choose_salt, Sources, create_epoch,
}
use vault_runner_api.Fairness.Epochs.Serving.{
  ServiceCall, allocates, maintains, clock, takes, reveals, take_seed, reveal_seed, serve,
  start_pass, end_pass, commit_next, activate_pending, activate_armed, ensure_active_chain,
  allocate_seed, maintain,
}

abbrev pub IsIdle : List Chain → Type 0
IsIdle [] = Unit
IsIdle (c ∷ cs) = (c.status ≡ exhausted) × IsIdle cs

-- The settings of a node in strict mode that the boot guard let start.
abbrev pub IsRealMoney : Sources → Type 0
IsRealMoney x = (x.strict ≡ true) × IsBooted x

abbrev pub AllRealMoney : List Sources → Type 0
AllRealMoney [] = Unit
AllRealMoney (x ∷ xs) = IsRealMoney x × AllRealMoney xs

real_money_blocks : (x : Sources) → IsRealMoney x → HasBlocks x.provider
real_money_blocks x (strict, booted) = elim (booted_cases x booted) [
  | inl blocks ↦ blocks
  | inr (lenient, bytes, same) ↦ ground arith
]

module _ (s : EpochStatus) (other : epoch_eq exhausted s ≡ false) where
  first_asc-Idle : (cs : List Chain) → IsIdle cs → first_asc (in_status s) cs ≡ none
  first_asc-Idle [] h = refl
  first_asc-Idle (c ∷ cs) h = rw (h.0, other) (first_asc-Idle cs h.1)

  first_desc-Idle : (cs : List Chain) → IsIdle cs → first_desc (in_status s) cs ≡ none
  first_desc-Idle [] h = refl
  first_desc-Idle (c ∷ cs) h = rw (h.0, other) (first_desc-Idle cs h.1)

  select-Idle : (cs : List Chain) → IsIdle cs → select (in_status s) cs ≡ []
  select-Idle [] h = refl
  select-Idle (c ∷ cs) h = rw (h.0, other) (select-Idle cs h.1)

unsalted :
    (env_lead : Option ℕ) (min_rpcs : ℕ) (rpcs : List Rpc) (c : SaltCommitment)
    → (eth_block_salt_provider env_lead min_rpcs rpcs).commit ≡ some c
    → c.salt ≡ none
unfolding eth_block_salt_provider
unsalted env_lead min_rpcs rpcs c h = ground arith

abbrev pub IsRealMoneyCall : ServiceCall → Type 0
IsRealMoneyCall (allocates x) = IsRealMoney x
IsRealMoneyCall (maintains node x) = IsRealMoney x
IsRealMoneyCall _ = Unit

-- Every epoch is exhausted, and nothing else is kept track of.
abbrev pub idle : Rely FairnessDb
idle = record {
  later = λ s t. Unit;
  holds = λ db. IsIdle db.chains;
  same = λ s. tt;
  trans = λ s t u h k. tt;
}

abbrev pub Never : FairnessError → Type 0
Never e = ⊥

-- The answer is null.
abbrev pub Refused : {A : Type 0} → FairnessDb → Option A → Type 0
Refused s o = o ≡ none

abbrev pub Done : {A : Type 0} → FairnessDb → A → Type 0
Done s a = Unit

module _ (sha256_hex : Text → Text) where
  quiet :
      (u : FairnessDb → FairnessDb) (s : FairnessDb)
      → ((t : FairnessDb) → (u t).chains ≡ t.chains)
      → Safe idle Never Done (write u) s
  quiet u s same = Safe-write u s (λ t past h. ((rw (same t) h, tt), tt))

  choose_salt-Refused :
      (x : Sources) (s : FairnessDb)
      → IsRealMoney x
      → Safe idle Never Refused (choose_salt x true) s
  unfolding choose_salt
  choose_salt-Refused x s (strict, booted) =
      let (lead, least, rpcs, same) = real_money_blocks x (strict, booted) in
      elim (Option-cases x.provider.commit) [
        | inl failed ↦
            rw (failed, strict)
              (Safe-bind _ _ s (quiet _ s (λ t. refl)) (λ _ t _ _. Safe-ret none t refl))
        | inr (c, e) ↦
            let none_yet = unsalted lead least rpcs c (rw (sym same) e) in
            rw (e, none_yet, strict)
              (Safe-bind _ _ s (quiet _ s (λ t. refl)) (λ _ t _ _. Safe-ret none t refl))
      ]

  create_epoch-Refused :
      (x : Sources) (s : FairnessDb)
      → IsRealMoney x
      → Safe idle Never Refused (create_epoch sha256_hex x true) s
  unfolding create_epoch
  create_epoch-Refused x s strict =
      Safe-bind {P = Done} _ _ s (Safe-read _ s (λ t past h. tt)) λ epoch t _ _.
        Safe-bind _ _ t (choose_salt-Refused x t strict)
          λ o v _ refused. rw refused (Safe-ret none v refl)

  ensure_active_chain-Refused :
      (x : Sources) (s : FairnessDb)
      → IsRealMoney x
      → Safe idle Never Refused (ensure_active_chain sha256_hex x) s
  unfolding ensure_active_chain activate_armed activate_pending find_active
  ensure_active_chain-Refused x s strict =
      Safe-bind {P = Refused} _ _ s
        (Safe-read _ s (λ t past h. first_desc-Idle active refl t.chains h))
        λ o t _ no_active. rw no_active (
          Safe-bind {P = Refused} _ _ t
            (Safe-read _ t (λ v past h. first_asc-Idle armed refl v.chains h))
            λ o' v _ no_armed. rw no_armed (
              Safe-bind {P = Refused} _ _ v
                (Safe-read _ v (λ w past h. first_asc-Idle pending refl w.chains h))
                λ o'' w _ no_pending. rw no_pending (create_epoch-Refused x w strict)))

  pub allocate_seed-Refused :
      (x : Sources) (s : FairnessDb)
      → IsRealMoney x
      → Safe idle Never Refused (allocate_seed sha256_hex x) s
  unfolding allocate_seed
  allocate_seed-Refused x s strict =
      Safe-bind _ _ s (ensure_active_chain-Refused x s strict)
        (λ o t _ refused. rw refused (Safe-ret none t refl))

  pub maintain-idle :
      (node : ℕ) (x : Sources) (s : FairnessDb)
      → Safe idle Never Done (maintain sha256_hex node x) s
  unfolding maintain start_pass end_pass commit_next find_active for_each
  maintain-idle node x s =
      Safe-bind {P = Done} _ _ s
        (Safe-atom _ s λ t past h.
          elim (Bool-cases (is_some (find (λ n. n == node) t.maintaining))) [
            | inl busy ↦ rw busy ((h, tt), λ a e. tt, λ e k. ground arith)
            | inr free ↦ rw free ((h, tt), λ a e. tt, λ e k. ground arith)
          ])
        λ mine t _ _.
          Safe-if mine _ _ t
            (λ _.
              Safe-bind {P = Done} _ _ t
                (Safe-try_catch {X = Never} _ _ t
                  (Safe-bind {P = λ v cs. cs ≡ []} _ _ t
                    (Safe-read _ t (λ v past h. ap (sort _) (select-Idle pending refl v.chains h)))
                    λ cs v _ nothing. rw nothing (
                      Safe-bind {P = Refused} _ _ v
                        (Safe-read _ v (λ w past h. first_desc-Idle active refl w.chains h))
                        λ o w _ no_active. rw no_active (Safe-ret tt w tt)))
                  (λ e v _. Safe-ret tt v tt))
                (λ _ v _ _. quiet _ v (λ w. refl)))
            (λ _. Safe-ret tt t tt)

  pub serve-Refused :
      (c : ServiceCall) (s : FairnessDb)
      → IsRealMoneyCall c
      → Safe idle Never Refused (serve sha256_hex c) s
  unfolding take_seed reveal_seed
  serve-Refused (allocates x) s strict =
      Safe-bind _ _ s (allocate_seed-Refused x s strict)
        (λ o t _ refused. rw refused (Safe-ret none t refl))
  serve-Refused (maintains node x) s strict =
      Safe-bind _ _ s (maintain-idle node x s) (λ _ t _ _. Safe-ret none t refl)
  serve-Refused (clock now) s strict =
      Safe-bind _ _ s (quiet _ s (λ t. refl)) (λ _ t _ _. Safe-ret none t refl)
  serve-Refused (takes id) s strict =
      Safe-bind _ _ s (quiet _ s (λ t. refl)) (λ _ t _ _. Safe-ret none t refl)
  serve-Refused (reveals id) s strict =
      Safe-bind _ _ s (quiet _ s (λ t. refl)) (λ _ t _ _. Safe-ret none t refl)
