-- ===== src/Fairness/Epochs/Serving/Cold.antt =====
-- Strict mode from a start where no epoch is pending, armed or active.
use vault_runner_api.Prelude.{ℕ, Option, none, List, [], ◌∷◌, map, ◌≡◌, refl, ap}
use vault_runner_api.Prelude.Members.{All}
use vault_runner_api.Prog.{Result, ok, err, ret, throw, act, run}
use vault_runner_api.Prog.Schedule.{interleave}
use vault_runner_api.Prog.Safe.{SafeEnd, run-Safe}
use vault_runner_api.Prog.Among.{AllSafe, interleave-Safe}
use vault_runner_api.World.{Text}
use vault_runner_api.Fairness.Epochs.{FairnessDb, FairnessError, FairnessAction, Sources}
use vault_runner_api.Fairness.Epochs.Serving.{
  ServedSeed, ServiceCall, serve, allocate_seed, maintain,
}
use vault_runner_api.Fairness.Epochs.Serving.Idle.{
  IsIdle, AllRealMoney, IsRealMoneyCall, idle, Never, Refused, Done, allocate_seed-Refused,
  maintain-idle, serve-Refused,
}

abbrev Answer : Type 0
Answer = Option (Sources × ServedSeed)

-- A call that has ended, has ended with null; else it still runs.
abbrev pub NeverGranted : FairnessAction Answer → Type 0
NeverGranted (ret a) = a ≡ none
NeverGranted (throw e) = ⊥
NeverGranted (act u k) = Unit

module _ (sha256_hex : Text → Text) where
  -- The engine's attempts to open a round, each after `maintain`.
  abbrev pub attempts : List Sources → FairnessDb → List (Result FairnessError (Option ServedSeed))
  attempts [] db = []
  attempts (x ∷ xs) db =
      let tried = run (allocate_seed sha256_hex x) (run (maintain sha256_hex 0 x) db).1 in
      let rest = attempts xs tried.1 in tried.0 ∷ rest

  null_end :
      (r : Result FairnessError (Option ServedSeed) × FairnessDb)
      → SafeEnd idle Never Refused r
      → (r.0 ≡ ok none) × IsIdle r.1.chains
  null_end (ok o, s) h = (ap ok h.0, h.1)
  null_end (err e, s) h = elim h.0 [ ]

  upkeep_end :
      (r : Result FairnessError (Unit {0}) × FairnessDb)
      → SafeEnd idle Never Done r
      → IsIdle r.1.chains
  upkeep_end (ok o, s) h = h.1
  upkeep_end (err e, s) h = h.1

  attempts_lem :
      (xs : List Sources) (db : FairnessDb)
      → AllRealMoney xs
      → IsIdle db.chains
      → attempts xs db ≡ map (λ x. ok none) xs
  attempts_lem [] db strict rest = refl
  attempts_lem (x ∷ xs) db strict rest =
      let db' = (run (maintain sha256_hex 0 x) db).1 in
      let kept =
        upkeep_end _ (run-Safe idle Never Done _ db (maintain-idle sha256_hex 0 x db) rest) in
      let (refused, still) = null_end _ (
        run-Safe idle Never Refused _ db' (allocate_seed-Refused sha256_hex x db' strict.0) kept) in
      rw refused (ap (λ t. ok none ∷ t) (attempts_lem xs _ strict.1 still))

  calls_safe :
      (calls : List ServiceCall) (db : FairnessDb)
      → All IsRealMoneyCall calls
      → AllSafe idle Never Refused (λ a s t past h. h) (map (serve sha256_hex) calls) db
  calls_safe [] db strict = tt
  calls_safe (c ∷ calls) db strict =
      ((serve-Refused sha256_hex c db strict.0).all, calls_safe calls db strict.1)

  none_granted :
      (ps : List (FairnessAction Answer)) (s : FairnessDb)
      → AllSafe idle Never Refused (λ a s t past h. h) ps s
      → All NeverGranted ps
  none_granted [] s h = tt
  none_granted (ret a ∷ ps) s h = (h.0, none_granted ps s h.1)
  none_granted (throw e ∷ ps) s h = (h.0, none_granted ps s h.1)
  none_granted (act u k ∷ ps) s h = (tt, none_granted ps s h.1)

  -- On nodes in strict mode that the boot guard let start, if every epoch that there is is
  -- exhausted, or there is none: however calls of the service overlap, and whatever the RPCs
  -- answer, no call that has ended gave a seed or threw, and every epoch that there is is
  -- exhausted still, so that none is committed whose block could be waited for; and of attempts
  -- to open a round, each after `maintain`, every one answers null.
  pub cold_start_stalls :
      (calls : List ServiceCall) (sched : List ℕ) (xs : List Sources) (db : FairnessDb)
      → All IsRealMoneyCall calls
      → AllRealMoney xs
      → IsIdle db.chains
      → (All NeverGranted (interleave sched (map (serve sha256_hex) calls) db).0
          × IsIdle (interleave sched (map (serve sha256_hex) calls) db).1.chains)
        × (attempts xs db ≡ map (λ x. ok none) xs)
  cold_start_stalls calls sched xs db strict booted rest =
      let (safe, kept) =
        interleave-Safe idle Never Refused (λ a s t past h. h) sched (map (serve sha256_hex) calls)
          db (calls_safe calls db strict) rest in
      ((none_granted _ _ safe, kept), attempts_lem xs db booted rest)
