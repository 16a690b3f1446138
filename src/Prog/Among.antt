-- ===== src/Prog/Among.antt =====
-- Programs side by side under a schedule, each of which is safe among the others.
use vault_runner_api.Prelude.{ℕ, zero, suc, List, [], ◌∷◌, sym, subst}
use mathlib.Core.List.{Memᴰ}
use vault_runner_api.Prog.Defs.{Prog, ret, throw, act}
use vault_runner_api.Prog.Safe.{Rely, SafeAll}
use vault_runner_api.Prog.Schedule.{advance, step_at, interleave}

-- An answer promises `Q` for good.
module _ {S E A : Type 0} (r : Rely S) (T : E → Type 0) (Q : S → A → Type 0)
    (on : (a : A) (s t : S) → r.later s t → Q s a → Q t a) where
  abbrev pub AllSafe : List (Prog S E A) → S → Type 0
  AllSafe [] s = Unit
  AllSafe (p ∷ ps) s = SafeAll r.later r.holds T Q p s × AllSafe ps s

  later-SafeAll :
      (p : Prog S E A) (s t : S)
      → r.later s t
      → SafeAll r.later r.holds T Q p s
      → SafeAll r.later r.holds T Q p t
  later-SafeAll (ret a) s t past h = on a s t past h
  later-SafeAll (throw e) s t past h = h
  later-SafeAll (act u k) s t past h = λ v later inv. h v (r.trans s t v past later) inv

  later-AllSafe : (ps : List (Prog S E A)) (s t : S) → r.later s t → AllSafe ps s → AllSafe ps t
  later-AllSafe [] s t past h = tt
  later-AllSafe (p ∷ ps) s t past h = (later-SafeAll p s t past h.0, later-AllSafe ps s t past h.1)

  advance-Safe :
      (p : Prog S E A) (s : S)
      → SafeAll r.later r.holds T Q p s
      → r.holds s
      → SafeAll r.later r.holds T Q (advance p s).0 (advance p s).1
        × r.holds (advance p s).1
        × r.later s (advance p s).1
  unfolding advance
  advance-Safe (ret a) s h inv = (h, inv, r.same s)
  advance-Safe (throw e) s h inv = (h, inv, r.same s)
  advance-Safe (act u k) s h inv = let (kept, past, rest) = h s (r.same s) inv in (rest, kept, past)

  step_at-Safe :
      (i : ℕ) (ps : List (Prog S E A)) (s : S)
      → AllSafe ps s
      → r.holds s
      → AllSafe (step_at i ps s).0 (step_at i ps s).1
        × r.holds (step_at i ps s).1
        × r.later s (step_at i ps s).1
  unfolding step_at
  step_at-Safe i [] s h inv = (tt, inv, r.same s)
  step_at-Safe zero (p ∷ ps) s h inv =
      let (rest, kept, past) = advance-Safe p s h.0 inv in
      ((rest, later-AllSafe ps s (advance p s).1 past h.1), kept, past)
  step_at-Safe (suc i) (p ∷ ps) s h inv =
      let (rest, kept, past) = step_at-Safe i ps s h.1 inv in
      ((later-SafeAll p s (step_at i ps s).1 past h.0, rest), kept, past)

  -- Under every schedule, what is left of the programs is safe in the state that is reached.
  pub interleave-Safe :
      (sched : List ℕ) (ps : List (Prog S E A)) (s : S)
      → AllSafe ps s
      → r.holds s
      → AllSafe (interleave sched ps s).0 (interleave sched ps s).1
        × r.holds (interleave sched ps s).1
  unfolding interleave
  interleave-Safe [] ps s h inv = (h, inv)
  interleave-Safe (i ∷ sched) ps s h inv =
      let (rest, kept, _) = step_at-Safe i ps s h inv in
      interleave-Safe sched (step_at i ps s).0 (step_at i ps s).1 rest kept

  -- What has been answered is as promised.
  pub AllSafe-answer :
      (ps : List (Prog S E A)) (s : S) (a : A) → AllSafe ps s → Memᴰ (ret a) ps → Q s a
  AllSafe-answer [] s a h m = elim m [ ]
  AllSafe-answer (p ∷ ps) s a h (Memᴰ.head e) =
      subst (λ q. SafeAll r.later r.holds T Q q s) (sym e) h.0
  AllSafe-answer (p ∷ ps) s a h (Memᴰ.tail m) = AllSafe-answer ps s a h.1 m
