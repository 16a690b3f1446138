-- ===== src/Prog/Schedule.antt =====
-- Interleavings: programs side by side on one state. A schedule names, step by step, the program
-- that acts next.
use vault_runner_api.Prelude.{ℕ, zero, suc, List, [], ◌∷◌}
use vault_runner_api.Prog.Defs.{Prog, ret, throw, act}
use vault_runner_api.Prog.Keeps.{Keeps, KeepsAll}

module _ {S E A : Type 0} where
  -- One action of a program; one that has ended does nothing more.
  unfoldable pub advance : Prog S E A → S → Prog S E A × S
  advance (ret a) s = (ret a, s)
  advance (throw e) s = (throw e, s)
  advance (act u k) s = (k s, u s)

  -- One action of the program at a place; a place where none stands does nothing.
  unfoldable pub step_at : ℕ → List (Prog S E A) → S → List (Prog S E A) × S
  unfolding advance
  step_at i [] s = ([], s)
  step_at zero (p ∷ ps) s = let (p', s') = advance p s in (p' ∷ ps, s')
  step_at (suc i) (p ∷ ps) s = let (ps', s') = step_at i ps s in (p ∷ ps', s')

  unfoldable pub interleave : List ℕ → List (Prog S E A) → S → List (Prog S E A) × S
  unfolding step_at
  interleave [] ps s = (ps, s)
  interleave (i ∷ sched) ps s = let (ps', s') = step_at i ps s in interleave sched ps' s'

  module _ (P : S → Type 0) where
    abbrev pub AllKeep : List (Prog S E A) → Type 0
    AllKeep [] = Unit
    AllKeep (p ∷ ps) = Keeps P p × AllKeep ps

    advance-Keeps :
        (p : Prog S E A) (s : S)
        → KeepsAll P p
        → P s
        → KeepsAll P (advance p s).0 × P (advance p s).1
    unfolding advance
    advance-Keeps (ret a) s k h = (k, h)
    advance-Keeps (throw e) s k h = (k, h)
    advance-Keeps (act u n) s k h = (k.1 s, k.0 s h)

    step_at-AllKeep :
        (i : ℕ) (ps : List (Prog S E A)) (s : S)
        → AllKeep ps
        → P s
        → AllKeep (step_at i ps s).0 × P (step_at i ps s).1
    unfolding step_at
    step_at-AllKeep i [] s k h = (k, h)
    step_at-AllKeep zero (p ∷ ps) s k h =
        let (kp, hp) = advance-Keeps p s k.0.all h in ((record { all = kp }, k.1), hp)
    step_at-AllKeep (suc i) (p ∷ ps) s k h =
        let (kps, hps) = step_at-AllKeep i ps s k.1 h in ((k.0, kps), hps)

    -- Programs that keep `P` action by action keep it under every schedule, at every moment.
    pub interleave-Keeps :
        (sched : List ℕ) (ps : List (Prog S E A)) (s : S)
        → AllKeep ps
        → P s
        → P (interleave sched ps s).1
    unfolding interleave
    interleave-Keeps [] ps s k h = h
    interleave-Keeps (i ∷ sched) ps s k h =
        let (k', h') = step_at-AllKeep i ps s k h in
        interleave-Keeps sched (step_at i ps s).0 (step_at i ps s).1 k' h'
