-- ===== src/Prog/Run.antt =====
-- What a program run alone does, statement by statement.
use vault_runner_api.Prelude.{◌≡◌, refl}
use vault_runner_api.Prog.Defs.{
  Result, ok, err, Prog, ret, throw, act, ◌>>=◌, try_catch, caught, run,
}

module _ {S E : Type 0} where
  abbrev pub and_then : {A B : Type 0} → Result E A × S → (A → Prog S E B) → Result E B × S
  and_then (ok a, s) f = run (f a) s
  and_then (err e, s) f = (err e, s)

  abbrev pub or_else : {A : Type 0} → Result E A × S → (E → Prog S E A) → Result E A × S
  or_else (ok a, s) h = (ok a, s)
  or_else (err e, s) h = run (h e) s

  pub run-bind :
      {A B : Type 0} (m : Prog S E A) (f : A → Prog S E B) (s : S)
      → run (m >>= f) s ≡ and_then (run m s) f
  unfolding run ◌>>=◌
  run-bind (ret a) f s = refl
  run-bind (throw e) f s = refl
  run-bind (act u k) f s = run-bind (k s) f (u s)

  pub run-try_catch :
      {A : Type 0} (m : Prog S E A) (h : E → Prog S E A) (s : S)
      → run (try_catch m h) s ≡ or_else (run m s) h
  unfolding run try_catch
  run-try_catch (ret a) h s = refl
  run-try_catch (throw e) h s = refl
  run-try_catch (act u k) h s = run-try_catch (k s) h (u s)

  pub run-caught :
      {A : Type 0} (m : Prog S E A) (s : S) → run (caught m) s ≡ (ok (run m s).0, (run m s).1)
  unfolding run caught
  run-caught (ret a) s = refl
  run-caught (throw e) s = refl
  run-caught (act u k) s = run-caught (k s) (u s)
