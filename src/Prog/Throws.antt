-- ===== src/Prog/Throws.antt =====
-- What a program may throw, whatever states it meets on its way.
use vault_runner_api.Prelude.{
  Bool, true, false, if◌then◌else◌, ◌≡◌, ap, subst, Option, none, some, List, [], ◌∷◌,
}
use vault_runner_api.Prog.Defs.{
  Result, ok, err, Prog, ret, throw, act, ◌>>=◌, try_catch, caught, on_option, on_result, run, read,
  for_each,
}

abbrev pub ThrowsAll : {S E A : Type 0} → (E → Type 0) → Prog S E A → Type 0
ThrowsAll R (ret a) = Unit
ThrowsAll R (throw e) = R e
ThrowsAll {S} R (act u k) = (s : S) → ThrowsAll R (k s)

pub record Throws {S E A : Type 0} (R : E → Type 0) (m : Prog S E A) : Type 0 where
  pub all : ThrowsAll R m

abbrev error_or : {E A : Type 0} → Result E A → E → E
error_or (ok a) d = d
error_or (err e) d = e

module _ {S E A : Type 0} (R : E → Type 0) where
  caught-ThrowsAll : (m : Prog S E A) → ThrowsAll R (caught m)
  unfolding caught
  caught-ThrowsAll (ret a) = tt
  caught-ThrowsAll (throw e) = tt
  caught-ThrowsAll (act u k) = λ s. caught-ThrowsAll (k s)

module _ {S E : Type 0} {R : E → Type 0} where
  module _ {A : Type 0} where
    pub Throws-ret : (a : A) → Throws {S = S} R (ret a)
    Throws-ret a = record { all = tt }

    pub Throws-throw : (e : E) → R e → Throws {S = S} {A = A} R (throw e)
    Throws-throw e h = record { all = h }

    pub Throws-read : (f : S → A) → Throws R (read f)
    unfolding read
    Throws-read f = record { all = λ s. tt }

    pub Throws-if :
        (b : Bool) (m n : Prog S E A) → Throws R m → Throws R n → Throws R (if b then m else n)
    Throws-if true m n hm hn = hm
    Throws-if false m n hm hn = hn

    pub Throws-option :
        {C : Type 0} (o : Option C) (d : Prog S E A) (f : C → Prog S E A)
        → Throws R d
        → ((c : C) → Throws R (f c))
        → Throws R (on_option o d f)
    Throws-option none d f hd hf = hd
    Throws-option (some c) d f hd hf = hf c

    pub Throws-result :
        {C X : Type 0} (r : Result X C) (f : C → Prog S E A) (g : X → Prog S E A)
        → ((c : C) → Throws R (f c))
        → ((x : X) → Throws R (g x))
        → Throws R (on_result r f g)
    Throws-result (ok c) f g hf hg = hf c
    Throws-result (err x) f g hf hg = hg x

    pub Throws-caught : (m : Prog S E A) → Throws R (caught m)
    Throws-caught m = record { all = caught-ThrowsAll R m }

    -- Only the handler may throw.
    catch-ThrowsAll :
        (m : Prog S E A) (h : E → Prog S E A)
        → ((e : E) → Throws R (h e))
        → ThrowsAll R (try_catch m h)
    unfolding try_catch
    catch-ThrowsAll (ret a) h k = tt
    catch-ThrowsAll (throw e) h k = (k e).all
    catch-ThrowsAll (act u n) h k = λ s. catch-ThrowsAll (n s) h k

    pub Throws-try_catch :
        (m : Prog S E A) (h : E → Prog S E A)
        → ((e : E) → Throws R (h e))
        → Throws R (try_catch m h)
    Throws-try_catch m h k = record { all = catch-ThrowsAll m h k }

  module _ {A B : Type 0} where
    bind-ThrowsAll :
        (m : Prog S E A) (f : A → Prog S E B)
        → ThrowsAll R m
        → ((a : A) → Throws R (f a))
        → ThrowsAll R (m >>= f)
    unfolding ◌>>=◌
    bind-ThrowsAll (ret a) f hm hf = (hf a).all
    bind-ThrowsAll (throw e) f hm hf = hm
    bind-ThrowsAll (act u k) f hm hf = λ s. bind-ThrowsAll (k s) f (hm s) hf

    pub Throws-bind :
        (m : Prog S E A) (f : A → Prog S E B)
        → Throws R m
        → ((a : A) → Throws R (f a))
        → Throws R (m >>= f)
    Throws-bind m f hm hf = record { all = bind-ThrowsAll m f hm.all hf }

  module _ {A B : Type 0} where
    pub Throws-for_each :
        (xs : List A) (body : A → Prog S E B)
        → ((a : A) → Throws R (body a))
        → Throws R (for_each xs body)
    unfolding for_each
    Throws-for_each [] body h = Throws-ret []
    Throws-for_each (x ∷ xs) body h = Throws-bind (body x) _ (h x) (λ b.
        Throws-bind (for_each xs body) _ (Throws-for_each xs body h) (λ bs. Throws-ret (b ∷ bs)))

module _ {S E A : Type 0} (R : E → Type 0) where
  run-ThrowsAll : (m : Prog S E A) (s t : S) (e : E) → ThrowsAll R m → run m s ≡ (err e, t) → R e
  unfolding run
  run-ThrowsAll (ret b) s t e h q = cc
  run-ThrowsAll (throw x) s t e h q = subst R (ap (λ r. error_or r.0 e) q) h
  run-ThrowsAll (act u k) s t e h q = run-ThrowsAll (k s) (u s) t e (h s) q

  pub run-Throws : (m : Prog S E A) (s t : S) (e : E) → Throws R m → run m s ≡ (err e, t) → R e
  run-Throws m s t e h q = run-ThrowsAll m s t e h.all q

module _ {S E A : Type 0} {R Q : E → Type 0} where
  weaken-ThrowsAll : (h : (e : E) → R e → Q e) (m : Prog S E A) → ThrowsAll R m → ThrowsAll Q m
  weaken-ThrowsAll h (ret a) k = tt
  weaken-ThrowsAll h (throw e) k = h e k
  weaken-ThrowsAll h (act u n) k = λ s. weaken-ThrowsAll h (n s) (k s)

  pub Throws-weaken : (m : Prog S E A) → ((e : E) → R e → Q e) → Throws R m → Throws Q m
  Throws-weaken m h k = record { all = weaken-ThrowsAll h m k.all }

pub ruleset throws_rules = (
  Throws-ret, Throws-read, Throws-if, Throws-option, Throws-result, Throws-caught, Throws-try_catch,
  Throws-bind, Throws-for_each,
)
