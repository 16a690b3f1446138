-- ===== src/Prog/Keeps.antt =====
-- Invariants of programs: every single action keeps `P`, so `P` holds between any two actions,
-- whatever other programs that keep it do there. One rule for each way to build a program.
use vault_runner_api.Prelude.{List, [], ◌∷◌, Option, none, some, Bool, true, false, if◌then◌else◌}
use vault_runner_api.Prog.Defs.{
  Result, ok, err, Prog, ret, throw, act, ◌>>=◌, try_catch, lift, atom, read, write, transaction,
  commit_or_undo, on_option, on_result, caught, run, for_each, request,
}

abbrev pub KeepsAll : {S E A : Type 0} → (S → Type 0) → Prog S E A → Type 0
KeepsAll P (ret a) = Unit
KeepsAll P (throw e) = Unit
KeepsAll {S} P (act u k) = ((s : S) → P s → P (u s)) × ((s : S) → KeepsAll P (k s))

pub record Keeps {S E A : Type 0} (P : S → Type 0) (m : Prog S E A) : Type 0 where
  pub all : KeepsAll P m

module _ {S E A : Type 0} (P : S → Type 0) where
  lift-KeepsAll : (r : Result E A) → KeepsAll P (lift r)
  lift-KeepsAll (ok a) = tt
  lift-KeepsAll (err e) = tt

  undo_keeps : (s : S) (r : Result E A) (t : S) → P s → P t → P (commit_or_undo s (r, t)).1
  undo_keeps s (ok a) t hs ht = ht
  undo_keeps s (err e) t hs ht = hs

  run-KeepsAll : (m : Prog S E A) (s : S) → KeepsAll P m → P s → P (run m s).1
  unfolding run
  run-KeepsAll (ret a) s h p = p
  run-KeepsAll (throw e) s h p = p
  run-KeepsAll (act u k) s h p = run-KeepsAll (k s) (u s) (h.1 s) (h.0 s p)

  caught-KeepsAll : (m : Prog S E A) → KeepsAll P m → KeepsAll P (caught m)
  unfolding caught
  caught-KeepsAll (ret a) h = tt
  caught-KeepsAll (throw e) h = tt
  caught-KeepsAll (act u k) h = (h.0, λ s. caught-KeepsAll (k s) (h.1 s))

module _ {S E : Type 0} {P : S → Type 0} where
  module _ {A : Type 0} where
    pub Keeps-ret : (a : A) → Keeps {E = E} P (ret a)
    Keeps-ret a = record { all = tt }

    pub Keeps-throw : (e : E) → Keeps {A = A} P (throw e)
    Keeps-throw e = record { all = tt }

    pub Keeps-lift : (r : Result E A) → Keeps P (lift {S = S} r)
    Keeps-lift r = record { all = lift-KeepsAll P r }

    pub Keeps-atom : (m : S → Result E A × S) → ((s : S) → P s → P (m s).1) → Keeps P (atom m)
    unfolding atom
    Keeps-atom m h = record { all = (h, λ s. lift-KeepsAll P (m s).0) }

    pub Keeps-read : (f : S → A) → Keeps {E = E} P (read f)
    unfolding read
    Keeps-read f = record { all = (λ s h. h, λ s. tt) }

    pub Keeps-transaction :
        (m : S → Result E A × S) → ((s : S) → P s → P (m s).1) → Keeps P (transaction m)
    unfolding transaction
    Keeps-transaction m h = Keeps-atom _ (λ s hs. undo_keeps P s (m s).0 (m s).1 hs (h s hs))

    pub Keeps-if :
        (b : Bool) (m n : Prog S E A) → Keeps P m → Keeps P n → Keeps P (if b then m else n)
    Keeps-if true m n hm hn = hm
    Keeps-if false m n hm hn = hn

    pub Keeps-option :
        {C : Type 0} (o : Option C) (d : Prog S E A) (f : C → Prog S E A)
        → Keeps P d
        → ((c : C) → Keeps P (f c))
        → Keeps P (on_option o d f)
    Keeps-option none d f hd hf = hd
    Keeps-option (some c) d f hd hf = hf c

    pub Keeps-result :
        {C X : Type 0} (r : Result X C) (f : C → Prog S E A) (g : X → Prog S E A)
        → ((c : C) → Keeps P (f c))
        → ((x : X) → Keeps P (g x))
        → Keeps P (on_result r f g)
    Keeps-result (ok c) f g hf hg = hf c
    Keeps-result (err x) f g hf hg = hg x

    pub Keeps-caught : (m : Prog S E A) → Keeps P m → Keeps P (caught m)
    Keeps-caught m h = record { all = caught-KeepsAll P m h.all }

    try_catch-KeepsAll :
        (m : Prog S E A) (h : E → Prog S E A)
        → KeepsAll P m
        → ((e : E) → Keeps P (h e))
        → KeepsAll P (try_catch m h)
    unfolding try_catch
    try_catch-KeepsAll (ret a) h hm hh = tt
    try_catch-KeepsAll (throw e) h hm hh = (hh e).all
    try_catch-KeepsAll (act u k) h hm hh = (hm.0, λ s. try_catch-KeepsAll (k s) h (hm.1 s) hh)

    pub Keeps-try_catch :
        (m : Prog S E A) (h : E → Prog S E A)
        → Keeps P m
        → ((e : E) → Keeps P (h e))
        → Keeps P (try_catch m h)
    Keeps-try_catch m h hm hh = record { all = try_catch-KeepsAll m h hm.all hh }

    -- What every action keeps holds at the end of a run.
    pub run-Keeps : (m : Prog S E A) (s : S) → Keeps P m → P s → P (run m s).1
    run-Keeps m s h p = run-KeepsAll P m s h.all p

  pub Keeps-write : (u : S → S) → ((s : S) → P s → P (u s)) → Keeps {E = E} P (write u)
  unfolding write
  Keeps-write u h = record { all = (h, λ s. tt) }

  module _ {A B : Type 0} where
    bind-KeepsAll :
        (m : Prog S E A) (f : A → Prog S E B)
        → KeepsAll P m
        → ((a : A) → Keeps P (f a))
        → KeepsAll P (m >>= f)
    unfolding ◌>>=◌
    bind-KeepsAll (ret a) f hm hf = (hf a).all
    bind-KeepsAll (throw e) f hm hf = tt
    bind-KeepsAll (act u k) f hm hf = (hm.0, λ s. bind-KeepsAll (k s) f (hm.1 s) hf)

    pub Keeps-bind :
        (m : Prog S E A) (f : A → Prog S E B)
        → Keeps P m
        → ((a : A) → Keeps P (f a))
        → Keeps P (m >>= f)
    Keeps-bind m f hm hf = record { all = bind-KeepsAll m f hm.all hf }

  module _ {A B : Type 0} where
    pub Keeps-for_each :
        (xs : List A) (body : A → Prog S E B)
        → ((a : A) → Keeps P (body a))
        → Keeps P (for_each xs body)
    unfolding for_each
    Keeps-for_each [] body h = Keeps-ret []
    Keeps-for_each (x ∷ xs) body h =
        Keeps-bind (body x) _ (h x) (λ b.
          Keeps-bind (for_each xs body) _ (Keeps-for_each xs body h) (λ bs. Keeps-ret (b ∷ bs)))

  pub Keeps-request : {A : Type 0} (m : Prog S E A) → Keeps P m → Keeps P (request m)
  unfolding request
  Keeps-request m h = Keeps-bind m _ h (λ _. Keeps-ret tt)

pub ruleset keeps_rules = (
  Keeps-ret, Keeps-throw, Keeps-lift, Keeps-read, Keeps-if, Keeps-option, Keeps-result,
  Keeps-caught, Keeps-try_catch, Keeps-bind, Keeps-for_each,
)
