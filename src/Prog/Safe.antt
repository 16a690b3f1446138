-- ===== src/Prog/Safe.antt =====
-- Programs among others. `I` holds in every state, and every action of any program leaves a state
-- that is related by `R` to the one before, so what a program has seen, it may count on as far as
-- `R` carries it on. `Q` is what an answer promises of the state then, and `T` which errors there
-- are.
use vault_runner_api.Prelude.{
  List, [], ◌∷◌, Option, none, some, Bool, true, false, if◌then◌else◌, ◌≡◌, refl,
}
use vault_runner_api.Prelude.Members.{All, All-weaken}
use vault_runner_api.Prog.Defs.{
  Result, ok, err, Prog, ret, throw, act, ◌>>=◌, try_catch, read, write, atom, lift, on_option, run,
  for_each,
}

abbrev pub SafeAll :
    {S E A : Type 0}
    → (S → S → Type 0)
    → (S → Type 0)
    → (E → Type 0)
    → (S → A → Type 0)
    → Prog S E A
    → S
    → Type 0
SafeAll R I T Q (ret a) s = Q s a
SafeAll R I T Q (throw e) s = T e
SafeAll {S} R I T Q (act u k) s =
    (t : S) → R s t → I t → I (u t) × R t (u t) × SafeAll R I T Q (k t) (u t)

-- The relation and the invariant.
pub record Rely (S : Type 0) : Type 1 where
  pub later : S → S → Type 0
  pub holds : S → Type 0
  pub same : (s : S) → later s s
  pub trans : (s t u : S) → later s t → later t u → later s u

pub record Safe {S E A : Type 0} (r : Rely S) (T : E → Type 0) (Q : S → A → Type 0) (m : Prog S E A)
    (s : S) : Type 0 where
  pub all : SafeAll r.later r.holds T Q m s

module _ {S E A : Type 0} (T : E → Type 0) (Q : S → A → Type 0) where
  lift-Safe :
      (r : Rely S) (x : Result E A) (s : S)
      → ((a : A) → x ≡ ok a → Q s a)
      → ((e : E) → x ≡ err e → T e)
      → SafeAll r.later r.holds T Q (lift x) s
  lift-Safe r (ok a) s h k = h a refl
  lift-Safe r (err e) s h k = k e refl

module _ {S E A : Type 0} (r : Rely S) (T : E → Type 0) (P Q : S → A → Type 0)
    (h : (a : A) (t : S) → P t a → Q t a) where
  weaken-SafeAll :
      (m : Prog S E A) (s : S) → SafeAll r.later r.holds T P m s → SafeAll r.later r.holds T Q m s
  weaken-SafeAll (ret a) s k = h a s k
  weaken-SafeAll (throw e) s k = k
  weaken-SafeAll (act u n) s k = λ t past inv.
      let (kept, on, rest) = k t past inv in (kept, on, weaken-SafeAll (n t) (u t) rest)

module _ {S E : Type 0} {r : Rely S} {T : E → Type 0} where
  module _ {A : Type 0} {Q : S → A → Type 0} where
    pub Safe-ret : (a : A) (s : S) → Q s a → Safe r T Q (ret a) s
    Safe-ret a s h = record { all = h }

    pub Safe-throw : (e : E) (s : S) → T e → Safe r T Q (throw e) s
    Safe-throw e s h = record { all = h }

    pub Safe-read :
        (f : S → A) (s : S)
        → ((t : S) → r.later s t → r.holds t → Q t (f t))
        → Safe r T Q (read f) s
    unfolding read
    Safe-read f s h = record { all = λ t past inv. (inv, r.same t, h t past inv) }

    pub Safe-atom :
        (m : S → Result E A × S) (s : S)
        → ((t : S)
            → r.later s t
            → r.holds t
            → (r.holds (m t).1 × r.later t (m t).1)
              × ((a : A) → (m t).0 ≡ ok a → Q (m t).1 a)
              × ((e : E) → (m t).0 ≡ err e → T e))
        → Safe r T Q (atom m) s
    unfolding atom
    Safe-atom m s h = record {
      all = λ t past inv.
          let (kept, answers, errors) = h t past inv in
          (kept.0, kept.1, lift-Safe T Q r (m t).0 (m t).1 answers errors);
    }

    pub Safe-if :
        (b : Bool) (m n : Prog S E A) (s : S)
        → (b ≡ true → Safe r T Q m s)
        → (b ≡ false → Safe r T Q n s)
        → Safe r T Q (if b then m else n) s
    Safe-if true m n s hm hn = hm refl
    Safe-if false m n s hm hn = hn refl

    pub Safe-option :
        {C : Type 0} (o : Option C) (d : Prog S E A) (f : C → Prog S E A) (s : S)
        → (o ≡ none → Safe r T Q d s)
        → ((c : C) → o ≡ some c → Safe r T Q (f c) s)
        → Safe r T Q (on_option o d f) s
    Safe-option none d f s hd hf = hd refl
    Safe-option (some c) d f s hd hf = hf c refl

  pub Safe-write :
      {Q : S → Unit {0} → Type 0} (u : S → S) (s : S)
      → ((t : S) → r.later s t → r.holds t → (r.holds (u t) × r.later t (u t)) × Q (u t) tt)
      → Safe r T Q (write u) s
  unfolding write
  Safe-write u s h = record {
    all = λ t past inv. let (kept, done) = h t past inv in (kept.0, kept.1, done);
  }

  module _ {A B : Type 0} {P : S → A → Type 0} {Q : S → B → Type 0} where
    bind-SafeAll :
        (m : Prog S E A) (f : A → Prog S E B) (s : S)
        → SafeAll r.later r.holds T P m s
        → ((a : A) (t : S) → r.later s t → P t a → Safe r T Q (f a) t)
        → SafeAll r.later r.holds T Q (m >>= f) s
    unfolding ◌>>=◌
    bind-SafeAll (ret a) f s h k = (k a s (r.same s) h).all
    bind-SafeAll (throw e) f s h k = h
    bind-SafeAll (act u n) f s h k = λ t past inv.
        let (kept, on, rest) = h t past inv in
        (
          kept,
          on,
          bind-SafeAll (n t) f (u t) rest
              (λ a v later. k a v (r.trans s (u t) v (r.trans s t (u t) past on) later)),
        )

    pub Safe-bind :
        (m : Prog S E A) (f : A → Prog S E B) (s : S)
        → Safe r T P m s
        → ((a : A) (t : S) → r.later s t → P t a → Safe r T Q (f a) t)
        → Safe r T Q (m >>= f) s
    Safe-bind m f s h k = record { all = bind-SafeAll m f s h.all k }

  pub Safe-weaken :
      {A : Type 0} (P Q : S → A → Type 0)
      → ((a : A) (t : S) → P t a → Q t a)
      → (m : Prog S E A) (s : S) → Safe r T P m s
      → Safe r T Q m s
  Safe-weaken P Q h m s k = record { all = weaken-SafeAll r T P Q h m s k.all }

  -- An error is caught in some later state.
  module _ {A : Type 0} {Q : S → A → Type 0} where
    try_catch-SafeAll :
        (X : E → Type 0) (m : Prog S E A) (h : E → Prog S E A) (s : S)
        → SafeAll r.later r.holds X Q m s
        → ((e : E) (t : S) → r.later s t → Safe r T Q (h e) t)
        → SafeAll r.later r.holds T Q (try_catch m h) s
    unfolding try_catch
    try_catch-SafeAll X (ret a) h s k c = k
    try_catch-SafeAll X (throw e) h s k c = (c e s (r.same s)).all
    try_catch-SafeAll X (act u n) h s k c = λ t past inv.
        let (kept, on, rest) = k t past inv in
        (
          kept,
          on,
          try_catch-SafeAll X (n t) h (u t) rest
              (λ e v later. c e v (r.trans s (u t) v (r.trans s t (u t) past on) later)),
        )

    pub Safe-try_catch :
        {X : E → Type 0} (m : Prog S E A) (h : E → Prog S E A) (s : S)
        → Safe r X Q m s
        → ((e : E) (t : S) → r.later s t → Safe r T Q (h e) t)
        → Safe r T Q (try_catch m h) s
    Safe-try_catch m h s k c = record { all = try_catch-SafeAll _ m h s k.all c }

  module _ {A B : Type 0} (K : A → S → Type 0)
      (on : (x : A) (t v : S) → r.later t v → K x t → K x v) where
    pub Safe-for_each :
        (xs : List A) (body : A → Prog S E B) (s : S)
        → ((x : A) (t : S) → K x t → Safe r T (λ _ b. Unit) (body x) t)
        → All (λ x. K x s) xs
        → Safe r T (λ _ bs. Unit) (for_each xs body) s
    unfolding for_each
    Safe-for_each [] body s h k = Safe-ret [] s tt
    Safe-for_each (x ∷ xs) body s h k = Safe-bind (body x) _ s (h x s k.0) (λ b t past _.
        Safe-bind (for_each xs body) _ t
          (Safe-for_each xs body t h
            (All-weaken (λ y. K y s) (λ y. K y t) (λ y. on y s t past) xs k.1))
          (λ bs v later _. Safe-ret (b ∷ bs) v tt))

-- A program that runs alone.
module _ {S E A : Type 0} (r : Rely S) (T : E → Type 0) (Q : S → A → Type 0) where
  abbrev pub SafeEnd : Result E A × S → Type 0
  SafeEnd (ok a, t) = Q t a × r.holds t
  SafeEnd (err e, t) = T e × r.holds t

  run-SafeAll :
      (m : Prog S E A) (s : S) → SafeAll r.later r.holds T Q m s → r.holds s → SafeEnd (run m s)
  unfolding run
  run-SafeAll (ret a) s h inv = (h, inv)
  run-SafeAll (throw e) s h inv = (h, inv)
  run-SafeAll (act u k) s h inv =
      let (kept, _, rest) = h s (r.same s) inv in run-SafeAll (k s) (u s) rest kept

  pub run-Safe : (m : Prog S E A) (s : S) → Safe r T Q m s → r.holds s → SafeEnd (run m s)
  run-Safe m s h inv = run-SafeAll m s h.all inv
