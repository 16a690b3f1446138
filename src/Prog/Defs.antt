-- ===== src/Prog/Defs.antt =====
-- Programs over a state `S` with errors `E`, how one runs alone, and the statements of a handler.
use vault_runner_api.Prelude.{List, [], ◌∷◌, Option, none, some, ◌≡◌, refl, ◌⊎◌, inl, inr}

pub data Result (E A : Type 0) : Type 0 where
  ok : A → Result E A
  err : E → Result E A

pub data Prog (S E A : Type 0) : Type 0 where
  ret : A → Prog S E A
  throw : E → Prog S E A
  act : (S → S) → (S → Prog S E A) → Prog S E A

infixl 5 ◌>>=◌ ◌>>◌
unfoldable pub ◌>>=◌ : {S E A B : Type 0} → Prog S E A → (A → Prog S E B) → Prog S E B
ret a >>= f = f a
throw e >>= f = throw e
act u k >>= f = act u (λ s. k s >>= f)

abbrev pub ◌>>◌ : {S E A B : Type 0} → Prog S E A → Prog S E B → Prog S E B
m >> k = m >>= λ _. k

-- `try { m } catch (e) { h }`: what `m` did before it threw stays done.
unfoldable pub try_catch : {S E A : Type 0} → Prog S E A → (E → Prog S E A) → Prog S E A
try_catch (ret a) h = ret a
try_catch (throw e) h = h e
try_catch (act u k) h = act u (λ s. try_catch (k s) h)

-- An answer computed earlier, or the error in its place.
abbrev pub lift : {S E A : Type 0} → Result E A → Prog S E A
lift (ok a) = ret a
lift (err e) = throw e

-- One atomic action that reads the state, changes it and answers.
unfoldable pub atom : {S E A : Type 0} → (S → Result E A × S) → Prog S E A
atom m = act (λ s. (m s).1) (λ s. lift (m s).0)

unfoldable pub read : {S E A : Type 0} → (S → A) → Prog S E A
read f = act (λ s. s) (λ s. ret (f s))

unfoldable pub write : {S E : Type 0} → (S → S) → Prog S E (Unit {0})
write u = act u (λ s. ret tt)

-- `prisma.$transaction`: one action, undone as a whole if its body throws.
abbrev pub commit_or_undo : {S E A : Type 0} → S → Result E A × S → Result E A × S
commit_or_undo s (ok a, t) = (ok a, t)
commit_or_undo s (err e, t) = (err e, s)

unfoldable pub transaction : {S E A : Type 0} → (S → Result E A × S) → Prog S E A
unfolding atom
transaction m = atom (λ s. commit_or_undo s (m s))

-- `if (x == null) …` on a row that a query may have found.
abbrev pub on_option : {A : Type 0} {B : Type 0} → Option A → B → (A → B) → B
on_option none d f = d
on_option (some a) d f = f a

-- What was caught, or what was answered.
abbrev pub on_result : {E A B : Type 0} → Result E A → (A → B) → (E → B) → B
on_result (ok a) f g = f a
on_result (err e) f g = g e

-- `try { x = await m } catch (e) { … }` around one call: its answer as a value.
unfoldable pub caught : {S E A : Type 0} → Prog S E A → Prog S E (Result E A)
caught (ret a) = ret (ok a)
caught (throw e) = ret (err e)
caught (act u k) = act u (λ s. caught (k s))

-- A program that runs alone, to its end. The recursion is on the program, so it always ends.
unfoldable pub run : {S E A : Type 0} → Prog S E A → S → Result E A × S
run (ret a) s = (ok a, s)
run (throw e) s = (err e, s)
run (act u k) s = run (k s) (u s)

-- `for (const x of xs) { body }`, collecting what the rounds answer.
unfoldable pub for_each : {S E A B : Type 0} → List A → (A → Prog S E B) → Prog S E (List B)
unfolding ◌>>=◌
for_each [] body = ret []
for_each (x ∷ xs) body = let rest = for_each xs body in do b ← body x; bs ← rest; ret (b ∷ bs)

-- A program of which only the effect on the state counts, as one of many requests.
unfoldable pub request : {S E A : Type 0} → Prog S E A → Prog S E (Unit {0})
unfolding ◌>>=◌
request m = m >> ret tt

pub Result-cases :
    {E A : Type 0} (r : Result E A) → ((a : A) × (r ≡ ok a)) ⊎ ((e : E) × (r ≡ err e))
Result-cases (ok a) = inl (a, refl)
Result-cases (err e) = inr (e, refl)
