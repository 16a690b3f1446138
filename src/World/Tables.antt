-- ===== src/World/Tables.antt =====
-- The Prisma calls on `game_bets`, `game_rounds` and `profiles`, each one action, and the metrics.
use vault_runner_api.Prelude.{
  ℕ, ◌+◌, Bool, Option, List, [], ◌∷◌, false, ◌==◌, if◌then◌else◌, find, select, update_where,
  count_where, delete_where, is_some, ltb,
}
use vault_runner_api.Prog.{Prog, ok, err, throw, ◌>>=◌, atom, read, write}
use vault_runner_api.World.Types.{Reason, record_not_found, database_error}
use vault_runner_api.World.State.{Bet, Round, Event, World}

abbrev pub Action : Type 0 → Type 0
Action A = Prog World Reason A

-- `bet.findUnique`, on a condition that at most one row meets
unfoldable pub find_bet : (Bet → Bool) → Action (Option Bet)
find_bet p = read (λ w. find p w.bets)

-- `bet.findMany`
unfoldable pub find_bets : (Bet → Bool) → Action (List Bet)
find_bets p = read (λ w. select p w.bets)

-- `bet.updateMany`: answers how many rows it changed. The change may name `new Date()`.
unfoldable pub update_bets : (Bet → Bool) → (ℕ → Bet → Bet) → Action ℕ
update_bets p f =
    atom (λ w. (ok (count_where p w.bets), record w { bets = update_where p (f w.now) w.bets }))

-- `bet.update`: throws where no row has the id.
unfoldable pub update_bet : ℕ → (ℕ → Bet → Bet) → Action (Unit {0})
update_bet id f = atom λ w.
    if is_some (find (λ b. b.id == id) w.bets)
    then (ok tt, record w { bets = update_where (λ b. b.id == id) (f w.now) w.bets })
    else (err record_not_found, w)

-- `bet.delete`: throws where no row has the id.
unfoldable pub delete_bet : ℕ → Action (Unit {0})
delete_bet id = atom λ w.
    if is_some (find (λ b. b.id == id) w.bets)
    then (ok tt, record w { bets = delete_where (λ b. b.id == id) w.bets })
    else (err record_not_found, w)

unfoldable pub find_rounds : (Round → Bool) → Action (List Round)
find_rounds p = read (λ w. select p w.rounds)

-- `round.updateMany`
unfoldable pub update_rounds : (Round → Bool) → (ℕ → Round → Round) → Action ℕ
update_rounds p f =
    atom
      (λ w. (ok (count_where p w.rounds), record w { rounds = update_where p (f w.now) w.rounds }))

-- `round.update`: throws where no row has the id.
unfoldable pub update_round : ℕ → (ℕ → Round → Round) → Action (Unit {0})
update_round id f = atom λ w.
    if is_some (find (λ r. r.id == id) w.rounds)
    then (ok tt, record w { rounds = update_where (λ r. r.id == id) (f w.now) w.rounds })
    else (err record_not_found, w)

-- `Date.now()`
unfoldable pub date_now : Action ℕ
date_now = read (λ w. w.now)

-- The `UPDATE profiles` of a payout: `total_loot` grows, `biggest_multiplier` is the greatest.
unfoldable pub credit_profile : ℕ → ℕ → ℕ → Action (Unit {0})
credit_profile user payout mult = write λ w. record w {
  profiles =
      update_where (λ p. p.user_id == user)
        (λ p. record p {
          total_loot = p.total_loot + payout;
          biggest_multiplier = if ltb p.biggest_multiplier mult then mult else p.biggest_multiplier;
        })
        w.profiles;
}

-- A metric or an audit event.
unfoldable pub report : Event → Action (Unit {0})
report e = write (λ w. record w { events = e ∷ w.events })

-- `randomUUID()`
unfoldable pub random_uuid : Action ℕ
random_uuid = atom (λ w. (ok w.next_id, record w { next_id = w.next_id + 1 }))

abbrev pub first_fault : List Bool → Bool
first_fault [] = false
first_fault (f ∷ fs) = f

abbrev pub later_faults : List Bool → List Bool
later_faults [] = []
later_faults (f ∷ fs) = fs

-- Whether the database fails at the next statement whose failure the code handles.
unfoldable pub next_fault : Action Bool
next_fault = atom (λ w. (ok (first_fault w.faults), record w { faults = later_faults w.faults }))

unfoldable pub may_fail : {A : Type 0} → Action A → Action A
may_fail m = next_fault >>= λ f. if f then throw database_error else m
