-- ===== src/World/Keeps.antt =====
-- Invariants of the tables: what a program may do to the rows of bets so that an invariant `P`
-- survives, and the rules for the calls of World/Tables.
use vault_runner_api.Prelude.{
  ℕ, ◌≡◌, Bool, true, List, ◌==◌, find, update_where, delete_where, is_some, Bool-cases, inl, inr,
}
use vault_runner_api.Prog.Keeps.{Keeps, keeps_rules, Keeps-atom, Keeps-write, Keeps-read}
use vault_runner_api.World.{Round, Bet, is_committed, Profile, Event, World}
use vault_runner_api.World.Tables.{
  find_bet, find_bets, update_bets, update_bet, delete_bet, find_rounds, update_rounds,
  update_round, date_now, credit_profile, report, random_uuid, next_fault, may_fail, Action,
}

-- A row after a change: it is the same bet for the same stake, and is not committed anew.
pub record Follows (b c : Bet) : Type 0 where
  pub same_id : c.id ≡ b.id
  pub same_round : c.round_id ≡ b.round_id
  pub same_amount : c.amount ≡ b.amount
  pub same_currency : c.currency ≡ b.currency
  pub not_anew : is_committed c.status ≡ true → is_committed b.status ≡ true

abbrev pub Releases : (Bet → Bool) → (ℕ → Bet → Bet) → Type 0
Releases p f = (b : Bet) (n : ℕ) → p b ≡ true → Follows b (f n b)

-- What an invariant of the state must withstand.
pub record Withstands (P : World → Type 0) : Type 0 where
  pub updates :
      (p : Bet → Bool) (f : ℕ → Bet → Bet) (w : World)
      → Releases p f
      → P w
      → P (record w { bets = update_where p (f w.now) w.bets })
  pub deletes : (p : Bet → Bool) (w : World) → P w → P (record w { bets = delete_where p w.bets })
  pub rounds : (rs : List Round) (w : World) → P w → P (record w { rounds = rs })
  pub profiles : (ps : List Profile) (w : World) → P w → P (record w { profiles = ps })
  pub events : (es : List Event) (w : World) → P w → P (record w { events = es })
  pub ids : (n : ℕ) (w : World) → P w → P (record w { next_id = n })
  pub faults : (fs : List Bool) (w : World) → P w → P (record w { faults = fs })

module _ (P : World → Type 0) (k : Withstands P) where
  pub find_bet-Keeps : (p : Bet → Bool) → Keeps P (find_bet p)
  unfolding find_bet
  find_bet-Keeps p = Keeps-read _

  pub find_bets-Keeps : (p : Bet → Bool) → Keeps P (find_bets p)
  unfolding find_bets
  find_bets-Keeps p = Keeps-read _

  pub date_now-Keeps : Keeps P date_now
  unfolding date_now
  date_now-Keeps = Keeps-read _

  pub update_bets-Keeps :
      (p : Bet → Bool) (f : ℕ → Bet → Bet) → Releases p f → Keeps P (update_bets p f)
  unfolding update_bets
  update_bets-Keeps p f r = Keeps-atom _ (λ w h. k.updates p f w r h)

  pub update_bet-Keeps :
      (id : ℕ) (f : ℕ → Bet → Bet) → Releases (λ b. b.id == id) f → Keeps P (update_bet id f)
  unfolding update_bet
  update_bet-Keeps id f r = Keeps-atom _ λ w h.
      elim (Bool-cases (is_some (find (λ b. b.id == id) w.bets))) [
        | inl there ↦ rw there (k.updates (λ b. b.id == id) f w r h)
        | inr missing ↦ rw missing h
      ]

  pub delete_bet-Keeps : (id : ℕ) → Keeps P (delete_bet id)
  unfolding delete_bet
  delete_bet-Keeps id = Keeps-atom _ λ w h.
      elim (Bool-cases (is_some (find (λ b. b.id == id) w.bets))) [
        | inl there ↦ rw there (k.deletes (λ b. b.id == id) w h)
        | inr missing ↦ rw missing h
      ]

  pub find_rounds-Keeps : (p : Round → Bool) → Keeps P (find_rounds p)
  unfolding find_rounds
  find_rounds-Keeps p = Keeps-read _

  pub update_rounds-Keeps : (p : Round → Bool) (f : ℕ → Round → Round) → Keeps P (update_rounds p f)
  unfolding update_rounds
  update_rounds-Keeps p f = Keeps-atom _ (λ w h. k.rounds _ w h)

  pub update_round-Keeps : (id : ℕ) (f : ℕ → Round → Round) → Keeps P (update_round id f)
  unfolding update_round
  update_round-Keeps id f = Keeps-atom _ λ w h.
      elim (Bool-cases (is_some (find (λ r. r.id == id) w.rounds))) [
        | inl there ↦ rw there (k.rounds _ w h)
        | inr missing ↦ rw missing h
      ]

  pub credit_profile-Keeps : (user payout mult : ℕ) → Keeps P (credit_profile user payout mult)
  unfolding credit_profile
  credit_profile-Keeps user payout mult = Keeps-write _ (λ w h. k.profiles _ w h)

  pub report-Keeps : (e : Event) → Keeps P (report e)
  unfolding report
  report-Keeps e = Keeps-write _ (λ w h. k.events _ w h)

  pub random_uuid-Keeps : Keeps P random_uuid
  unfolding random_uuid
  random_uuid-Keeps = Keeps-atom _ (λ w h. k.ids _ w h)

  pub next_fault-Keeps : Keeps P next_fault
  unfolding next_fault
  next_fault-Keeps = Keeps-atom _ (λ w h. k.faults _ w h)

  pub may_fail-Keeps : {A : Type 0} (m : Action A) → Keeps P m → Keeps P (may_fail m)
  unfolding may_fail
  may_fail-Keeps m h = search (keeps_rules, next_fault-Keeps)
