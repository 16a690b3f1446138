-- ===== src/Bets/Settle/Busted.antt =====
-- What settling a round does to its bets.
use vault_runner_api.Prelude.{
  ℕ, zero, suc, true, false, ◌≡◌, refl, List, [], ◌∷◌, map, select, update_where, some, count_where,
  get_elem?, arith,
}
use vault_runner_api.Prog.{Result, ok, run, ◌>>=◌, read, atom}
use vault_runner_api.World.{World, Reason, Bet, Panel, active, busted}
use vault_runner_api.World.Tables.{find_bets, update_bets}
use vault_runner_api.Bets.Updates.{in_round, settled_as}
use vault_runner_api.Bets.Settle.{settle_round, bust_round}

module _ (round now : ℕ) where
  abbrev settle_all : List Bet → List Bet
  settle_all bs = update_where (in_round round active) (settled_as busted now) bs

  settled_none : (bs : List Bet) → count_where (in_round round active) (settle_all bs) ≡ 0
  settled_none [] = refl
  settled_none (b ∷ bs) = ground (arith, settled_none bs)

  -- Where no bet is active in the round, there is no update to make.
  unselected_same : (bs : List Bet) → select (in_round round active) bs ≡ [] → settle_all bs ≡ bs
  unselected_same [] h = refl
  unselected_same (b ∷ bs) h = ground (arith, unselected_same bs)

  active_lost :
      (bs : List Bet) (i : ℕ) (b : Bet)
      → get_elem? bs i ≡ some b
      → in_round round active b ≡ true
      → get_elem? (settle_all bs) i ≡ some (record b { status = busted; settled_at = some now })
  active_lost [] i b h e = ground arith
  active_lost (a ∷ bs) zero b h e = ground arith
  active_lost (a ∷ bs) (suc i) b h e = active_lost bs i b h e

  others_same :
      (bs : List Bet) (i : ℕ) (b : Bet)
      → get_elem? bs i ≡ some b
      → in_round round active b ≡ false
      → get_elem? (settle_all bs) i ≡ some b
  others_same [] i b h e = h
  others_same (a ∷ bs) zero b h e = ground arith
  others_same (a ∷ bs) (suc i) b h e = others_same bs i b h e

-- The answer, each bet that was active in the round, and the rest.
pub record IsSettled (round : ℕ) (w : World) (r : Result Reason (List (ℕ × Panel)) × World)
    : Type 0 where
  pub answered :
      r.0 ≡ ok (map (λ (b : Bet). (b.user_id, b.panel)) (select (in_round round active) w.bets))
  pub lost :
      (i : ℕ) (b : Bet)
      → get_elem? w.bets i ≡ some b
      → in_round round active b ≡ true
      → get_elem? r.1.bets i ≡ some (record b { status = busted; settled_at = some w.now })
  pub none_left : count_where (in_round round active) r.1.bets ≡ 0
  pub others :
      (i : ℕ) (b : Bet)
      → get_elem? w.bets i ≡ some b
      → in_round round active b ≡ false
      → get_elem? r.1.bets i ≡ some b
  pub balances : r.1.wallets ≡ w.wallets
  pub journal : r.1.ledger ≡ w.ledger

run_bust :
    (round : ℕ) (w : World) (bs : List Bet)
    → select (in_round round active) w.bets ≡ bs
    → run (bust_round round bs) w ≡ (
      ok (map (λ (b : Bet). (b.user_id, b.panel)) bs),
      record w { bets = settle_all round w.now w.bets },
    )
unfolding run bust_round update_bets atom ◌>>=◌
run_bust round w [] h = rw (unselected_same round w.now w.bets h) refl
run_bust round w (b ∷ bs) h = refl

run_settle :
    (round : ℕ) (w : World)
    → run (settle_round round) w ≡ run (bust_round round (select (in_round round active) w.bets)) w
unfolding run settle_round find_bets read atom ◌>>=◌
run_settle round w = refl

-- Settling a round, run alone, answers the slots of the bets that were active in it, and writes
-- each of them, and nothing else of its row, as 'busted' at that time: none of them stays
-- active, and no other bet, no balance and no journal row changes.
pub settle_round-IsSettled :
    (round : ℕ) (w : World) → IsSettled round w (run (settle_round round) w)
settle_round-IsSettled round w =
    rw (run_settle round w, run_bust round w _ refl)
      record {
        answered = refl;
        lost = active_lost round w.now w.bets;
        none_left = settled_none round w.now w.bets;
        others = others_same round w.now w.bets;
        balances = refl;
        journal = refl;
      }
