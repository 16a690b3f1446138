-- ===== src/Reporting/Summary.antt =====
-- `ReportingService.summary` and `foldCurrencies`.
pub mod Totalled
use vault_runner_api.Prelude.{
  ℕ, ◌+◌, Bool, true, false, ◌&&◌, List, [], ◌∷◌, map, ◌==◌, select, leb, ltb, if◌then◌else◌, ◌≡◌,
  ◌↔◌, refl, arith,
}
use vault_runner_api.Prelude.Eq.{Eq, upsert, get_or}
use vault_runner_api.Prelude.Sorted.{sort}
use vault_runner_api.World.{Bet, BetStatus, Text, text_eq, eq_text, status_eq}
use vault_runner_api.Money.{is_wagered_status, is_won_status}
use vault_runner_api.Reporting.Stats.{
  ReportQuery, in_scope, CurrencyStat, to_currency_stat, Totals, no_totals,
}

-- One row of `groupBy({ by: ["currency", "status"], _sum, _count })`.
pub record Group : Type 0 where
  pub currency : Text
  pub status : BetStatus
  pub amount : ℕ
  pub payout : ℕ
  pub count : ℕ

abbrev group_of : Bet → Group
group_of b = record {
  currency = b.currency;
  status = b.status;
  amount = b.amount;
  payout = b.payout;
  count = 1;
}

abbrev add_row : Bet → List Group → List Group
add_row b [] = group_of b ∷ []
add_row b (g ∷ gs) =
    if text_eq g.currency b.currency && status_eq g.status b.status
    then record g {
      amount = g.amount + b.amount;
      payout = g.payout + b.payout;
      count = g.count + 1;
    }
      ∷ gs
    else g ∷ add_row b gs

unfoldable pub group_bets : List Bet → List Group
group_bets [] = []
group_bets (b ∷ bs) = add_row b (group_bets bs)

-- One row of `groupBy({ by: ["currency", "walletId"] })`.
pub record PlayerRow : Type 0 where
  pub currency : Text
  pub wallet_id : ℕ

abbrev has_player : Text → ℕ → List PlayerRow → Bool
has_player c x [] = false
has_player c x (p ∷ ps) =
    if text_eq p.currency c && p.wallet_id == x then true else has_player c x ps

unfoldable pub group_players : List Bet → List PlayerRow
group_players [] = []
group_players (b ∷ bs) =
    let rest = group_players bs in
    if has_player b.currency b.wallet_id rest
    then rest
    else record { currency = b.currency; wallet_id = b.wallet_id } ∷ rest

-- The body of the loop over the groups, on the entry of its currency.
abbrev add_group : Group → Totals → Totals
add_group g e = record {
  bet_count = if is_wagered_status g.status then e.bet_count + g.count else e.bet_count;
  wagered = if is_wagered_status g.status then e.wagered + g.amount else e.wagered;
  won = if is_won_status g.status then e.won + g.payout else e.won;
}

abbrev pub is_empty : Text → Bool
is_empty [] = true
is_empty (c ∷ s) = false

unfoldable pub fold_groups : List Group → List (Text × Totals) → List (Text × Totals)
fold_groups [] acc = acc
fold_groups (g ∷ gs) acc =
    fold_groups gs
      (if is_empty g.currency then acc else upsert g.currency (add_group g) no_totals acc)

unfoldable pub count_players : List PlayerRow → List (Text × ℕ) → List (Text × ℕ)
count_players [] acc = acc
count_players (p ∷ ps) acc =
    count_players ps (if is_empty p.currency then acc else upsert p.currency (λ n. n + 1) 0 acc)

abbrev stats_of : List (Text × ℕ) → List (Text × Totals) → List CurrencyStat
stats_of players [] = []
stats_of players ((c, e) ∷ acc) =
    let rest = stats_of players acc in
    if ltb 0 e.bet_count
    then to_currency_stat c e.bet_count e.wagered e.won (get_or 0 c players) ∷ rest
    else rest

-- `localeCompare` is a parameter: whether a text stands before another, or at the same place.
module _ (before : Text → Text → Bool) where
  abbrev pub sort_stats : List CurrencyStat → List CurrencyStat
  sort_stats = sort (λ x y. before x.currency y.currency)

  unfoldable pub fold_currencies : List Group → List PlayerRow → List CurrencyStat
  fold_currencies grouped player_rows =
      sort_stats (stats_of (count_players player_rows []) (fold_groups grouped []))

  -- `currencies` of the answer of `summary`
  unfoldable pub summary : ℕ → ReportQuery → List Bet → List CurrencyStat
  summary operator_id q bets =
      let rows = select (in_scope operator_id q) bets in
      fold_currencies (group_bets rows)
        (group_players (select (λ b. is_wagered_status b.status) rows))
