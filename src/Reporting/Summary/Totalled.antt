-- ===== src/Reporting/Summary/Totalled.antt =====
-- Each line of the summary carries the sums of its currency's bets.
use vault_runner_api.Prelude.{
  ℕ, ◌+◌, Bool, false, ◌&&◌, Option, none, some, List, [], ◌∷◌, find, select, length, sum_where,
  count_where, ltb, if◌then◌else◌, ◌≡◌, refl, ap, ◌∙◌, arith, inl, inr, Bool-cases,
}
use vault_runner_api.Prelude.Eq.{
  get_or, upsert, Distinct, get_or-upsert, upsert-Distinct, get_or-missing,
}
use vault_runner_api.Prelude.Sorted.{AtMostOnce, find-sort}
use vault_runner_api.World.{
  text_eq_iff, eq_text, Bet, BetStatus, Text, text_eq, text_eq→≡, status_eq_iff,
}
use vault_runner_api.Money.{is_wagered_status, is_won_status}
use vault_runner_api.Reporting.Stats.{
  ReportQuery, in_scope, CurrencyStat, to_currency_stat, Totals, no_totals,
}
use vault_runner_api.Reporting.Wallets.{has_wallet, distinct, wallets_in}
use vault_runner_api.Reporting.Summary.{
  Group, PlayerRow, group_bets, group_players, add_row, has_player, add_group, is_empty,
  fold_groups, count_players, stats_of, fold_currencies, summary,
}

module _ (p : Text → BetStatus → Bool) where
  abbrev of_group : Group → Bool
  of_group g = p g.currency g.status

  abbrev of_bet : Bet → Bool
  of_bet b = p b.currency b.status

  amount-add_row :
      (b : Bet) (gs : List Group)
      → sum_where of_group (λ g. g.amount) (add_row b gs)
        ≡ (if of_bet b then b.amount else 0) + sum_where of_group (λ g. g.amount) gs
  amount-add_row b [] = refl
  amount-add_row b (g ∷ gs) = ground (
    arith,
    text_eq_iff g.currency b.currency,
    status_eq_iff g.status b.status,
    amount-add_row b gs,
  )

  payout-add_row :
      (b : Bet) (gs : List Group)
      → sum_where of_group (λ g. g.payout) (add_row b gs)
        ≡ (if of_bet b then b.payout else 0) + sum_where of_group (λ g. g.payout) gs
  payout-add_row b [] = refl
  payout-add_row b (g ∷ gs) = ground (
    arith,
    text_eq_iff g.currency b.currency,
    status_eq_iff g.status b.status,
    payout-add_row b gs,
  )

  count-add_row :
      (b : Bet) (gs : List Group)
      → sum_where of_group (λ g. g.count) (add_row b gs)
        ≡ (if of_bet b then 1 else 0) + sum_where of_group (λ g. g.count) gs
  count-add_row b [] = refl
  count-add_row b (g ∷ gs) = ground (
    arith,
    text_eq_iff g.currency b.currency,
    status_eq_iff g.status b.status,
    count-add_row b gs,
  )

  -- A sum over the groups is the sum over the rows.
  grouped_sum :
      (f : Bet → ℕ) (h : Group → ℕ)
      → ((b : Bet) (gs : List Group)
          → sum_where of_group h (add_row b gs)
            ≡ (if of_bet b then f b else 0) + sum_where of_group h gs)
      → (bs : List Bet) → sum_where of_group h (group_bets bs) ≡ sum_where of_bet f bs
  unfolding group_bets
  grouped_sum f h step [] = refl
  grouped_sum f h step (b ∷ bs) =
      step b (group_bets bs) ∙ ap (λ n. (if of_bet b then f b else 0) + n) (grouped_sum f h step bs)

module _ (c : Text) (named : is_empty c ≡ false) where
  abbrev is_wagered : Text → BetStatus → Bool
  is_wagered ccy st = text_eq ccy c && is_wagered_status st

  abbrev is_won : Text → BetStatus → Bool
  is_won ccy st = text_eq ccy c && is_won_status st

  abbrev plus_groups : List Group → Totals → Totals
  plus_groups gs e = record {
    bet_count = e.bet_count + sum_where (of_group is_wagered) (λ g. g.count) gs;
    wagered = e.wagered + sum_where (of_group is_wagered) (λ g. g.amount) gs;
    won = e.won + sum_where (of_group is_won) (λ g. g.payout) gs;
  }

  -- One group, on the entry of `c`.
  get_or-group :
      (g : Group) (acc : List (Text × Totals))
      → get_or no_totals c
          (if is_empty g.currency then acc else upsert g.currency (add_group g) no_totals acc)
        ≡ (if text_eq g.currency c
            then add_group g (get_or no_totals c acc)
            else get_or no_totals c acc)
  get_or-group g acc = elim (Bool-cases (is_empty g.currency)) [
    | inl nameless ↦ rw nameless (ground (arith, text_eq_iff g.currency c))
    | inr other ↦ rw other (get_or-upsert no_totals g.currency c (add_group g) acc)
  ]

  plus_groups_step :
      (g : Group) (gs : List Group) (e : Totals)
      → plus_groups gs (if text_eq g.currency c then add_group g e else e) ≡ plus_groups (g ∷ gs) e
  plus_groups_step g gs e = elim (Bool-cases (text_eq g.currency c)) [
    | inl same ↦ rw same (ground arith)
    | inr other ↦ rw other (ground arith)
  ]

  get_or-fold_groups :
      (gs : List Group) (acc : List (Text × Totals))
      → get_or no_totals c (fold_groups gs acc) ≡ plus_groups gs (get_or no_totals c acc)
  unfolding fold_groups
  get_or-fold_groups [] acc = ground arith
  get_or-fold_groups (g ∷ gs) acc =
      get_or-fold_groups gs
        (if is_empty g.currency then acc else upsert g.currency (add_group g) no_totals acc)
      ∙ (ap (plus_groups gs) (get_or-group g acc) ∙ plus_groups_step g gs (get_or no_totals c acc))

fold_groups-Distinct :
    (gs : List Group) (acc : List (Text × Totals)) → Distinct acc → Distinct (fold_groups gs acc)
unfolding fold_groups
fold_groups-Distinct [] acc d = d
fold_groups-Distinct (g ∷ gs) acc d = elim (Bool-cases (is_empty g.currency)) [
  | inl nameless ↦ rw nameless (fold_groups-Distinct gs acc d)
  | inr other ↦
      rw other
        (fold_groups-Distinct gs _ (upsert-Distinct no_totals g.currency (add_group g) acc d))
]

module _ (c : Text) where
  has_player-wallets :
      (x : ℕ) (bs : List Bet)
      → has_player c x (group_players bs) ≡ has_wallet x (distinct (wallets_in c bs))
  unfolding group_players
  has_player-wallets x [] = refl
  has_player-wallets x (b ∷ bs) =
      ground (
        arith,
        text_eq_iff b.currency c,
        has_player-wallets x bs,
        has_player-wallets b.wallet_id bs,
      )

  count-group_players :
      (bs : List Bet)
      → count_where (λ (p : PlayerRow). text_eq p.currency c) (group_players bs)
        ≡ length (distinct (wallets_in c bs))
  unfolding group_players
  count-group_players [] = refl
  count-group_players (b ∷ bs) =
      ground
        (arith, text_eq_iff b.currency c, has_player-wallets b.wallet_id bs, count-group_players bs)

  get_or-count_players :
      (ps : List PlayerRow) (acc : List (Text × ℕ))
      → is_empty c ≡ false
      → get_or 0 c (count_players ps acc)
        ≡ get_or 0 c acc + count_where (λ (p : PlayerRow). text_eq p.currency c) ps
  unfolding count_players
  get_or-count_players [] acc named = omega arith
  get_or-count_players (p ∷ ps) acc named = elim (Bool-cases (is_empty p.currency)) [
    | inl nameless ↦
        rw nameless (ground (arith, text_eq_iff p.currency c, get_or-count_players ps acc named))
    | inr other ↦ rw other (
        ground (
          arith,
          text_eq_iff p.currency c,
          get_or-upsert {K = Text} 0 p.currency c (λ n. n + 1) acc,
          get_or-count_players ps (upsert p.currency (λ n. n + 1) 0 acc) named,
        ))
  ]

module _ (c : Text) (players : List (Text × ℕ)) where
  abbrev in_currency : CurrencyStat → Bool
  in_currency s = text_eq s.currency c

  abbrev stat_of : Totals → Option CurrencyStat
  stat_of e =
      if ltb 0 e.bet_count
      then some (to_currency_stat c e.bet_count e.wagered e.won (get_or 0 c players))
      else none

  -- A currency has one line, or none where nothing was staked.
  find-stats_of :
      (acc : List (Text × Totals))
      → Distinct acc
      → find in_currency (stats_of players acc) ≡ stat_of (get_or no_totals c acc)
  unfolding to_currency_stat
  find-stats_of [] d = refl
  find-stats_of ((j, e) ∷ acc) d = elim (Bool-cases (text_eq j c)) [
    | inl same ↦
        ground (arith, text_eq→≡ j c, find-stats_of acc d.1, get_or-missing no_totals j acc d.0)
    | inr other ↦ ground (arith, find-stats_of acc d.1)
  ]

  AtMostOnce-stats_of :
      (acc : List (Text × Totals)) → Distinct acc → AtMostOnce in_currency (stats_of players acc)
  unfolding to_currency_stat
  AtMostOnce-stats_of [] d = tt
  AtMostOnce-stats_of ((j, e) ∷ acc) d = elim (Bool-cases (ltb 0 e.bet_count)) [
    | inl counted ↦ rw counted (
      λ same.
          find-stats_of acc d.1
          ∙ rw (← text_eq→≡ j c same, get_or-missing no_totals j acc d.0) refl,
      AtMostOnce-stats_of acc d.1,
    )
    | inr nothing ↦ rw nothing (AtMostOnce-stats_of acc d.1)
  ]

abbrev pub bets_of : Text → (BetStatus → Bool) → Bet → Bool
bets_of c st b = text_eq b.currency c && st b.status

-- The line of one currency, from its bets alone.
abbrev pub line_of : Text → List Bet → Option CurrencyStat
line_of c rows =
    let count = sum_where (bets_of c is_wagered_status) (λ b. 1) rows in
    if ltb 0 count
    then some (
        to_currency_stat c count (sum_where (bets_of c is_wagered_status) (λ b. b.amount) rows)
          (sum_where (bets_of c is_won_status) (λ b. b.payout) rows)
          (length (distinct (wallets_in c (select (λ b. is_wagered_status b.status) rows)))))
    else none

module _ (before : Text → Text → Bool) where
  find-fold_currencies :
      (c : Text) (rows : List Bet)
      → is_empty c ≡ false
      → find (in_currency c []) (
          fold_currencies before
            (group_bets rows)
            (group_players (select (λ b. is_wagered_status b.status) rows)))
        ≡ line_of c rows
  unfolding fold_currencies
  find-fold_currencies c rows named =
      let staked = select (λ (b : Bet). is_wagered_status b.status) rows in
      let players = count_players (group_players staked) [] in
      let once = fold_groups-Distinct (group_bets rows) [] tt in
      find-sort _ (in_currency c players) _ (AtMostOnce-stats_of c players _ once)
      ∙ (find-stats_of c players _ once
          ∙ rw
              (
                get_or-fold_groups c named (group_bets rows) [],
                get_or-count_players c (group_players staked) [] named,
                count-group_players c staked,
                grouped_sum (is_wagered c named) (λ b. 1) (λ g. g.count)
                    (count-add_row (is_wagered c named)) rows,
                grouped_sum (is_wagered c named) (λ b. b.amount) (λ g. g.amount)
                    (amount-add_row (is_wagered c named)) rows,
                grouped_sum (is_won c named) (λ b. b.payout) (λ g. g.payout)
                    (payout-add_row (is_won c named)) rows,
              )
              (ground arith))

  -- The summary has a line for a currency exactly if a bet in scope was staked in it, and then
  -- the line carries the number of those bets, the sum of their stakes, the sum of the payouts
  -- that were won in the currency, and the number of different wallets that staked.
  pub find-summary :
      (operator_id : ℕ) (q : ReportQuery) (c : Text) (bets : List Bet)
      → is_empty c ≡ false
      → find (λ s. text_eq s.currency c) (summary before operator_id q bets)
        ≡ line_of c (select (in_scope operator_id q) bets)
  unfolding summary
  find-summary operator_id q c bets = find-fold_currencies c (select (in_scope operator_id q) bets)
