-- ===== src/Reporting/Daily/Bucketed.antt =====
-- A day's line of the daily report is the line that a summary of that day has.
use vault_runner_api.Prelude.{
  ℕ, ◌+◌, Bool, false, ◌&&◌, Option, none, some, List, [], ◌∷◌, ◌++◌, ◌==◌, find, select, length,
  sum_where, ltb, if◌then◌else◌, ◌≡◌, ◌≤◌, ◌*◌, ◌-◌, refl, ap, ◌∙◌, arith, inl, inr, Bool-cases,
}
use vault_runner_api.Prelude.Eq.{
  get_or, upsert, Distinct, get_or-upsert, upsert-Distinct, get_or-missing,
}
use vault_runner_api.Prelude.Sorted.{sort, AtMostOnce, find-sort}
use vault_runner_api.World.{text_eq_iff, Bet, Text, text_eq}
use vault_runner_api.Money.{is_wagered_status, is_won_status}
use vault_runner_api.Reporting.Stats.{ReportQuery, in_scope, CurrencyStat, to_currency_stat}
use vault_runner_api.Reporting.Wallets.{wallets_in, add_players, length-add_players}
use vault_runner_api.Reporting.Summary.{is_empty, summary}
use vault_runner_api.Reporting.Summary.Totalled.{bets_of, line_of, find-summary}
use vault_runner_api.Reporting.Daily.{
  ms_per_day, day_of, DayKey, day_key_eq, day_key_eq_iff, eq_day_key, Bucket, no_bucket, add_bet,
  key_of, fill_buckets, DailyBucket, days_of, day_before, daily,
}

abbrev pub dated_line : ℕ → Option CurrencyStat → Option DailyBucket
dated_line d none = none
dated_line d (some s) = some (record { date = d; stat = s })

-- The query, narrowed to one date.
abbrev pub of_day : ℕ → ReportQuery → ReportQuery
of_day d q = record q { from = d * ms_per_day; to = d * ms_per_day + (ms_per_day - 1) }

in_scope-day :
    (operator_id : ℕ) (q : ReportQuery) (d : ℕ) (b : Bet)
    → q.from ≤ d * ms_per_day
    → d * ms_per_day + (ms_per_day - 1) ≤ q.to
    → (in_scope operator_id q b && day_of b == d) ≡ in_scope operator_id (of_day d q) b
in_scope-day operator_id q d b starts ends = ground arith

select-day :
    (operator_id : ℕ) (q : ReportQuery) (d : ℕ)
    → q.from ≤ d * ms_per_day
    → d * ms_per_day + (ms_per_day - 1) ≤ q.to
    → (bets : List Bet)
    → select (λ b. day_of b == d) (select (in_scope operator_id q) bets)
      ≡ select (in_scope operator_id (of_day d q)) bets
select-day operator_id q d starts ends [] = refl
select-day operator_id q d starts ends (b ∷ bs) =
    let same = in_scope-day operator_id q d b starts ends in
    let rest = select-day operator_id q d starts ends bs in
    elim (Bool-cases (in_scope operator_id q b)) [
      | inl inside ↦ rw inside (rw (← same, inside) (ground (arith, rest)))
      | inr outside ↦ rw outside (rw (← same, outside) rest)
    ]

module _ (d : ℕ) (c : Text) (named : is_empty c ≡ false) where
  abbrev key : DayKey
  key = record { date = d; currency = c }

  abbrev on_day : Bet → Bool
  on_day b = day_of b == d

  abbrev staking : List Bet → List ℕ
  staking rows = wallets_in c (select (λ b. is_wagered_status b.status) rows)

  abbrev plus_bets : List Bet → Bucket → Bucket
  plus_bets rows b = record {
    bet_count = b.bet_count + sum_where (bets_of c is_wagered_status) (λ r. 1) rows;
    wagered = b.wagered + sum_where (bets_of c is_wagered_status) (λ r. r.amount) rows;
    won = b.won + sum_where (bets_of c is_won_status) (λ r. r.payout) rows;
    players = add_players (staking rows) b.players;
  }

  -- One row, on the bucket of the key.
  get_or-row :
      (r : Bet) (acc : List (DayKey × Bucket))
      → get_or no_bucket key
          (if is_empty r.currency then acc else upsert (key_of r) (add_bet r) no_bucket acc)
        ≡ (if day_key_eq (key_of r) key
            then add_bet r (get_or no_bucket key acc)
            else get_or no_bucket key acc)
  get_or-row r acc = elim (Bool-cases (is_empty r.currency)) [
    | inl nameless ↦ rw nameless (ground (arith, text_eq_iff r.currency c))
    | inr other ↦ rw other (get_or-upsert no_bucket (key_of r) key (add_bet r) acc)
  ]

  plus_bets_step :
      (r : Bet) (rs : List Bet) (b : Bucket)
      → plus_bets (select on_day rs) (if day_key_eq (key_of r) key then add_bet r b else b)
        ≡ plus_bets (select on_day (r ∷ rs)) b
  plus_bets_step r rs b = elim (Bool-cases (day_of r == d)) [
    | inl today ↦ elim (Bool-cases (text_eq r.currency c)) [
      | inl same ↦ rw (today, same) (ground (arith))
      | inr other ↦ rw (today, other) (ground arith)
    ]
    | inr elsewhere ↦ rw elsewhere (ground arith)
  ]

  get_or-fill_buckets :
      (rs : List Bet) (acc : List (DayKey × Bucket))
      → get_or no_bucket key (fill_buckets rs acc)
        ≡ plus_bets (select on_day rs) (get_or no_bucket key acc)
  unfolding fill_buckets
  get_or-fill_buckets [] acc = ground arith
  get_or-fill_buckets (r ∷ rs) acc =
      get_or-fill_buckets rs
        (if is_empty r.currency then acc else upsert (key_of r) (add_bet r) no_bucket acc)
      ∙ (ap (plus_bets (select on_day rs)) (get_or-row r acc)
          ∙ plus_bets_step r rs (get_or no_bucket key acc))

  abbrev on_key : DailyBucket → Bool
  on_key b = b.date == d && text_eq b.stat.currency c

  abbrev stat_of : Bucket → Option CurrencyStat
  stat_of b =
      if ltb 0 b.bet_count
      then some (to_currency_stat c b.bet_count b.wagered b.won (length b.players))
      else none

  abbrev on_date : Option CurrencyStat → Option DailyBucket
  on_date = dated_line d

  find-days_of :
      (acc : List (DayKey × Bucket))
      → Distinct acc
      → find on_key (days_of acc) ≡ on_date (stat_of (get_or no_bucket key acc))
  unfolding to_currency_stat
  find-days_of [] h = refl
  find-days_of ((k, b) ∷ acc) h = elim (Bool-cases (day_key_eq k key)) [
    | inl same ↦
        ground
          (arith, day_key_eq_iff k key, find-days_of acc h.1, get_or-missing no_bucket k acc h.0)
    | inr other ↦ ground (arith, find-days_of acc h.1)
  ]

  AtMostOnce-days_of :
      (acc : List (DayKey × Bucket)) → Distinct acc → AtMostOnce on_key (days_of acc)
  unfolding to_currency_stat
  AtMostOnce-days_of [] h = tt
  AtMostOnce-days_of ((k, b) ∷ acc) h = elim (Bool-cases (ltb 0 b.bet_count)) [
    | inl counted ↦ rw counted (
      λ same.
          find-days_of acc h.1
          ∙ rw (← (day_key_eq_iff k key).0 same, get_or-missing no_bucket k acc h.0) refl,
      AtMostOnce-days_of acc h.1,
    )
    | inr nothing ↦ rw nothing (AtMostOnce-days_of acc h.1)
  ]

fill_buckets-Distinct :
    (rs : List Bet) (acc : List (DayKey × Bucket)) → Distinct acc → Distinct (fill_buckets rs acc)
unfolding fill_buckets
fill_buckets-Distinct [] acc h = h
fill_buckets-Distinct (r ∷ rs) acc h = elim (Bool-cases (is_empty r.currency)) [
  | inl nameless ↦ rw nameless (fill_buckets-Distinct rs acc h)
  | inr other ↦
      rw other (fill_buckets-Distinct rs _ (upsert-Distinct no_bucket (key_of r) (add_bet r) acc h))
]

append_nil : (xs : List ℕ) → xs ++ [] ≡ xs
append_nil [] = refl
append_nil (x ∷ xs) = ap (λ r. x ∷ r) (append_nil xs)

module _ (before : Text → Text → Bool) where
  day_line :
      (d : ℕ) (c : Text) (rows : List Bet) (named : is_empty c ≡ false)
      → find (on_key d c named) (sort (day_before before) (days_of (fill_buckets rows [])))
        ≡ on_date d c named (line_of c (select (λ b. day_of b == d) rows))
  day_line d c rows named =
      let once = fill_buckets-Distinct rows [] tt in
      let staked = staking d c named (select (on_day d c named) rows) in
      find-sort _ (on_key d c named) _ (AtMostOnce-days_of d c named _ once)
      ∙ (find-days_of d c named _ once
          ∙ rw
              (
                get_or-fill_buckets d c named rows [],
                length-add_players staked [] refl,
                append_nil staked,
              )
              (ground arith))

  -- Where the whole of a date lies in the range, the daily report's line for it and a currency
  -- is the line that the summary of that date has for the currency, and there is none exactly if
  -- that summary has none.
  pub daily-eq-summary :
      (operator_id : ℕ) (q : ReportQuery) (d : ℕ) (c : Text) (bets : List Bet)
      → is_empty c ≡ false
      → q.from ≤ d * ms_per_day
      → d * ms_per_day + (ms_per_day - 1) ≤ q.to
      → find (λ b. b.date == d && text_eq b.stat.currency c) (daily before operator_id q bets)
        ≡ dated_line d
            (find (λ s. text_eq s.currency c) (summary before operator_id (of_day d q) bets))
  unfolding daily
  daily-eq-summary operator_id q d c bets named starts ends =
      day_line d c (select (in_scope operator_id q) bets) named
      ∙ rw
          (
            find-summary before operator_id (of_day d q) c bets named,
            select-day operator_id q d starts ends bets,
          )
          refl
