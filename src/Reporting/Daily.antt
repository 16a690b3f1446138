-- ===== src/Reporting/Daily.antt =====
-- `ReportingService.daily`. A date (`toISOString().slice(0, 10)`) is the number of its day, UTC.
pub mod Bucketed
use vault_runner_api.Prelude.{
  ℕ, ◌+◌, ◌/◌, Bool, true, false, ◌&&◌, List, [], ◌∷◌, ◌==◌, select, length, ltb, if◌then◌else◌,
  ◌≡◌, ◌↔◌, ap, arith,
}
use vault_runner_api.Prelude.Eq.{Eq, upsert}
use vault_runner_api.Prelude.Sorted.{sort}
use vault_runner_api.World.{text_eq_iff, Bet, Text, text_eq}
use vault_runner_api.Money.{is_wagered_status, is_won_status}
use vault_runner_api.Reporting.Stats.{ReportQuery, in_scope, CurrencyStat, to_currency_stat}
use vault_runner_api.Reporting.Wallets.{add_player}
use vault_runner_api.Reporting.Summary.{is_empty}

abbrev pub ms_per_day : ℕ
ms_per_day = 86_400_000

abbrev pub day_of : Bet → ℕ
day_of b = b.created_at / ms_per_day

-- The key `{date} {currency}` of a bucket.
pub record DayKey : Type 0 where
  pub date : ℕ
  pub currency : Text

abbrev pub day_key_eq : DayKey → DayKey → Bool
day_key_eq k l = k.date == l.date && text_eq k.currency l.currency

pub day_key_eq_iff : (k l : DayKey) → (day_key_eq k l ≡ true) ↔ (k ≡ l)
day_key_eq_iff k l = ground (arith, text_eq_iff k.currency l.currency)

instance abbrev pub eq_day_key : Eq DayKey
eq_day_key = record { beq = day_key_eq; beq_iff = day_key_eq_iff }

pub record Bucket : Type 0 where
  pub bet_count : ℕ
  pub wagered : ℕ
  pub won : ℕ
  pub players : List ℕ

abbrev pub no_bucket : Bucket
no_bucket = record { bet_count = 0; wagered = 0; won = 0; players = [] }

-- The body of the loop over the rows, on the bucket of the row.
abbrev pub add_bet : Bet → Bucket → Bucket
add_bet r b = record {
  bet_count = if is_wagered_status r.status then b.bet_count + 1 else b.bet_count;
  wagered = if is_wagered_status r.status then b.wagered + r.amount else b.wagered;
  won = if is_won_status r.status then b.won + r.payout else b.won;
  players = if is_wagered_status r.status then add_player r.wallet_id b.players else b.players;
}

abbrev pub key_of : Bet → DayKey
key_of r = record { date = day_of r; currency = r.currency }

unfoldable pub fill_buckets : List Bet → List (DayKey × Bucket) → List (DayKey × Bucket)
fill_buckets [] acc = acc
fill_buckets (r ∷ rs) acc =
    fill_buckets rs
      (if is_empty r.currency then acc else upsert (key_of r) (add_bet r) no_bucket acc)

-- `DailyBucket`: a date with its line.
pub record DailyBucket : Type 0 where
  pub date : ℕ
  pub stat : CurrencyStat

abbrev pub days_of : List (DayKey × Bucket) → List DailyBucket
days_of [] = []
days_of ((k, b) ∷ acc) =
    let rest = days_of acc in
    if ltb 0 b.bet_count
    then record {
      date = k.date;
      stat = to_currency_stat k.currency b.bet_count b.wagered b.won (length b.players);
    }
      ∷ rest
    else rest

module _ (before : Text → Text → Bool) where
  -- By date, then by currency.
  abbrev pub day_before : DailyBucket → DailyBucket → Bool
  day_before a b =
      if ltb a.date b.date
      then true
      else if ltb b.date a.date
      then false
      else before a.stat.currency b.stat.currency

  -- `days` of the answer of `daily`
  unfoldable pub daily : ℕ → ReportQuery → List Bet → List DailyBucket
  daily operator_id q bets =
      sort day_before (days_of (fill_buckets (select (in_scope operator_id q) bets) []))
