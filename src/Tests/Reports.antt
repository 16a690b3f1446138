-- ===== src/Tests/Reports.antt =====
-- Reports on a few bets of two operators.
use vault_runner_api.Prelude.{
  ℕ, ◌≡◌, refl, Bool, ◌==◌, none, some, Option, List, [], ◌∷◌, ◌≤◌, ◌-◌, ◌*◌, find, select, arith,
  ◌&&◌,
}
use vault_runner_api.Prelude.Int.{ℤ, pos}
use vault_runner_api.Prelude.Texts.{codes, trim}
use vault_runner_api.Prog.{ok}
use vault_runner_api.World.{Bet, Text, text_eq, cashed_out, busted, panel_b}
use vault_runner_api.Money.{is_wagered_status, is_won_status}
use vault_runner_api.Decimal.{to_decimal, digits}
use vault_runner_api.Reporting.Stats.{
  ReportQuery, to_currency_stat, rtp_ratio_string, four_digits, CurrencyStat, in_scope,
}
use vault_runner_api.Reporting.Summary.{summary}
use vault_runner_api.Reporting.Summary.Totalled.{line_of, find-summary}
use vault_runner_api.Reporting.Daily.{daily}
use vault_runner_api.Reporting.Daily.Bucketed.{dated_line, of_day, daily-eq-summary}
use vault_runner_api.Reporting.Query.{
  RawQuery, parse_bets_query, parse_daily_query, base, parse_instant, parse_currency, parse_bool,
  parse_limit, is_date_only, is_currency_code, is_uuid, parse_transaction_query, by_bet_id,
  by_debit, by_payout, by_refund, BetsQuery, max_limit, max_daily_range_days,
}
use vault_runner_api.Reporting.Query.Bounds.{accepted_queries}
use vault_runner_api.Reporting.Query.Keys.{
  asks, credit_text, debit_text, parse_transaction_query-text,
}
use vault_runner_api.Reporting.Transaction.{transaction_status}
use vault_runner_api.Reporting.Transaction.Tenant.{own, reports_own}
use vault_runner_api.Tests.Worlds.{bet_in, euro}

-- A win of 60 and a loss on the first day, a loss on the second, and another operator's bet.
abbrev bets : List Bet
bets =
    record (bet_in 1 cashed_out) { payout = 60 }
    ∷ bet_in 2 busted
    ∷ record (bet_in 3 busted) { created_at = 86_400_500; wallet_id = 2 }
    ∷ record (bet_in 4 busted) { operator_id = some 6 }
    ∷ []

abbrev two_days : ReportQuery
two_days = record { from = 0; to = 200_000_000; currency = none; include_demo = Bool.false }

-- All texts at the same place
abbrev before : Text → Text → Bool
before s t = Bool.true

find-summary_example :
    find (λ (s : CurrencyStat). text_eq s.currency euro) (summary before 5 two_days bets)
    ≡ line_of euro (select (in_scope 5 two_days) bets)
find-summary_example = find-summary before 5 two_days euro bets refl

-- Three bets of 120 in all, 60 won, two players, half given back.
line : line_of euro (select (in_scope 5 two_days) bets) ≡ some (to_currency_stat euro 3 120 60 2)
unfolding to_currency_stat is_wagered_status is_won_status
line = refl

rtp : rtp_ratio_string 60 120 ≡ codes "0.5000"
unfolding rtp_ratio_string to_decimal digits four_digits
rtp = refl

daily-eq-summary_example :
    find (λ b. b.date == 1 && text_eq b.stat.currency euro) (daily before 5 two_days bets)
    ≡ dated_line 1 (
        find
          (λ (s : CurrencyStat). text_eq s.currency euro)
          (summary before 5 (of_day 1 two_days) bets))
daily-eq-summary_example =
    daily-eq-summary before 5 two_days 1 euro bets refl (omega arith) (omega arith)

-- An instant is the length of its text here, and every number is 500.
abbrev instant : Text → Option ℕ
instant s = some 0

abbrev number : Text → Option ℤ
number s = some (pos 500)

abbrev raw : RawQuery
raw = record {
  from = some (codes "2026-06-01");
  to = some (codes " 2026-06-01");
  currency = some (codes "eur");
  include_demo = none;
  cursor = none;
  limit = some (codes "500");
  transaction_id = none;
  bet_id = none;
  action = none;
}

abbrev asked_range : ReportQuery
asked_range = record { from = 0; to = 0; currency = some euro; include_demo = Bool.false }

abbrev asked_bets : BetsQuery
asked_bets = record { range = asked_range; cursor = none; limit = 200 }

bets_query : parse_bets_query instant number raw ≡ ok asked_bets
unfolding parse_bets_query base parse_instant parse_currency parse_bool parse_limit trim
    is_date_only is_currency_code is_uuid
bets_query = refl

abbrev raw_day : RawQuery
raw_day = record raw { limit = none }

daily_query : parse_daily_query instant number raw_day ≡ ok asked_range
unfolding parse_daily_query base parse_instant parse_currency parse_bool parse_limit trim
    is_date_only is_currency_code
daily_query = refl

-- A query of 500 rows, and a daily one that names no limit.
accepted_queries_example :
    ((parse_bets_query instant number raw ≡ ok asked_bets)
      → (0 ≤ 0) × (1 ≤ 200) × (200 ≤ max_limit))
    × ((parse_daily_query instant number raw_day ≡ ok asked_range)
        → (0 ≤ 0) × (0 - 0 ≤ max_daily_range_days * 86_400_000))
accepted_queries_example = accepted_queries instant number raw raw_day asked_bets asked_range

abbrev bet_uuid : Text
bet_uuid = codes "00000000-0000-4000-8000-00000000000a"

abbrev round_uuid : Text
round_uuid = codes "00000000-0000-4000-8000-0000000000B7"

parse_transaction_query-text_example :
    (parse_transaction_query (asks (credit_text bet_uuid (codes "payout")))
      ≡ ok (by_payout bet_uuid (credit_text bet_uuid (codes "payout"))))
    × (parse_transaction_query (asks (credit_text bet_uuid (codes "refund")))
        ≡ ok (by_refund bet_uuid (credit_text bet_uuid (codes "refund"))))
    × (parse_transaction_query (asks (credit_text bet_uuid (codes "restart_refund")))
        ≡ ok (by_refund bet_uuid (credit_text bet_uuid (codes "restart_refund"))))
    × (parse_transaction_query (asks (debit_text round_uuid bet_uuid panel_b))
        ≡ ok (by_debit round_uuid bet_uuid panel_b (debit_text round_uuid bet_uuid panel_b)))
unfolding is_uuid
parse_transaction_query-text_example =
    parse_transaction_query-text bet_uuid round_uuid bet_uuid panel_b refl refl refl

-- Every text names bet 4, which is another operator's.
abbrev names : Text → ℕ → Bool
names s id = id == 4

abbrev player_of : ℕ → Option Text
player_of x = none

reports_own_example :
    (summary before 5 two_days (select (own 5) bets) ≡ summary before 5 two_days bets)
    × (daily before 5 two_days (select (own 5) bets) ≡ daily before 5 two_days bets)
    × (transaction_status names player_of 5 (by_bet_id bet_uuid) (select (own 5) bets)
        ≡ transaction_status names player_of 5 (by_bet_id bet_uuid) bets)
reports_own_example =
    reports_own 5 names player_of (by_bet_id bet_uuid) before two_days bets
      (λ e. cc, (λ e. cc, (λ e. cc, (λ e. refl, tt))))
