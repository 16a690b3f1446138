-- ===== src/Reporting/Stats.antt =====
-- What the reports of operator/reporting.service.ts share: the scope of a query, one line of
-- figures, and the texts of its amounts (common/money.ts, common/currency.ts).
use vault_runner_api.Prelude.{
  ℕ, suc, ◌+◌, ◌*◌, ◌/◌, ◌%◌, Bool, not, ◌&&◌, ◌||◌, Option, List, [], ◌∷◌, ◌++◌, ◌==◌, leb,
  if◌then◌else◌,
}
use vault_runner_api.Prelude.Int.{ℤ, pos, negsuc, ◌-ℤ◌}
use vault_runner_api.Prog.{on_option}
use vault_runner_api.World.{Bet, Text, text_eq, to_upper}
use vault_runner_api.Decimal.{to_decimal}

-- `ReportQuery`; instants are in ms.
pub record ReportQuery : Type 0 where
  pub from : ℕ
  pub to : ℕ
  pub currency : Option Text
  pub include_demo : Bool

-- `where`: the tenant's own bets, in the range, of the currency if one is asked, and no play money
-- unless it is asked.
abbrev pub in_scope : ℕ → ReportQuery → Bet → Bool
in_scope operator_id q b =
    on_option b.operator_id Bool.false (λ o. o == operator_id)
    && (leb q.from b.created_at && leb b.created_at q.to)
    && on_option q.currency Bool.true (λ c. text_eq b.currency c)
    && (q.include_demo || not b.demo)

-- `minorUnitsToString`
unfoldable pub minor_units_to_string : ℤ → Text
minor_units_to_string (pos n) = to_decimal n
minor_units_to_string (negsuc n) = 45 ∷ to_decimal (suc n)

-- `padStart(4, "0")` of a number below 10000
unfoldable pub four_digits : ℕ → Text
four_digits n = (48 + n / 1000 % 10) ∷ (48 + n / 100 % 10) ∷ (48 + n / 10 % 10) ∷ (48 + n % 10) ∷ []

-- `rtpRatioString`
unfoldable pub rtp_ratio_string : ℕ → ℕ → Text
rtp_ratio_string won wagered =
    let scaled = won * 10000 / wagered in
    if wagered == 0
    then 48 ∷ []
    else to_decimal (scaled / 10000) ++ (46 ∷ four_digits (scaled % 10000))

pub record CurrencyMeta : Type 0 where
  pub code : Text
  pub decimals : ℕ

abbrev meta : Text → ℕ → CurrencyMeta
meta code decimals = record { code = code; decimals = decimals }

-- `CURRENCIES`, the codes as character codes: DEMO, EUR, USD, GBP, CHF, CAD, AUD, BRL, INR, JPY,
-- USDT, USDC, BTC, ETH.
unfoldable pub currencies : List CurrencyMeta
currencies =
    meta (68 ∷ 69 ∷ 77 ∷ 79 ∷ []) 2
    ∷ meta (69 ∷ 85 ∷ 82 ∷ []) 2
    ∷ meta (85 ∷ 83 ∷ 68 ∷ []) 2
    ∷ meta (71 ∷ 66 ∷ 80 ∷ []) 2
    ∷ meta (67 ∷ 72 ∷ 70 ∷ []) 2
    ∷ meta (67 ∷ 65 ∷ 68 ∷ []) 2
    ∷ meta (65 ∷ 85 ∷ 68 ∷ []) 2
    ∷ meta (66 ∷ 82 ∷ 76 ∷ []) 2
    ∷ meta (73 ∷ 78 ∷ 82 ∷ []) 2
    ∷ meta (74 ∷ 80 ∷ 89 ∷ []) 0
    ∷ meta (85 ∷ 83 ∷ 68 ∷ 84 ∷ []) 6
    ∷ meta (85 ∷ 83 ∷ 68 ∷ 67 ∷ []) 6
    ∷ meta (66 ∷ 84 ∷ 67 ∷ []) 8
    ∷ meta (69 ∷ 84 ∷ 72 ∷ []) 18
    ∷ []

abbrev decimals_in : Text → List CurrencyMeta → ℕ
decimals_in upper [] = 2
decimals_in upper (m ∷ ms) = if text_eq m.code upper then m.decimals else decimals_in upper ms

-- `currencyMeta(code).decimals`: 2 for a code that the table does not have.
unfoldable pub decimals_of : Text → ℕ
decimals_of code = decimals_in (to_upper code) currencies

-- `CurrencyStat`
pub record CurrencyStat : Type 0 where
  pub currency : Text
  pub decimals : ℕ
  pub bet_count : ℕ
  pub wagered : Text
  pub won : Text
  pub ggr : Text
  pub unique_players : ℕ
  pub rtp : Text

-- `toCurrencyStat`
unfoldable pub to_currency_stat : Text → ℕ → ℕ → ℕ → ℕ → CurrencyStat
to_currency_stat currency bet_count wagered won unique_players = record {
  currency = currency;
  decimals = decimals_of currency;
  bet_count = bet_count;
  wagered = minor_units_to_string (pos wagered);
  won = minor_units_to_string (pos won);
  ggr = minor_units_to_string (pos wagered -ℤ pos won);
  unique_players = unique_players;
  rtp = rtp_ratio_string won wagered;
}

-- What one currency, or one currency on one day, has added up to.
pub record Totals : Type 0 where
  pub bet_count : ℕ
  pub wagered : ℕ
  pub won : ℕ

abbrev pub no_totals : Totals
no_totals = record { bet_count = 0; wagered = 0; won = 0 }
