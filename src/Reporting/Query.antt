-- ===== src/Reporting/Query.antt =====
-- operator/reporting-query.ts: the query parameters of the reports. A parameter that is missing or
-- is not a string is `none`. `Date.parse` and `Number` of a text are parameters: the instant of a
-- text in ms, and the integer that it stands for, each `none` where there is none.
pub mod Bounds
pub mod Keys
use vault_runner_api.Prelude.{
  ℕ, suc, ◌+◌, ◌-◌, ◌*◌, Bool, true, false, not, ◌&&◌, ◌||◌, Option, none, some, List, [], ◌∷◌,
  ◌++◌, ◌==◌, length, leb, ltb, if◌then◌else◌,
}
use vault_runner_api.Prelude.Int.{ℤ, pos, negsuc}
use vault_runner_api.Prelude.Texts.{codes, is_nil, trim, split_on}
use vault_runner_api.Prog.{Result, ok, err, on_option}
use vault_runner_api.World.{Panel, panel_a, panel_b, Text, text_eq, to_upper}
use vault_runner_api.Reporting.Stats.{ReportQuery}

-- The raw query, by the keys that are read of it.
pub record RawQuery : Type 0 where
  pub from : Option Text
  pub to : Option Text
  pub currency : Option Text
  pub include_demo : Option Text
  pub cursor : Option Text
  pub limit : Option Text
  pub transaction_id : Option Text
  pub bet_id : Option Text
  pub action : Option Text

-- The messages of the `BadRequestException`s.
pub data BadRequest : Type 0 where
  missing_date invalid_date invalid_currency invalid_include_demo from_after_to : BadRequest
  range_too_large invalid_cursor invalid_limit exactly_one missing_id : BadRequest
  invalid_bet_id unrecognized invalid_action : BadRequest

infixl 5 ◌>>=◌
abbrev pub ◌>>=◌ :
    {A B : Type 0} → Result BadRequest A → (A → Result BadRequest B) → Result BadRequest B
ok a >>= f = f a
err e >>= f = err e

-- `asString(v)?.trim() || undefined`
abbrev pub trimmed : Option Text → Option Text
trimmed none = none
trimmed (some s) = if is_nil (trim s) then none else some (trim s)

abbrev all_chars : (ℕ → Bool) → Text → Bool
all_chars p [] = true
all_chars p (c ∷ s) = p c && all_chars p s

abbrev pub is_digit : ℕ → Bool
is_digit c = leb 48 c && leb c 57

abbrev pub is_hex : ℕ → Bool
is_hex c = is_digit c || (leb 97 c && leb c 102) || (leb 65 c && leb c 70)

-- A fixed pattern: `true` is a character of the class, `false` a dash.
abbrev pub fits : (ℕ → Bool) → List Bool → Text → Bool
fits p [] [] = true
fits p (k ∷ ks) (c ∷ s) = (if k then p c else c == 45) && fits p ks s
fits p _ _ = false

abbrev pub run_of : ℕ → List Bool → List Bool
run_of ℕ.zero ks = ks
run_of (suc n) ks = true ∷ run_of n ks

-- `/^\d{4}-\d{2}-\d{2}$/`
unfoldable pub is_date_only : Text → Bool
is_date_only s = fits is_digit (run_of 4 (false ∷ run_of 2 (false ∷ run_of 2 []))) s

abbrev pub uuid_shape : List Bool
uuid_shape =
    run_of 8 (false ∷ run_of 4 (false ∷ run_of 4 (false ∷ run_of 4 (false ∷ run_of 12 []))))

-- `UUID_RE`
unfoldable pub is_uuid : Text → Bool
is_uuid s = fits is_hex uuid_shape s

abbrev is_code_char : ℕ → Bool
is_code_char c = is_digit c || (leb 65 c && leb c 90)

-- `CURRENCY_CODE_RE`
unfoldable pub is_currency_code : Text → Bool
is_currency_code s = all_chars is_code_char s && (leb 1 (length s) && leb (length s) 16)

-- Which end of the range an instant is.
pub data Which : Type 0 where
  range_start range_end : Which

abbrev time_of : Which → Text
time_of range_start = codes "T00:00:00.000Z"
time_of range_end = codes "T23:59:59.999Z"

abbrev pub default_limit : ℕ
default_limit = 50

abbrev pub max_limit : ℕ
max_limit = 200

abbrev pub max_daily_range_days : ℕ
max_daily_range_days = 366

unfoldable pub parse_currency : Option Text → Result BadRequest (Option Text)
parse_currency none = ok none
parse_currency (some s) =
    let c = to_upper (trim s) in if is_currency_code c then ok (some c) else err invalid_currency

unfoldable pub parse_bool : Option Text → Bool → Result BadRequest Bool
parse_bool none def = ok def
parse_bool (some s) def =
    if text_eq s (codes "true")
    then ok true
    else if text_eq s (codes "false")
    then ok false
    else err invalid_include_demo

-- `BetsQuery`
pub record BetsQuery : Type 0 where
  pub range : ReportQuery
  pub cursor : Option Text
  pub limit : ℕ

-- `AuditQuery`
pub record AuditQuery : Type 0 where
  pub action : Option Text
  pub from : Option ℕ
  pub to : Option ℕ
  pub limit : ℕ

abbrev is_action_char : ℕ → Bool
is_action_char c = (leb 97 c && leb c 122) || is_digit c || c == 95 || c == 46

-- `ACTION_RE`
unfoldable pub is_action : Text → Bool
is_action s = all_chars is_action_char s && (leb 1 (length s) && leb (length s) 64)

-- `Math.min(n, MAX_LIMIT)` of an integer from 1 on
abbrev clamped : ℤ → Result BadRequest ℕ
clamped (pos ℕ.zero) = err invalid_limit
clamped (pos (suc n)) = ok (if ltb max_limit (suc n) then max_limit else suc n)
clamped (negsuc n) = err invalid_limit

module _ (date_parse : Text → Option ℕ) (integer_of : Text → Option ℤ) where
  -- `parseInstant` on a trimmed text
  abbrev instant_of : Which → Text → Result BadRequest ℕ
  instant_of which s =
      on_option (date_parse (if is_date_only s then s ++ time_of which else s)) (err invalid_date)
        ok

  unfoldable pub parse_instant : Option Text → Which → Result BadRequest ℕ
  parse_instant raw which = on_option (trimmed raw) (err missing_date) (instant_of which)

  unfoldable pub base : RawQuery → Result BadRequest ReportQuery
  base q = do
    from ← parse_instant q.from range_start
    to ← parse_instant q.to range_end
    if ltb to from then err from_after_to else do
      currency ← parse_currency q.currency
      include_demo ← parse_bool q.include_demo false
      ok (record { from = from; to = to; currency = currency; include_demo = include_demo })

  unfoldable pub parse_report_query : RawQuery → Result BadRequest ReportQuery
  parse_report_query q = base q

  unfoldable pub parse_daily_query : RawQuery → Result BadRequest ReportQuery
  parse_daily_query raw = do
    q ← base raw
    if ltb (max_daily_range_days * 86_400_000) (q.to - q.from) then err range_too_large else ok q

  -- The clamped limit, or the default.
  unfoldable pub parse_limit : Option Text → Result BadRequest ℕ
  parse_limit none = ok default_limit
  parse_limit (some s) = on_option (integer_of s) (err invalid_limit) clamped

  unfoldable pub parse_bets_query : RawQuery → Result BadRequest BetsQuery
  parse_bets_query q = do
    b ← base q
    if on_option (trimmed q.cursor) false (λ c. not (is_uuid c)) then err invalid_cursor else do
      limit ← parse_limit q.limit
      ok (record { range = b; cursor = trimmed q.cursor; limit = limit })

  -- An instant that is optional: only a text that is there is parsed.
  abbrev optional_instant : Option Text → Which → Result BadRequest (Option ℕ)
  optional_instant raw which =
      on_option (trimmed raw) (ok none) (λ s. parse_instant (some s) which >>= λ t. ok (some t))

  abbrev is_reversed : Option ℕ → Option ℕ → Bool
  is_reversed (some from) (some to) = ltb to from
  is_reversed _ _ = false

  unfoldable pub parse_audit_query : RawQuery → Result BadRequest AuditQuery
  parse_audit_query q =
      if on_option (trimmed q.action) false (λ a. not (is_action a)) then err invalid_action else do
        from ← optional_instant q.from range_start
        to ← optional_instant q.to range_end
        if is_reversed from to then err from_after_to else do
          limit ← parse_limit q.limit
          ok (record { action = trimmed q.action; from = from; to = to; limit = limit })

-- `TransactionQuery`
pub data TransactionQuery : Type 0 where
  by_bet_id : Text → TransactionQuery
  by_debit : Text → Text → Panel → Text → TransactionQuery
  by_payout : Text → Text → TransactionQuery
  by_refund : Text → Text → TransactionQuery

abbrev parse_panel : Text → Option Panel
parse_panel s =
    if text_eq s (codes "A")
    then some panel_a
    else if text_eq s (codes "B")
    then some panel_b
    else none

-- The kinds of a key of three parts.
abbrev credit_query : Text → Text → Text → Result BadRequest TransactionQuery
credit_query kind id transaction_id =
    if text_eq kind (codes "payout")
    then ok (by_payout id transaction_id)
    else if text_eq kind (codes "refund") || text_eq kind (codes "restart_refund")
    then ok (by_refund id transaction_id)
    else err unrecognized

abbrev credit_key : Text → Text → Text → Result BadRequest TransactionQuery
credit_key id kind transaction_id =
    if is_uuid id then credit_query kind id transaction_id else err unrecognized

abbrev debit_key : Text → Text → Text → Text → Text → Result BadRequest TransactionQuery
debit_key round user panel kind transaction_id =
    if text_eq kind (codes "debit") && (is_uuid round && is_uuid user)
    then on_option (parse_panel panel) (err unrecognized)
        (λ p. ok (by_debit round user p transaction_id))
    else err unrecognized

-- By the parts of the key.
unfoldable pub parse_parts : List Text → Text → Result BadRequest TransactionQuery
parse_parts (head ∷ id ∷ kind ∷ []) t =
    if text_eq head (codes "bet") then credit_key id kind t else err unrecognized
parse_parts (head ∷ round ∷ user ∷ panel ∷ kind ∷ []) t =
    if text_eq head (codes "bet") then debit_key round user panel kind t else err unrecognized
parse_parts _ t = err unrecognized

abbrev query_of : Option Text → Option Text → Result BadRequest TransactionQuery
query_of (some t) (some b) = err exactly_one
query_of none none = err missing_id
query_of none (some b) = if is_uuid b then ok (by_bet_id b) else err invalid_bet_id
query_of (some t) none = parse_parts (split_on 58 t) t

unfoldable pub parse_transaction_query : RawQuery → Result BadRequest TransactionQuery
parse_transaction_query q = query_of (trimmed q.transaction_id) (trimmed q.bet_id)
