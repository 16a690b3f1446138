-- ===== src/Reporting/Query/Bounds.antt =====
-- A query that is accepted is within its bounds.
use vault_runner_api.Prelude.{
  ℕ, suc, ◌-◌, ◌*◌, ◌≤◌, ◌≡◌, refl, Bool, true, false, Option, none, some, ltb, if◌then◌else◌,
  arith, Option-cases, inl, inr,
}
use vault_runner_api.Prelude.Int.{ℤ, pos, negsuc}
use vault_runner_api.Prog.{Result, ok, err}
use vault_runner_api.World.{Text}
use vault_runner_api.Reporting.Stats.{ReportQuery}
use vault_runner_api.Reporting.Query.{
  RawQuery, BadRequest, ◌>>=◌, trimmed, BetsQuery, base, parse_instant, parse_currency, parse_bool,
  parse_daily_query, parse_bets_query, parse_limit, max_limit, max_daily_range_days, range_start,
  range_end,
}

-- The value of an accepted step is the value that the next one takes.
accepted :
    {A B : Type 0} (r : Result BadRequest A) (f : A → Result BadRequest B) (b : B)
    → (r >>= f) ≡ ok b
    → (a : A) × (r ≡ ok a) × (f a ≡ ok b)
accepted (ok a) f b h = (a, refl, h)
accepted (err e) f b h = cc

tail_ordered :
    (from to : ℕ) (c : Result BadRequest (Option Text)) (d : Result BadRequest Bool)
    (q : ReportQuery)
    → (if ltb to from
        then err BadRequest.from_after_to
        else (c >>= λ currency. d >>= λ include_demo.
            ok (record { from = from; to = to; currency = currency; include_demo = include_demo })))
      ≡ ok q
    → q.from ≤ q.to
tail_ordered from to (ok c) (ok d) q h = ground arith
tail_ordered from to (ok c) (err e) q h = ground arith
tail_ordered from to (err e) d q h = ground arith

module _ (date_parse : Text → Option ℕ) (integer_of : Text → Option ℤ) where
  base_ordered :
      (raw : RawQuery) (q : ReportQuery) → base date_parse integer_of raw ≡ ok q → q.from ≤ q.to
  unfolding base
  base_ordered raw q h =
      let (from, _, h1) =
        accepted (parse_instant date_parse integer_of raw.from range_start) _ q h in
      let (to, _, h2) = accepted (parse_instant date_parse integer_of raw.to range_end) _ q h1 in
      tail_ordered from to (parse_currency raw.currency) (parse_bool raw.include_demo false) q h2

  limit_bounds :
      (raw : Option Text) (n : ℕ)
      → parse_limit date_parse integer_of raw ≡ ok n
      → (1 ≤ n) × (n ≤ max_limit)
  unfolding parse_limit
  limit_bounds none n h = ground arith
  limit_bounds (some s) n h = elim (Option-cases (integer_of s)) [
    | inl no_number ↦ ground arith
    | inr (pos ℕ.zero, e) ↦ ground arith
    | inr (pos (suc m), e) ↦ ground arith
    | inr (negsuc m, e) ↦ ground arith
  ]

  bets_tail :
      (raw : RawQuery) (c : Bool) (b : ReportQuery) (q : BetsQuery)
      → (if c
          then err BadRequest.invalid_cursor
          else (parse_limit date_parse integer_of raw.limit >>= λ limit.
              ok (record { range = b; cursor = trimmed raw.cursor; limit = limit })))
        ≡ ok q
      → (q.range ≡ b) × (1 ≤ q.limit) × (q.limit ≤ max_limit)
  bets_tail raw true b q h = cc
  bets_tail raw false b q h =
      let (n, e, h1) = accepted (parse_limit date_parse integer_of raw.limit) _ q h in
      let bounds = limit_bounds raw.limit n e in (ground arith, ground arith, ground arith)

  bets_bounds :
      (raw : RawQuery) (q : BetsQuery)
      → parse_bets_query date_parse integer_of raw ≡ ok q
      → (q.range.from ≤ q.range.to) × (1 ≤ q.limit) × (q.limit ≤ max_limit)
  unfolding parse_bets_query
  bets_bounds raw q h =
      let (b, e, h1) = accepted (base date_parse integer_of raw) _ q h in
      let (same, low, high) = bets_tail raw _ b q h1 in (rw same (base_ordered raw b e), low, high)

  daily_bounds :
      (raw : RawQuery) (r : ReportQuery)
      → parse_daily_query date_parse integer_of raw ≡ ok r
      → (r.from ≤ r.to) × (r.to - r.from ≤ max_daily_range_days * 86_400_000)
  unfolding parse_daily_query
  daily_bounds raw r h =
      let (c, f, k) = accepted (base date_parse integer_of raw) _ r h in
      let ordered = base_ordered raw c f in (ground arith, ground arith)

  -- Of any query of the bets that is accepted, the range is in order, and it asks for at least
  -- one and at most 200 rows; of any daily query that is accepted, the range is in order and of
  -- at most 366 days.
  pub accepted_queries :
      (raw raw' : RawQuery) (q : BetsQuery) (r : ReportQuery)
      → ((parse_bets_query date_parse integer_of raw ≡ ok q)
          → (q.range.from ≤ q.range.to) × (1 ≤ q.limit) × (q.limit ≤ max_limit))
        × ((parse_daily_query date_parse integer_of raw' ≡ ok r)
            → (r.from ≤ r.to) × (r.to - r.from ≤ max_daily_range_days * 86_400_000))
  accepted_queries raw raw' q r = (bets_bounds raw q, daily_bounds raw' r)
