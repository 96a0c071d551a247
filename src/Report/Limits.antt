-- ===== src/Report/Limits.antt =====
-- `_get_spending_summary`: what the logged daily limits of a semester say, one point for each day.
-- All rows of the table are of the type DAILY_LIMIT, the only one that is ever written. The root of
-- the variance is taken by the floats of `math.sqrt`, a parameter.
use moaje_work.Prelude.{
  ℕ, zero, suc, ◌+◌, ◌-◌, ◌*◌, Bool, ◌&&◌, Option, none, some, List, [], ◌∷◌, map, ◌==◌, ltb, leb,
  if◌then◌else◌, count, length, sum, String,
}
use moaje_work.Decimal.{Ratio, frac, ◌+r◌, ◌/r◌, round_half_even}
use moaje_work.Time.{kst_date, kst_day_bounds}
use moaje_work.Spending.{AnalysisLog, Profile}
use moaje_work.Report.{SpendingSummary}

abbrev in_bounds : ℕ × ℕ → ℕ → Bool
in_bounds b t = leb b.0 t && ltb t b.1

-- The amounts of a user's logs in a range of times.
unfoldable pub limits_between : ℕ → ℕ × ℕ → List AnalysisLog → List (ℕ × ℕ)
limits_between user bounds [] = []
limits_between user bounds (l ∷ logs) =
    let rest = limits_between user bounds logs in
    if l.user_id == user && in_bounds bounds l.created_at
    then elim l.daily_limit [ none ↦ rest | some v ↦ (l.created_at, v) ∷ rest ]
    else rest

abbrev pub mean : List ℕ → Ratio
mean vs = frac (sum vs) (length vs)

abbrev pub values_on : ℕ → List (ℕ × ℕ) → List ℕ
values_on day [] = []
values_on day ((t, v) ∷ limits) =
    let rest = values_on day limits in if kst_date t == day then v ∷ rest else rest

-- `GROUP BY` and `ORDER BY` the Korean date: the days with a log among the n from the given one,
-- each with its average.
unfoldable pub daily_from : ℕ → ℕ → List (ℕ × ℕ) → List (ℕ × Ratio)
daily_from day zero limits = []
daily_from day (suc n) limits =
    let rest = daily_from (suc day) n limits in
    elim (values_on day limits) [ [] ↦ rest | v ∷ vs ↦ (day, mean (v ∷ vs)) ∷ rest ]

unfoldable pub daily_limits : ℕ → ℕ → ℕ → List AnalysisLog → List (ℕ × Ratio)
daily_limits user start end logs =
    daily_from start (end + 1 - start) (limits_between user (kst_day_bounds start end) logs)

abbrev lt_r : Ratio → Ratio → Bool
lt_r a b = ltb (a.num * b.den) (b.num * a.den)

-- `max(daily, key=…)` and `min(daily, key=…)`: the first of the best.
unfoldable pub peak_of : ℕ × Ratio → List (ℕ × Ratio) → ℕ × Ratio
peak_of best [] = best
peak_of best (d ∷ ds) = peak_of (if lt_r best.1 d.1 then d else best) ds

unfoldable pub lowest_of : ℕ × Ratio → List (ℕ × Ratio) → ℕ × Ratio
lowest_of best [] = best
lowest_of best (d ∷ ds) = lowest_of (if lt_r d.1 best.1 then d else best) ds

abbrev pub sum_r : List Ratio → Ratio
sum_r [] = frac 0 1
sum_r (v ∷ vs) = v +r sum_r vs

-- `sum(values) / len(values)`
unfoldable pub average_r : List Ratio → Ratio
average_r vs = sum_r vs /r frac (length vs) 1

-- (v - avg)²
abbrev squared_deviation : Ratio → Ratio → Ratio
squared_deviation avg v =
    let x = v.num * avg.den in
    let y = avg.num * v.den in
    frac ((x - y) * (x - y) + (y - x) * (y - x)) (v.den * avg.den * (v.den * avg.den))

unfoldable pub daily_limit_cv_of : (Ratio → Ratio) → List Ratio → Option ℕ
unfolding average_r
daily_limit_cv_of sqrt values =
    let avg = average_r values in
    if ltb 0 avg.num && ltb 1 (length values)
    then (let cv = sqrt (average_r (map (squared_deviation avg) values)) /r avg in
        some (round_half_even (cv.num * 1000) cv.den))
    else none

abbrev pub is_compliant : Ratio → Bool
is_compliant v = ltb 0 v.num

-- `round(compliant_days / len(values), 4)`: the float quotient rounds as the exact one does for the
-- at most 122 days of a semester.
unfoldable pub compliance_rate : List Ratio → ℕ
compliance_rate values = round_half_even (count is_compliant values * 10000) (length values)

abbrev tx_count_of : ℕ → Option Profile → ℕ
tx_count_of d none = d
tx_count_of d (some p) = p.tx_count

abbrev peak_hour_of : Option Profile → ℕ
peak_hour_of none = 12
peak_hour_of (some p) = p.peak_spend_hour

abbrev category_of : Option Profile → String
category_of none = "없음"
category_of (some p) = p.top_category

abbrev value_of : ℕ × Ratio → Ratio
value_of d = d.1

unfoldable pub summary_of :
    (Ratio → Ratio) → Option Profile → ℕ → List (ℕ × Ratio) → SpendingSummary
summary_of sqrt profile start [] = record {
  total_tx_count = tx_count_of 0 profile;
  avg_daily_limit = 0;
  peak_spend_date = start;
  peak_spend_amount = frac 0 1;
  lowest_spend_date = start;
  lowest_spend_amount = frac 0 1;
  peak_spend_hour = peak_hour_of profile;
  top_category = category_of profile;
  total_log_days = 0;
  daily_limit_compliance_rate = 0;
  daily_limit_cv = none;
}
summary_of sqrt profile start (d ∷ ds) =
    let values = map value_of (d ∷ ds) in
    let avg = average_r values in
    record {
      total_tx_count = tx_count_of (length (d ∷ ds)) profile;
      avg_daily_limit = round_half_even avg.num (avg.den * 10000);
      peak_spend_date = (peak_of d ds).0;
      peak_spend_amount = (peak_of d ds).1;
      lowest_spend_date = (lowest_of d ds).0;
      lowest_spend_amount = (lowest_of d ds).1;
      peak_spend_hour = peak_hour_of profile;
      top_category = category_of profile;
      total_log_days = length (d ∷ ds);
      daily_limit_compliance_rate = compliance_rate values;
      daily_limit_cv = daily_limit_cv_of sqrt values;
    }
