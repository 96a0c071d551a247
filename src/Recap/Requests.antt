-- ===== src/Recap/Requests.antt =====
-- The endpoints of app/api/v1/endpoints/recap.py, with `list_months` and the month of
-- `_count_transactions` of app/services/ai/recap_service.py. What counts as a digit is Python's
-- Unicode database and how texts are ordered is the database's collation, both parameters. They are
-- modelled with a database that answers.
use moaje_work.Prelude.{
  ℕ, zero, suc, Bool, true, false, ◌&&◌, Option, none, some, List, [], ◌∷◌, map, String, ◌==◌, leb,
  if◌then◌else◌, filter, take_rows, ℤ, pos, negsuc,
}
use moaje_work.Text.{codes, split, python_int}
use moaje_work.Time.{kst_month_bounds}
use moaje_work.Cashflow.{MonthlyCashflow}
use moaje_work.Database.{Database}
use moaje_work.Onboarding.{FutureProfile}
use moaje_work.Onboarding.Service.{get_profile}
use moaje_work.Metrics.{FeatureEvent, recap_view, record_event}
use moaje_work.Recap.{RecapResult}
use moaje_work.Recap.Service.{get_monthly, get_recap}
use moaje_work.Simulator.Request.{must_keep_of}

-- `kst_month_bounds` where it returns, and how it raises: ValueError of `date`, or OverflowError of
-- the first hours of the calendar.
pub data MonthRange : Type 0 where
  unreadable out_of_range overflow : MonthRange
  range : ℕ → ℕ → MonthRange

-- `kst_month_bounds(year, month)` of numbers of at most four digits.
unfoldable pub month_range : ℤ → ℤ → MonthRange
month_range (pos year) (pos month) =
    if leb 1 year && (leb year 9999 && (leb 1 month && leb month 12))
    then if year == 9999 && month == 12
      then out_of_range
      else if year == 1 && month == 1
      then overflow
      else (let (start, end) = kst_month_bounds year month in range start end)
    else out_of_range
month_range (pos year) (negsuc month) = out_of_range
month_range (negsuc year) month = out_of_range

-- The answers: 400 for the format, 404, the ValueError of a month that is none (400), the
-- OverflowError (500), and the recap.
pub data RecapAnswer : Type 0 where
  bad_format no_data no_such_month overflowed : RecapAnswer
  shown : RecapResult → RecapAnswer

unfoldable pub show_recap :
    (ℕ → ℤ → ℤ → ℤ)
    → ℕ
    → ℕ
    → String
    → Option (ℕ × ℕ)
    → List FutureProfile
    → Database
    → List FeatureEvent
    → RecapAnswer × List FeatureEvent
show_recap estimate now user ym bounds profiles db events =
    elim (get_recap estimate user ym bounds (must_keep_of (get_profile user profiles)) db) [
      | none ↦ (no_data, events)
      | some result ↦ (shown result, record_event true now user recap_view (some ym) events)
    ]

module _ (digit_value : ℕ → Option ℕ) where
  -- What follows the given number of `\d`.
  unfoldable pub after_digits : ℕ → List ℕ → Option (List ℕ)
  after_digits zero cs = some cs
  after_digits (suc n) [] = none
  after_digits (suc n) (c ∷ cs) = elim (digit_value c) [ none ↦ none | some _ ↦ after_digits n cs ]

  abbrev after_dash : List ℕ → Option (List ℕ)
  after_dash [] = none
  after_dash (c ∷ cs) = if c == 45 then some cs else none

  -- `$`, which also matches before a last line feed.
  abbrev at_end : List ℕ → Bool
  at_end [] = true
  at_end (c ∷ []) = c == 10
  at_end (c ∷ d ∷ cs) = false

  -- `_YM.match(year_month)`
  unfoldable pub is_year_month : List ℕ → Bool
  unfolding after_digits
  is_year_month cs = elim (after_digits 4 cs) [
    | none ↦ false
    | some after_year ↦ elim (after_dash after_year) [
      | none ↦ false
      | some month ↦ elim (after_digits 2 month) [ none ↦ false | some end ↦ at_end end ]
    ]
  ]

  abbrev range_of_numbers : Option ℤ → Option ℤ → MonthRange
  range_of_numbers none month = unreadable
  range_of_numbers (some year) none = unreadable
  range_of_numbers (some year) (some month) = month_range year month

  abbrev range_of_pieces : List ℕ → List (List ℕ) → MonthRange
  range_of_pieces year [] = unreadable
  range_of_pieces year (month ∷ []) =
      range_of_numbers (python_int digit_value year) (python_int digit_value month)
  range_of_pieces year (month ∷ more ∷ pieces) = unreadable

  -- `year, month = (int(x) for x in ym.split("-"))` and the bounds.
  unfoldable pub range_of : List ℕ → MonthRange
  unfolding month_range
  range_of ym = let (year, pieces) = split 45 ym in range_of_pieces year pieces

  -- The endpoint `get_recap`.
  unfoldable pub get_recap_of :
      (ℕ → ℤ → ℤ → ℤ)
      → ℕ
      → ℕ
      → String
      → List FutureProfile
      → Database
      → List FeatureEvent
      → RecapAnswer × List FeatureEvent
  unfolding range_of show_recap
  get_recap_of estimate now user ym profiles db events =
      if is_year_month (codes ym)
      then elim (get_monthly user ym db) [
        | none ↦ (no_data, events)
        | some monthly ↦ elim (range_of (codes ym)) [
          | unreadable ↦ show_recap estimate now user ym none profiles db events
          | out_of_range ↦ (no_such_month, events)
          | overflow ↦ (overflowed, events)
          | range start end ↦ show_recap estimate now user ym (some (start, end)) profiles db events
        ]
      ]
      else (bad_format, events)

-- `ORDER BY year_month DESC`
module _ (not_after : String → String → Bool) where
  unfoldable pub insert_month : MonthlyCashflow → List MonthlyCashflow → List MonthlyCashflow
  insert_month m [] = m ∷ []
  insert_month m (n ∷ rows) =
      let rest = insert_month m rows in
      if not_after n.year_month m.year_month then m ∷ n ∷ rows else n ∷ rest

  unfoldable pub order_months : List MonthlyCashflow → List MonthlyCashflow
  order_months [] = []
  order_months (m ∷ rows) = insert_month m (order_months rows)

  unfoldable pub list_months : ℕ → ℕ → Database → List String
  list_months user limit db = take_rows limit (
      map (λ (m : MonthlyCashflow). m.year_month)
        (order_months (filter (λ (m : MonthlyCashflow). m.user_id == user) db.monthly)))
