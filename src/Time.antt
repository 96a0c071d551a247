-- ===== src/Time.antt =====
-- The boundary between stored times and Korean dates (app/core/timeutil.py). A time is the number
-- of seconds from midnight UTC of the day with number 0, and a date is Python's
-- `date.toordinal()`, so the day of a time is its quotient by 86,400.
pub mod Bounds
use moaje_work.Prelude.{
  ℕ, zero, suc, ◌+◌, ◌-◌, ◌*◌, ◌/◌, ◌%◌, Bool, true, false, not, ◌||◌, ◌==◌, if◌then◌else◌,
}

abbrev pub day_seconds : ℕ
day_seconds = 86400

-- `_SHIFT`, nine hours.
abbrev pub kst_shift : ℕ
kst_shift = 32400

-- `kst_wall`, and `kst_now` from the clock's UTC.
unfoldable pub kst_wall : ℕ → ℕ
kst_wall t = t + kst_shift

-- `kst_date`, and `kst_today` from the clock's UTC.
unfoldable pub kst_date : ℕ → ℕ
unfolding kst_wall
kst_date t = kst_wall t / day_seconds

unfoldable pub kst_hour : ℕ → ℕ
unfolding kst_wall
kst_hour t = kst_wall t / 3600 % 24

-- From midnight of the first date to midnight after the last, in UTC. Dates are positive, so the
-- subtraction does not stop at 0.
unfoldable pub kst_day_bounds : ℕ → ℕ → ℕ × ℕ
kst_day_bounds start end = (start * day_seconds - kst_shift, (end + 1) * day_seconds - kst_shift)

-- Python's `date(year, month, day).toordinal()`.
unfoldable pub is_leap : ℕ → Bool
is_leap y = if y % 4 == 0 then not (y % 100 == 0) || (y % 400 == 0) else false

unfoldable pub days_in_month : ℕ → ℕ → ℕ
unfolding is_leap
days_in_month y m =
    if m == 2
    then (if is_leap y then 29 else 28)
    else if (m == 4) || ((m == 6) || ((m == 9) || (m == 11)))
    then 30
    else 31

unfoldable pub days_before_year : ℕ → ℕ
days_before_year y = (y - 1) * 365 + (y - 1) / 4 - (y - 1) / 100 + (y - 1) / 400

-- The days of the months before the one with the number m + 1.
unfoldable pub days_before_month : ℕ → ℕ → ℕ
days_before_month y zero = 0
days_before_month y (suc m) = days_before_month y m + days_in_month y (suc m)

unfoldable pub to_ordinal : ℕ → ℕ → ℕ → ℕ
to_ordinal y m d = days_before_year y + days_before_month y (m - 1) + d

unfoldable pub kst_month_bounds : ℕ → ℕ → ℕ × ℕ
kst_month_bounds year month =
    let first = to_ordinal year month 1 in
    let nxt = if month == 12 then to_ordinal (year + 1) 1 1 else to_ordinal year (month + 1) 1 in
    (first * day_seconds - kst_shift, nxt * day_seconds - kst_shift)
