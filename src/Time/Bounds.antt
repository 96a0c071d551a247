-- ===== src/Time/Bounds.antt =====
-- The ranges of stored times hold exactly the times of the Korean dates that they stand for.
use moaje_work.Prelude.{
  ℕ, zero, suc, ◌+◌, ◌-◌, ◌≤◌, ◌<◌, ◌≡◌, ◌↔◌, arith, Bool-cases, inl, inr, if◌then◌else◌, ◌==◌,
}
use moaje_work.Time.{
  kst_date, kst_month_bounds, kst_day_bounds, is_leap, days_in_month, days_before_year,
  days_before_month, to_ordinal,
}

-- For a positive first date a stored time is in the range exactly when its Korean date is one of
-- the dates from the first to the last.
pub kst_day_bounds_iff :
    (start end t : ℕ)
    → 1 ≤ start
    → let (lo, hi) = kst_day_bounds start end in
      ((lo ≤ t) × (t < hi)) ↔ ((start ≤ kst_date t) × (kst_date t ≤ end))
unfolding kst_day_bounds kst_date
kst_day_bounds_iff start end t h = (
  λ e. (omega (arith, h, e), omega (arith, h, e)),
  λ e. (omega (arith, h, e), omega (arith, h, e)),
)

next_year : (y : ℕ) → 1 ≤ y → days_before_year (y + 1) ≡ days_before_year y + days_before_month y 12
unfolding days_before_year days_before_month days_in_month is_leap
next_year zero h = absurd (omega (arith, h))
next_year (suc y) h = ground arith

next_month : (y m : ℕ) → 1 ≤ m → to_ordinal y (m + 1) 1 ≡ to_ordinal y m 1 + days_in_month y m
unfolding to_ordinal days_before_month
next_month y zero h = absurd (omega (arith, h))
next_month y (suc m) h =
    let less : suc m + 1 - 1 ≡ suc m = omega arith in
    let same : suc m - 1 ≡ m = omega arith in rw (less, same) (omega arith)

next_january : (y : ℕ) → 1 ≤ y → to_ordinal (y + 1) 1 1 ≡ to_ordinal y 12 1 + days_in_month y 12
unfolding to_ordinal days_before_month
next_january y h = omega (arith, next_year y h)

month_end :
    (y m : ℕ)
    → 1 ≤ y
    → 1 ≤ m
    → (if m == 12 then to_ordinal (y + 1) 1 1 else to_ordinal y (m + 1) 1)
      ≡ to_ordinal y m 1 + days_in_month y m
month_end y m hy hm = elim (Bool-cases (m == 12)) [
  | inl last ↦ let twelve : m ≡ 12 = ground (arith, last) in rw twelve (next_january y hy)
  | inr other ↦ rw other (next_month y m hm)
]

-- A stored time lies in the range of a month exactly when its Korean date is one of its days.
pub kst_month_bounds_iff :
    (y m t : ℕ)
    → 1 ≤ y
    → 1 ≤ m
    → let (lo, hi) = kst_month_bounds y m in
      ((lo ≤ t) × (t < hi))
      ↔ ((d : ℕ) × (1 ≤ d) × (d ≤ days_in_month y m) × (kst_date t ≡ to_ordinal y m d))
unfolding kst_month_bounds to_ordinal kst_date
kst_month_bounds_iff y m t hy hm =
    let end = month_end y m hy hm in
    let before = days_before_year y + days_before_month y (m - 1) in
    (
      λ e. (
        kst_date t - before,
        omega (arith, e, end),
        omega (arith, e, end),
        omega (arith, e, end),
      ),
      λ (d, first, last, same).
          (omega (arith, first, last, same, end), omega (arith, first, last, same, end)),
    )
