-- ===== src/Schedules/Listing.antt =====
-- The lists of schedules of app/api/v1/endpoints/spending.py and calendar.py, in pages.
use moaje_work.Prelude.{
  ℕ, zero, suc, ◌+◌, ◌≡◌, refl, ap, Bool, true, ◌&&◌, Option, none, some, List, [], ◌∷◌, ◌++◌, ◌==◌,
  leb, filter, arith, drop_rows, take_rows,
}
use moaje_work.Time.{to_ordinal}
use moaje_work.Spending.{AcademicSchedule}
use moaje_work.Schedules.{sort_by_start}

-- The schedules that overlap the year, where one is asked for.
abbrev overlaps : Option ℕ → AcademicSchedule → Bool
overlaps none s = true
overlaps (some year) s =
    leb s.start_date (to_ordinal year 12 31) && leb (to_ordinal year 1 1) s.end_date

-- `list_academic_schedules`, and `get_all_schedules` of the calendar, which sends the same rows
-- with `is_auto`.
unfoldable pub list_academic_schedules :
    ℕ → Option ℕ → ℕ → ℕ → List AcademicSchedule → List AcademicSchedule
list_academic_schedules user year limit offset schedules =
    let mine = filter (λ s. s.user_id == user && overlaps year s) schedules in
    take_rows limit (drop_rows offset (sort_by_start (λ (s : AcademicSchedule). s.start_date) mine))

take-split :
    {A : Type 0} (n m : ℕ) (xs : List A)
    → take_rows n xs ++ take_rows m (drop_rows n xs) ≡ take_rows (n + m) xs
take-split n m [] = refl
take-split zero m (x ∷ xs) = let same : zero + m ≡ m = omega arith in rw same refl
take-split (suc n) m (x ∷ xs) =
    let more : suc n + m ≡ suc (n + m) = omega arith in
    rw (more) (ap (λ ys. x ∷ ys) (take-split n m xs))

drop-drop :
    {A : Type 0} (n m : ℕ) (xs : List A) → drop_rows m (drop_rows n xs) ≡ drop_rows (n + m) xs
drop-drop n m [] = refl
drop-drop zero m (x ∷ xs) = let same : zero + m ≡ m = omega arith in rw same refl
drop-drop (suc n) m (x ∷ xs) =
    let more : suc n + m ≡ suc (n + m) = omega arith in rw (more) (drop-drop n m xs)

-- Two pages that follow each other are one page of both lengths: no schedule is left out or shown
-- twice between them.
pub list_pages :
    (user : ℕ) (year : Option ℕ) (limit more offset : ℕ) (schedules : List AcademicSchedule)
    → list_academic_schedules user year limit offset schedules
        ++ list_academic_schedules user year more (offset + limit) schedules
      ≡ list_academic_schedules user year (limit + more) offset schedules
unfolding list_academic_schedules
list_pages user year limit more offset schedules =
    rw (← drop-drop offset limit (sort_by_start _ (filter _ schedules))) (take-split limit more _)
