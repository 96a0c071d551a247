-- ===== src/Recap/Months.antt =====
-- What the endpoints of the recap show of a month.
use moaje_work.Prelude.{
  ℕ, ◌+◌, ◌≤◌, ◌<◌, ◌≡◌, refl, ◌∙◌, inl, inr, Bool, true, false, ◌&&◌, Option, none, some, List, [],
  ◌∷◌, String, ◌==◌, leb, ltb, arith, count, ℤ, pos, Bool-cases, Option-cases, sym, ◌-◌, ◌⊎◌,
}
use moaje_work.Time.{kst_date, kst_month_bounds, to_ordinal, days_in_month}
use moaje_work.Time.Bounds.{kst_month_bounds_iff}
use moaje_work.Fds.{InferenceLog}
use moaje_work.Cashflow.{MonthlyCashflow, CategoryCashflow}
use moaje_work.Database.{Database}
use moaje_work.Onboarding.{FutureProfile}
use moaje_work.Metrics.{FeatureEvent, record_event, recap_view}
use moaje_work.Text.{codes}
use moaje_work.Onboarding.Service.{get_profile}
use moaje_work.Simulator.Request.{must_keep_of}
use moaje_work.Recap.{RecapResult}
use moaje_work.Recap.Service.{
  get_monthly, count_transactions, build_recap, build_coverage, get_recap, get_categories,
}
use moaje_work.Recap.Requests.{
  month_range, range_of, range, shown, get_recap_of, show_recap, out_of_range, overflow,
  is_year_month,
}

-- The Korean date of a stored time is a day of the month.
abbrev pub is_day_of : ℕ → ℕ → ℕ → Bool
is_day_of year month t =
    leb (to_ordinal year month 1) (kst_date t)
    && leb (kst_date t) (to_ordinal year month (days_in_month year month))

abbrev pub happened_in : (ℕ → Bool) → Option ℕ → Bool
happened_in is_in none = false
happened_in is_in (some t) = is_in t

-- A log of the user that has a time, and one in the range.
abbrev pub is_log_of : ℕ → (ℕ → Bool) → InferenceLog → Bool
is_log_of user is_in log = log.user_id == user && happened_in is_in log.occurred_at

both_ways : (p q : Bool) → (p ≡ true → q ≡ true) → (q ≡ true → p ≡ true) → p ≡ q
both_ways true q f g = sym (f refl)
both_ways false true f g = g refl
both_ways false false f g = refl

month_test :
    (year month t : ℕ)
    → 1 ≤ year
    → 1 ≤ month
    → let (lo, hi) = kst_month_bounds year month in (leb lo t && ltb t hi) ≡ is_day_of year month t
unfolding to_ordinal
month_test year month t hy hm =
    let (lo, hi) = kst_month_bounds year month in
    let (days_of, range_of_day) = kst_month_bounds_iff year month t hy hm in
    both_ways (leb lo t && ltb t hi) (is_day_of year month t)
      (λ h.
        let inside : (lo ≤ t) × (t < hi) = (ground (arith, h), ground (arith, h)) in
        let (d, first, last, same) = days_of inside in ground (arith, first, last, same))
      (λ h.
        let below : to_ordinal year month 1 ≤ kst_date t = ground (arith, h) in
        let above : kst_date t ≤ to_ordinal year month (days_in_month year month) =
          ground (arith, h) in
        let d = kst_date t + 1 - to_ordinal year month 1 in
        let inside =
          range_of_day (d, omega (arith, below), omega (arith, above), omega (arith, below)) in
        ground (arith, inside))

happened-month :
    (year month : ℕ) (time : Option ℕ)
    → 1 ≤ year
    → 1 ≤ month
    → let (lo, hi) = kst_month_bounds year month in
      happened_in (λ t. leb lo t && ltb t hi) time ≡ happened_in (is_day_of year month) time
happened-month year month none hy hm = refl
happened-month year month (some t) hy hm = month_test year month t hy hm

count-month :
    (user year month : ℕ) (logs : List InferenceLog)
    → 1 ≤ year
    → 1 ≤ month
    → let (lo, hi) = kst_month_bounds year month in
      count (is_log_of user (λ t. leb lo t && ltb t hi)) logs
      ≡ count (is_log_of user (is_day_of year month)) logs
count-month user year month [] hy hm = refl
count-month user year month (log ∷ logs) hy hm =
    let rest = count-month user year month logs hy hm in
    let same = happened-month year month log.occurred_at hy hm in rw (same, rest) refl

counted :
    (user lo hi : ℕ) (db : Database)
    → count_transactions user (some (lo, hi)) db
      ≡ count (is_log_of user (λ t. leb lo t && ltb t hi)) db.inference_logs
unfolding count_transactions
counted user lo hi db = refl

total-coverage :
    (estimate : ℕ → ℤ → ℤ → ℤ) (m : MonthlyCashflow) (cs : List CategoryCashflow) (n : ℕ)
    (keep : Option String)
    → (build_recap estimate m cs n keep).coverage.total_tx ≡ n
unfolding build_recap build_coverage
total-coverage estimate m cs n keep = ground arith

month_range-cases :
    (year month : ℕ)
    → (month_range (pos year) (pos month) ≡ out_of_range)
      ⊎ ((month_range (pos year) (pos month) ≡ overflow)
          ⊎ ((1 ≤ year)
              × (1 ≤ month)
              × (let (lo, hi) = kst_month_bounds year month in
                  month_range (pos year) (pos month) ≡ range lo hi)))
unfolding month_range
month_range-cases year month =
    elim (Bool-cases (leb 1 year && (leb year 9999 && (leb 1 month && leb month 12)))) [
      | inr bad ↦ inl (rw bad refl)
      | inl good ↦ elim (Bool-cases (year == 9999 && month == 12)) [
        | inl last ↦ inl (rw (good, last) refl)
        | inr more ↦ elim (Bool-cases (year == 1 && month == 1)) [
          | inl first ↦ inr (inl (rw (good, more, first) refl))
          | inr rest ↦
              inr (inr (ground (arith, good), ground (arith, good), rw (good, more, rest) refl))
        ]
      ]
    ]

module _ (estimate : ℕ → ℤ → ℤ → ℤ) where
  get_recap-missing :
      (user : ℕ) (ym : String) (bounds : Option (ℕ × ℕ)) (keep : Option String) (db : Database)
      → get_monthly user ym db ≡ none
      → get_recap estimate user ym bounds keep db ≡ none
  unfolding get_recap
  get_recap-missing user ym bounds keep db h = rw (h, get_recap) refl

  get_recap-total :
      (user : ℕ) (ym : String) (bounds : Option (ℕ × ℕ)) (keep : Option String) (db : Database)
      (r : RecapResult)
      → get_recap estimate user ym bounds keep db ≡ some r
      → r.coverage.total_tx ≡ count_transactions user bounds db
  unfolding get_recap
  get_recap-total user ym bounds keep db r h = elim (Option-cases (get_monthly user ym db)) [
    | inl missing ↦ cc (get_recap-missing user ym bounds keep db missing)
    | inr (m, found) ↦
        let e = rw (found, get_recap) at h in
        let same =
          total-coverage estimate m (get_categories user ym db) (count_transactions user bounds db)
            keep in
        cc
  ]

  show-shown :
      (now user : ℕ) (ym : String) (bounds : Option (ℕ × ℕ)) (profiles : List FutureProfile)
      (db : Database) (events events' : List FeatureEvent) (r : RecapResult)
      → show_recap estimate now user ym bounds profiles db events ≡ (shown r, events')
      → (r.coverage.total_tx ≡ count_transactions user bounds db)
        × (events' ≡ record_event true now user recap_view (some ym) events)
  unfolding show_recap
  show-shown now user ym bounds profiles db events events' r h =
      let keep = must_keep_of (get_profile user profiles) in
      elim (Option-cases (get_recap estimate user ym bounds keep db)) [
        | inl missing ↦ let e = rw (missing, show_recap) at h in cc
        | inr (r', found) ↦
            let e = rw (found, show_recap) at h in
            let total = get_recap-total user ym bounds keep db r' found in (cc, cc)
      ]

  module _ (digit_value : ℕ → Option ℕ) where
    -- Where the endpoint shows a month whose text reads as this year and month, the recap counts
    -- exactly the user's transactions whose time is on a day of the month in Korea, and one view of
    -- the month is recorded.
    pub recap_counts_month :
        (now user : ℕ) (ym : String) (year month : ℕ) (profiles : List FutureProfile)
        (db : Database) (events events' : List FeatureEvent) (r : RecapResult)
        → range_of digit_value (codes ym) ≡ month_range (pos year) (pos month)
        → get_recap_of digit_value estimate now user ym profiles db events ≡ (shown r, events')
        → (r.coverage.total_tx ≡ count (is_log_of user (is_day_of year month)) db.inference_logs)
          × (events' ≡ record_event true now user recap_view (some ym) events)
    unfolding get_recap_of
    recap_counts_month now user ym year month profiles db events events' r reads h =
        elim (Bool-cases (is_year_month digit_value (codes ym))) [
          | inr bad ↦ let e = rw bad at h in cc
          | inl good ↦ elim (Option-cases (get_monthly user ym db)) [
            | inl missing ↦ let e = rw (good, missing) at h in cc
            | inr (m, found) ↦ elim (month_range-cases year month) [
              | inl outside ↦ let e = rw (good, found, reads, outside) at h in cc
              | inr (inl early) ↦ let e = rw (good, found, reads, early) at h in cc
              | inr (inr (hy, hm, inside)) ↦
                  let e = rw (good, found, reads, inside) at h in
                  let (lo, hi) = kst_month_bounds year month in
                  let (total, recorded) =
                    show-shown now user ym (some (lo, hi)) profiles db events events' r e in
                  (
                    total
                        ∙ (counted user lo hi db
                            ∙ count-month user year month db.inference_logs hy hm),
                    recorded,
                  )
            ]
          ]
        ]
