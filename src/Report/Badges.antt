-- ===== src/Report/Badges.antt =====
-- What the badges of a report card have to do with its scores.
use moaje_work.Prelude.{
  ℕ, ◌≡◌, refl, ap, ◌∙◌, sym, Bool, true, false, ◌&&◌, ◌||◌, List, [], ◌∷◌, ◌++◌, ◌==◌, ltb, leb,
  if◌then◌else◌, any, any-append, filter, arith, inl, inr, Bool-cases,
}
use moaje_work.Decimal.{Ratio}
use moaje_work.Fds.{InferenceLog}
use moaje_work.Database.{Database}
use moaje_work.Report.{
  SpendingSummary, FdsSummary, EventSpendingStat, grade, Badge, limit_keeper, perfectly_safe,
  safety_grade_a, first_report_empty, regular_spender, busy_spender,
}
use moaje_work.Report.Detections.{fds_summary_of, get_safety_score}
use moaje_work.Report.Service.{
  when, regular, or_first, calc_daily_limit_score, exam_badges, hour_badges, earned_badges,
  generate_badges, is_exam, report_of, get_semester_report, calc_score_breakdown, is_a,
}

abbrev is_keeper : Badge → Bool
is_keeper b = elim b [ limit_keeper ↦ true | _ ↦ false ]

exam-keeper : (events : List EventSpendingStat) → any is_keeper (exam_badges events) ≡ false
unfolding exam_badges
exam-keeper [] = refl
exam-keeper (e ∷ events) = ground arith

hour-keeper : (hour : ℕ) → any is_keeper (hour_badges hour) ≡ false
unfolding hour_badges
hour-keeper hour = ground arith

keeper_score :
    (spending : SpendingSummary)
    → (ltb 0 spending.total_log_days && leb 9000 spending.daily_limit_compliance_rate)
      ≡ (calc_daily_limit_score spending == 30)
unfolding calc_daily_limit_score
keeper_score spending = ground arith

other-keeper :
    (b : Bool) (badge : Badge) → is_keeper badge ≡ false → any is_keeper (when b badge) ≡ false
other-keeper b badge h = ground arith

skip : (p : Badge → Bool) (xs ys : List Badge) → any p xs ≡ false → any p (xs ++ ys) ≡ any p ys
skip p xs ys h = any-append p xs ys ∙ ap (λ b. b || any p ys) h

or_false : (a : Bool) → (a || false) ≡ a
or_false true = refl
or_false false = refl

drop : (p : Badge → Bool) (xs ys : List Badge) → any p ys ≡ false → any p (xs ++ ys) ≡ any p xs
drop p xs ys h = any-append p xs ys ∙ ap (λ b. any p xs || b) h ∙ or_false (any p xs)

kept : (b : Bool) → any is_keeper (when b limit_keeper) ≡ b
kept true = refl
kept false = refl

-- Of seven lists only the third can have such a badge.
third :
    (p : Badge → Bool) (a b c d e f g : List Badge)
    → any p a ≡ false
    → any p b ≡ false
    → any p d ≡ false
    → any p e ≡ false
    → any p f ≡ false
    → any p g ≡ false
    → any p (a ++ b ++ c ++ d ++ e ++ f ++ g) ≡ any p c
third p a b c d e f g ha hb hd he hf hg =
    drop p (a ++ b ++ c ++ d ++ e ++ f) g hg
    ∙ drop p (a ++ b ++ c ++ d ++ e) f hf
    ∙ drop p (a ++ b ++ c ++ d) e he
    ∙ drop p (a ++ b ++ c) d hd
    ∙ skip p (a ++ b) c (skip p a b ha ∙ hb)

earned-keeper :
    (spending : SpendingSummary) (fds : FdsSummary) (events : List EventSpendingStat)
    → any is_keeper (earned_badges spending fds events) ≡ (calc_daily_limit_score spending == 30)
unfolding earned_badges
earned-keeper spending fds events =
    let keeps = ltb 0 spending.total_log_days && leb 9000 spending.daily_limit_compliance_rate in
    let safe = (fds.high_count == 0) && (fds.medium_count == 0) in
    third is_keeper (when safe perfectly_safe) (when (is_a fds.safety_grade) safety_grade_a)
      (when keeps limit_keeper) (when (regular spending.daily_limit_cv) regular_spender)
      (when (leb 50 spending.total_tx_count) busy_spender) (exam_badges (filter is_exam events))
      (hour_badges spending.peak_spend_hour) (other-keeper safe perfectly_safe refl)
      (other-keeper (is_a fds.safety_grade) safety_grade_a refl)
      (other-keeper (regular spending.daily_limit_cv) regular_spender refl)
      (other-keeper (leb 50 spending.total_tx_count) busy_spender refl)
      (exam-keeper (filter is_exam events)) (hour-keeper spending.peak_spend_hour)
    ∙ kept keeps
    ∙ keeper_score spending

or_first-keeper : (bs : List Badge) → any is_keeper (or_first bs) ≡ any is_keeper bs
or_first-keeper [] = refl
or_first-keeper (b ∷ bs) = refl

idle_score :
    (spending : SpendingSummary)
    → (ltb 0 spending.total_log_days || ltb 0 spending.total_tx_count) ≡ false
    → (calc_daily_limit_score spending == 30) ≡ false
unfolding calc_daily_limit_score
idle_score spending h = ground arith

badges-keeper :
    (spending : SpendingSummary) (fds : FdsSummary) (events : List EventSpendingStat)
    → any is_keeper (generate_badges spending fds events) ≡ (calc_daily_limit_score spending == 30)
unfolding generate_badges
badges-keeper spending fds events =
    elim (Bool-cases (ltb 0 spending.total_log_days || ltb 0 spending.total_tx_count)) [
      | inl active ↦
          ap
            (λ b.
              any is_keeper (
                if b
                then or_first (earned_badges spending fds events)
                else first_report_empty ∷ []))
            active
          ∙ or_first-keeper (earned_badges spending fds events)
          ∙ earned-keeper spending fds events
      | inr idle ↦
          ap
            (λ b.
              any is_keeper (
                if b
                then or_first (earned_badges spending fds events)
                else first_report_empty ∷ []))
            idle
          ∙ sym (idle_score spending idle)
    ]

-- A report has the badge for keeping the daily limit exactly when its score for the daily limit is
-- the full 30.
keeper_badge :
    (sqrt : Ratio → Ratio) (user year semester : ℕ) (db : Database)
    → let r = get_semester_report sqrt user year semester db in
      any is_keeper r.badges ≡ (r.score_breakdown.daily_limit_score == 30)
unfolding get_semester_report report_of calc_score_breakdown
keeper_badge sqrt user year semester db = badges-keeper _ _ _

-- The safety score that a user looks up has the grade of a report's safety, where the two periods
-- have the same numbers of HIGH and of MEDIUM detections.
pub safety_grades :
    (now user : ℕ) (recent semester : List InferenceLog)
    → let looked_up = get_safety_score now user recent in
      let reported = fds_summary_of semester in
      looked_up.high_count ≡ reported.high_count
      → looked_up.medium_count ≡ reported.medium_count
      → looked_up.grade ≡ reported.safety_grade
unfolding get_safety_score fds_summary_of grade
safety_grades now user recent semester h m = rw (h, m) refl
