-- ===== src/Report/Bounds.antt =====
-- The points of a report card, and when it is graded.
use moaje_work.Prelude.{
  ℕ, zero, suc, ◌+◌, ◌-◌, ◌*◌, ◌≤◌, ◌<◌, ◌≡◌, ◌≢◌, ◌↔◌, refl, inl, inr, true, Option, some, List,
  [], ◌∷◌, ◌==◌, ltb, if◌then◌else◌, length, find, arith, Bool-cases,
}
use moaje_work.Decimal.{Ratio}
use moaje_work.Time.{kst_date, kst_day_bounds, to_ordinal}
use moaje_work.Time.Bounds.{kst_day_bounds_iff}
use moaje_work.Spending.{AnalysisLog, Profile}
use moaje_work.Spending.DailyLimit.{DailyLimitRequest, calculate_daily_limit}
use moaje_work.Fds.{BlacklistEntry, InferenceLog}
use moaje_work.Database.{Database, World}
use moaje_work.Report.{
  SpendingSummary, FdsSummary, EventSpendingStat, SemesterReport, grade, grade_a, not_evaluated,
}
use moaje_work.Report.Limits.{limits_between, daily_from, daily_limits, summary_of}
use moaje_work.Report.Detections.{safety_of, fds_summary_of, get_fds_summary}
use moaje_work.Report.Service.{
  semester_period, calc_safety_score, calc_daily_limit_score, calc_event_score,
  calc_regularity_score, calc_score_breakdown, report_of, get_semester_report,
}

daily_score-le : (s : SpendingSummary) → calc_daily_limit_score s ≤ 30
unfolding calc_daily_limit_score
daily_score-le s = ground arith

event_score-le : (events : List EventSpendingStat) → calc_event_score events ≤ 20
unfolding calc_event_score
event_score-le [] = omega arith
event_score-le (e ∷ events) = ground arith

regularity_score-le : (s : SpendingSummary) → calc_regularity_score s ≤ 10
unfolding calc_regularity_score
regularity_score-le s = ground arith

safety_score-le :
    (user : ℕ) (fds : FdsSummary) (entries : List BlacklistEntry)
    → calc_safety_score user fds entries ≤ fds.safety_score
unfolding calc_safety_score
safety_score-le user fds entries = ground arith

summary_safety-le : (logs : List InferenceLog) → (fds_summary_of logs).safety_score ≤ 40
unfolding fds_summary_of safety_of
summary_safety-le logs = omega arith

-- The four parts of a report's score.
abbrev pub parts : SemesterReport → ℕ
parts r =
    r.score_breakdown.safety_score + r.score_breakdown.daily_limit_score
    + r.score_breakdown.event_score + r.score_breakdown.regularity_score

graded_iff :
    (days score : ℕ)
    → ((if ltb 0 days then grade score else not_evaluated) ≡ not_evaluated) ↔ (days ≡ 0)
unfolding grade
graded_iff days score = (λ e. ground arith, λ e. ground arith)

report_of-total :
    (user year semester : ℕ) (period : ℕ × ℕ) (spending : SpendingSummary) (fds : FdsSummary)
    (events : List EventSpendingStat) (entries : List BlacklistEntry)
    → fds.safety_score ≤ 40
    → let r = report_of user year semester period spending fds events entries in
      (r.overall_score ≡ parts r)
      × (r.overall_score ≤ 100)
      × ((r.overall_grade ≡ not_evaluated) ↔ (r.spending.total_log_days ≡ 0))
unfolding report_of calc_score_breakdown
report_of-total user year semester period spending fds events entries h =
    let s = safety_score-le user fds entries in
    let d = daily_score-le spending in
    let e = event_score-le events in
    let r = regularity_score-le spending in
    (ground arith, ground arith, graded_iff spending.total_log_days _)

-- The score of a report is the sum of its four parts and at most 100, so that the limits on it
-- never act; the grade is N/A exactly when no day of the semester has a logged limit.
pub report_total :
    (sqrt : Ratio → Ratio) (user year semester : ℕ) (db : Database)
    → let r = get_semester_report sqrt user year semester db in
      (r.overall_score ≡ parts r)
      × (r.overall_score ≤ 100)
      × ((r.overall_grade ≡ not_evaluated) ↔ (r.spending.total_log_days ≡ 0))
unfolding get_semester_report get_fds_summary
report_total sqrt user year semester db =
    report_of-total user year semester (semester_period year semester) _ _ _ db.blacklist
      (summary_safety-le _)

best_total :
    (days score : ℕ) → (if ltb 0 days then grade score else not_evaluated) ≡ grade_a → 90 ≤ score
unfolding grade
best_total days score h = ground arith

daily_rate :
    (s : SpendingSummary) → 16 ≤ calc_daily_limit_score s → 7000 ≤ s.daily_limit_compliance_rate
unfolding calc_daily_limit_score
daily_rate s h = ground arith

report_of-best :
    (user year semester : ℕ) (period : ℕ × ℕ) (spending : SpendingSummary)
    (logs : List InferenceLog) (events : List EventSpendingStat) (entries : List BlacklistEntry)
    → let r = report_of user year semester period spending (fds_summary_of logs) events entries in
      r.overall_grade ≡ grade_a
      → (r.fds.high_count ≤ 1)
        × (r.fds.medium_count ≤ 3)
        × (7000 ≤ r.spending.daily_limit_compliance_rate)
unfolding report_of calc_score_breakdown fds_summary_of safety_of
report_of-best user year semester period spending logs events entries h =
    let e = event_score-le events in
    let r = regularity_score-le spending in
    let s = safety_score-le user (fds_summary_of logs) entries in
    let d = daily_score-le spending in
    let total = best_total spending.total_log_days _ h in
    let limit = daily_rate spending (omega (arith, e, r, s, d, total)) in
    (omega (arith, e, r, s, d, total), omega (arith, e, r, s, d, total), limit)

days_bounded : (day n : ℕ) (limits : List (ℕ × ℕ)) → length (daily_from day n limits) ≤ n
unfolding daily_from
days_bounded day zero limits = omega arith
days_bounded day (suc n) limits = ground (arith, days_bounded (suc day) n limits)

days_grow :
    (day n : ℕ) (limits : List (ℕ × ℕ)) (k : ℕ)
    → k ≤ length (daily_from (suc day) n limits)
    → k ≤ length (daily_from day (suc n) limits)
unfolding daily_from
days_grow day n limits k h = ground (arith, h)

day_here :
    (day n t v : ℕ) (limits : List (ℕ × ℕ))
    → (kst_date t == day) ≡ true
    → 1 ≤ length (daily_from day (suc n) ((t, v) ∷ limits))
unfolding daily_from
day_here day n t v limits h = ground (arith, h)

logged_day :
    (day n t v : ℕ) (limits : List (ℕ × ℕ))
    → day ≤ kst_date t
    → kst_date t < day + n
    → 1 ≤ length (daily_from day n ((t, v) ∷ limits))
unfolding daily_from
logged_day day zero t v limits a b = absurd (omega (arith, a, b))
logged_day day (suc n) t v limits a b = elim (Bool-cases (kst_date t == day)) [
  | inl today ↦ day_here day n t v limits today
  | inr later ↦
      days_grow day n ((t, v) ∷ limits) 1
        (logged_day (suc day) n t v limits (ground (arith, a, later)) (omega (arith, b)))
]

summary_days :
    (sqrt : Ratio → Ratio) (p : Option Profile) (start : ℕ) (daily : List (ℕ × Ratio))
    → (summary_of sqrt p start daily).total_log_days ≡ length daily
unfolding summary_of
summary_days sqrt p start [] = refl
summary_days sqrt p start (d ∷ ds) = refl

limits_first :
    (user now v : ℕ) (bounds : ℕ × ℕ) (logs : List AnalysisLog)
    → bounds.0 ≤ now
    → now < bounds.1
    → limits_between user bounds
        (record { user_id = user; daily_limit = some v; created_at = now } ∷ logs)
      ≡ (now, v) ∷ limits_between user bounds logs
unfolding limits_between
limits_first user now v bounds logs a b = ground (arith, a, b)

-- A report of the highest grade has at most one HIGH and three MEDIUM detections in the semester,
-- and a positive limit on at least 70% of the days with a log.
report_best :
    (sqrt : Ratio → Ratio) (user year semester : ℕ) (db : Database)
    → let r = get_semester_report sqrt user year semester db in
      r.overall_grade ≡ grade_a
      → (r.fds.high_count ≤ 1)
        × (r.fds.medium_count ≤ 3)
        × (7000 ≤ r.spending.daily_limit_compliance_rate)
unfolding get_semester_report get_fds_summary
report_best sqrt user year semester db =
    report_of-best user year semester (semester_period year semester) _ _ _ db.blacklist

start-pos : (year semester : ℕ) → 1 ≤ (semester_period year semester).0
unfolding semester_period to_ordinal
start-pos year semester = ground arith

logged_once :
    (user now v start end : ℕ) (logs : List AnalysisLog)
    → 1 ≤ start
    → start ≤ kst_date now
    → kst_date now ≤ end
    → 1
      ≤ length (
          daily_limits user start end
            (record { user_id = user; daily_limit = some v; created_at = now } ∷ logs))
unfolding daily_limits
logged_once user now v start end logs h a b =
    let (_, from_dates) = kst_day_bounds_iff start end now h in
    let (lo, hi) = from_dates (a, b) in
    rw (limits_first user now v (kst_day_bounds start end) logs lo hi)
      (logged_day start (end + 1 - start) now v _ a (omega (arith, a, b)))

-- After one daily limit that is computed on a day of the semester, the report is graded, whatever
-- was logged before.
report_graded :
    (sqrt : Ratio → Ratio) (req : DailyLimitRequest) (now year semester : ℕ) (w : World)
    → (semester_period year semester).0 ≤ kst_date now
    → kst_date now ≤ (semester_period year semester).1
    → let db = (calculate_daily_limit req now w).1.db in
      (get_semester_report sqrt req.user_id year semester db).overall_grade ≢ not_evaluated
unfolding get_semester_report calculate_daily_limit report_of
report_graded sqrt req now year semester w a b graded =
    let db = (calculate_daily_limit req now w).1.db in
    let (_, _, unlogged) = report_total sqrt req.user_id year semester db in
    let (start, end) = semester_period year semester in
    let days =
      summary_days sqrt (find (λ (p : Profile). p.user_id == req.user_id) db.profiles) start
        (daily_limits req.user_id start end db.analysis_logs) in
    let once =
      logged_once req.user_id now ((calculate_daily_limit req now w).0.daily_limit * 10000) start
        end w.db.analysis_logs (start-pos year semester) a b in
    omega (arith, days, once, unlogged.0 graded)
