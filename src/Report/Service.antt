-- ===== src/Report/Service.antt =====
-- The scores, the message, the badges and `get_semester_report`.
use moaje_work.Prelude.{
  ℕ, ◌+◌, ◌-◌, ◌*◌, Bool, true, false, ◌&&◌, ◌||◌, Option, none, some, List, [], ◌∷◌, ◌++◌, map,
  ◌==◌, ltb, leb, min, max, if◌then◌else◌, filter, any, find, sum, length,
}
use moaje_work.Decimal.{Ratio}
use moaje_work.Time.{to_ordinal}
use moaje_work.Spending.{midterm, final, Profile}
use moaje_work.Fds.{BlacklistEntry}
use moaje_work.Database.{Database}
use moaje_work.Report.{
  SpendingSummary, FdsSummary, EventSpendingStat, ScoreBreakdown, SemesterReport, Grade, grade,
  grade_a, grade_b, grade_c, grade_d, not_evaluated, SummaryMessage, not_enough_records,
  perfect_semester, costly_exams, steady_habits, detections_found, use_limit_more, plan_together,
  Badge, first_report_empty, perfectly_safe, safety_grade_a, limit_keeper, regular_spender,
  busy_spender, exam_saver, exam_cafe_regular, night_owl, lunch_king, evening_spender, first_report,
}
use moaje_work.Report.Limits.{daily_limits, summary_of}
use moaje_work.Report.Detections.{get_fds_summary}
use moaje_work.Report.Events.{get_event_stats}

-- `SEMESTER_PERIODS`, and the fallback of other years.
unfoldable pub semester_period : ℕ → ℕ → ℕ × ℕ
semester_period year semester =
    if (year == 2026) && (semester == 1)
    then (to_ordinal 2026 3 2, to_ordinal 2026 6 20)
    else if (year == 2026) && (semester == 2)
    then (to_ordinal 2026 9 1, to_ordinal 2026 12 20)
    else if (year == 2025) && (semester == 1)
    then (to_ordinal 2025 3 3, to_ordinal 2025 6 20)
    else if (year == 2025) && (semester == 2)
    then (to_ordinal 2025 9 1, to_ordinal 2025 12 19)
    else if semester == 1
    then (to_ordinal year 3 1, to_ordinal year 6 30)
    else (to_ordinal year 9 1, to_ordinal year 12 31)

-- An entry counts whether it is active or not.
unfoldable pub calc_safety_score : ℕ → FdsSummary → List BlacklistEntry → ℕ
calc_safety_score user fds entries =
    if any (λ (e : BlacklistEntry). e.user_id == user) entries
    then fds.safety_score - 10
    else fds.safety_score

unfoldable pub calc_daily_limit_score : SpendingSummary → ℕ
calc_daily_limit_score spending =
    let rate = spending.daily_limit_compliance_rate in
    if spending.total_log_days == 0
    then 0
    else if leb 9000 rate
    then 30
    else if leb 7000 rate
    then 22
    else if leb 5000 rate
    then 15
    else 7

abbrev pub ratio_of : EventSpendingStat → ℕ
ratio_of e = e.vs_normal_ratio

-- The average ratio of the events against a bound in hundredths.
abbrev average_at_most : ℕ → List EventSpendingStat → Bool
average_at_most bound events = leb (sum (map ratio_of events)) (bound * length events)

unfoldable pub calc_event_score : List EventSpendingStat → ℕ
calc_event_score [] = 20
calc_event_score (e ∷ events) =
    if average_at_most 120 (e ∷ events)
    then 20
    else if average_at_most 150 (e ∷ events)
    then 15
    else if average_at_most 200 (e ∷ events)
    then 10
    else 5

unfoldable pub calc_regularity_score : SpendingSummary → ℕ
calc_regularity_score spending = elim spending.daily_limit_cv [
  | none ↦ 0
  | some cv ↦ if leb cv 500 then 10 else if leb cv 800 then 7 else if leb cv 1200 then 5 else 3
]

unfoldable pub calc_score_breakdown :
    ℕ → FdsSummary → SpendingSummary → List EventSpendingStat → List BlacklistEntry → ScoreBreakdown
calc_score_breakdown user fds spending events entries =
    let safety = calc_safety_score user fds entries in
    let daily_limit = calc_daily_limit_score spending in
    let event = calc_event_score events in
    let regularity = calc_regularity_score spending in
    record {
      safety_score = safety;
      daily_limit_score = daily_limit;
      event_score = event;
      regularity_score = regularity;
      total = max 0 (min 100 (safety + daily_limit + event + regularity));
    }

abbrev pub is_exam : EventSpendingStat → Bool
is_exam e = elim e.event_type [ midterm ↦ true | final ↦ true | _ ↦ false ]

abbrev pub max_ratio : ℕ → List EventSpendingStat → ℕ
max_ratio d [] = d
max_ratio d (e ∷ []) = e.vs_normal_ratio
max_ratio d (e ∷ f ∷ es) = max e.vs_normal_ratio (max_ratio d (f ∷ es))

unfoldable pub generate_summary : Grade → FdsSummary → List EventSpendingStat → SummaryMessage
generate_summary g fds events =
    let exam_ratio = max_ratio 100 (filter is_exam events) in
    elim g [
      | not_evaluated ↦ not_enough_records
      | grade_a ↦ perfect_semester
      | grade_b ↦ if ltb 150 exam_ratio then costly_exams exam_ratio else steady_habits
      | grade_c ↦ if ltb 0 fds.high_count then detections_found fds.high_count else use_limit_more
      | grade_d ↦ plan_together
    ]

abbrev pub when : Bool → Badge → List Badge
when b badge = if b then badge ∷ [] else []

abbrev average_at_least : ℕ → List EventSpendingStat → Bool
average_at_least bound events = leb (bound * length events) (sum (map ratio_of events))

unfoldable pub exam_badges : List EventSpendingStat → List Badge
exam_badges [] = []
exam_badges (e ∷ es) =
    if average_at_most 120 (e ∷ es)
    then exam_saver ∷ []
    else when (average_at_least 200 (e ∷ es)) exam_cafe_regular

unfoldable pub hour_badges : ℕ → List Badge
hour_badges hour =
    if leb hour 5
    then night_owl ∷ []
    else if leb 11 hour && leb hour 13
    then lunch_king ∷ []
    else when (leb 18 hour && leb hour 22) evening_spender

abbrev pub regular : Option ℕ → Bool
regular none = false
regular (some cv) = leb cv 500

abbrev pub is_a : Grade → Bool
is_a g = elim g [ grade_a ↦ true | _ ↦ false ]

unfoldable pub earned_badges : SpendingSummary → FdsSummary → List EventSpendingStat → List Badge
unfolding exam_badges hour_badges
earned_badges spending fds events =
    when ((fds.high_count == 0) && (fds.medium_count == 0)) perfectly_safe
    ++ when (is_a fds.safety_grade) safety_grade_a
    ++ when (ltb 0 spending.total_log_days && leb 9000 spending.daily_limit_compliance_rate)
        limit_keeper
    ++ when (regular spending.daily_limit_cv) regular_spender
    ++ when (leb 50 spending.total_tx_count) busy_spender
    ++ exam_badges (filter is_exam events)
    ++ hour_badges spending.peak_spend_hour

abbrev pub or_first : List Badge → List Badge
or_first [] = first_report ∷ []
or_first (b ∷ bs) = b ∷ bs

unfoldable pub generate_badges : SpendingSummary → FdsSummary → List EventSpendingStat → List Badge
generate_badges spending fds events =
    if ltb 0 spending.total_log_days || ltb 0 spending.total_tx_count
    then or_first (earned_badges spending fds events)
    else first_report_empty ∷ []

unfoldable pub report_of :
    ℕ
    → ℕ
    → ℕ
    → ℕ × ℕ
    → SpendingSummary
    → FdsSummary
    → List EventSpendingStat
    → List BlacklistEntry
    → SemesterReport
report_of user year semester period spending fds events entries =
    let scores = calc_score_breakdown user fds spending events entries in
    let overall_grade =
      if ltb 0 spending.total_log_days then grade scores.total else not_evaluated in
    record {
      user_id = user;
      year = year;
      semester = semester;
      period_start = period.0;
      period_end = period.1;
      spending = spending;
      fds = fds;
      events = events;
      score_breakdown = scores;
      overall_grade = overall_grade;
      overall_score = scores.total;
      summary_message = generate_summary overall_grade fds events;
      badges = generate_badges spending fds events;
    }

unfoldable pub get_semester_report : (Ratio → Ratio) → ℕ → ℕ → ℕ → Database → SemesterReport
get_semester_report sqrt user year semester db =
    let (start, end) = semester_period year semester in
    let profile = find (λ (p : Profile). p.user_id == user) db.profiles in
    let spending = summary_of sqrt profile start (daily_limits user start end db.analysis_logs) in
    let fds = get_fds_summary user start end db.inference_logs in
    let events =
      get_event_stats user start end spending.avg_daily_limit db.schedules db.analysis_logs in
    report_of user year semester (start, end) spending fds events db.blacklist
