-- ===== src/Report/Events.antt =====
-- `_get_event_stats`: what the limits of the days of an academic event were, against the average.
use moaje_work.Prelude.{
  ℕ, ◌+◌, ◌-◌, ◌*◌, Bool, true, false, ◌&&◌, List, [], ◌∷◌, map, ◌==◌, leb, ltb, max, if◌then◌else◌,
  filter,
}
use moaje_work.Decimal.{Ratio, frac, round_half_even}
use moaje_work.Time.{kst_day_bounds}
use moaje_work.Spending.{
  AcademicSchedule, AnalysisLog, EventType, exam, mt, festival, vacation, employment,
  semester_start, semester_end, midterm, final, holiday,
}
use moaje_work.Schedules.{sort_by_start}
use moaje_work.Report.{EventSpendingStat}
use moaje_work.Report.Limits.{limits_between, mean}

-- `EVENT_TYPES_FOR_REPORT`
unfoldable pub is_reported : EventType → Bool
is_reported t = elim t [
  | midterm ↦ true
  | final ↦ true
  | mt ↦ true
  | festival ↦ true
  | employment ↦ true
  | exam ↦ false
  | vacation ↦ false
  | semester_start ↦ false
  | semester_end ↦ false
  | holiday ↦ false
]

abbrev amount_of : ℕ × ℕ → ℕ
amount_of l = l.1

-- `Decimal(str(log_r.scalar() or 0))`
unfoldable pub event_average : ℕ → ℕ × ℕ → List AnalysisLog → Ratio
event_average user bounds logs = elim (map amount_of (limits_between user bounds logs)) [
  | [] ↦ frac 0 1
  | v ∷ vs ↦ mean (v ∷ vs)
]

-- `avg_daily` is in whole won.
unfoldable pub event_stat_of : Ratio → ℕ → AcademicSchedule → EventSpendingStat
event_stat_of event_avg avg_daily s =
    let days = max (s.end_date + 1 - s.start_date) 1 in
    record {
      event_type = s.event_type;
      event_name = s.event_name;
      start_date = s.start_date;
      end_date = s.end_date;
      period_days = days;
      avg_daily_spend = round_half_even event_avg.num (event_avg.den * 10000);
      total_spend = round_half_even (event_avg.num * days) (event_avg.den * 10000);
      vs_normal_ratio =
          if ltb 0 avg_daily
          then round_half_even (event_avg.num * 100) (event_avg.den * 10000 * avg_daily)
          else 100;
    }

abbrev is_event_between : ℕ → ℕ → ℕ → AcademicSchedule → Bool
is_event_between user start end s =
    s.user_id == user
    && (leb start s.start_date && (leb s.end_date end && is_reported s.event_type))

unfoldable pub get_event_stats :
    ℕ → ℕ → ℕ → ℕ → List AcademicSchedule → List AnalysisLog → List EventSpendingStat
unfolding event_average event_stat_of
get_event_stats user start end avg_daily schedules logs =
    map
      (λ (s : AcademicSchedule).
        event_stat_of (event_average user (kst_day_bounds s.start_date s.end_date) logs) avg_daily
          s)
      (sort_by_start (λ (s : AcademicSchedule). s.start_date)
        (filter (is_event_between user start end) schedules))
