-- ===== src/Tests/Requests.antt =====
-- Concrete runs of the schedules, the requests, the budget, the alerts and the whole service.
use moaje_work.Schedules.Resync.{contents}
use moaje_work.Prelude.{
  ℕ, ◌+◌, ◌*◌, ◌≤◌, ◌≡◌, ◌↔◌, ◌⊎◌, refl, arith, true, false, some, none, List, [], ◌∷◌, filter,
  length, any, ◌==◌, if◌then◌else◌,
}
use moaje_work.Time.{kst_date}
use moaje_work.Spending.{AcademicCalendar, final, midterm, mt}
use moaje_work.Fds.{AlertLog, high}
use moaje_work.Database.{World, FdsAlertEvent, Error, ok, err, Environment}
use moaje_work.Database.Cache.{get_event_buffer_cache}
use moaje_work.Schedules.{
  new_schedule, CalendarSyncRequest, sync_calendar, event_buffer_of, in_week, get_event_buffer,
  read_event_buffer, create_academic_schedule, AcademicScheduleCreate,
}
use moaje_work.Schedules.Sync.{sync_again, sync_keeps, is_kept}
use moaje_work.Schedules.Fresh.{register_while_reading, stale_buffer, failed_read_cached, switched}
use moaje_work.Spending.DailyLimit.{DailyLimitResponse}
use moaje_work.Budget.{BudgetRequest, get_daily_budget, budget_covers}
use moaje_work.Access.{get_authenticated_user_id, handle_request, post_schedule}
use moaje_work.Access.Header.{print_id, print_authenticated}
use moaje_work.Access.Owner.{IsForeignKept, foreign_kept}
use moaje_work.Alerts.{alert_of, confirm_fds_alert, alerts_of, unread_of}
use moaje_work.Alerts.Reading.{confirm_reads}
use moaje_work.Transactions.{is_accepted, transaction_key}
use moaje_work.Transactions.Retries.{Judged, deliver_in, verdict_in_the_end}
use moaje_work.System.{consume, user_registered, consumed, here, further}
use moaje_work.System.Invariant.{IsSound}
use moaje_work.System.Reachable.{Reach-IsSound}
use moaje_work.Tests.Fraud.{start, noon, no_kafka, zero_root, busy, purchase, empty_db}

abbrev pub no_database : Environment
no_database = record noon { database_available = false }

-- A trip two days after noon's date.
abbrev trip : AcademicScheduleCreate
trip = record {
  user_id = 7;
  event_type = mt;
  event_name = "MT";
  start_date = 3;
  end_date = 4;
  expected_extra_spend = 500000000;
}

abbrev exams : AcademicCalendar
exams = record {
  university_id = 1;
  year = 2026;
  semester = 1;
  event_type = midterm;
  event_name = "midterm";
  start_date = 50;
  end_date = 54;
  default_extra_spend = 300000000;
}

abbrev finals : AcademicCalendar
finals = record exams { event_type = final; event_name = "final"; start_date = 100; end_date = 104 }

abbrev campus : World
campus = record start {
  db = record empty_db {
    universities = record { id = 1; name = "Hanshin"; is_active = true } ∷ [];
    calendars = finals ∷ exams ∷ [];
    schedules = new_schedule noon trip ∷ [];
  };
}

abbrev first_semester : CalendarSyncRequest
first_semester = record { user_id = 7; university_id = 1; year = 2026; semester = 1 }

sync_again_example :
    contents
      (sync_calendar no_kafka first_semester (sync_calendar noon first_semester campus).1).1.db
    ≡ contents (sync_calendar noon first_semester campus).1.db
sync_again_example =
    sync_again noon no_kafka first_semester campus refl (omega arith, (omega arith, tt))

sync_keeps_example :
    filter (is_kept 7) (sync_calendar noon first_semester campus).1.db.schedules
    ≡ filter (is_kept 7) campus.db.schedules
sync_keeps_example = sync_keeps noon first_semester campus

stale_buffer_example :
    (get_event_buffer noon 7 (register_while_reading noon noon trip start)).0
    ≡ event_buffer_of (kst_date 100000) 7 []
stale_buffer_example = stale_buffer noon noon noon trip start refl refl

failed_read_cached_example :
    ((read_event_buffer no_database 7 start).0 ≡ 0)
    × ((get_event_buffer noon 7 (read_event_buffer no_database 7 start).1).0 ≡ 0)
unfolding get_event_buffer_cache
failed_read_cached_example = failed_read_cached no_database noon 7 start refl refl refl

abbrev asking : BudgetRequest
asking = record {
  user_id = 7;
  current_balance = 3000000000;
  expected_income = 0;
  fixed_expenses = 0;
  days_until_payday = 10;
}

budget_covers_example :
    (r : DailyLimitResponse) × ((get_daily_budget noon asking
        (switched false (create_academic_schedule noon trip start))).0
      ≡ ok r)
    × ((1000 ≤ r.daily_limit) ↔ (
        1000 * 10 * 10000
          + 0
          + (event_buffer_of (kst_date 100000) 7 []
              + (if in_week (kst_date 100000) 7 (new_schedule noon trip) then 500000000 else 0))
        ≤ 3000000000 + 0))
budget_covers_example =
    budget_covers noon noon false trip asking start 1000 refl refl refl (omega arith) (omega arith)
      (omega arith)

print_authenticated_example : get_authenticated_user_id (some (print_id 19 42)) ≡ ok 42
print_authenticated_example = print_authenticated 42 (omega arith) (omega arith)

foreign_kept_example :
    let (result, w') = handle_request none noon (some (55 ∷ [])) (post_schedule trip) campus in
    ((e : Error) × (result ≡ err e) × (w' ≡ campus))
    ⊎ ((user : ℕ) × (get_authenticated_user_id (some (55 ∷ [])) ≡ ok user)
        × (7 ≡ user)
        × IsForeignKept user campus.db w'.db)
foreign_kept_example = foreign_kept none noon (some (55 ∷ [])) (post_schedule trip) campus

abbrev raised : FdsAlertEvent
raised = record {
  user_id = 7;
  millis = 100000000;
  risk_level = high;
  reason_code = [];
  amount = 120000000;
  merchant = "cafe";
}

abbrev two_alerts : List AlertLog
two_alerts = record (alert_of noon raised) { user_id = 8; id = 2 } ∷ alert_of noon raised ∷ []

confirm_reads_example :
    (any (λ (a : AlertLog). a.id == 1) (unread_of 7 (confirm_fds_alert noon 7 1 two_alerts).1)
      ≡ false)
    × (length (alerts_of 7 (confirm_fds_alert noon 7 1 two_alerts).1)
        ≡ length (alerts_of 7 two_alerts))
    × (alerts_of 8 (confirm_fds_alert noon 7 1 two_alerts).1 ≡ alerts_of 8 two_alerts)
confirm_reads_example = confirm_reads noon 7 1 8 two_alerts (λ e. omega (arith, e))

verdict_in_the_end_example :
    Judged zero_root none purchase
      (deliver_in zero_root none purchase (no_kafka ∷ noon ∷ no_database ∷ []) busy)
unfolding is_accepted transaction_key
verdict_in_the_end_example =
    verdict_in_the_end zero_root none purchase (no_kafka ∷ noon ∷ no_database ∷ []) busy refl refl

Reach-IsSound_example : IsSound (consume zero_root none noon (user_registered (some 7)) start).db
Reach-IsSound_example =
    Reach-IsSound zero_root none start
      (consume zero_root none noon (user_registered (some 7)) start)
      (further start start _ (here start)
        (consumed noon (user_registered (some 7)) start (refl, refl)))
      (record { verdicts = tt; profiles = tt; alerts = tt })
