-- ===== src/Schedules.antt =====
-- The academic schedules: app/api/v1/endpoints/spending.py and calendar.py, and
-- `get_event_buffer` of app/services/ai/spending_service.py. The dates of a schedule are day
-- numbers, since all writers store dates without a time of the day. The session of an endpoint is
-- committed when it returns and rolled back when it raises (app/db/session.py); the cache and the
-- messages are not. Registration, sync and lists are modelled in a session whose database answers;
-- where it does not, Access.run_request leaves nothing of the request.
pub mod Resync
pub mod Sync
pub mod Fresh
pub mod Listing
use moaje_work.Prelude.{
  ℕ, ◌+◌, Bool, true, false, not, ◌&&◌, Option, none, some, List, [], ◌∷◌, ◌++◌, map, String, ◌==◌,
  ltb, leb, if◌then◌else◌, filter, find, sum, update_where,
}
use moaje_work.Time.{kst_date}
use moaje_work.Spending.{AcademicSchedule, AcademicCalendar, University, EventType}
use moaje_work.Database.{
  World, Database, Environment, Error, Result, ok, err, kafka_error, not_found, UpdateKind,
  registered, calendar_sync,
}
use moaje_work.Database.Cache.{
  get_event_buffer_cache, set_event_buffer_cache, delete_event_buffer_cache,
}

-- The schedules of a user that touch the week from `today`.
abbrev pub in_week : ℕ → ℕ → AcademicSchedule → Bool
in_week today user s = s.user_id == user && (leb today s.end_date && leb s.start_date (today + 7))

abbrev pub extra_spend : AcademicSchedule → ℕ
extra_spend s = s.expected_extra_spend

unfoldable pub event_buffer_of : ℕ → ℕ → List AcademicSchedule → ℕ
event_buffer_of today user schedules = sum (map extra_spend (filter (in_week today user) schedules))

-- The service: Redis, then the table, then 0 when the database does not answer.
unfoldable pub get_event_buffer : Environment → ℕ → World → ℕ × World
get_event_buffer env user w = elim (get_event_buffer_cache user w.redis) [
  | some cached ↦ (cached, w)
  | none ↦
      let buffer = event_buffer_of (kst_date env.now) user w.db.schedules in
      if env.database_available
      then (buffer, record w { redis = set_event_buffer_cache user buffer w.redis })
      else (0, w)
]

-- The endpoint, which writes whatever the service returned to the cache.
unfoldable pub read_event_buffer : Environment → ℕ → World → ℕ × World
read_event_buffer env user w = elim (get_event_buffer_cache user w.redis) [
  | some cached ↦ (cached, w)
  | none ↦
      let (buffer, w') = get_event_buffer env user w in
      (buffer, record w' { redis = set_event_buffer_cache user buffer w'.redis })
]

unfoldable pub publish_schedule_updated :
    Environment → ℕ → UpdateKind → ℕ → World → Result (Unit {0}) × World
publish_schedule_updated env user kind buffer w =
    if env.kafka_available
    then (
      ok tt,
      record w {
        schedule_updates =
            w.schedule_updates
            ++ record { user_id = user; event_type = kind; event_buffer = buffer } ∷ [];
      },
    )
    else (err kafka_error, w)

-- `AcademicScheduleCreate`, after `ensure_self`.
pub record AcademicScheduleCreate : Type 0 where
  pub user_id : ℕ
  pub event_type : EventType
  pub event_name : String
  pub start_date : ℕ
  pub end_date : ℕ
  pub expected_extra_spend : ℕ

-- The row of a registration, with a generated id; `is_auto` takes the column's default, and
-- `created_at` the time of the database.
abbrev pub new_schedule : Environment → AcademicScheduleCreate → AcademicSchedule
new_schedule env body = record {
  id = env.next_id;
  user_id = body.user_id;
  event_type = body.event_type;
  event_name = body.event_name;
  start_date = body.start_date;
  end_date = body.end_date;
  expected_extra_spend = body.expected_extra_spend;
  is_auto = false;
  created_at = env.now;
}

unfoldable pub add_schedule : AcademicSchedule → World → World
add_schedule s w = record w { db = record w.db { schedules = w.db.schedules ++ s ∷ [] } }

unfoldable pub drop_buffer : ℕ → World → World
drop_buffer user w = record w { redis = delete_event_buffer_cache user w.redis }

-- A publisher that fails is logged and ignored.
unfoldable pub create_academic_schedule : Environment → AcademicScheduleCreate → World → World
create_academic_schedule env body w =
    (publish_schedule_updated env body.user_id (registered body.event_type)
      body.expected_extra_spend
      (drop_buffer body.user_id (add_schedule (new_schedule env body) w))).1

-- `order_by(start_date)`; rows with the same date keep the order of the table.
module _ {ℓ} {A : Type ℓ} (start : A → ℕ) where
  abbrev pub insert_by_start : A → List A → List A
  insert_by_start x [] = x ∷ []
  insert_by_start x (y ∷ ys) =
      let rest = insert_by_start x ys in if leb (start x) (start y) then x ∷ y ∷ ys else y ∷ rest

  abbrev pub sort_by_start : List A → List A
  sort_by_start [] = []
  sort_by_start (x ∷ xs) = insert_by_start x (sort_by_start xs)

-- `min(cal.start_date for cal in calendars)` and `max(cal.end_date …)` of calendars that begin
-- with the given one.
abbrev pub sync_start : AcademicCalendar → List AcademicCalendar → ℕ
sync_start c [] = c.start_date
sync_start c (d ∷ cs) = let m = sync_start d cs in if ltb m c.start_date then m else c.start_date

abbrev pub sync_end : AcademicCalendar → List AcademicCalendar → ℕ
sync_end c [] = c.end_date
sync_end c (d ∷ cs) = let m = sync_end d cs in if ltb c.end_date m then m else c.end_date

abbrev pub is_replaced : ℕ → ℕ → ℕ → AcademicSchedule → Bool
is_replaced user first last s =
    s.user_id == user && (s.is_auto && (leb first s.start_date && leb s.start_date last))

abbrev pub schedule_of : Environment → ℕ → ℕ → AcademicCalendar → AcademicSchedule
schedule_of env user id c = record {
  id = id;
  user_id = user;
  event_type = c.event_type;
  event_name = c.event_name;
  start_date = c.start_date;
  end_date = c.end_date;
  expected_extra_spend = c.default_extra_spend;
  is_auto = true;
  created_at = env.now;
}

-- The rows of the calendars, with the ids that are generated from the given one on.
abbrev pub schedules_of : Environment → ℕ → ℕ → List AcademicCalendar → List AcademicSchedule
schedules_of env user id [] = []
schedules_of env user id (c ∷ cs) = schedule_of env user id c ∷ schedules_of env user (id + 1) cs

-- The deletion and the insertions of `sync_calendar`, for calendars that begin with the given one.
unfoldable pub sync_schedules :
    Environment
    → ℕ
    → AcademicCalendar
    → List AcademicCalendar
    → List AcademicSchedule
    → List AcademicSchedule
sync_schedules env user c cs schedules =
    filter (λ s. not (is_replaced user (sync_start c cs) (sync_end c cs) s)) schedules
    ++ schedules_of env user env.next_id (c ∷ cs)

-- `CalendarSyncRequest`, after `ensure_self`.
pub record CalendarSyncRequest : Type 0 where
  pub user_id : ℕ
  pub university_id : ℕ
  pub year : ℕ
  pub semester : ℕ

abbrev pub is_calendar : CalendarSyncRequest → AcademicCalendar → Bool
is_calendar req c =
    c.university_id == req.university_id && (c.year == req.year && c.semester == req.semester)

unfoldable pub calendars_of : CalendarSyncRequest → Database → List AcademicCalendar
calendars_of req db =
    sort_by_start (λ (c : AcademicCalendar). c.start_date) (filter (is_calendar req) db.calendars)

unfoldable pub sync_tables :
    Environment → CalendarSyncRequest → AcademicCalendar → List AcademicCalendar → World → World
unfolding sync_schedules
sync_tables env req c cs w = record w {
  db = record w.db {
    schedules = sync_schedules env req.user_id c cs w.db.schedules;
    profiles =
        update_where (λ p. p.user_id == req.user_id)
          (λ p. record p { university_id = some req.university_id }) w.db.profiles;
  };
}

-- What is left of an endpoint's world when it raises: its cache and its messages.
unfoldable pub undo_tables : World → World → World
undo_tables before after = record after { db = before.db }

-- The request's session for calendars that begin with the given one. The response counts the
-- schedules that were written.
unfoldable pub sync_found :
    Environment
    → CalendarSyncRequest
    → AcademicCalendar
    → List AcademicCalendar
    → World
    → Result (List AcademicSchedule) × World
sync_found env req c cs w =
    let new_schedules = schedules_of env req.user_id env.next_id (c ∷ cs) in
    let synced = drop_buffer req.user_id (sync_tables env req c cs w) in
    let (sent, w') =
      publish_schedule_updated env req.user_id calendar_sync (sum (map extra_spend new_schedules))
        synced in
    elim sent [ ok _ ↦ (ok new_schedules, w') | err e ↦ (err e, undo_tables w w') ]

unfoldable pub sync_calendar :
    Environment → CalendarSyncRequest → World → Result (List AcademicSchedule) × World
sync_calendar env req w =
    elim (find (λ (u : University). u.id == req.university_id) w.db.universities) [
      | none ↦ (err not_found, w)
      | some _ ↦ elim (calendars_of req w.db) [
        | [] ↦ (err not_found, w)
        | c ∷ cs ↦ sync_found env req c cs w
      ]
    ]
