-- ===== src/Schedules/Fresh.antt =====
-- Which event buffer a user reads after the schedules changed, and after the tables failed.
use moaje_work.Prelude.{
  ℕ, ◌+◌, ◌≡◌, ap, ◌∙◌, true, false, none, some, List, [], ◌∷◌, ◌++◌, arith, if◌then◌else◌, Bool,
}
use moaje_work.Time.{kst_date}
use moaje_work.Spending.{AcademicSchedule}
use moaje_work.Database.{World, Redis, Environment}
use moaje_work.Database.Cache.{
  get-delete, get_event_buffer_cache, set_event_buffer_cache, delete_event_buffer_cache,
}
use moaje_work.Schedules.{
  in_week, event_buffer_of, get_event_buffer, read_event_buffer, AcademicScheduleCreate,
  new_schedule, create_academic_schedule, add_schedule, drop_buffer, publish_schedule_updated,
}

deleted :
    (user : ℕ) (r : Redis) → get_event_buffer_cache user (delete_event_buffer_cache user r) ≡ none
unfolding get_event_buffer_cache delete_event_buffer_cache
deleted user r = ground (arith, get-delete user user r.event_buffers)

written :
    (user buffer : ℕ) (r : Redis)
    → r.available ≡ true
    → get_event_buffer_cache user (set_event_buffer_cache user buffer r) ≡ some buffer
unfolding get_event_buffer_cache set_event_buffer_cache
written user buffer r h = ground arith

module _ (env : Environment) (user : ℕ) (w : World) where
  -- Without a cached value the buffer is the table's, or 0 where that does not answer.
  read_tables :
      get_event_buffer_cache user w.redis ≡ none
      → env.database_available ≡ true
      → (get_event_buffer env user w).0 ≡ event_buffer_of (kst_date env.now) user w.db.schedules
  unfolding get_event_buffer
  read_tables miss db = ground arith

  read_cached :
      (buffer : ℕ)
      → get_event_buffer_cache user w.redis ≡ some buffer
      → (get_event_buffer env user w).0 ≡ buffer
  unfolding get_event_buffer
  read_cached buffer hit = ground arith

  endpoint_writes :
      w.redis.available ≡ true
      → get_event_buffer_cache user w.redis ≡ none
      → get_event_buffer_cache user (read_event_buffer env user w).1.redis
        ≡ some (
            if env.database_available
            then event_buffer_of (kst_date env.now) user w.db.schedules
            else 0)
  unfolding read_event_buffer get_event_buffer set_event_buffer_cache get_event_buffer_cache
  endpoint_writes up miss = ground arith

sum-append :
    (today user : ℕ) (xs : List AcademicSchedule) (s : AcademicSchedule)
    → event_buffer_of today user (xs ++ s ∷ [])
      ≡ event_buffer_of today user xs + (if in_week today user s then s.expected_extra_spend else 0)
unfolding event_buffer_of
sum-append today user [] s = ground arith
sum-append today user (x ∷ xs) s = ground (arith, sum-append today user xs s)

cache_up :
    (user : ℕ) (r r' : Redis)
    → r' ≡ delete_event_buffer_cache user r
    → r.available ≡ true
    → r'.available ≡ true
unfolding delete_event_buffer_cache
cache_up user r r' e up = rw e (ground arith)

endpoint_zero :
    (env : Environment) (user : ℕ) (w : World)
    → get_event_buffer_cache user w.redis ≡ none
    → env.database_available ≡ false
    → (read_event_buffer env user w).0 ≡ 0
unfolding read_event_buffer get_event_buffer
endpoint_zero env user w miss db = ground arith

pub created :
    (env : Environment) (body : AcademicScheduleCreate) (w : World)
    → ((create_academic_schedule env body w).redis ≡ delete_event_buffer_cache body.user_id w.redis)
      × ((create_academic_schedule env body w).db.schedules
          ≡ w.db.schedules ++ new_schedule env body ∷ [])
unfolding create_academic_schedule publish_schedule_updated drop_buffer add_schedule
created env body w = (ground arith, ground arith)

-- Redis answers from now on, or does not.
abbrev pub switched : Bool → World → World
switched up w = record w { redis = record w.redis { available = up } }

deleted_stays :
    (user : ℕ) (up : Bool) (r : Redis)
    → r.available ≡ true
    → get_event_buffer_cache user (record (delete_event_buffer_cache user r) { available = up })
      ≡ none
unfolding get_event_buffer_cache delete_event_buffer_cache
deleted_stays user up r h = ground (arith, h, get-delete user user r.event_buffers)

-- Once a schedule is registered while Redis answers, the buffer that its user reads next from
-- answering tables is that of the schedules before, and the new extra spending where the schedule
-- touches the week.
pub schedule_counted :
    (env env' : Environment) (up : Bool) (body : AcademicScheduleCreate) (w : World)
    → w.redis.available ≡ true
    → env'.database_available ≡ true
    → let today = kst_date env'.now in
      (get_event_buffer env' body.user_id (switched up (create_academic_schedule env body w))).0
      ≡ event_buffer_of today body.user_id w.db.schedules
        + (if in_week today body.user_id (new_schedule env body)
            then body.expected_extra_spend
            else 0)
schedule_counted env env' up body w answers db =
    let w' = switched up (create_academic_schedule env body w) in
    let (cache, rows) = created env body w in
    read_tables env' body.user_id w'
      (ap (λ r. get_event_buffer_cache body.user_id (record r { available = up })) cache
        ∙ deleted_stays body.user_id up w.redis answers)
      db
    ∙ ap (event_buffer_of (kst_date env'.now) body.user_id) rows
    ∙ sum-append (kst_date env'.now) body.user_id w.db.schedules (new_schedule env body)

-- A registration whose session is still open while another request reads the buffer from the
-- committed tables, as `get_db` commits only after the endpoint has returned.
unfoldable pub register_while_reading :
    Environment → Environment → AcademicScheduleCreate → World → World
register_while_reading env reader body w =
    let open_session = create_academic_schedule env body w in
    let read = (read_event_buffer reader body.user_id (record open_session { db = w.db })).1 in
    record read { db = open_session.db }

-- If Redis answers and a read falls between the registration's deletion of the cached buffer and
-- its commit, whoever reads the buffer next is shown the one without the new schedule.
pub stale_buffer :
    (env reader env' : Environment) (body : AcademicScheduleCreate) (w : World)
    → w.redis.available ≡ true
    → reader.database_available ≡ true
    → (get_event_buffer env' body.user_id (register_while_reading env reader body w)).0
      ≡ event_buffer_of (kst_date reader.now) body.user_id w.db.schedules
unfolding register_while_reading
stale_buffer env reader env' body w up db =
    let user = body.user_id in
    let open_session = record (create_academic_schedule env body w) { db = w.db } in
    let (cache, _) = created env body w in
    let kept : open_session.redis.available ≡ true =
      cache_up user w.redis open_session.redis cache up in
    let miss = ap (get_event_buffer_cache user) cache ∙ deleted user w.redis in
    read_cached env' user (register_while_reading env reader body w)
      (event_buffer_of (kst_date reader.now) user w.db.schedules)
      (endpoint_writes reader user open_session kept miss
        ∙ ap
            (λ b. some (if b then event_buffer_of (kst_date reader.now) user w.db.schedules else 0))
            db)

-- If Redis answers but holds no buffer of the user and the database does not answer, the endpoint
-- answers 0 and caches it: whoever reads the buffer next is shown 0, also when the database
-- answers again.
pub failed_read_cached :
    (env env' : Environment) (user : ℕ) (w : World)
    → w.redis.available ≡ true
    → get_event_buffer_cache user w.redis ≡ none
    → env.database_available ≡ false
    → ((read_event_buffer env user w).0 ≡ 0)
      × ((get_event_buffer env' user (read_event_buffer env user w).1).0 ≡ 0)
failed_read_cached env env' user w up miss db = (
  endpoint_zero env user w miss db,
  read_cached env' user (read_event_buffer env user w).1 0 (
      endpoint_writes env user w up miss
      ∙ ap (λ b. some (if b then event_buffer_of (kst_date env.now) user w.db.schedules else 0))
          db),
)
