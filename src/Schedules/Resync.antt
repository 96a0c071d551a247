-- ===== src/Schedules/Resync.antt =====
-- What a calendar sync does to the table of schedules.
use moaje_work.Prelude.{
  ℕ, ◌≤◌, ◌+◌, ◌≡◌, refl, ap, sym, ◌∙◌, inl, inr, update_where, Bool-cases, Bool, true, not, List,
  [], ◌∷◌, ◌++◌, map, ◌==◌, leb, filter, arith, if◌then◌else◌, some, find,
}
use moaje_work.Spending.{AcademicSchedule, AcademicCalendar, University}
use moaje_work.Database.{World, Database, Environment}
use moaje_work.Schedules.{
  sync_start, sync_end, is_replaced, schedule_of, schedules_of, sync_schedules, sync_calendar,
  sync_found, sync_tables, drop_buffer, undo_tables, publish_schedule_updated, calendars_of,
  CalendarSyncRequest, insert_by_start, sort_by_start, is_calendar,
}

-- Each calendar ends on or after the day it starts.
abbrev pub IsOrdered : List AcademicCalendar → Type 0
IsOrdered [] = Unit
IsOrdered (c ∷ cs) = (c.start_date ≤ c.end_date) × IsOrdered cs

abbrev IsWithin : ℕ → ℕ → List AcademicCalendar → Type 0
IsWithin lo hi [] = Unit
IsWithin lo hi (c ∷ cs) = (lo ≤ c.start_date) × (c.start_date ≤ hi) × IsWithin lo hi cs

widen :
    (lo lo' hi hi' : ℕ) (cs : List AcademicCalendar)
    → lo' ≤ lo
    → hi ≤ hi'
    → IsWithin lo hi cs
    → IsWithin lo' hi' cs
widen lo lo' hi hi' [] a b h = tt
widen lo lo' hi hi' (c ∷ cs) a b (x, y, rest) =
    (omega (arith, a, x), omega (arith, b, y), widen lo lo' hi hi' cs a b rest)

sync-IsWithin :
    (c : AcademicCalendar) (cs : List AcademicCalendar)
    → IsOrdered (c ∷ cs)
    → IsWithin (sync_start c cs) (sync_end c cs) (c ∷ cs)
sync-IsWithin c [] (h, _) = (omega arith, h, tt)
sync-IsWithin c (d ∷ cs) (h, rest) = (
  ground (arith, h),
  ground (arith, h),
  widen (sync_start d cs) (sync_start c (d ∷ cs)) (sync_end d cs) (sync_end c (d ∷ cs)) (d ∷ cs)
      (ground arith) (ground arith) (sync-IsWithin d cs rest),
)

module _ {A : Type 0} (p : A → Bool) where
  pub filter-append : (xs ys : List A) → filter p (xs ++ ys) ≡ filter p xs ++ filter p ys
  filter-append [] ys = refl
  filter-append (x ∷ xs) ys = ground (arith, filter-append xs ys)

  filter-filter : (xs : List A) → filter p (filter p xs) ≡ filter p xs
  filter-filter [] = refl
  filter-filter (x ∷ xs) = ground (arith, filter-filter xs)

pub append_nil : {A : Type 0} (xs : List A) → xs ++ [] ≡ xs
append_nil [] = refl
append_nil (x ∷ xs) = ap (λ ys. x ∷ ys) (append_nil xs)

-- A schedule without the id and the time that the database gave its row.
abbrev pub content : AcademicSchedule → AcademicSchedule
content s = record s { id = 0; created_at = 0 }

abbrev pub contents : Database → Database
contents db = record db { schedules = map content db.schedules }

map-append :
    (xs ys : List AcademicSchedule) → map content (xs ++ ys) ≡ map content xs ++ map content ys
map-append [] ys = refl
map-append (x ∷ xs) ys = ap (λ zs. content x ∷ zs) (map-append xs ys)

content-new :
    (env env' : Environment) (user id id' : ℕ) (cs : List AcademicCalendar)
    → map content (schedules_of env user id cs) ≡ map content (schedules_of env' user id' cs)
content-new env env' user id id' [] = refl
content-new env env' user id id' (c ∷ cs) =
    ap (λ zs. content (schedule_of env user id c) ∷ zs)
      (content-new env env' user (id + 1) (id' + 1) cs)

-- The schedules of the calendars are themselves replaced by the next sync.
filter-new :
    (env : Environment) (user id lo hi : ℕ) (cs : List AcademicCalendar)
    → IsWithin lo hi cs
    → filter (λ s. not (is_replaced user lo hi s)) (schedules_of env user id cs) ≡ []
filter-new env user id lo hi [] h = refl
filter-new env user id lo hi (c ∷ cs) (a, b, rest) =
    ground (arith, filter-new env user (id + 1) lo hi cs rest)

pub sync_twice :
    (env env' : Environment) (user : ℕ) (c : AcademicCalendar) (cs : List AcademicCalendar)
    (schedules : List AcademicSchedule)
    → IsOrdered (c ∷ cs)
    → sync_schedules env' user c cs (sync_schedules env user c cs schedules)
      ≡ sync_schedules env' user c cs schedules
unfolding sync_schedules
sync_twice env env' user c cs schedules h =
    let p : AcademicSchedule → Bool =
      λ s. not (is_replaced user (sync_start c cs) (sync_end c cs) s) in
    let new = schedules_of env user env.next_id (c ∷ cs) in
    ap (λ xs. xs ++ schedules_of env' user env'.next_id (c ∷ cs))
      (filter-append p (filter p schedules) new
        ∙ ap (λ xs. filter p (filter p schedules) ++ xs)
            (filter-new env user env.next_id (sync_start c cs) (sync_end c cs) (c ∷ cs)
              (sync-IsWithin c cs h))
        ∙ append_nil (filter p (filter p schedules))
        ∙ filter-filter p schedules)

sync-content :
    (env env' : Environment) (user : ℕ) (c : AcademicCalendar) (cs : List AcademicCalendar)
    (schedules : List AcademicSchedule)
    → map content (sync_schedules env' user c cs schedules)
      ≡ map content (sync_schedules env user c cs schedules)
unfolding sync_schedules
sync-content env env' user c cs schedules =
    let kept = filter (λ s. not (is_replaced user (sync_start c cs) (sync_end c cs) s)) schedules in
    map-append kept (schedules_of env' user env'.next_id (c ∷ cs))
    ∙ ap (λ zs. map content kept ++ zs)
        (content-new env' env user env'.next_id env.next_id (c ∷ cs))
    ∙ sym (map-append kept (schedules_of env user env.next_id (c ∷ cs)))

module _ {A : Type 0} (same : A → Bool) (write : A → A)
    (settled : (x : A)
      → same x ≡ true
      → (same (write x) ≡ true) × (write (write x) ≡ write x)) where
  update-update :
      (xs : List A)
      → update_where same write (update_where same write xs) ≡ update_where same write xs
  update-update [] = refl
  update-update (x ∷ xs) = ground (arith, settled x, update-update xs)

abbrev first_day : AcademicCalendar → ℕ
first_day c = c.start_date

insert-IsOrdered :
    (c : AcademicCalendar) (cs : List AcademicCalendar)
    → c.start_date ≤ c.end_date
    → IsOrdered cs
    → IsOrdered (insert_by_start first_day c cs)
insert-IsOrdered c [] h rest = (h, tt)
insert-IsOrdered c (d ∷ cs) h (k, rest) = elim (Bool-cases (leb c.start_date d.start_date)) [
  | inl le ↦ rw le (h, (k, rest))
  | inr gt ↦ rw gt (k, insert-IsOrdered c cs h rest)
]

sort-IsOrdered :
    (cs : List AcademicCalendar) → IsOrdered cs → IsOrdered (sort_by_start first_day cs)
sort-IsOrdered [] h = tt
sort-IsOrdered (c ∷ cs) (h, rest) =
    insert-IsOrdered c (sort_by_start first_day cs) h (sort-IsOrdered cs rest)

filter-IsOrdered :
    (p : AcademicCalendar → Bool) (cs : List AcademicCalendar)
    → IsOrdered cs
    → IsOrdered (filter p cs)
filter-IsOrdered p [] h = tt
filter-IsOrdered p (c ∷ cs) (h, rest) = elim (Bool-cases (p c)) [
  | inl kept ↦ rw kept (h, filter-IsOrdered p cs rest)
  | inr out ↦ rw out (filter-IsOrdered p cs rest)
]

pub calendars_of-IsOrdered :
    (req : CalendarSyncRequest) (db : Database)
    → IsOrdered db.calendars
    → IsOrdered (calendars_of req db)
unfolding calendars_of
calendars_of-IsOrdered req db h =
    sort-IsOrdered (filter (is_calendar req) db.calendars)
      (filter-IsOrdered (is_calendar req) db.calendars h)

module _ (env : Environment) (req : CalendarSyncRequest) (c : AcademicCalendar)
    (cs : List AcademicCalendar) (w : World) where
  -- A sync ends with the tables written, or with the tables as they were.
  pub sync_found-tables :
      (sync_found env req c cs w).1.db
      ≡ (if env.kafka_available then (sync_tables env req c cs w).db else w.db)
  unfolding sync_found drop_buffer publish_schedule_updated undo_tables
  sync_found-tables = ground arith

  pub tables_again :
      (env' : Environment)
      → IsOrdered (c ∷ cs)
      → contents (sync_tables env' req c cs (sync_tables env req c cs w)).db
        ≡ contents (sync_tables env req c cs w).db
  unfolding sync_tables
  tables_again env' h =
      rw
        (
          sync_twice env env' req.user_id c cs w.db.schedules h,
          sync-content env env' req.user_id c cs w.db.schedules,
          update-update (λ p. p.user_id == req.user_id)
              (λ p. record p { university_id = some req.university_id }) (λ p e. (e, refl))
              w.db.profiles,
        )
        refl

  -- The university and the calendars are looked up in tables that a sync does not write.
  pub sync-found :
      calendars_of req w.db ≡ c ∷ cs
      → (u : University)
      → find (λ (u : University). u.id == req.university_id) w.db.universities ≡ some u
      → sync_calendar env req w ≡ sync_found env req c cs w
  unfolding sync_calendar
  sync-found e u f = rw (f, sync_calendar, e) refl
