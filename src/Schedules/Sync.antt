-- ===== src/Schedules/Sync.antt =====
-- `sync_calendar` as a request: a second sync, and what it leaves alone.
use moaje_work.Prelude.{
  ℕ, ◌+◌, ◌≡◌, refl, ap, sym, ◌∙◌, inl, inr, Bool, true, not, ◌&&◌, some, none, List, [], ◌∷◌, ◌++◌,
  ◌==◌, filter, find, arith, Option-cases, if◌then◌else◌, Bool-cases, ◌⊎◌,
}
use moaje_work.Spending.{AcademicSchedule, AcademicCalendar, University}
use moaje_work.Database.{World, Database, Environment, err, not_found}
use moaje_work.Schedules.{
  CalendarSyncRequest, calendars_of, sync_calendar, sync_found, sync_tables, sync_schedules,
  schedules_of, is_replaced, sync_start, sync_end,
}
use moaje_work.Schedules.Resync.{
  IsOrdered, filter-append, append_nil, calendars_of-IsOrdered, sync_found-tables, tables_again,
  contents, sync-found,
}

abbrev chosen : CalendarSyncRequest → University → Bool
chosen req u = u.id == req.university_id

module _ (env : Environment) (req : CalendarSyncRequest) (w : World) where
  sync-unknown :
      find (chosen req) w.db.universities ≡ none → sync_calendar env req w ≡ (err not_found, w)
  unfolding sync_calendar
  sync-unknown h = rw (h, sync_calendar) refl

  sync-empty :
      (u : University)
      → find (chosen req) w.db.universities ≡ some u
      → calendars_of req w.db ≡ []
      → sync_calendar env req w ≡ (err not_found, w)
  unfolding sync_calendar
  sync-empty u h e = rw (h, sync_calendar, e) refl

-- After a sync that could publish, another sync of the same request finds nothing left to change.
again :
    (env env' : Environment) (req : CalendarSyncRequest) (c : AcademicCalendar)
    (cs : List AcademicCalendar) (w : World) (u : University)
    → find (chosen req) w.db.universities ≡ some u
    → calendars_of req w.db ≡ c ∷ cs
    → IsOrdered (c ∷ cs)
    → env.kafka_available ≡ true
    → contents (sync_calendar env' req (sync_found env req c cs w).1).1.db
      ≡ contents (sync_found env req c cs w).1.db
unfolding sync_tables calendars_of
again env env' req c cs w u f e h kafka =
    let w1 = (sync_found env req c cs w).1 in
    let written = (sync_tables env req c cs w).db in
    let tables : w1.db ≡ written =
      sync_found-tables env req c cs w ∙ ap (λ b. if b then written else w.db) kafka in
    let listed : calendars_of req w1.db ≡ c ∷ cs = ap (λ d. calendars_of req d) tables ∙ e in
    let known : find (chosen req) w1.db.universities ≡ some u =
      ap (λ (d : Database). find (chosen req) d.universities) tables ∙ f in
    let settled : contents (sync_tables env' req c cs w1).db ≡ contents w1.db =
      ap (λ d. contents (sync_tables env' req c cs (record w { db = d })).db) tables
      ∙ tables_again env req c cs w env' h
      ∙ sym (ap contents tables) in
    ap (λ p. contents p.1.db) (sync-found env' req c cs w1 listed u known)
    ∙ ap contents (sync_found-tables env' req c cs w1)
    ∙ elim (Bool-cases env'.kafka_available) [
      | inl up ↦
          ap (λ b. contents (if b then (sync_tables env' req c cs w1).db else w1.db)) up ∙ settled
      | inr down ↦ ap (λ b. contents (if b then (sync_tables env' req c cs w1).db else w1.db)) down
    ]

module _ (env env' : Environment) (req : CalendarSyncRequest) (w : World)
    (kafka : env.kafka_available ≡ true) (h : IsOrdered w.db.calendars) where
  -- For the calendars that the request finds.
  again_listed :
      (u : University) (cs : List AcademicCalendar)
      → find (chosen req) w.db.universities ≡ some u
      → calendars_of req w.db ≡ cs
      → contents (sync_calendar env' req (sync_calendar env req w).1).1.db
        ≡ contents (sync_calendar env req w).1.db
  again_listed u [] f e = rw (sync-empty env req w u f e, sync-empty env' req w u f e) refl
  again_listed u (c ∷ cs) f e =
      rw (sync-found env req c cs w e u f)
        (again env env' req c cs w u f e (rw e at (calendars_of-IsOrdered req w.db h)) kafka)

  -- If the calendars end on or after the day they start and Kafka answers the first time, a second
  -- sync of the same request leaves the tables as the first left them, but for the ids and the times
  -- of creation of the schedules, whether Kafka answers or not.
  pub sync_again :
      contents (sync_calendar env' req (sync_calendar env req w).1).1.db
      ≡ contents (sync_calendar env req w).1.db
  sync_again = elim (Option-cases (find (chosen req) w.db.universities)) [
    | inl gone ↦ rw (sync-unknown env req w gone, sync-unknown env' req w gone) refl
    | inr (u, f) ↦ again_listed u (calendars_of req w.db) f refl
  ]

-- What a sync of the user may not touch.
abbrev pub is_kept : ℕ → AcademicSchedule → Bool
is_kept user s = not (s.user_id == user && s.is_auto)

filter-replaced :
    (user lo hi : ℕ) (schedules : List AcademicSchedule)
    → filter (is_kept user) (filter (λ s. not (is_replaced user lo hi s)) schedules)
      ≡ filter (is_kept user) schedules
filter-replaced user lo hi [] = refl
filter-replaced user lo hi (s ∷ schedules) = ground (arith, filter-replaced user lo hi schedules)

filter-added :
    (env : Environment) (user id : ℕ) (cs : List AcademicCalendar)
    → filter (is_kept user) (schedules_of env user id cs) ≡ []
filter-added env user id [] = refl
filter-added env user id (c ∷ cs) = ground (arith, filter-added env user (id + 1) cs)

filter-sync :
    (env : Environment) (user : ℕ) (c : AcademicCalendar) (cs : List AcademicCalendar)
    (schedules : List AcademicSchedule)
    → filter (is_kept user) (sync_schedules env user c cs schedules)
      ≡ filter (is_kept user) schedules
unfolding sync_schedules
filter-sync env user c cs schedules =
    filter-append (is_kept user) _ _
    ∙ ap
        (λ xs.
          filter (is_kept user)
            (filter (λ s. not (is_replaced user (sync_start c cs) (sync_end c cs) s)) schedules)
          ++ xs)
        (filter-added env user env.next_id (c ∷ cs))
    ∙ append_nil _
    ∙ filter-replaced user (sync_start c cs) (sync_end c cs) schedules

-- The calendars that a sync wrote to the tables, where it wrote any.
pub record Written (env : Environment) (req : CalendarSyncRequest) (w : World) : Type 0 where
  pub first : AcademicCalendar
  pub others : List AcademicCalendar
  pub tables : (sync_calendar env req w).1.db ≡ (sync_tables env req first others w).db

module _ (env : Environment) (req : CalendarSyncRequest) (w : World) where
  outcome_listed :
      (u : University) (cs : List AcademicCalendar)
      → find (chosen req) w.db.universities ≡ some u
      → calendars_of req w.db ≡ cs
      → ((sync_calendar env req w).1.db ≡ w.db) ⊎ Written env req w
  outcome_listed u [] f e = inl (ap (λ p. p.1.db) (sync-empty env req w u f e))
  outcome_listed u (c ∷ cs) f e =
      let ran =
        ap (λ p. p.1.db) (sync-found env req c cs w e u f) ∙ sync_found-tables env req c cs w in
      elim (Bool-cases env.kafka_available) [
        | inl up ↦ inr (record {
          first = c;
          others = cs;
          tables = ran ∙ ap (λ b. if b then (sync_tables env req c cs w).db else w.db) up;
        })
        | inr down ↦ inl (ran ∙ ap (λ b. if b then (sync_tables env req c cs w).db else w.db) down)
      ]

  -- A sync leaves the tables as they were, or writes the calendars that it has found.
  pub sync_outcome : ((sync_calendar env req w).1.db ≡ w.db) ⊎ Written env req w
  sync_outcome = elim (Option-cases (find (chosen req) w.db.universities)) [
    | inl gone ↦ inl (ap (λ p. p.1.db) (sync-unknown env req w gone))
    | inr (u, f) ↦ outcome_listed u (calendars_of req w.db) f refl
  ]

  -- A sync leaves the schedules of other users and those that the user entered as they were, in
  -- their order, whichever way it ends.
  pub sync_keeps :
      filter (is_kept req.user_id) (sync_calendar env req w).1.db.schedules
      ≡ filter (is_kept req.user_id) w.db.schedules
  unfolding sync_tables
  sync_keeps = elim sync_outcome [
    | inl same ↦ ap (λ (d : Database). filter (is_kept req.user_id) d.schedules) same
    | inr new ↦
        ap (λ (d : Database). filter (is_kept req.user_id) d.schedules) new.tables
        ∙ filter-sync env req.user_id new.first new.others w.db.schedules
  ]
