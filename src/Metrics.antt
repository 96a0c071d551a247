-- ===== src/Metrics.antt =====
-- The metrics of returning users: `MetricsService` of app/services/ai/metrics_service.py on the rows
-- of app/models/onboarding.py. `count(distinct(user_id))` is the number of users who have a row.
pub mod Rates
use moaje_work.Prelude.{
  ℕ, zero, suc, ◌+◌, ◌-◌, ◌*◌, Bool, true, false, ◌&&◌, ◌||◌, not, Option, none, some, List, [],
  ◌∷◌, ◌++◌, map, String, str_eq, ◌==◌, ltb, leb, if◌then◌else◌, filter, any, count, length,
}
use moaje_work.Decimal.{round_half_even}

-- The constants of the service's `EventType`.
pub data FeatureType : Type 0 where
  onboarding_view onboarding_answer onboarding_complete simulate simulate_adjust : FeatureType
  readiness_view recap_view : FeatureType

pub record FeatureEvent : Type 0 where
  pub user_id : ℕ
  pub event_type : FeatureType
  pub ref_key : Option String
  pub created_at : ℕ

-- The columns of the answers and of the future profiles that the service reads.
pub record AnswerTime : Type 0 where
  pub user_id : ℕ
  pub question_no : ℕ
  pub answered_at : ℕ

pub record CompletionTime : Type 0 where
  pub user_id : ℕ
  pub is_completed : Bool
  pub completed_at : Option ℕ

pub record MetricsTables : Type 0 where
  pub events : List FeatureEvent
  pub answers : List AnswerTime
  pub completions : List CompletionTime

-- `record`: a failure to write is logged and ignored.
unfoldable pub record_event :
    Bool → ℕ → ℕ → FeatureType → Option String → List FeatureEvent → List FeatureEvent
record_event database_available now user event_type ref_key events =
    if database_available
    then events
      ++ record { user_id = user; event_type = event_type; ref_key = ref_key; created_at = now }
        ∷ []
    else events

-- The distinct users of rows, each once.
abbrev pub distinct : List ℕ → List ℕ
distinct [] = []
distinct (x ∷ xs) = let rest = distinct xs in if any (λ y. y == x) rest then rest else x ∷ rest

-- `_rate`, in ten-thousandths.
unfoldable pub rate : ℕ → ℕ → ℕ
rate part whole = if whole == 0 then 0 else round_half_even (part * 10000) whole

abbrev event_user : FeatureEvent → ℕ
event_user e = e.user_id

-- The users of rows who pass a test on the number of their rows: `GROUP BY … HAVING`.
abbrev pub calls_of : ℕ → List FeatureEvent → ℕ
calls_of user events = count (λ (e : FeatureEvent). e.user_id == user) events

abbrev pub has_repeated : List FeatureEvent → ℕ → Bool
has_repeated events user = leb 2 (calls_of user events)

pub record Usage : Type 0 where
  pub users : ℕ
  pub calls : ℕ
  pub repeat_rate : ℕ

abbrev is_simulation : ℕ → FeatureEvent → Bool
is_simulation since e =
    leb since e.created_at
    && elim e.event_type [ simulate ↦ true | simulate_adjust ↦ true | _ ↦ false ]

abbrev is_recap : ℕ → FeatureEvent → Bool
is_recap since e = leb since e.created_at && elim e.event_type [ recap_view ↦ true | _ ↦ false ]

-- Users with two calls or more, among those with a call.
unfoldable pub usage_of : (List FeatureEvent → ℕ → Bool) → List FeatureEvent → Usage
usage_of repeated events =
    let users = distinct (map event_user events) in
    record {
      users = length users;
      calls = length events;
      repeat_rate = rate (count (repeated events) users) (length users);
    }

unfoldable pub simulator_usage : ℕ → List FeatureEvent → Usage
simulator_usage since events = usage_of has_repeated (filter (is_simulation since) events)

-- The distinct months of a user's views; a view without a month counts for none.
abbrev insert_key : Option String → List String → List String
insert_key none keys = keys
insert_key (some k) keys = if any (λ j. str_eq j k) keys then keys else k ∷ keys

abbrev pub months_seen : ℕ → List FeatureEvent → List String
months_seen user [] = []
months_seen user (e ∷ events) =
    let rest = months_seen user events in
    if e.user_id == user then insert_key e.ref_key rest else rest

abbrev pub has_two_months : List FeatureEvent → ℕ → Bool
has_two_months events user = leb 2 (length (months_seen user events))

unfoldable pub recap_usage : ℕ → List FeatureEvent → Usage
recap_usage since events = usage_of has_two_months (filter (is_recap since) events)

pub record QuestionDropoff : Type 0 where
  pub question_no : ℕ
  pub reached : ℕ
  pub answered : ℕ
  pub dropoff_rate : ℕ

abbrev answer_user : AnswerTime → ℕ
answer_user a = a.user_id

-- `per_q.get(no, 0)`
unfoldable pub answered_users : ℕ → List AnswerTime → ℕ
answered_users q answers =
    length (distinct (map answer_user (filter (λ a. a.question_no == q) answers)))

unfoldable pub dropoff_of : ℕ → List AnswerTime → QuestionDropoff
dropoff_of q answers =
    let answered = answered_users q answers in
    let nxt = if ltb q 10 then answered_users (q + 1) answers else answered in
    record {
      question_no = q;
      reached = answered;
      answered = answered;
      dropoff_rate = rate (answered - nxt) answered;
    }

-- The questions from the given one on, n of them.
abbrev dropoffs : ℕ → ℕ → List AnswerTime → List QuestionDropoff
dropoffs q zero answers = []
dropoffs q (suc n) answers = dropoff_of q answers ∷ dropoffs (suc q) n answers

abbrev completion_user : CompletionTime → ℕ
completion_user c = c.user_id

abbrev is_completed_since : ℕ → CompletionTime → Bool
is_completed_since since c =
    c.is_completed && elim c.completed_at [ none ↦ false | some t ↦ leb since t ]

-- The texts of `warnings`; the first carries the number of users.
pub data Warning : Type 0 where
  few_users : ℕ → Warning
  no_onboarding : Warning

pub record MetricsResult : Type 0 where
  pub total_users : ℕ
  pub onboarding_started : ℕ
  pub onboarding_completed : ℕ
  pub completion_rate : ℕ
  pub question_dropoff : List QuestionDropoff
  pub simulator : Usage
  pub recap : Usage
  pub is_reliable : Bool
  pub warnings : List Warning

abbrev answers_since : ℕ → List AnswerTime → List AnswerTime
answers_since since answers = filter (λ a. leb since a.answered_at) answers

unfoldable pub started_users : ℕ → MetricsTables → ℕ
started_users since t = length (distinct (map answer_user (answers_since since t.answers)))

unfoldable pub completed_users : ℕ → MetricsTables → ℕ
completed_users since t =
    length (distinct (map completion_user (filter (is_completed_since since) t.completions)))

unfoldable pub all_users : ℕ → MetricsTables → ℕ
all_users since t =
    length (distinct (map event_user (filter (λ e. leb since e.created_at) t.events)))

-- `summary` of the time since the given one.
unfoldable pub summary : ℕ → MetricsTables → MetricsResult
summary since t =
    let total = all_users since t in
    let started = started_users since t in
    let completed = completed_users since t in
    record {
      total_users = total;
      onboarding_started = started;
      onboarding_completed = completed;
      completion_rate = rate completed started;
      question_dropoff = dropoffs 1 10 (answers_since since t.answers);
      simulator = simulator_usage since t.events;
      recap = recap_usage since t.events;
      is_reliable = leb 10 total && ltb 0 started;
      warnings =
          (if ltb total 10 then few_users total ∷ [] else [])
          ++ (if started == 0 then no_onboarding ∷ [] else []);
    }
