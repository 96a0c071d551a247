-- ===== src/Onboarding/Requests.antt =====
-- The endpoints of app/api/v1/endpoints/onboarding.py. The session of an endpoint is committed when
-- it returns and rolled back when it raises (app/db/session.py); they are modelled with a database
-- that answers.
use moaje_work.Prelude.{
  ℕ, ◌+◌, ◌≡◌, refl, true, Option, none, some, List, [], ◌∷◌, String, length, arith, if◌then◌else◌,
  Bool-cases, ap, length-append, inl, inr,
}
use moaje_work.Onboarding.{Answer, FutureProfile}
use moaje_work.Onboarding.Service.{
  Outcome, saved, refused, save_answer, save_answers, AnswerItem, get_profile, refresh,
  rebuild_profile, Progress, get_progress,
}
use moaje_work.Onboarding.Completion.{rebuilt, is_refreshed}
use moaje_work.Metrics.{
  FeatureEvent, FeatureType, onboarding_answer, onboarding_complete, record_event,
}

pub record Tables : Type 0 where
  pub answers : List Answer
  pub profiles : List FutureProfile
  pub events : List FeatureEvent

-- The uses that a submission records, where `print` is `str` on numbers.
unfoldable pub record_answers :
    (ℕ → String) → ℕ → ℕ → List AnswerItem → List FeatureEvent → List FeatureEvent
record_answers print now user [] events = events
record_answers print now user (item ∷ items) events =
    record_answers print now user items
      (record_event true now user onboarding_answer (some (print item.question_no)) events)

unfoldable pub record_completion : ℕ → ℕ → FutureProfile → List FeatureEvent → List FeatureEvent
record_completion now user profile events =
    if profile.is_completed
    then record_event true now user onboarding_complete none events
    else events

-- What both endpoints do after the answers are stored.
unfoldable pub settle :
    (ℕ → String)
    → ℕ
    → ℕ
    → List AnswerItem
    → Tables
    → Outcome (List Answer)
    → Outcome Progress × Tables
settle print now user items tables (refused refusal) = (refused refusal, tables)
settle print now user items tables (saved answers) =
    let (profile, profiles) = rebuild_profile now user answers tables.profiles in
    (
      saved (get_progress user answers),
      record {
        answers = answers;
        profiles = profiles;
        events =
            record_completion now user profile (record_answers print now user items tables.events);
      },
    )

unfoldable pub submit_answers :
    (ℕ → String) → ℕ → ℕ → List AnswerItem → Tables → Outcome Progress × Tables
submit_answers print now user items tables =
    settle print now user items tables (save_answers user items tables.answers)

unfoldable pub submit_single_answer :
    (ℕ → String) → ℕ → ℕ → ℕ → String → Option String → Tables → Outcome Progress × Tables
submit_single_answer print now user question_no code text tables =
    settle print now user
      (record { question_no = question_no; answer_code = some code; answer_text = text } ∷ [])
      tables (save_answer user question_no code text tables.answers)

-- `get_future_profile`: without a profile it is 404.
unfoldable pub get_future_profile : ℕ → Tables → Option FutureProfile
get_future_profile user tables = get_profile user tables.profiles

-- What an endpoint left behind agrees with what it answered.
unfoldable pub IsSettled : ℕ → ℕ → Tables → Outcome Progress × Tables → Type 0
IsSettled user n before (refused refusal, after) = after ≡ before
IsSettled user n before (saved progress, after) =
    (p : FutureProfile) × ((get_future_profile user after ≡ some p)
      × ((p.answered_count ≡ progress.answered_count)
          × ((p.is_completed ≡ progress.is_completed)
              × ((progress ≡ get_progress user after.answers)
                  × (length after.events
                      ≡ length before.events + n + (if p.is_completed then 1 else 0))))))

length-record_event :
    (now user : ℕ) (kind : FeatureType) (key : Option String) (events : List FeatureEvent)
    → length (record_event true now user kind key events) ≡ length events + 1
unfolding record_event
length-record_event now user kind key events = length-append events _

length-record_answers :
    (print : ℕ → String) (now user : ℕ) (items : List AnswerItem) (events : List FeatureEvent)
    → length (record_answers print now user items events) ≡ length events + length items
unfolding record_answers
length-record_answers print now user [] events = omega arith
length-record_answers print now user (item ∷ items) events =
    let key = some (print item.question_no) in
    let added = record_event true now user onboarding_answer key events in
    omega (
      arith,
      length-record_answers print now user items added,
      length-record_event now user onboarding_answer key events,
    )

length-record_completion :
    (now user : ℕ) (profile : FutureProfile) (events : List FeatureEvent)
    → length (record_completion now user profile events)
      ≡ length events + (if profile.is_completed then 1 else 0)
unfolding record_completion
length-record_completion now user profile events = elim (Bool-cases profile.is_completed) [
  | inl done ↦ rw done (length-record_event now user onboarding_complete none events)
  | inr more ↦ rw more (omega arith)
]

-- The profile that is built counts the answers as the progress does.
rebuilt_as_counted :
    (now user : ℕ) (answers : List Answer) (profiles : List FutureProfile)
    → let p = (rebuild_profile now user answers profiles).0 in
      (p.answered_count ≡ (get_progress user answers).answered_count)
      × (p.is_completed ≡ (get_progress user answers).is_completed)
unfolding refresh get_progress
rebuilt_as_counted now user answers profiles =
    let (p, e) = is_refreshed now user answers profiles in
    (ap (λ (q : FutureProfile). q.answered_count) e, ap (λ (q : FutureProfile). q.is_completed) e)

settle-IsSettled :
    (print : ℕ → String) (now user : ℕ) (items : List AnswerItem) (tables : Tables)
    → (outcome : Outcome (List Answer))
    → IsSettled user (length items) tables (settle print now user items tables outcome)
unfolding IsSettled settle get_future_profile
settle-IsSettled print now user items tables (refused refusal) = refl
settle-IsSettled print now user items tables (saved answers) =
    let (profile, profiles) = rebuild_profile now user answers tables.profiles in
    let (counted, completed) = rebuilt_as_counted now user answers tables.profiles in
    let events = record_answers print now user items tables.events in
    (
      profile,
      (
        rebuilt now user answers tables.profiles,
        (
          counted,
          (
            completed,
            (
              refl,
              omega (
                arith,
                length-record_completion now user profile events,
                length-record_answers print now user items tables.events,
              ),
            ),
          ),
        ),
      ),
    )

-- Both endpoints answer for what they leave in the tables: a refused submission leaves all of them
-- as they were; an accepted one answers with the progress of the stored answers, the profile that
-- is read next has the same count and the same completion, and one use is recorded for each answer
-- of the request and one more where the profile is complete.
pub submit_answers-IsSettled :
    (print : ℕ → String) (now user : ℕ) (items : List AnswerItem) (question_no : ℕ) (code : String)
    (text : Option String) (tables : Tables)
    → IsSettled user (length items) tables (submit_answers print now user items tables)
      × IsSettled user 1 tables (submit_single_answer print now user question_no code text tables)
unfolding submit_answers submit_single_answer
submit_answers-IsSettled print now user items question_no code text tables = (
  settle-IsSettled print now user items tables (save_answers user items tables.answers),
  settle-IsSettled print now user
      (record { question_no = question_no; answer_code = some code; answer_text = text } ∷ [])
      tables (save_answer user question_no code text tables.answers),
)
