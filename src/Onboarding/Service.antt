-- ===== src/Onboarding/Service.antt =====
-- `OnboardingService` of app/services/ai/onboarding_service.py on the tables of answers and of
-- profiles. A refused answer raises ValueError; what a session wrote before it is rolled back by
-- its caller.
use moaje_work.Prelude.{
  ℕ, Bool, false, not, ◌&&◌, Option, none, some, List, [], ◌∷◌, ◌++◌, String, str_eq, leb, ◌==◌,
  if◌then◌else◌, find, any, filter, update_where, length,
}
use moaje_work.Onboarding.{
  Answer, FutureProfile, Refusal, SummaryLine, housing, kept_spending, first_help, future_self,
}
use moaje_work.Onboarding.Catalog.{unknown, validate_answer, question_numbers, total_questions}

pub data Outcome {ℓ} (A : Type ℓ) : Type ℓ where
  saved : A → Outcome A
  refused : Refusal → Outcome A

abbrev pub is_answer : ℕ → ℕ → Answer → Bool
is_answer user n a = a.user_id == user && a.question_no == n

abbrev pub new_answer : ℕ → ℕ → String → Option String → Answer
new_answer user n c text = record {
  user_id = user;
  question_no = n;
  answer_code = c;
  answer_text = text;
}

unfoldable pub store_answer : ℕ → ℕ → String → Option String → List Answer → List Answer
store_answer user n c text answers = elim (find (is_answer user n) answers) [
  | some _ ↦
      update_where (is_answer user n) (λ a. record a { answer_code = c; answer_text = text })
        answers
  | none ↦ answers ++ new_answer user n c text ∷ []
]

unfoldable pub save_answer : ℕ → ℕ → String → Option String → List Answer → Outcome (List Answer)
save_answer user n c text answers = elim (validate_answer n c text) [
  | some refusal ↦ refused refusal
  | none ↦ saved (store_answer user n c text answers)
]

-- One entry of `save_answers`: a missing code is UNKNOWN.
pub record AnswerItem : Type 0 where
  pub question_no : ℕ
  pub answer_code : Option String
  pub answer_text : Option String

abbrev code_or_unknown : Option String → String
code_or_unknown none = unknown
code_or_unknown (some c) = c

unfoldable pub save_answers : ℕ → List AnswerItem → List Answer → Outcome (List Answer)
save_answers user [] answers = saved answers
save_answers user (item ∷ items) answers =
    elim (save_answer user item.question_no (code_or_unknown item.answer_code) item.answer_text
      answers) [
        | refused refusal ↦ refused refusal
        | saved answers' ↦ save_answers user items answers'
      ]

unfoldable pub get_answers : ℕ → List Answer → List Answer
get_answers user answers = filter (λ a. a.user_id == user) answers

abbrev pub answer_no : ℕ → List Answer → Option Answer
answer_no n answers = find (λ a. a.question_no == n) answers

abbrev code_of : Option Answer → Option String
code_of none = none
code_of (some a) = some a.answer_code

-- The answer's text, unless the answer is missing or UNKNOWN.
abbrev image_of : Option Answer → Option String
image_of none = none
image_of (some a) = if str_eq a.answer_code unknown then none else a.answer_text

abbrev lookup_label : String → List (String × String) → List String
lookup_label k [] = []
lookup_label k ((j, v) ∷ table) =
    let rest = lookup_label k table in if str_eq j k then v ∷ [] else rest

abbrev label_of : Option Answer → List (String × String) → List String
label_of none table = []
label_of (some a) table = lookup_label a.answer_code table

unfoldable pub build_card_title : List Answer → List String
build_card_title answers =
    label_of (answer_no 3 answers)
      (("LARGE_CORP", "안정을 택한") ∷ ("STARTUP", "성장을 택한") ∷ ("FREELANCE", "자유를 택한") ∷ [])
    ++ label_of (answer_no 7 answers)
        (("HIGH_SALARY", "목표를 향해 달리는") ∷ ("WORK_LIFE", "균형을 지키는") ∷ [])

abbrev known_line : (String → SummaryLine) → Option Answer → List SummaryLine
known_line line none = []
known_line line (some a) = if str_eq a.answer_code unknown then [] else line a.answer_code ∷ []

abbrev text_lines : Option String → List SummaryLine
text_lines none = []
text_lines (some t) = if str_eq t "" then [] else future_self t ∷ []

abbrev future_line : Option Answer → List SummaryLine
future_line none = []
future_line (some a) = text_lines a.answer_text

unfoldable pub build_card_summary : List Answer → List SummaryLine
build_card_summary answers =
    known_line housing (answer_no 2 answers)
    ++ (known_line kept_spending (answer_no 8 answers)
        ++ (known_line first_help (answer_no 10 answers) ++ future_line (answer_no 9 answers)))

abbrev pub fresh_profile : ℕ → FutureProfile
fresh_profile user = record {
  user_id = user;
  status_code = none;
  housing_type = none;
  work_env = none;
  value_priority = none;
  must_keep_category = none;
  money_concern = none;
  success_image = none;
  card_title = [];
  card_summary = [];
  answered_count = 0;
  is_completed = false;
  auth_synced = false;
  completed_at = none;
}

unfoldable pub get_profile : ℕ → List FutureProfile → Option FutureProfile
get_profile user profiles = find (λ p. p.user_id == user) profiles

-- The body of `rebuild_profile` once the row is at hand; `now` is `utc_naive_now()`.
unfoldable pub refresh : ℕ → List Answer → FutureProfile → FutureProfile
unfolding build_card_title build_card_summary
refresh now answers profile =
    let completed = leb total_questions (length answers) in
    record profile {
      status_code = code_of (answer_no 1 answers);
      housing_type = code_of (answer_no 2 answers);
      work_env = code_of (answer_no 3 answers);
      value_priority = code_of (answer_no 7 answers);
      must_keep_category = code_of (answer_no 8 answers);
      money_concern = code_of (answer_no 10 answers);
      success_image = image_of (answer_no 9 answers);
      card_title = build_card_title answers;
      card_summary = build_card_summary answers;
      answered_count = length answers;
      is_completed = completed;
      completed_at =
          if completed && not profile.is_completed then some now else profile.completed_at;
    }

unfoldable pub rebuild_profile :
    ℕ → ℕ → List Answer → List FutureProfile → FutureProfile × List FutureProfile
rebuild_profile now user answers profiles =
    let mine = get_answers user answers in
    elim (get_profile user profiles) [
      | some p ↦
          (refresh now mine p, update_where (λ q. q.user_id == user) (refresh now mine) profiles)
      | none ↦ (
        refresh now mine (fresh_profile user),
        profiles ++ refresh now mine (fresh_profile user) ∷ [],
      )
    ]

pub record Progress : Type 0 where
  pub answered_count : ℕ
  pub total : ℕ
  pub is_completed : Bool
  pub remaining : List ℕ
  pub unknown_answers : List ℕ
  pub next_question_no : Option ℕ

abbrev pub has_no : ℕ → List Answer → Bool
has_no n answers = any (λ a. a.question_no == n) answers

abbrev first : List ℕ → Option ℕ
first [] = none
first (k ∷ ks) = some k

-- `sorted` of a set of question numbers: those of 1, 2, … that are in it.
unfoldable pub get_progress : ℕ → List Answer → Progress
get_progress user answers =
    let mine = get_answers user answers in
    let remaining = filter (λ n. not (has_no n mine)) question_numbers in
    record {
      answered_count = length mine;
      total = total_questions;
      is_completed = leb total_questions (length mine);
      remaining = remaining;
      unknown_answers =
          filter (λ n. any (λ a. a.question_no == n && str_eq a.answer_code unknown) mine)
            question_numbers;
      next_question_no = first remaining;
    }
