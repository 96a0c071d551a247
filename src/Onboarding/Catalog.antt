-- ===== src/Onboarding/Catalog.antt =====
-- app/services/ai/onboarding_catalog.py: the ten questions and the check of an answer. The texts
-- of questions and options are shown, never computed with, and are left out.
use Prim.Native.Char.{code}
use Prim.Native.String.{[] as empty, ◌∷◌ as char}
use moaje_work.Prelude.{
  ℕ, Bool, true, false, ◌&&◌, ◌||◌, Option, none, some, List, [], ◌∷◌, String, str_eq, leb, ◌==◌,
  if◌then◌else◌, any, length,
}
use moaje_work.Onboarding.{Refusal, no_such_question, text_missing, code_not_allowed}

abbrev pub unknown : String
unknown = "UNKNOWN"

pub record Question : Type 0 where
  pub question_no : ℕ
  pub options : List String
  pub free_text : Bool

abbrev choice : ℕ → List String → Question
choice n options = record { question_no = n; options = options; free_text = false }

abbrev pub questions : List Question
questions =
    choice 1 ("STUDENT" ∷ "JOB_SEEKER" ∷ "EMPLOYED" ∷ "OTHER" ∷ [])
    ∷ choice 2 ("WITH_FAMILY" ∷ "MONTHLY_RENT" ∷ "JEONSE" ∷ "DORM_SHARE" ∷ [])
    ∷ choice 3 ("LARGE_CORP" ∷ "STARTUP" ∷ "FREELANCE" ∷ [])
    ∷ choice 4 ("REWARD" ∷ "SAVING" ∷ "FAMILY" ∷ "DEBT" ∷ "EXPERIENCE" ∷ [])
    ∷ choice 5 ("HOME_REST" ∷ "OUTDOOR" ∷ "CULTURE" ∷ "SOCIAL" ∷ "SELF_DEV" ∷ [])
    ∷ choice 6 ("BUY_NOW" ∷ "COMPARE" ∷ "WAIT" ∷ "BUDGET_CHECK" ∷ [])
    ∷ choice 7 ("HIGH_SALARY" ∷ "WORK_LIFE" ∷ [])
    ∷ choice 8 ("FOOD" ∷ "HOBBY" ∷ "TRAVEL" ∷ "APPEARANCE" ∷ "RELATION" ∷ "LEARNING" ∷ [])
    ∷ record { question_no = 9; options = []; free_text = true }
    ∷ choice 10 ("NO_SAVING" ∷ "NO_PLAN" ∷ "UNEXPECTED" ∷ "NO_KNOWLEDGE" ∷ "DEBT_WORRY" ∷ [])
    ∷ []

abbrev pub numbers_of : List Question → List ℕ
numbers_of [] = []
numbers_of (q ∷ qs) = q.question_no ∷ numbers_of qs

-- The keys of QUESTIONS, in order.
abbrev pub question_numbers : List ℕ
question_numbers = numbers_of questions

abbrev pub total_questions : ℕ
total_questions = length questions

abbrev pub find_question : ℕ → List Question → Option Question
find_question n [] = none
find_question n (q ∷ qs) =
    let rest = find_question n qs in if q.question_no == n then some q else rest

unfoldable pub get_question : ℕ → Option Question
get_question n = find_question n questions

unfoldable pub valid_code : Question → String → Bool
valid_code q c = str_eq c unknown || any (λ o. str_eq o c) q.options

-- `str.isspace` of one character.
is_space : ℕ → Bool
is_space c =
    (leb 9 c && leb c 13)
    || (leb 28 c && leb c 32)
    || c == 133
    || c == 160
    || c == 5760
    || (leb 8192 c && leb c 8202)
    || c == 8232
    || c == 8233
    || c == 8239
    || c == 8287
    || c == 12288

-- `not text or not text.strip()`
unfoldable pub is_blank : String → Bool
unfolding is_space
is_blank empty = true
is_blank (char c s) = is_space (code c) && is_blank s

unfoldable pub check_free_text : ℕ → String → Option String → Option Refusal
unfolding is_blank
check_free_text n c none = if str_eq c unknown then none else some (text_missing n)
check_free_text n c (some text) =
    if str_eq c unknown then none else if is_blank text then some (text_missing n) else none

-- None for an answer that is accepted.
unfoldable pub validate_answer : ℕ → String → Option String → Option Refusal
unfolding check_free_text valid_code
validate_answer n c text = elim (get_question n) [
  | none ↦ some (no_such_question n)
  | some q ↦
      if q.free_text
      then check_free_text n c text
      else if valid_code q c
      then none
      else some (code_not_allowed n)
]
