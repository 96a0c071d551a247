-- ===== src/Onboarding.antt =====
-- The onboarding of My Future: the rows of app/models/onboarding.py.
pub mod Catalog
pub mod Service
pub mod Cover
pub mod Progress
pub mod Completion
pub mod Requests
pub mod Questions
use moaje_work.Prelude.{ℕ, Bool, Option, List, String}

pub record Answer : Type 0 where
  pub user_id : ℕ
  pub question_no : ℕ
  pub answer_code : String
  pub answer_text : Option String

-- A line of the card's summary, with the code or the text that it shows.
pub data SummaryLine : Type 0 where
  housing kept_spending first_help : String → SummaryLine
  future_self : String → SummaryLine

-- `card_title` is the list of its parts, empty for the title of a card without parts.
pub record FutureProfile : Type 0 where
  pub user_id : ℕ
  pub status_code : Option String
  pub housing_type : Option String
  pub work_env : Option String
  pub value_priority : Option String
  pub must_keep_category : Option String
  pub money_concern : Option String
  pub success_image : Option String
  pub card_title : List String
  pub card_summary : List SummaryLine
  pub answered_count : ℕ
  pub is_completed : Bool
  pub auth_synced : Bool
  pub completed_at : Option ℕ

-- Why `validate_answer` refuses.
pub data Refusal : Type 0 where
  no_such_question text_missing code_not_allowed : ℕ → Refusal
