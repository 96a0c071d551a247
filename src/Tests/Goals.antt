-- ===== src/Tests/Goals.antt =====
-- Concrete runs of the onboarding, of the simulator and of the readiness.
use moaje_work.Prelude.{
  ℕ, ◌+◌, ◌≡◌, ◌↔◌, refl, true, false, none, some, List, [], ◌∷◌, String, length, if◌then◌else◌,
  ◌==◌,
}
use moaje_work.Simulator.Request.{SimulateRequest, simulate, from_nowhere, unknown_asset}
use moaje_work.AssetClient.{failed, failed_precondition, not_linked, get_current_balance}
use moaje_work.Onboarding.{Answer}
use moaje_work.Onboarding.Catalog.{validate_answer, get_question}
use moaje_work.Onboarding.Service.{store_answer, save_answer, get_answers, get_progress}
use moaje_work.Onboarding.Progress.{IsValid, save_answer-IsValid, progress_complete}
use moaje_work.Onboarding.Service.{AnswerItem}
use moaje_work.Onboarding.Requests.{
  Tables, submit_answers, submit_single_answer, IsSettled, submit_answers-IsSettled,
}

abbrev answer : ℕ → String → Answer
answer n c = record { user_id = 7; question_no = n; answer_code = c; answer_text = none }

abbrev one_answer : List Answer
one_answer = answer 1 "STUDENT" ∷ []

save_answer-IsValid_example : IsValid (store_answer 7 2 "JEONSE" none one_answer)
unfolding save_answer validate_answer get_question
save_answer-IsValid_example =
    save_answer-IsValid 7 2 "JEONSE" none one_answer (store_answer 7 2 "JEONSE" none one_answer)
      (refl, refl, tt) refl

progress_complete_example :
    ((false ≡ true) ↔ ((get_progress 7 one_answer).remaining ≡ []))
    × (1 + length (get_progress 7 one_answer).remaining ≡ 10)
unfolding get_progress get_answers
progress_complete_example = progress_complete 7 one_answer (refl, refl, tt)

abbrev no_rows : Tables
no_rows = record { answers = one_answer; profiles = []; events = [] }

abbrev two_items : List AnswerItem
two_items =
    record { question_no = 2; answer_code = some "JEONSE"; answer_text = none }
    ∷ record { question_no = 3; answer_code = some "STARTUP"; answer_text = none }
    ∷ []

abbrev digit : ℕ → String
digit n = if n == 2 then "2" else "3"

submit_answers-IsSettled_example :
    IsSettled 7 2 no_rows (submit_answers digit 5 7 two_items no_rows)
    × IsSettled 7 1 no_rows (submit_single_answer digit 5 7 2 "HOUSE" none no_rows)
submit_answers-IsSettled_example =
    submit_answers-IsSettled digit 5 7 two_items 2 "HOUSE" none no_rows

-- A user who names nothing.
abbrev empty_request : SimulateRequest
empty_request = record {
  monthly_income = none;
  monthly_housing = none;
  monthly_living = none;
  monthly_leisure = none;
  deposit = none;
  move_in_cost = none;
  current_asset = none;
}

unknown_asset_example :
    let r = (simulate 7 empty_request (failed failed_precondition) [] [] 0 []).0 in
    (r.result.gap ≡ r.result.target_amount)
    × ((r.asset_source ≡ from_nowhere not_linked)
        ↔ (failed failed_precondition ≡ failed failed_precondition))
unfolding get_current_balance
unknown_asset_example =
    unknown_asset 7 empty_request (failed failed_precondition) [] [] 0 [] refl refl
