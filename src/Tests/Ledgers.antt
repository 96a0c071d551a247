-- ===== src/Tests/Ledgers.antt =====
-- Concrete runs of the monthly totals, of the recap and of the spending services.
use moaje_work.Cashflow.Handlers.{MonthlyEvent}
use moaje_work.Cashflow.Refinement.{row_of, latest, deliver_each, answered, monthly_refines}
use moaje_work.Spending.Coherence.{served_after_update}
use moaje_work.Spending.ProfileStore.{is_profile, get_or_create_profile}
use moaje_work.Spending.{Profile}
use moaje_work.Prelude.{
  ℕ, ◌≡◌, refl, none, some, List, [], ◌∷◌, String, ℤ, pos, find, false, Bool, true,
}
use moaje_work.Cashflow.{CategoryCashflow, MonthlyCashflow}
use moaje_work.Cashflow.Revision.{look}
use moaje_work.Database.{Database, World}
use moaje_work.Spending.Welford.{update_profile_from_transaction}
use moaje_work.Fds.{InferenceLog}
use moaje_work.Tests.Fraud.{empty_db, start, earlier, noon, no_kafka, zero_root}

-- A month's totals in two revisions.
abbrev first_totals : MonthlyEvent
first_totals = record {
  user_id = some 7;
  year_month = "2026-09";
  revision = 1;
  income_amount = pos 10000000000;
  expense_amount = pos 8000000000;
  transfer_amount = pos 0;
}

abbrev second_totals : MonthlyEvent
second_totals = record first_totals { revision = 2; expense_amount = pos 9000000000 }

abbrev pub first_row : MonthlyCashflow
first_row = record {
  user_id = 7;
  year_month = "2026-09";
  revision = 1;
  total_income = pos 10000000000;
  total_expense = pos 8000000000;
  total_transfer = pos 0;
}

abbrev category_row : String → ℤ → CategoryCashflow
category_row code amount = record {
  user_id = 7;
  year_month = "2026-09";
  category_code = code;
  revision = 1;
  amount = amount;
}

abbrev two_rows : List CategoryCashflow
two_rows = category_row "CAFE" (pos 1000000000) ∷ category_row "FOOD" (pos 7000000000) ∷ []

-- Ten transactions at one in the morning of the first Korean day.
abbrev timed : String → InferenceLog
timed id = record (earlier id) { occurred_at = some 57600 }

abbrev ten_logs : List InferenceLog
ten_logs =
    timed "0"
    ∷ timed "1"
    ∷ timed "2"
    ∷ timed "3"
    ∷ timed "4"
    ∷ timed "5"
    ∷ timed "6"
    ∷ timed "7"
    ∷ timed "8"
    ∷ timed "9"
    ∷ []

abbrev pub month_db : Database
month_db = record empty_db {
  inference_logs = ten_logs;
  monthly = first_row ∷ [];
  categories = two_rows;
}

abbrev pub no_estimate : ℕ → ℤ → ℤ → ℤ
no_estimate n a b = pos n

abbrev known_profile : Profile
known_profile = record {
  user_id = 7;
  university_id = some 4;
  avg_daily_amount = 300000000;
  std_daily_amount = 150000000;
  tx_count = 2;
  peak_spend_hour = 12;
  top_category = "FOOD";
  risk_score_baseline = 10;
  last_analyzed_at = some 5;
}

abbrev known : World
known = record start { db = record empty_db { profiles = known_profile ∷ [] } }

served_after_update_example :
    (q : Profile) × (find
        (is_profile 7)
        (update_profile_from_transaction zero_root noon 7 120000000 false known).db.profiles
      ≡ some q)
    × ((get_or_create_profile no_kafka 7
          (update_profile_from_transaction zero_root noon 7 120000000 false known)).0
        ≡ record q { university_id = none })
served_after_update_example =
    served_after_update zero_root noon no_kafka 7 120000000 5 false known_profile known refl refl
      refl refl

-- The second revision comes while the database does not answer, and again later.
abbrev one_lost : List (Bool × MonthlyEvent)
one_lost = (false, second_totals) ∷ (true, first_totals) ∷ (true, second_totals) ∷ []

monthly_refines_example :
    look 7 "2026-09" (deliver_each one_lost [])
    ≡ row_of 7 (latest 7 "2026-09" none (answered one_lost))
monthly_refines_example = monthly_refines one_lost 7 "2026-09"
