-- ===== src/Cashflow/Handlers.antt =====
-- `handle_monthly_cashflow` and `handle_category_cashflow` of app/kafka/consumer.py. The generated
-- Protobuf parser is not part of the code: a handler takes what it gives, none where it raises.
-- `user_id` is the result of `_to_user_id`.
use moaje_work.Prelude.{
  ℕ, Bool, ◌&&◌, Option, none, some, List, [], ◌∷◌, String, str_eq, ◌==◌, if◌then◌else◌, ℤ,
}
use moaje_work.Cashflow.{MonthlyCashflow, CategoryCashflow}
use moaje_work.Cashflow.Upsert.{upsert}

pub record MonthlyEvent : Type 0 where
  pub user_id : Option ℕ
  pub year_month : String
  pub revision : ℕ
  pub income_amount : ℤ
  pub expense_amount : ℤ
  pub transfer_amount : ℤ

pub record CategoryEvent : Type 0 where
  pub user_id : Option ℕ
  pub year_month : String
  pub revision : ℕ
  -- code and amount
  pub categories : List (String × ℤ)

abbrev pub same_month : ℕ → String → MonthlyCashflow → Bool
same_month user ym row = row.user_id == user && str_eq row.year_month ym

abbrev pub same_category : ℕ → String → String → CategoryCashflow → Bool
same_category user ym code row =
    row.user_id == user && (str_eq row.year_month ym && str_eq row.category_code code)

abbrev pub write_monthly : MonthlyEvent → MonthlyCashflow → MonthlyCashflow
write_monthly event row = record row {
  revision = event.revision;
  total_income = event.income_amount;
  total_expense = event.expense_amount;
  total_transfer = event.transfer_amount;
}

abbrev pub new_monthly : ℕ → MonthlyEvent → MonthlyCashflow
new_monthly user event = record {
  user_id = user;
  year_month = event.year_month;
  revision = event.revision;
  total_income = event.income_amount;
  total_expense = event.expense_amount;
  total_transfer = event.transfer_amount;
}

-- A table that cannot be reached leaves the exception to the log: nothing changes.
unfoldable pub handle_monthly_cashflow :
    Bool → Option MonthlyEvent → List MonthlyCashflow → List MonthlyCashflow
handle_monthly_cashflow database_available none rows = rows
handle_monthly_cashflow database_available (some event) rows = elim event.user_id [
  | none ↦ rows
  | some user ↦
      if str_eq event.year_month ""
      then rows
      else if database_available
      then upsert (λ row. row.revision) (same_month user event.year_month) (write_monthly event)
          (new_monthly user event) rows
      else rows
]

abbrev pub write_category : ℕ → ℤ → CategoryCashflow → CategoryCashflow
write_category revision amount row = record row { revision = revision; amount = amount }

abbrev pub new_category : ℕ → String → ℕ → String → ℤ → CategoryCashflow
new_category user ym revision code amount = record {
  user_id = user;
  year_month = ym;
  category_code = code;
  revision = revision;
  amount = amount;
}

-- One round of the loop over `event.categories`.
unfoldable pub store_category :
    ℕ → String → ℕ → String × ℤ → List CategoryCashflow → List CategoryCashflow
store_category user ym revision (code, amount) rows =
    if str_eq code ""
    then rows
    else upsert (λ row. row.revision) (same_category user ym code) (write_category revision amount)
        (new_category user ym revision code amount) rows

unfoldable pub store_categories :
    ℕ → String → ℕ → List (String × ℤ) → List CategoryCashflow → List CategoryCashflow
store_categories user ym revision [] rows = rows
store_categories user ym revision (c ∷ cs) rows =
    store_categories user ym revision cs (store_category user ym revision c rows)

unfoldable pub handle_category_cashflow :
    Bool → Option CategoryEvent → List CategoryCashflow → List CategoryCashflow
handle_category_cashflow database_available none rows = rows
handle_category_cashflow database_available (some event) rows = elim event.user_id [
  | none ↦ rows
  | some user ↦
      if str_eq event.year_month ""
      then rows
      else if database_available
      then store_categories user event.year_month event.revision event.categories rows
      else rows
]
