-- ===== src/Budget.antt =====
-- The gRPC server of Work, app/grpc/server.py: the daily budget that Asset asks for, and the
-- blacklist that the gateway asks for. The request's fields are as parsed; an exception ends the
-- session without a commit and is answered by the status INTERNAL.
use moaje_work.Prelude.{
  ℕ, ◌+◌, ◌*◌, ◌≤◌, ◌≡◌, ◌↔◌, ap, ◌∙◌, Bool, true, ◌&&◌, List, leb, if◌then◌else◌, arith,
}
use moaje_work.Time.{kst_date}
use moaje_work.Fds.{BlacklistEntry}
use moaje_work.Fds.Detector.{get_blacklist_status}
use moaje_work.Spending.DailyLimit.{
  DailyLimitRequest, DailyLimitResponse, calculate_daily_limit, daily_limit_affordable,
}
use moaje_work.Schedules.{
  AcademicScheduleCreate, new_schedule, create_academic_schedule, in_week, event_buffer_of,
  get_event_buffer,
}
use moaje_work.Schedules.Fresh.{schedule_counted, switched}
use moaje_work.Database.{World, Environment, Result, ok, err, validation_error, service_unavailable}

pub record BudgetRequest : Type 0 where
  pub user_id : ℕ
  pub current_balance : ℕ
  pub expected_income : ℕ
  pub fixed_expenses : ℕ
  pub days_until_payday : ℕ

abbrev pub limit_request : BudgetRequest → ℕ → DailyLimitRequest
limit_request request event_buffer = record {
  user_id = request.user_id;
  current_balance = request.current_balance;
  expected_income = request.expected_income;
  fixed_expenses = request.fixed_expenses;
  days_until_payday = request.days_until_payday;
  event_buffer = event_buffer;
}

-- The validation of `DailyLimitRequest`, then its flush, which fails without the database.
unfoldable pub answer_budget :
    Environment → BudgetRequest → ℕ → World → Result DailyLimitResponse × World
answer_budget env request event_buffer w =
    if leb 1 request.days_until_payday && leb request.days_until_payday 31
    then (if env.database_available
        then (let (response, w') =
              calculate_daily_limit (limit_request request event_buffer) env.now w in
            (ok response, w'))
        else (err service_unavailable, w))
    else (err validation_error, w)

unfoldable pub get_daily_budget :
    Environment → BudgetRequest → World → Result DailyLimitResponse × World
unfolding answer_budget
get_daily_budget env request w =
    let (event_buffer, read) = get_event_buffer env request.user_id w in
    answer_budget env request event_buffer read

unfoldable pub check_blacklist : ℕ → List BlacklistEntry → Result Bool
check_blacklist user entries = get_blacklist_status user entries

answered :
    (env : Environment) (request : BudgetRequest) (buffer : ℕ) (w : World)
    → env.database_available ≡ true
    → 1 ≤ request.days_until_payday
    → request.days_until_payday ≤ 31
    → (answer_budget env request buffer w).0
      ≡ ok (calculate_daily_limit (limit_request request buffer) env.now w).0
unfolding answer_budget
answered env request buffer w db h k = ground (arith, db, h, k)

-- Where Redis answers as a schedule is registered and the daily budget of its user is asked next,
-- whether Redis answers by then or not, a limit is given while the database answers, and a positive
-- whole amount per day is at most that limit exactly when the balance and the expected income cover
-- all the days, the fixed expenses, the buffer from before, and the schedule's extra spending if it
-- touches the week. The days until the payday are 1 to 31.
pub budget_covers :
    (env env' : Environment) (up : Bool) (body : AcademicScheduleCreate) (request : BudgetRequest)
    (w : World) (won : ℕ)
    → w.redis.available ≡ true
    → request.user_id ≡ body.user_id
    → env'.database_available ≡ true
    → 1 ≤ request.days_until_payday
    → request.days_until_payday ≤ 31
    → 1 ≤ won
    → let today = kst_date env'.now in
      let buffer =
        event_buffer_of today body.user_id w.db.schedules
        + (if in_week today body.user_id (new_schedule env body)
            then body.expected_extra_spend
            else 0) in
      (r : DailyLimitResponse) × ((get_daily_budget env' request
          (switched up (create_academic_schedule env body w))).0
        ≡ ok r)
      × ((won ≤ r.daily_limit) ↔ (
          won * request.days_until_payday * 10000 + request.fixed_expenses + buffer
          ≤ request.current_balance + request.expected_income))
unfolding get_daily_budget
budget_covers env env' up body request w won answers own db h k pos =
    let registered = switched up (create_academic_schedule env body w) in
    let (buffer, read) = get_event_buffer env' request.user_id registered in
    let counted =
      ap (λ u. (get_event_buffer env' u registered).0) own
      ∙ schedule_counted env env' up body w answers db in
    let limit = daily_limit_affordable (limit_request request buffer) won env'.now read h pos in
    (
      (calculate_daily_limit (limit_request request buffer) env'.now read).0,
      answered env' request buffer read db h k,
      (λ e. omega (arith, counted, limit.0 e), λ e. limit.1 (omega (arith, counted, e))),
    )
