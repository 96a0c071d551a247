-- ===== src/Spending/DailyLimit.antt =====
-- The daily limit of app/services/ai/spending_service.py (`calculate_daily_limit`,
-- `_generate_advice`): what may be spent each day until the next pay. The log's snapshot and its
-- confidence are left out; `now` is the time of the row.
use native.Mathlib.Nat.{le-div_iff_mul-le, mul-pos}
use moaje_work.Prelude.{
  ℕ, ◌+◌, ◌*◌, ◌/◌, ◌≤◌, ◌==◌, ltb, leb, if◌then◌else◌, ◌∷◌, some, ℤ, pos, negsuc, ◌-ℤ◌, max_ℤ,
  pos_part, arith, ◌↔◌, ◌-◌, ◌≡◌,
}
use moaje_work.Decimal.{round_down, signed}
use moaje_work.Spending.{AnalysisLog}
use moaje_work.Database.{World}

-- `DailyLimitRequest`; its validation makes `days_until_payday` 1 to 31 and the amounts not
-- negative.
pub record DailyLimitRequest : Type 0 where
  pub user_id : ℕ
  pub current_balance : ℕ
  pub expected_income : ℕ
  pub fixed_expenses : ℕ
  pub days_until_payday : ℕ
  pub event_buffer : ℕ

-- The texts of `_generate_advice`, with the amounts they show in whole won.
pub data Advice : Type 0 where
  limit_reached : Advice
  -- what the event buffer keeps, and the limit
  event_ahead : ℕ → ℕ → Advice
  -- the days, and the limit
  payday_near : ℕ → ℕ → Advice
  relaxed : ℕ → Advice

pub record DailyLimitResponse : Type 0 where
  pub user_id : ℕ
  -- in whole won
  pub daily_limit : ℕ
  pub advice : Advice

unfoldable pub generate_advice : ℕ → ℕ → ℕ → Advice
generate_advice daily_limit event_buffer days_until_payday =
    if daily_limit == 0
    then limit_reached
    else if ltb 0 event_buffer
    then event_ahead (event_buffer / 10000) daily_limit
    else if leb days_until_payday 5
    then payday_near days_until_payday daily_limit
    else relaxed daily_limit

unfoldable pub numerator : DailyLimitRequest → ℤ
numerator req =
    pos (req.current_balance + req.expected_income)
    -ℤ pos req.fixed_expenses
    -ℤ pos req.event_buffer

-- `(numerator / days).quantize(Decimal("1"), rounding=ROUND_DOWN)`, then `max(…, 0)`.
unfoldable pub daily_limit_of : DailyLimitRequest → ℕ
daily_limit_of req =
    pos_part (max_ℤ (signed round_down (numerator req) (10000 * req.days_until_payday)) (pos 0))

unfoldable pub calculate_daily_limit : DailyLimitRequest → ℕ → World → DailyLimitResponse × World
calculate_daily_limit req now w =
    let daily_limit = daily_limit_of req in
    let log : AnalysisLog = record {
      user_id = req.user_id;
      daily_limit = some (daily_limit * 10000);
      created_at = now;
    } in
    (
      record {
        user_id = req.user_id;
        daily_limit = daily_limit;
        advice = generate_advice daily_limit req.event_buffer req.days_until_payday;
      },
      record w { db = record w.db { analysis_logs = log ∷ w.db.analysis_logs } },
    )

numerator_parts :
    (req : DailyLimitRequest)
    → pos_part (numerator req)
      ≡ req.current_balance + req.expected_income - (req.fixed_expenses + req.event_buffer)
unfolding numerator ◌-ℤ◌
numerator_parts req = ground arith

-- The rounded, floored quotient of an integer covers `won` exactly when the integer does.
covers :
    (won : ℕ) (z : ℤ) (d : ℕ)
    → 1 ≤ d
    → 1 ≤ won
    → (won ≤ pos_part (max_ℤ (signed round_down z d) (pos 0))) ↔ (won * d ≤ pos_part z)
unfolding round_down
covers won (pos n) d h k =
    let (down, up) = le-div_iff_mul-le {k = d} {x = won} {y = n} h in
    (λ e. down (ground (arith, e)), λ e. ground (arith, up e))
covers won (negsuc n) d h k =
    (λ e. absurd (ground (arith, e, k)), λ e. absurd (omega (arith, e, mul-pos k h)))

limit_covers :
    (req : DailyLimitRequest) (won : ℕ)
    → 1 ≤ req.days_until_payday
    → 1 ≤ won
    → (won ≤ daily_limit_of req)
      ↔ (won * (10000 * req.days_until_payday) ≤ pos_part (numerator req))
unfolding daily_limit_of
limit_covers req won h k =
    covers won (numerator req) (10000 * req.days_until_payday) (omega (arith, h)) k

-- Whatever whole amount is spent on each of the remaining days, it is at most the limit exactly
-- when the days together, the fixed expenses and the buffer are covered by the balance and the
-- expected income.
pub daily_limit_affordable :
    (req : DailyLimitRequest) (won now : ℕ) (w : World)
    → 1 ≤ req.days_until_payday
    → 1 ≤ won
    → (won ≤ (calculate_daily_limit req now w).0.daily_limit) ↔ (
        won * req.days_until_payday * 10000 + req.fixed_expenses + req.event_buffer
        ≤ req.current_balance + req.expected_income)
unfolding calculate_daily_limit
daily_limit_affordable req won now w h k =
    let (down, up) = limit_covers req won h k in
    let parts = numerator_parts req in
    (λ e. omega (arith, parts, down e, mul-pos k h), λ e. up (omega (arith, parts, e)))
