-- ===== src/Readiness/Bounds.antt =====
-- Each judged item scores at most its weight, and what the percentage says.
use native.Mathlib.Nat.{div-le_of_le-mul, le-div_iff_mul-le}
use moaje_work.Prelude.{
  ℕ, ◌-◌, ◌*◌, ◌/◌, ◌≤◌, ◌≡◌, ◌↔◌, Option, none, some, List, [], ◌∷◌, arith, ltb, count, length,
  count-le-length, ℤ, pos, negsuc, pos_part, neg_part, ◌≤ℤ◌, lt→ltb,
}
use moaje_work.Decimal.{round_half_up}
use moaje_work.Decimal.Bounds.{round_half_up-le}
use moaje_work.Fds.{RiskLevel}
use moaje_work.Readiness.{
  goal, plan, spending, safety, ReadinessItem, History, w_goal, w_spending, w_plan, w_safety,
  spending_score, safety_score, goal_score, plan_score, readiness_items, total_weight, gained, lost,
  percent_of, calculate,
}

-- A score of 0 up to w, or none.
abbrev pub Within : ℕ → Option ℤ → Type 0
Within w none = Unit
Within w (some s) = (neg_part s ≡ 0) × (pos_part s ≤ w)

spending_score-Within : (values : List ℕ) → Within w_spending (spending_score values)
unfolding spending_score
spending_score-Within [] = tt
spending_score-Within (v ∷ values) =
    let kept = count-le-length (λ x. ltb 0 x) (v ∷ values) in
    let capped =
      round_half_up-le (count (λ x. ltb 0 x) (v ∷ values) * w_spending) (length (v ∷ values))
        w_spending (omega arith) (omega (arith, kept)) in
    (omega arith, omega (arith, capped))

safety_score-Within : (levels : List RiskLevel) → Within w_safety (safety_score levels)
unfolding safety_score
safety_score-Within [] = tt
safety_score-Within (l ∷ levels) = omega arith

goal_score-Within : (progress : ℤ) → pos 0 ≤ℤ progress → Within w_goal (some (goal_score progress))
unfolding goal_score round_half_up
goal_score-Within (pos p) h = (ground arith, ground arith)
goal_score-Within (negsuc p) h = absurd (omega (arith, h))

plan_score-Within : (answered : ℕ) → Within w_plan (some (plan_score answered))
unfolding plan_score round_half_up
plan_score-Within answered = omega arith

-- What the four bounds say together of any list of items of this form.
items_bounded :
    (g p : ℤ) (s f : Option ℤ)
    → Within w_goal (some g)
    → Within w_spending s
    → Within w_plan (some p)
    → Within w_safety f
    → let items : List ReadinessItem =
        record { key = goal; weight = w_goal; score = some g }
        ∷ record { key = spending; weight = w_spending; score = s }
        ∷ record { key = plan; weight = w_plan; score = some p }
        ∷ record { key = safety; weight = w_safety; score = f }
        ∷ [] in
      (lost items ≡ 0) × (gained items ≤ total_weight items) × (65 ≤ total_weight items)
items_bounded g p none none hg hs hp hf =
    (omega (arith, hg, hp), omega (arith, hg, hp), omega arith)
items_bounded g p none (some f) hg hs hp hf =
    (omega (arith, hg, hp, hf), omega (arith, hg, hp, hf), omega arith)
items_bounded g p (some s) none hg hs hp hf =
    (omega (arith, hg, hp, hs), omega (arith, hg, hp, hs), omega arith)
items_bounded g p (some s) (some f) hg hs hp hf =
    (omega (arith, hg, hp, hs, hf), omega (arith, hg, hp, hs, hf), omega arith)

percent_plain :
    (items : List ReadinessItem)
    → lost items ≡ 0
    → gained items ≤ total_weight items
    → 65 ≤ total_weight items
    → percent_of items ≡ gained items * 100 / total_weight items
unfolding percent_of
percent_plain items none_lost fits heavy =
    let most : gained items * 100 / total_weight items ≤ 100 =
      div-le_of_le-mul (total_weight items) (omega (arith, fits)) in
    let whole : gained items - lost items ≡ gained items = omega (arith, none_lost) in
    rw (lt→ltb 0 (total_weight items) (omega (arith, heavy)), whole) (omega (arith, most))

items_sum :
    (progress : ℤ) (answered : ℕ) (history : History)
    → pos 0 ≤ℤ progress
    → let items = readiness_items progress answered history in
      (lost items ≡ 0) × (gained items ≤ total_weight items) × (65 ≤ total_weight items)
unfolding readiness_items
items_sum progress answered history h =
    items_bounded (goal_score progress) (plan_score answered) (spending_score history.daily_limits)
      (safety_score history.risk_levels) (goal_score-Within progress h)
      (spending_score-Within history.daily_limits) (plan_score-Within answered)
      (safety_score-Within history.risk_levels)

-- For a progress that is not negative no judged item scores below 0 or above its weight, so the
-- limits at 0 and 100 never act: the percentage is the whole part of the exact quotient.
percent_exact :
    (progress : ℤ) (answered : ℕ) (history : History)
    → pos 0 ≤ℤ progress
    → let r = calculate progress answered history in
      (r.percent ≡ gained r.items * 100 / total_weight r.items)
      × (gained r.items ≤ total_weight r.items)
unfolding calculate
percent_exact progress answered history h =
    let (none_lost, fits, heavy) = items_sum progress answered history h in
    (percent_plain (readiness_items progress answered history) none_lost fits heavy, fits)

quotient_full : (g w : ℕ) → g ≤ w → 65 ≤ w → (g * 100 / w ≡ 100) ↔ (g ≡ w)
quotient_full g w fits heavy =
    let (down, up) = le-div_iff_mul-le {k = w} {x = 100} {y = g * 100} (omega (arith, heavy)) in
    (
      λ e. omega (arith, down (omega (arith, e)), fits),
      λ e.
          let at_least = up (omega (arith, e)) in
          let at_most : g * 100 / w ≤ 100 = div-le_of_le-mul w (omega (arith, fits)) in
          omega (arith, at_least, at_most),
    )

-- The percentage is 100 exactly when every judged item has its full weight, for a progress that
-- is not negative.
pub percent_full :
    (progress : ℤ) (answered : ℕ) (history : History)
    → pos 0 ≤ℤ progress
    → let r = calculate progress answered history in
      (r.percent ≡ 100) ↔ (gained r.items ≡ total_weight r.items)
unfolding calculate
percent_full progress answered history h =
    let items = readiness_items progress answered history in
    let (none_lost, fits, heavy) = items_sum progress answered history h in
    rw (percent_plain items none_lost fits heavy)
      (quotient_full (gained items) (total_weight items) fits heavy)
