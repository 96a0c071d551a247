-- ===== src/Fds/Bounds.antt =====
-- Bounds of the scores of detector.py, and what they mean for alerts.
use native.Mathlib.Nat.{mul-le-mul_right}
use moaje_work.Prelude.{ℕ, ◌+◌, ◌*◌, ◌≤◌, ◌<◌, ◌≡◌, ◌↔◌, true, false, none, some, arith, le→leb}
use moaje_work.Decimal.{Ratio, IsValid, frac, ◌+r◌, ◌-r◌, ◌*r◌, ◌/r◌, ◌≤r◌, min_r}
use moaje_work.Decimal.Bounds.{
  quantize4-le, quantize4-ge, ≤r_trans, +r_mono, *r_mono, min_r-le_left, min_r-le_right, le-min_r,
  +r-IsValid, *r-IsValid, min_r-IsValid,
}
use moaje_work.Fds.{DetectRequest, MlModel, high}
use moaje_work.Fds.Score.{
  Weights, get_hybrid_weights, rule_amount, rule_time, rule_repeat, calc_rule_score,
  calc_personal_score, calc_ml_score, calc_risk_level, final_score, is_night, assess,
}

module _ (avg std : ℕ) (req : DetectRequest) where
  calc_rule_score-le : (recent : ℕ) → (calc_rule_score avg std recent req).0 ≤r frac 10 10
  unfolding calc_rule_score
  calc_rule_score-le recent = min_r-le_right _ (frac 10 10)

  calc_personal_score-le :
      (tx_count : ℕ) → (calc_personal_score avg std tx_count req).0 ≤r frac 7 10
  unfolding calc_personal_score min_r
  calc_personal_score-le tx_count = ground arith

  calc_personal_score-IsValid :
      (tx_count : ℕ) → IsValid (calc_personal_score avg std tx_count req).0
  unfolding calc_personal_score min_r
  calc_personal_score-IsValid tx_count = ground arith

  rule_amount-IsValid : IsValid (rule_amount req.amount avg std).0
  unfolding rule_amount min_r ◌+r◌ ◌*r◌ ◌/r◌ ◌-r◌
  rule_amount-IsValid = ground arith

  rule_time-IsValid : IsValid (rule_time req.hour).0
  unfolding rule_time
  rule_time-IsValid = ground arith

  rule_repeat-IsValid : (recent : ℕ) → IsValid (rule_repeat recent).0
  unfolding rule_repeat
  rule_repeat-IsValid recent = ground arith

  calc_rule_score-IsValid : (recent : ℕ) → IsValid (calc_rule_score avg std recent req).0
  unfolding calc_rule_score
  calc_rule_score-IsValid recent =
      min_r-IsValid _ (frac 10 10)
        (+r-IsValid _ _ (+r-IsValid _ _ rule_amount-IsValid rule_time-IsValid)
          (rule_repeat-IsValid recent))
        (omega arith)

-- The two weights whose scores do not come from the classifier, at most r and p tenths.
record WeightsAtMost (w : Weights) (r p : ℕ) : Type 0 where
  rule_le : w.rule ≤r frac r 10
  personal_le : w.personal ≤r frac p 10
  rule_valid : IsValid w.rule
  personal_valid : IsValid w.personal
  ml_valid : IsValid w.ml

weights_late : (tx : ℕ) → 30 < tx → WeightsAtMost (get_hybrid_weights tx) 3 4
unfolding get_hybrid_weights
weights_late tx h = ground arith

-- With no classifier the weighted sum is at most r / 10 + 7 p / 100.
final_score-le :
    (w : Weights) (r p : ℕ) (rule personal : Ratio)
    → WeightsAtMost w r p
    → IsValid rule
    → IsValid personal
    → rule ≤r frac 10 10
    → personal ≤r frac 7 10
    → final_score w rule personal (frac 0 10) ≤ r * 1000 + p * 700
unfolding final_score
final_score-le w r p rule personal ws vr vp hr hp = quantize4-le _ (r * 1000 + p * 700) valid (
    ≤r_trans _ total _ valid_total
      (≤r_trans _ sum _ valid_sum (min_r-le_left sum (frac 10 10)) le_total)
      (unfold ◌+r◌ ◌*r◌ in omega arith))
  where
    rule_part : Ratio
    rule_part = w.rule *r rule

    personal_part : Ratio
    personal_part = w.personal *r personal

    ml_part : Ratio
    ml_part = w.ml *r frac 0 10

    sum : Ratio
    sum = rule_part +r personal_part +r ml_part

    total : Ratio
    total = frac r 10 *r frac 10 10 +r frac p 10 *r frac 7 10 +r frac 0 1

    valid_rule : IsValid rule_part
    valid_rule = *r-IsValid w.rule rule ws.rule_valid vr

    valid_personal : IsValid personal_part
    valid_personal = *r-IsValid w.personal personal ws.personal_valid vp

    valid_ml : IsValid ml_part
    valid_ml = *r-IsValid w.ml (frac 0 10) ws.ml_valid (omega arith)

    valid_sum : IsValid sum
    valid_sum = +r-IsValid _ _ (+r-IsValid _ _ valid_rule valid_personal) valid_ml

    valid : IsValid (min_r sum (frac 10 10))
    valid = min_r-IsValid sum (frac 10 10) valid_sum (omega arith)

    valid_total : IsValid total
    valid_total = unfold ◌+r◌ ◌*r◌ in omega arith

    le_total : sum ≤r total
    le_total =
        +r_mono _ _ _ _
          (+r_mono _ _ _ _ (*r_mono w.rule rule (frac r 10) (frac 10 10) ws.rule_le hr)
            (*r_mono w.personal personal (frac p 10) (frac 7 10) ws.personal_le hp))
          (unfold ◌*r◌ in omega arith)

-- Whatever the amount, the hour and the repetitions, with no classifier loaded and more than 30
-- transactions the score is at most 0.58 and no alert is raised: the weight of the classifier is
-- not given to the other two scores.
pub assess_without_model :
    (avg std tx recent weekday : ℕ) (req : DetectRequest)
    → 30 < tx
    → (assess none avg std tx recent weekday req).alerted ≡ false
unfolding assess calc_ml_score
assess_without_model avg std tx recent weekday req h = ground (
  arith,
  final_score-le (get_hybrid_weights tx) 3 4 (calc_rule_score avg std recent req).0
      (calc_personal_score avg std tx req).0 (weights_late tx h)
      (calc_rule_score-IsValid avg std req recent) (calc_personal_score-IsValid avg std req tx)
      (calc_rule_score-le avg std req recent) (calc_personal_score-le avg std req tx),
)

weights-IsValid :
    (tx : ℕ) → let w = get_hybrid_weights tx in IsValid w.rule × IsValid w.personal × IsValid w.ml
unfolding get_hybrid_weights
weights-IsValid tx = ground arith

calc_ml_score-IsValid :
    (model : MlModel) (avg std tx recent weekday : ℕ) (req : DetectRequest)
    → IsValid (calc_ml_score model avg std tx recent weekday req).0
unfolding calc_ml_score min_r
calc_ml_score-IsValid none avg std tx recent weekday req = omega arith
calc_ml_score-IsValid (some predict) avg std tx recent weekday req = ground arith

weighted-IsValid :
    (w : Weights) (rule personal ml : Ratio)
    → IsValid w.rule × IsValid w.personal × IsValid w.ml
    → IsValid rule
    → IsValid personal
    → IsValid ml
    → IsValid (w.rule *r rule +r w.personal *r personal +r w.ml *r ml)
weighted-IsValid w rule personal ml ws vr vp vm =
    +r-IsValid _ _
      (+r-IsValid _ _ (*r-IsValid w.rule rule ws.0 vr) (*r-IsValid w.personal personal ws.1 vp))
      (*r-IsValid w.ml ml ws.2 vm)

final_score-le_one :
    (w : Weights) (rule personal ml : Ratio)
    → IsValid (w.rule *r rule +r w.personal *r personal +r w.ml *r ml)
    → final_score w rule personal ml ≤ 10000
unfolding final_score
final_score-le_one w rule personal ml v =
    quantize4-le _ 10000 (min_r-IsValid _ (frac 10 10) v (omega arith))
      (≤r_trans _ (frac 10 10) _ (omega arith) (min_r-le_right _ (frac 10 10)) (omega arith))

-- The score lies between 0 and 1, and an alert is raised exactly for the level HIGH.
pub assess_bounds :
    (model : MlModel) (avg std tx recent weekday : ℕ) (req : DetectRequest)
    → let a = assess model avg std tx recent weekday req in
      (a.score ≤ 10000) × ((a.alerted ≡ true) ↔ (a.level ≡ high))
unfolding assess calc_risk_level
assess_bounds model avg std tx recent weekday req = (
  final_score-le_one (get_hybrid_weights tx) _ _ _ (
      weighted-IsValid (get_hybrid_weights tx) _ _ _ (weights-IsValid tx)
        (calc_rule_score-IsValid avg std req recent) (calc_personal_score-IsValid avg std req tx)
        (calc_ml_score-IsValid model avg std tx recent weekday req)),
  ground arith,
)

calc_rule_score-ge :
    (avg std recent : ℕ) (req : DetectRequest)
    → is_night req.hour ≡ true
    → 3 ≤ recent
    → frac 7 10 ≤r (calc_rule_score avg std recent req).0
unfolding calc_rule_score rule_time rule_repeat ◌+r◌ min_r
calc_rule_score-ge avg std recent req night often = ground arith

first_weights : (tx : ℕ) → tx ≤ 10 → get_hybrid_weights tx ≡ get_hybrid_weights 0
unfolding get_hybrid_weights
first_weights tx h = ground arith

first_part :
    (rule personal ml : Ratio)
    → frac 7 10 ≤r rule
    → let w = get_hybrid_weights 0 in
      frac 7000 10000 ≤r w.rule *r rule +r w.personal *r personal +r w.ml *r ml
unfolding get_hybrid_weights ◌+r◌ ◌*r◌
first_part rule personal ml h = omega (arith, mul-le-mul_right (personal.den * ml.den) h)

final_score-ge :
    (rule personal ml : Ratio)
    → IsValid rule
    → IsValid personal
    → IsValid ml
    → frac 7 10 ≤r rule
    → 7000 ≤ final_score (get_hybrid_weights 0) rule personal ml
unfolding final_score
final_score-ge rule personal ml vr vp vm h =
    let v = weighted-IsValid (get_hybrid_weights 0) rule personal ml (weights-IsValid 0) vr vp vm in
    quantize4-ge _ 7000 (min_r-IsValid _ (frac 10 10) v (omega arith))
      (le-min_r _ (frac 10 10) (frac 7000 10000) (first_part rule personal ml h) (omega arith))

-- For a user of at most 10 transactions a payment at night, after three or more within ten
-- minutes, raises an alert whatever its amount.
pub night_repeat_alerts :
    (model : MlModel) (avg std tx recent weekday : ℕ) (req : DetectRequest)
    → tx ≤ 10
    → 2 ≤ req.hour
    → req.hour < 5
    → 3 ≤ recent
    → (assess model avg std tx recent weekday req).alerted ≡ true
unfolding assess
night_repeat_alerts model avg std tx recent weekday req few from until often =
    rw (first_weights tx few) (
      le→leb _ _ (
        final_score-ge _ _ _ (calc_rule_score-IsValid avg std req recent)
          (calc_personal_score-IsValid avg std req tx)
          (calc_ml_score-IsValid model avg std tx recent weekday req)
          (calc_rule_score-ge avg std recent req (unfold is_night in ground arith) often)))
