-- ===== src/Fds/Score.antt =====
-- The three scores of detector.py and their weights.
use moaje_work.Prelude.{
  ℕ, ◌*◌, Bool, ◌&&◌, Option, none, some, List, [], ◌∷◌, ◌++◌, ltb, leb, if◌then◌else◌,
}
use moaje_work.Decimal.{Ratio, frac, distance, ◌+r◌, ◌-r◌, ◌*r◌, ◌/r◌, leb_r, min_r, quantize4}
use moaje_work.Fds.{
  DetectRequest, Features, MlModel, Reason, rule_abnormal_amount, rule_abnormal_amount_fallback,
  rule_abnormal_time, rule_rapid_repeat, personal_extreme, personal_high, personal_unusual,
  ml_high_risk, ml_medium_risk, RiskLevel, low, medium, high, Message, detected, caution, normal,
}

abbrev pub risk_score_alert_threshold : ℕ
risk_score_alert_threshold = 7000

abbrev pub night_hour_start : ℕ
night_hour_start = 2

abbrev pub night_hour_end : ℕ
night_hour_end = 5

abbrev pub rapid_repeat_seconds : ℕ
rapid_repeat_seconds = 600

abbrev pub rapid_repeat_count : ℕ
rapid_repeat_count = 3

abbrev pub zscore_threshold : Ratio
zscore_threshold = frac 30 10

pub record Weights : Type 0 where
  pub rule : Ratio
  pub personal : Ratio
  pub ml : Ratio

-- A weight triple in tenths.
abbrev tenths : ℕ → ℕ → ℕ → Weights
tenths r p m = record { rule = frac r 10; personal = frac p 10; ml = frac m 10 }

-- (min_tx, max_tx, weights)
abbrev pub hybrid_stages : List (ℕ × Option ℕ × Weights)
hybrid_stages =
    (0, some 10, tenths 10 0 0)
    ∷ (11, some 30, tenths 7 3 0)
    ∷ (31, some 70, tenths 3 4 3)
    ∷ (71, none, tenths 1 1 8)
    ∷ []

-- The loop of `_get_hybrid_weights`.
stage_weights : List (ℕ × Option ℕ × Weights) → ℕ → Weights
stage_weights [] tx_count = tenths 1 1 8
stage_weights ((_, none, w) ∷ rest) tx_count = w
stage_weights ((_, some max_tx, w) ∷ rest) tx_count =
    let later = stage_weights rest tx_count in if leb tx_count max_tx then w else later

unfoldable pub get_hybrid_weights : ℕ → Weights
unfolding stage_weights
get_hybrid_weights tx_count = stage_weights hybrid_stages tx_count

abbrev pub Scored : Type 0
Scored = Ratio × List Reason

unfoldable pub is_night : ℕ → Bool
is_night hour = leb night_hour_start hour && ltb hour night_hour_end

-- Rule 1 of `_calc_rule_score`: what it adds, and its reason.
unfoldable pub rule_amount : ℕ → ℕ → ℕ → Scored
rule_amount amount avg std =
    if ltb 0 std
    then (let z_score = frac (distance amount avg) std in
        if leb_r zscore_threshold z_score
        then (
          min_r (frac 5 10)
              (frac 3 10 +r (z_score -r zscore_threshold) /r zscore_threshold *r frac 2 10),
          rule_abnormal_amount z_score amount ∷ [],
        )
        else (frac 0 10, []))
    else if ltb 0 avg && leb (avg * 3) amount
    then (
      min_r (frac 5 10) (frac amount (avg * 3) *r frac 3 10),
      rule_abnormal_amount_fallback avg amount ∷ [],
    )
    else (frac 0 10, [])

unfoldable pub rule_time : ℕ → Scored
unfolding is_night
rule_time hour =
    if is_night hour then (frac 3 10, rule_abnormal_time hour ∷ []) else (frac 0 10, [])

unfoldable pub rule_repeat : ℕ → Scored
rule_repeat recent =
    if leb rapid_repeat_count recent
    then (frac 4 10, rule_rapid_repeat recent ∷ [])
    else (frac 0 10, [])

-- The score begins at 0 and each rule adds to it; `min(score, 1)` at the end.
unfoldable pub calc_rule_score : ℕ → ℕ → ℕ → DetectRequest → Scored
calc_rule_score avg std recent req =
    let a = rule_amount req.amount avg std in
    let t = rule_time req.hour in
    let p = rule_repeat recent in (min_r (a.0 +r t.0 +r p.0) (frac 10 10), a.1 ++ (t.1 ++ p.1))

unfoldable pub calc_personal_score : ℕ → ℕ → ℕ → DetectRequest → Scored
calc_personal_score avg std tx_count req =
    if ltb tx_count 10
    then (frac 0 10, [])
    else if leb std 0
    then (frac 0 10, [])
    else (let z = frac (distance req.amount avg) std in
        if leb_r (frac 40 10) z
        then (min_r (frac 7 10) (frac 10 10), personal_extreme z ∷ [])
        else if leb_r (frac 30 10) z
        then (min_r (frac 5 10) (frac 10 10), personal_high z ∷ [])
        else if leb_r (frac 20 10) z
        then (min_r (frac 3 10) (frac 10 10), personal_unusual z ∷ [])
        else (min_r (frac 0 10) (frac 10 10), []))

unfoldable pub features : ℕ → ℕ → ℕ → ℕ → ℕ → DetectRequest → Features
features avg std tx_count recent weekday req = record {
  amount_zscore = if ltb 0 std then frac (distance req.amount avg) std else frac 0 10;
  amount_ratio = if ltb 0 avg then frac req.amount avg else frac 10 10;
  hour = req.hour;
  is_night = if is_night req.hour then 1 else 0;
  tx_count = tx_count;
  recent_tx_10min = recent;
  day_of_week = weekday;
  has_event_7days = 0;
  days_to_event = 30;
}

ml_reasons : Ratio → List Reason
ml_reasons prob =
    if leb_r (frac 7 10) prob
    then ml_high_risk prob ∷ []
    else if leb_r (frac 4 10) prob
    then ml_medium_risk prob ∷ []
    else []

-- `score = Decimal(str(round(prob, 4)))`; a call that raises leaves the score at 0.
unfoldable pub calc_ml_score : MlModel → ℕ → ℕ → ℕ → ℕ → ℕ → DetectRequest → Scored
unfolding ml_reasons
calc_ml_score none avg std tx_count recent weekday req = (frac 0 10, [])
calc_ml_score (some predict_proba) avg std tx_count recent weekday req =
    elim (predict_proba (features avg std tx_count recent weekday req)) [
      | none ↦ (min_r (frac 0 10) (frac 10 10), [])
      | some prob ↦ (min_r (frac (quantize4 prob) 10000) (frac 10 10), ml_reasons prob)
    ]

unfoldable pub calc_risk_level : ℕ → RiskLevel
calc_risk_level score = if leb 7000 score then high else if leb 4000 score then medium else low

unfoldable pub generate_message : RiskLevel → List Reason → Message
generate_message high reason_code = detected reason_code
generate_message medium reason_code = caution reason_code
generate_message low reason_code = normal

-- The weighted sum of `detect`, at most 1, and rounded to the scale of the column.
unfoldable pub final_score : Weights → Ratio → Ratio → Ratio → ℕ
final_score w rule personal ml =
    quantize4 (min_r (w.rule *r rule +r w.personal *r personal +r w.ml *r ml) (frac 10 10))

-- What `detect` computes of a transaction before it stores and answers.
pub record Assessment : Type 0 where
  pub score : ℕ
  pub level : RiskLevel
  pub reasons : List Reason
  pub alerted : Bool

unfoldable pub assess : MlModel → ℕ → ℕ → ℕ → ℕ → ℕ → DetectRequest → Assessment
assess model avg std tx_count recent weekday req =
    let w = get_hybrid_weights tx_count in
    let rule = calc_rule_score avg std recent req in
    let personal = calc_personal_score avg std tx_count req in
    let ml = calc_ml_score model avg std tx_count recent weekday req in
    let score = final_score w rule.0 personal.0 ml.0 in
    record {
      score = score;
      level = calc_risk_level score;
      reasons = rule.1 ++ (personal.1 ++ ml.1);
      alerted = leb risk_score_alert_threshold score;
    }
