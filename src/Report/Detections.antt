-- ===== src/Report/Detections.antt =====
-- `_get_fds_summary`, and the safety score of app/api/v1/endpoints/fds.py. The database may give the
-- groups of reasons in any order: here it is that of their first row.
use moaje_work.Prelude.{
  ℕ, suc, ◌-◌, ◌*◌, Bool, true, false, ◌&&◌, Option, none, some, List, [], ◌∷◌, map, ◌==◌, ltb, leb,
  if◌then◌else◌, filter, count, length,
}
use moaje_work.Decimal.{round_half_even}
use moaje_work.Time.{kst_day_bounds}
use moaje_work.Fds.{
  InferenceLog, low, medium, high, Reason, rule_abnormal_amount, rule_abnormal_amount_fallback,
  rule_abnormal_time, rule_rapid_repeat, personal_extreme, personal_high, personal_unusual,
  ml_high_risk, ml_medium_risk,
}
use moaje_work.Report.{
  FdsSummary, Grade, grade, grade_a, grade_b, grade_c, grade_d, ReasonName, name_abnormal_amount,
  name_abnormal_amount_fallback, name_abnormal_time, name_rapid_repeat, name_personal_extreme,
  name_personal_high, name_personal_unusual, name_ml_high_risk, name_ml_medium_risk, name_normal,
}

abbrev pub is_high : InferenceLog → Bool
is_high l = elim l.risk_level [ high ↦ true | medium ↦ false | low ↦ false ]

abbrev pub is_medium : InferenceLog → Bool
is_medium l = elim l.risk_level [ high ↦ false | medium ↦ true | low ↦ false ]

-- `SAFETY_MAX`, `PENALTY_HIGH` and `PENALTY_MEDIUM`, not below 0.
unfoldable pub safety_of : ℕ → ℕ → ℕ
safety_of high_count medium_count = 40 - high_count * 8 - medium_count * 3

-- `round(safety_score / SAFETY_MAX * 100)`: of the 41 possible scores the floats round 40 as the
-- exact fractions do, and take 23 to a number just below 57.5.
unfoldable pub percent_of_safety : ℕ → ℕ
percent_of_safety score = if score == 23 then 57 else round_half_even (score * 100) 40

unfoldable pub reason_name : List Reason → ReasonName
reason_name [] = name_normal
reason_name (rule_abnormal_amount _ _ ∷ _) = name_abnormal_amount
reason_name (rule_abnormal_amount_fallback _ _ ∷ _) = name_abnormal_amount_fallback
reason_name (rule_abnormal_time _ ∷ _) = name_abnormal_time
reason_name (rule_rapid_repeat _ ∷ _) = name_rapid_repeat
reason_name (personal_extreme _ ∷ _) = name_personal_extreme
reason_name (personal_high _ ∷ _) = name_personal_high
reason_name (personal_unusual _ ∷ _) = name_personal_unusual
reason_name (ml_high_risk _ ∷ _) = name_ml_high_risk
reason_name (ml_medium_risk _ ∷ _) = name_ml_medium_risk

-- A number for each name, to compare them by.
abbrev name_no : ReasonName → ℕ
name_no name_abnormal_amount = 0
name_no name_abnormal_amount_fallback = 1
name_no name_abnormal_time = 2
name_no name_rapid_repeat = 3
name_no name_personal_extreme = 4
name_no name_personal_high = 5
name_no name_personal_unusual = 6
name_no name_ml_high_risk = 7
name_no name_ml_medium_risk = 8
name_no name_normal = 9

abbrev pub same_name : ReasonName → ReasonName → Bool
same_name a b = name_no a == name_no b

-- `reason_map[key] = reason_map.get(key, 0) + 1`
unfoldable pub add_reason : ReasonName → List (ReasonName × ℕ) → List (ReasonName × ℕ)
add_reason r [] = (r, 1) ∷ []
add_reason r ((k, n) ∷ m) =
    let rest = add_reason r m in if same_name k r then (k, suc n) ∷ m else (k, n) ∷ rest

unfoldable pub reason_map : List (ReasonName × ℕ) → List ReasonName → List (ReasonName × ℕ)
unfolding add_reason
reason_map m [] = m
reason_map m (r ∷ rs) = reason_map (add_reason r m) rs

-- `max(reason_map, key=reason_map.get)`
unfoldable pub top_reason_of : List (ReasonName × ℕ) → Option ReasonName
top_reason_of [] = none
top_reason_of ((k, n) ∷ m) = some (go k n m)
  where
    go : ReasonName → ℕ → List (ReasonName × ℕ) → ReasonName
    go k n [] = k
    go k n ((j, i) ∷ m) = if ltb n i then go j i m else go k n m

abbrev pub logs_between : ℕ → ℕ × ℕ → List InferenceLog → List InferenceLog
logs_between user b logs =
    filter (λ l. l.user_id == user && (leb b.0 l.created_at && ltb l.created_at b.1)) logs

unfoldable pub fds_summary_of : List InferenceLog → FdsSummary
fds_summary_of logs =
    let safety_score = safety_of (count is_high logs) (count is_medium logs) in
    record {
      total_detected = length logs;
      high_count = count is_high logs;
      medium_count = count is_medium logs;
      safety_score = safety_score;
      safety_grade = grade (percent_of_safety safety_score);
      top_reason =
          top_reason_of
            (reason_map [] (map (λ (l : InferenceLog). reason_name l.reason_code) logs));
    }

unfoldable pub get_fds_summary : ℕ → ℕ → ℕ → List InferenceLog → FdsSummary
get_fds_summary user start end logs =
    fds_summary_of (logs_between user (kst_day_bounds start end) logs)

-- The answer of `get_safety_score`; its emoji goes with the grade.
pub record SafetyScore : Type 0 where
  pub safety_score : ℕ
  pub grade : Grade
  pub total_tx : ℕ
  pub high_count : ℕ
  pub medium_count : ℕ

-- The last 30 days.
unfoldable pub get_safety_score : ℕ → ℕ → List InferenceLog → SafetyScore
get_safety_score now user logs =
    let recent = filter (λ l. l.user_id == user && leb (now - 2592000) l.created_at) logs in
    let score = percent_of_safety (safety_of (count is_high recent) (count is_medium recent)) in
    record {
      safety_score = score;
      grade =
          if leb 90 score
          then grade_a
          else if leb 75 score
          then grade_b
          else if leb 55 score
          then grade_c
          else grade_d;
      total_tx = length recent;
      high_count = count is_high recent;
      medium_count = count is_medium recent;
    }
