-- ===== src/Spending/Patterns.antt =====
-- `_peak_spend_hour` and `_top_category` of app/services/ai/spending_service.py: what the recorded
-- transactions and the monthly categories say of a user.
use Prim.Native.Nat.{Ordering}
use Prim.Native.String.{compare as compare_String}
use moaje_work.Prelude.{
  ℕ, Bool, true, false, ◌&&◌, ◌||◌, not, Option, none, some, List, [], ◌∷◌, String, str_eq, ◌==◌,
  ltb, if◌then◌else◌, filter, find, count, ℤ, ◌+ℤ◌, ltb_ℤ, leb_ℤ, zero, suc,
}
use moaje_work.Time.{kst_hour}
use moaje_work.Fds.{InferenceLog}
use moaje_work.Cashflow.{CategoryCashflow}
use moaje_work.Recap.{is_unclassified}

abbrev pub occurs_at_hour : ℕ → ℕ → InferenceLog → Bool
occurs_at_hour user_id hour l =
    l.user_id == user_id && elim l.occurred_at [ none ↦ false | some t ↦ kst_hour t == hour ]

-- The number of a user's transactions in the hour.
abbrev pub hour_count : ℕ → List InferenceLog → ℕ → ℕ
hour_count user_id logs hour = count (occurs_at_hour user_id hour) logs

-- The best of the hours below h, or h where it has more.
abbrev pub later : (ℕ → ℕ) → ℕ → Option ℕ → Option ℕ
later counts h none = if ltb 0 (counts h) then some h else none
later counts h (some b) = if ltb (counts b) (counts h) then some h else some b

-- The hour below the bound with the highest count, the earliest of several; none if all are 0.
abbrev pub best_hour : (ℕ → ℕ) → ℕ → Option ℕ
best_hour counts zero = none
best_hour counts (suc h) = later counts h (best_hour counts h)

-- GROUP BY the hour, ORDER BY count DESC, hour ASC, LIMIT 1.
unfoldable pub peak_spend_hour : ℕ → List InferenceLog → Option ℕ
peak_spend_hour user_id logs = best_hour (hour_count user_id logs) 24

abbrev pub is_counted : ℕ → CategoryCashflow → Bool
is_counted user_id c = c.user_id == user_id && not (is_unclassified c.category_code)

-- GROUP BY the code: the sums of the rows, one entry for each code.
abbrev pub add_to_group : String → ℤ → List (String × ℤ) → List (String × ℤ)
add_to_group code amount [] = (code, amount) ∷ []
add_to_group code amount ((c, total) ∷ groups) =
    let rest = add_to_group code amount groups in
    if str_eq c code then (c, total +ℤ amount) ∷ groups else (c, total) ∷ rest

abbrev pub group_by_code : List CategoryCashflow → List (String × ℤ)
group_by_code [] = []
group_by_code (c ∷ rows) = add_to_group c.category_code c.amount (group_by_code rows)

abbrev comes_first : String × ℤ → String × ℤ → Bool
comes_first (a, m) (b, n) =
    ltb_ℤ n m || (leb_ℤ n m && elim (compare_String a b) [ Ordering.lt ↦ true | _ ↦ false ])

-- ORDER BY total DESC, code ASC, LIMIT 1.
abbrev pub best_group : List (String × ℤ) → Option (String × ℤ)
best_group [] = none
best_group (g ∷ groups) = elim (best_group groups) [
  | none ↦ some g
  | some b ↦ if comes_first b g then some b else some g
]

-- CATEGORY_LABEL of app/services/ai/recap_service.py.
abbrev pub category_label : List (String × String)
category_label =
    ("FOOD", "식비")
    ∷ ("DELIVERY", "배달")
    ∷ ("CAFE", "카페")
    ∷ ("TRANSPORT", "교통")
    ∷ ("SHOPPING", "쇼핑")
    ∷ ("CULTURE", "문화·여가")
    ∷ ("HEALTH", "건강")
    ∷ ("EDUCATION", "교육")
    ∷ ("COMMUNICATION", "통신")
    ∷ ("HOUSING", "주거")
    ∷ ("TRAVEL", "여행")
    ∷ ("BEAUTY", "미용")
    ∷ ("ETC", "기타")
    ∷ ("UNCLASSIFIED", "미분류")
    ∷ []

abbrev pub label_of : String → String
label_of code = elim (find (λ (e : String × String). str_eq e.0 code) category_label) [
  | none ↦ code
  | some e ↦ e.1
]

unfoldable pub top_category : ℕ → List CategoryCashflow → Option String
top_category user_id rows = elim (best_group (group_by_code (filter (is_counted user_id) rows))) [
  | none ↦ none
  | some g ↦ some (label_of g.0)
]
