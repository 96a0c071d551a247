-- ===== src/Recap/Service.antt =====
-- The operations of app/services/ai/recap_service.py. The rows of one amount keep the order of the
-- table, which the source leaves to the database. `estimate n a b` is `int(n * (a / b))` in the
-- 28-digit context of the decimal module, which is not code of the repository.
use moaje_work.Prelude.{
  ℕ, ◌*◌, Bool, true, false, ◌&&◌, ◌||◌, not, Option, none, some, List, [], ◌∷◌, ◌++◌, map, String,
  str_eq, ℤ, pos, negsuc, pos_part, ◌+ℤ◌, ◌-ℤ◌, ltb_ℤ, leb_ℤ, ltb, leb, ◌==◌, if◌then◌else◌, filter,
  find, any, count,
}
use moaje_work.Decimal.{round_half_even, round_down, signed}
use moaje_work.Fds.{InferenceLog}
use moaje_work.Cashflow.{MonthlyCashflow, CategoryCashflow}
use moaje_work.Database.{Database}
use moaje_work.Recap.{
  min_tx_for_nickname, low_coverage_ratio, is_unclassified, nickname_codes, must_keep_to_category,
  CategoryShare, no_categories, no_transactions, few_transactions, unclassified, analysed,
  RecapCoverage, Nickname, balanced, of_category, Insight, money_left, overspent, break_even,
  kept_on_top, kept_not_on_top, limited, RecapResult,
}

-- `_get_monthly`
unfoldable pub get_monthly : ℕ → String → Database → Option MonthlyCashflow
get_monthly user_id ym db = find (λ m. m.user_id == user_id && str_eq m.year_month ym) db.monthly

-- `kst_month_bounds` is passed on by the caller: the seconds of the month, first and past the
-- last, or none where `year_month` does not read as two numbers.
unfoldable pub count_transactions : ℕ → Option (ℕ × ℕ) → Database → ℕ
count_transactions user_id none db = 0
count_transactions user_id (some (start, end)) db =
    count
      (λ (log : InferenceLog).
        log.user_id == user_id
        && elim log.occurred_at [ none ↦ false | some t ↦ leb start t && ltb t end ])
      db.inference_logs

-- `ORDER BY amount DESC`
abbrev pub insert_by_amount : CategoryCashflow → List CategoryCashflow → List CategoryCashflow
insert_by_amount c [] = c ∷ []
insert_by_amount c (d ∷ rows) =
    let rest = insert_by_amount c rows in if leb_ℤ d.amount c.amount then c ∷ d ∷ rows else d ∷ rest

abbrev pub order_by_amount : List CategoryCashflow → List CategoryCashflow
order_by_amount [] = []
order_by_amount (c ∷ rows) = insert_by_amount c (order_by_amount rows)

abbrev pub in_month : ℕ → String → CategoryCashflow → Bool
in_month user_id ym c = c.user_id == user_id && str_eq c.year_month ym

-- `_get_categories`
unfoldable pub get_categories : ℕ → String → Database → List CategoryCashflow
get_categories user_id ym db = order_by_amount (filter (in_month user_id ym) db.categories)

-- `(a / b).quantize(…)` for the scale, where b is positive, else 0.
unfoldable pub quotient_of : ℕ → ℤ → ℤ → ℤ
quotient_of scale a (pos b) =
    if ltb 0 b then signed (λ n d. round_half_even (n * scale) d) a b else pos 0
quotient_of scale a (negsuc b) = pos 0

unfoldable pub build_share : ℤ → CategoryCashflow → CategoryShare
unfolding quotient_of
build_share total_expense c = record {
  code = c.category_code;
  amount = c.amount;
  share = quotient_of 10000 c.amount total_expense;
}

-- `_build_shares`
unfoldable pub build_shares : List CategoryCashflow → ℤ → List CategoryShare
build_shares cats total_expense = map (build_share total_expense) cats

unfoldable pub unclassified_amount : List CategoryCashflow → ℤ
unclassified_amount [] = pos 0
unclassified_amount (c ∷ cats) =
    let rest = unclassified_amount cats in
    if is_unclassified c.category_code then c.amount +ℤ rest else rest

-- `_build_coverage`
unfoldable pub build_coverage : (ℕ → ℤ → ℤ → ℤ) → List CategoryCashflow → ℤ → ℕ → RecapCoverage
build_coverage estimate cats total_expense total_tx =
    let unclassified_sum = unclassified_amount cats in
    let share = quotient_of 100 unclassified_sum total_expense in
    let classified_tx =
      if ltb_ℤ (pos 0) total_expense
      then estimate total_tx (total_expense -ℤ unclassified_sum) total_expense
      else pos 0 in
    let no_rows : Bool = elim cats [ [] ↦ true | _ ∷ _ ↦ false ] in
    if no_rows || leb_ℤ total_expense (pos 0)
    then record {
      total_tx = total_tx;
      classified_tx = pos 0;
      unclassified_share = pos 0;
      is_reliable = false;
      note = no_categories;
    }
    else if total_tx == 0
    then record {
      total_tx = 0;
      classified_tx = pos 0;
      unclassified_share = share;
      is_reliable = false;
      note = no_transactions;
    }
    else if ltb total_tx min_tx_for_nickname
    then record {
      total_tx = total_tx;
      classified_tx = classified_tx;
      unclassified_share = share;
      is_reliable = false;
      note = few_transactions (pos total_tx);
    }
    else if ltb_ℤ (pos low_coverage_ratio) share
    then record {
      total_tx = total_tx;
      classified_tx = classified_tx;
      unclassified_share = share;
      is_reliable = false;
      note = unclassified share;
    }
    else record {
      total_tx = total_tx;
      classified_tx = classified_tx;
      unclassified_share = share;
      is_reliable = true;
      note = analysed (pos total_tx);
    }

abbrev pub named : String → Option Nickname
named code = if any (str_eq code) nickname_codes then some (of_category code) else none

-- `_build_nickname`
unfoldable pub build_nickname : Option CategoryShare → RecapCoverage → Option Nickname
build_nickname none coverage = none
build_nickname (some top) coverage =
    if coverage.is_reliable
    then if ltb_ℤ top.share (pos 3000) then some balanced else named top.code
    else none

abbrev targets_of : String → List String
targets_of must_keep =
    elim (find (λ (e : String × List String). str_eq e.0 must_keep) must_keep_to_category) [
      | none ↦ []
      | some e ↦ e.1
    ]

abbrev first_three : List CategoryShare → List CategoryShare
first_three (a ∷ b ∷ c ∷ rest) = a ∷ b ∷ c ∷ []
first_three (a ∷ b ∷ []) = a ∷ b ∷ []
first_three (a ∷ []) = a ∷ []
first_three [] = []

-- `int((net / income) * 100)`
unfoldable pub balance_insight : MonthlyCashflow → List Insight
balance_insight monthly =
    let net = monthly.total_income -ℤ monthly.total_expense in
    if ltb_ℤ (pos 0) monthly.total_income
    then if ltb_ℤ (pos 0) net
      then money_left (signed (λ n d. round_down (n * 100) d) net (pos_part monthly.total_income))
        ∷ []
      else if ltb_ℤ net (pos 0)
      then overspent ∷ []
      else break_even ∷ []
    else []

unfoldable pub must_keep_insight : Option String → List CategoryShare → Bool → List Insight
must_keep_insight none shares reliable = []
must_keep_insight (some must_keep) [] reliable = []
must_keep_insight (some must_keep) (s ∷ shares) reliable =
    if not (str_eq must_keep "") && reliable
    then if any (λ (t : CategoryShare). any (str_eq t.code) (targets_of must_keep))
        (first_three (s ∷ shares))
      then kept_on_top must_keep ∷ []
      else kept_not_on_top must_keep ∷ []
    else []

-- `_build_insights`
unfoldable pub build_insights :
    MonthlyCashflow → List CategoryShare → Option String → RecapCoverage → List Insight
build_insights monthly shares must_keep coverage =
    balance_insight monthly
    ++ (must_keep_insight must_keep shares coverage.is_reliable
        ++ (if coverage.is_reliable then [] else limited coverage.note ∷ []))

abbrev pub head : List CategoryShare → Option CategoryShare
head [] = none
head (s ∷ shares) = some s

unfoldable pub build_recap :
    (ℕ → ℤ → ℤ → ℤ) → MonthlyCashflow → List CategoryCashflow → ℕ → Option String → RecapResult
build_recap estimate monthly cats total_tx must_keep =
    let shares = build_shares cats monthly.total_expense in
    let coverage = build_coverage estimate cats monthly.total_expense total_tx in
    let top = head shares in
    record {
      year_month = monthly.year_month;
      revision = monthly.revision;
      total_income = monthly.total_income;
      total_expense = monthly.total_expense;
      total_transfer = monthly.total_transfer;
      net_saving = monthly.total_income -ℤ monthly.total_expense;
      categories = shares;
      top_category = top;
      nickname = build_nickname top coverage;
      coverage = coverage;
      insights = build_insights monthly shares must_keep coverage;
    }

-- `get_recap`
unfoldable pub get_recap :
    (ℕ → ℤ → ℤ → ℤ) → ℕ → String → Option (ℕ × ℕ) → Option String → Database → Option RecapResult
get_recap estimate user_id year_month bounds must_keep db =
    elim (get_monthly user_id year_month db) [
      | none ↦ none
      | some monthly ↦ some (
          build_recap estimate monthly (get_categories user_id year_month db)
            (count_transactions user_id bounds db) must_keep)
    ]
