-- ===== src/Recap.antt =====
-- The data of app/services/ai/recap_service.py and its tables of codes. Amounts are signed, in
-- ten-thousandths of a won; a share is in ten-thousandths, an unclassified share in hundredths.
-- Labels stand for themselves only where a text shows them; a nickname is named by its category.
pub mod Service
pub mod Naming
pub mod Requests
pub mod Months
pub mod Listing
use moaje_work.Prelude.{
  ℕ, Bool, true, false, ◌||◌, Option, some, none, List, [], ◌∷◌, String, str_eq, ℤ,
}

abbrev pub min_tx_for_nickname : ℕ
min_tx_for_nickname = 10

-- LOW_COVERAGE_RATIO, in hundredths.
abbrev pub low_coverage_ratio : ℕ
low_coverage_ratio = 30

-- `c in UNCLASSIFIED_CODES`
unfoldable pub is_unclassified : String → Bool
is_unclassified code = str_eq code "UNCLASSIFIED" || str_eq code "ETC" || str_eq code ""

-- The keys of NICKNAME_BY_CATEGORY.
abbrev pub nickname_codes : List String
nickname_codes =
    "FOOD" ∷ "DELIVERY" ∷ "CAFE" ∷ "TRANSPORT" ∷ "SHOPPING" ∷ "CULTURE" ∷ "HEALTH" ∷ "EDUCATION"
    ∷ "TRAVEL" ∷ "BEAUTY" ∷ []

-- MUST_KEEP_TO_CATEGORY
abbrev pub must_keep_to_category : List (String × List String)
must_keep_to_category =
    ("FOOD", "FOOD" ∷ "DELIVERY" ∷ "CAFE" ∷ [])
    ∷ ("HOBBY", "CULTURE" ∷ "SHOPPING" ∷ [])
    ∷ ("TRAVEL", "TRAVEL" ∷ "TRANSPORT" ∷ [])
    ∷ ("APPEARANCE", "BEAUTY" ∷ "SHOPPING" ∷ [])
    ∷ ("RELATION", "FOOD" ∷ "CULTURE" ∷ [])
    ∷ ("LEARNING", "EDUCATION" ∷ [])
    ∷ []

pub record CategoryShare : Type 0 where
  pub code : String
  pub amount : ℤ
  pub share : ℤ

-- The texts of `RecapCoverage.note`, with the number they show.
pub data Note : Type 0 where
  no_categories no_transactions : Note
  few_transactions unclassified analysed : ℤ → Note

pub record RecapCoverage : Type 0 where
  pub total_tx : ℕ
  pub classified_tx : ℤ
  pub unclassified_share : ℤ
  pub is_reliable : Bool
  pub note : Note

pub data Nickname : Type 0 where
  balanced : Nickname
  of_category : String → Nickname

-- The texts of `_build_insights`.
pub data Insight : Type 0 where
  -- the percentage of the income that is left
  money_left : ℤ → Insight
  overspent : Insight
  break_even : Insight
  kept_on_top : String → Insight
  kept_not_on_top : String → Insight
  limited : Note → Insight

pub record RecapResult : Type 0 where
  pub year_month : String
  pub revision : ℕ
  pub total_income : ℤ
  pub total_expense : ℤ
  pub total_transfer : ℤ
  pub net_saving : ℤ
  pub categories : List CategoryShare
  pub top_category : Option CategoryShare
  pub nickname : Option Nickname
  pub coverage : RecapCoverage
  pub insights : List Insight
