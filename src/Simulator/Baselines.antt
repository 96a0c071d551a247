-- ===== src/Simulator/Baselines.antt =====
-- The constants of app/services/ai/cost_baseline.py.
use moaje_work.Prelude.{
  ℕ, ◌*◌, Option, none, some, List, [], ◌∷◌, ◌++◌, map, String, str_eq, if◌then◌else◌,
}
use moaje_work.Simulator.{ValueKind, statistic, assumption, Baseline}

abbrev baseline : String → ℕ → ValueKind → Baseline
baseline key amount kind = record { key = key; amount = amount; kind = kind }

-- An amount in won.
abbrev assume : String → ℕ → Baseline
assume key won = baseline key (won * 10000) assumption

abbrev pub rir_ratio : Baseline
rir_ratio = baseline "rir_ratio" 1580 statistic

abbrev pub deposit_reference : Baseline
deposit_reference = baseline "deposit_reference" 273900000000 statistic

abbrev pub rent_deposit : Baseline
rent_deposit = assume "housing_deposit_monthly_rent" 10000000

abbrev pub housing_deposit : List (String × Baseline)
housing_deposit =
    ("WITH_FAMILY", assume "housing_deposit_with_family" 0)
    ∷ ("MONTHLY_RENT", rent_deposit)
    ∷ ("JEONSE", assume "housing_deposit_jeonse" 100000000)
    ∷ ("DORM_SHARE", assume "housing_deposit_dorm" 2000000)
    ∷ []

abbrev pub leisure_monthly : Baseline
leisure_monthly = baseline "leisure_monthly" 1870000000 statistic

abbrev pub leisure_factor : List (String × ℕ)
leisure_factor =
    ("HOME_REST", 6000)
    ∷ ("SELF_DEV", 9000)
    ∷ ("CULTURE", 12000)
    ∷ ("SOCIAL", 13000)
    ∷ ("OUTDOOR", 11000)
    ∷ []

abbrev pub living_base_monthly : Baseline
living_base_monthly = assume "living_base_monthly" 700000

abbrev pub move_in_cost : Baseline
move_in_cost = assume "move_in_cost" 3000000

abbrev pub startup_income : Baseline
startup_income = assume "income_startup" 2500000

abbrev pub expected_income : List (String × Baseline)
expected_income =
    ("LARGE_CORP", assume "income_large_corp" 3000000)
    ∷ ("STARTUP", startup_income)
    ∷ ("FREELANCE", assume "income_freelance" 2200000)
    ∷ []

abbrev pub emergency_months : Baseline
emergency_months = assume "emergency_months" 3

-- `table.get(key or "", default)`
abbrev pub get_or {ℓ} : {A : Type ℓ} → Option String → A → List (String × A) → A
get_or none default table = default
get_or (some k) default [] = default
get_or (some k) default ((j, v) ∷ table) =
    let rest = get_or (some k) default table in if str_eq k j then v else rest

unfoldable pub all_baselines : List Baseline
all_baselines =
    rir_ratio
    ∷ deposit_reference
    ∷ leisure_monthly
    ∷ living_base_monthly
    ∷ move_in_cost
    ∷ emergency_months
    ∷ (map (λ e. e.1) housing_deposit ++ map (λ e. e.1) expected_income)
