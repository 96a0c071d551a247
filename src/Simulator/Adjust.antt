-- ===== src/Simulator/Adjust.antt =====
-- `simulate_adjustment` against `build_result`: the same formula, on amounts of whole won.
use moaje_work.Prelude.{
  ℕ, ◌+◌, ◌%◌, ◌<◌, ◌≡◌, refl, inl, inr, Option, none, some, arith, String, Bool-cases, ℤ, pos,
  negsuc, ◌-ℤ◌, ◌≤ℤ◌, int_laws, List, [], ◌≢◌,
}
use moaje_work.Decimal.{round_half_up}
use moaje_work.Simulator.{SimulationInput}
use moaje_work.Simulator.Baselines.{get_or, expected_income, startup_income, living_base_monthly}
use moaje_work.Simulator.Service.{
  won, won_ℤ, resolve, housing_cost, leisure_cost, settle_costs, savable_of, months_to_goal,
  build_result, simulate_adjustment, is_with_family,
}
use moaje_work.Simulator.Goal.{months_to_goal_mono, months_to_goal_none}

-- A whole number of won.
abbrev pub IsWhole : ℕ → Type 0
IsWhole v = v % 10000 ≡ 0

abbrev pub IsWholeInput : Option ℕ → Type 0
IsWholeInput none = Unit
IsWholeInput (some v) = IsWhole v

won-IsWhole : (v d : ℕ) → IsWhole (won v d)
unfolding won
won-IsWhole v d = omega arith

income-IsWhole : (key : Option String) → IsWhole (get_or key startup_income expected_income).amount
income-IsWhole none = refl
income-IsWhole (some k) = ground arith

-- The four amounts of the saving that the user may give, given in whole won.
pub record WholeAmounts (inp : SimulationInput) : Type 0 where
  pub income : IsWholeInput inp.monthly_income
  pub housing : IsWholeInput inp.monthly_housing
  pub living : IsWholeInput inp.monthly_living
  pub leisure : IsWholeInput inp.monthly_leisure

resolve_income-IsWhole :
    (o : Option ℕ) (key : Option String) (assumed : List String)
    → IsWholeInput o
    → IsWhole (resolve o (get_or key startup_income expected_income) assumed).0
unfolding resolve
resolve_income-IsWhole none key assumed h = income-IsWhole key
resolve_income-IsWhole (some v) key assumed h = h

resolve_living-IsWhole :
    (o : Option ℕ) (assumed : List String)
    → IsWholeInput o
    → IsWhole (resolve o living_base_monthly assumed).0
unfolding resolve
resolve_living-IsWhole none assumed h = refl
resolve_living-IsWhole (some v) assumed h = h

housing-IsWhole :
    (o : Option ℕ) (inp : SimulationInput) (income : ℕ)
    → inp.monthly_housing ≡ o
    → IsWholeInput o
    → IsWhole (housing_cost inp income)
unfolding housing_cost
housing-IsWhole (some v) inp income e h = rw (e, housing_cost) h
housing-IsWhole none inp income e h = elim (Bool-cases (is_with_family inp.housing_type)) [
  | inl family ↦ rw (e, housing_cost) (rw family)
  | inr own ↦ rw (e, housing_cost) (rw own (won-IsWhole _ _))
]

leisure-IsWhole :
    (o : Option ℕ) (inp : SimulationInput)
    → inp.monthly_leisure ≡ o
    → IsWholeInput o
    → IsWhole (leisure_cost inp)
unfolding leisure_cost
leisure-IsWhole (some v) inp e h = rw (e, leisure_cost) h
leisure-IsWhole none inp e h = rw (e, leisure_cost) (won-IsWhole _ _)

won_ℤ_whole : (a b : ℕ) → IsWhole a → IsWhole b → won_ℤ (pos a -ℤ pos b) ≡ pos a -ℤ pos b
unfolding won_ℤ ◌-ℤ◌ round_half_up
won_ℤ_whole a b h k = ground arith

sum-IsWhole : (a b c : ℕ) → IsWhole a → IsWhole b → IsWhole c → IsWhole (a + b + c)
sum-IsWhole a b c h k l = omega arith

savable_whole :
    (inp : SimulationInput)
    → WholeAmounts inp
    → won_ℤ (savable_of (settle_costs inp)) ≡ savable_of (settle_costs inp)
unfolding settle_costs
savable_whole inp w =
    won_ℤ_whole _ _ (resolve_income-IsWhole inp.monthly_income inp.work_env [] w.income) (
      sum-IsWhole _ _ _ (housing-IsWhole inp.monthly_housing inp _ refl w.housing)
        (resolve_living-IsWhole inp.monthly_living _ w.living)
        (leisure-IsWhole inp.monthly_leisure inp refl w.leisure))

-- The months of the answer follow from the saving and the gap of the answer.
months_of_answer :
    (inp : SimulationInput)
    → WholeAmounts inp
    → let r = build_result inp in r.months_to_goal ≡ months_to_goal r.gap r.monthly_savable
unfolding build_result
months_of_answer inp w = rw (savable_whole inp w)

sub_zero : (a : ℤ) → a -ℤ pos 0 ≡ a
unfolding ◌-ℤ◌
sub_zero (pos n) = ground arith
sub_zero (negsuc n) = ground arith

-- On whole won a change of nothing changes nothing: the adjusted months are the months of the
-- simulation.
pub adjust_nothing :
    (inp : SimulationInput)
    → WholeAmounts inp
    → (simulate_adjustment inp (pos 0)).adjusted_months_to_goal ≡ (build_result inp).months_to_goal
unfolding simulate_adjustment
adjust_nothing inp w = rw (sub_zero (build_result inp).monthly_savable, months_of_answer inp w)

less_expense : (a d : ℤ) → d ≤ℤ pos 0 → a ≤ℤ a -ℤ d
less_expense a d h = omega int_laws

-- On whole won, spending less each month never makes the goal later, and reaches it if it was
-- reachable.
adjust_saving :
    (inp : SimulationInput) (delta : ℤ) (m : ℕ)
    → WholeAmounts inp
    → delta ≤ℤ pos 0
    → (build_result inp).months_to_goal ≡ some m
    → (d : ℤ) × ((simulate_adjustment inp delta).months_saved ≡ some d) × (pos 0 ≤ℤ d)
unfolding simulate_adjustment
adjust_saving inp delta m w less h =
    let r = build_result inp in
    let (n, e, le) =
      months_to_goal_mono r.gap r.monthly_savable (r.monthly_savable -ℤ delta) m
        (less_expense r.monthly_savable delta less) (rw (months_of_answer inp w) at h) in
    (pos m -ℤ pos n, rw (h, e), omega (int_laws, le))

won_ℤ_small : (s : ℕ) → s < 5000 → won_ℤ (pos s) ≡ pos 0
unfolding won_ℤ round_half_up
won_ℤ_small s h = ground arith

-- Amounts that are not whole won part the two: where less than half a won is left each month the
-- simulation names the months to the goal, and the adjustment by nothing finds none.
adjust_fraction :
    (inp : SimulationInput) (s : ℕ)
    → savable_of (settle_costs inp) ≡ pos s
    → 0 < s
    → s < 5000
    → 0 < (build_result inp).gap
    → ((build_result inp).months_to_goal ≢ none)
      × ((simulate_adjustment inp (pos 0)).adjusted_months_to_goal ≡ none)
unfolding simulate_adjustment build_result
adjust_fraction inp s e p small open_gap =
    let r = build_result inp in
    (
      rw e (λ h. absurd (omega (arith, ((months_to_goal_none r.gap (pos s)).0 h).1))),
      rw (e, won_ℤ_small s small)
          ((months_to_goal_none r.gap (pos 0 -ℤ pos 0)).1 (open_gap, unfold ◌-ℤ◌ in omega arith)),
    )
