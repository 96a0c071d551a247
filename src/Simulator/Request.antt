-- ===== src/Simulator/Request.antt =====
-- The requests of app/api/v1/endpoints/simulator.py. What the call of Asset gives is an argument.
use moaje_work.Prelude.{
  ℕ, ◌≡◌, refl, true, Option, none, some, List, ◌==◌, find, ℤ, pos, ◌-ℤ◌, arith, String, ◌↔◌,
}
use moaje_work.AssetClient.{
  failed_precondition, invalid_argument, other_code, BalanceStatus, not_linked, CallResult,
  no_certificate, balance, failed, disconnected, status_from_grpc_code, get_current_balance,
}
use moaje_work.Onboarding.{Answer, FutureProfile}
use moaje_work.Onboarding.Service.{get_answers, get_profile}
use moaje_work.Metrics.{FeatureEvent, simulate as simulate_used, simulate_adjust, record_event}
use moaje_work.Simulator.{SimulationInput, SimulationResult, Adjustment, Tip}
use moaje_work.Simulator.Service.{build_result, build_advice, simulate_adjustment, project}

-- `asset_source`
pub data AssetSource : Type 0 where
  from_input from_asset_service : AssetSource
  from_nowhere : BalanceStatus → AssetSource

pub record SimulateRequest : Type 0 where
  pub monthly_income : Option ℕ
  pub monthly_housing : Option ℕ
  pub monthly_living : Option ℕ
  pub monthly_leisure : Option ℕ
  pub deposit : Option ℕ
  pub move_in_cost : Option ℕ
  pub current_asset : Option ℤ

-- An amount comes with the status OK alone, so the test of `lookup.ok` is the one of the amount.
unfoldable pub settle_asset : Option ℤ → CallResult → ℤ × AssetSource
unfolding get_current_balance
settle_asset (some amount) call = (amount, from_input)
settle_asset none call =
    let lookup = get_current_balance call in
    elim lookup.amount [
      | some amount ↦ (amount, from_asset_service)
      | none ↦ (pos 0, from_nowhere lookup.status)
    ]

abbrev code_of_answer : Option Answer → Option String
code_of_answer none = none
code_of_answer (some a) = some a.answer_code

-- The answer to the fifth question.
abbrev pub leisure_answer : List Answer → Option String
leisure_answer mine = code_of_answer (find (λ (a : Answer). a.question_no == 5) mine)

unfoldable pub leisure_style_of : ℕ → Option FutureProfile → List Answer → Option String
leisure_style_of user none answers = none
leisure_style_of user (some profile) answers = leisure_answer (get_answers user answers)

abbrev pub housing_of : Option FutureProfile → Option String
housing_of none = none
housing_of (some profile) = profile.housing_type

abbrev pub work_of : Option FutureProfile → Option String
work_of none = none
work_of (some profile) = profile.work_env

abbrev pub must_keep_of : Option FutureProfile → Option String
must_keep_of none = none
must_keep_of (some profile) = profile.must_keep_category

-- `_build_input`: the input, what the user wants to keep, and the source of the asset.
unfoldable pub build_input :
    ℕ
    → SimulateRequest
    → CallResult
    → List FutureProfile
    → List Answer
    → SimulationInput × Option String × AssetSource
unfolding settle_asset leisure_style_of
build_input user body call profiles answers =
    let profile = get_profile user profiles in
    let (current_asset, asset_source) = settle_asset body.current_asset call in
    (
      record {
        housing_type = housing_of profile;
        work_env = work_of profile;
        leisure_style = leisure_style_of user profile answers;
        monthly_income = body.monthly_income;
        monthly_housing = body.monthly_housing;
        monthly_living = body.monthly_living;
        monthly_leisure = body.monthly_leisure;
        deposit = body.deposit;
        move_in_cost = body.move_in_cost;
        current_asset = current_asset;
      },
      must_keep_of profile,
      asset_source,
    )

pub record SimulateResponse : Type 0 where
  pub result : SimulationResult
  pub asset_source : AssetSource
  pub advice : List Tip

-- The endpoint, which records its use.
unfoldable pub simulate :
    ℕ
    → SimulateRequest
    → CallResult
    → List FutureProfile
    → List Answer
    → ℕ
    → List FeatureEvent
    → SimulateResponse × List FeatureEvent
unfolding build_input
simulate user body call profiles answers now events =
    let (inp, must_keep, asset_source) = build_input user body call profiles answers in
    let result = build_result inp in
    (
      record {
        result = result;
        asset_source = asset_source;
        advice = build_advice result must_keep;
      },
      record_event true now user simulate_used none events,
    )

unfoldable pub adjust :
    ℕ
    → SimulateRequest
    → ℤ
    → CallResult
    → List FutureProfile
    → List Answer
    → ℕ
    → List FeatureEvent
    → Adjustment × List FeatureEvent
adjust user body monthly_delta call profiles answers now events =
    let (inp, _, _) = build_input user body call profiles answers in
    (simulate_adjustment inp monthly_delta, record_event true now user simulate_adjust none events)

gap_of_nothing :
    (inp : SimulationInput)
    → inp.current_asset ≡ pos 0
    → (build_result inp).gap ≡ (build_result inp).target_amount
unfolding build_result project ◌-ℤ◌
gap_of_nothing inp h = rw h (ground arith)

settle_asset-none :
    (call : CallResult)
    → (get_current_balance call).amount ≡ none
    → ((settle_asset none call).0 ≡ pos 0)
      × (((settle_asset none call).1 ≡ from_nowhere not_linked)
          ↔ (call ≡ failed failed_precondition))
unfolding settle_asset get_current_balance status_from_grpc_code
settle_asset-none no_certificate h = (refl, (λ e. cc, λ e. cc))
settle_asset-none (balance amount) h = cc
settle_asset-none (failed failed_precondition) h = (refl, (λ e. refl, λ e. refl))
settle_asset-none (failed invalid_argument) h = (refl, (λ e. cc, λ e. cc))
settle_asset-none (failed other_code) h = (refl, (λ e. cc, λ e. cc))
settle_asset-none disconnected h = (refl, (λ e. cc, λ e. cc))

-- Where the user names no asset and Asset gives no balance, the simulation goes on with the whole
-- target as the gap, and its source names a missing account exactly for the code
-- FAILED_PRECONDITION.
pub unknown_asset :
    (user : ℕ) (body : SimulateRequest) (call : CallResult) (profiles : List FutureProfile)
    (answers : List Answer) (now : ℕ) (events : List FeatureEvent)
    → body.current_asset ≡ none
    → (get_current_balance call).amount ≡ none
    → let r = (simulate user body call profiles answers now events).0 in
      (r.result.gap ≡ r.result.target_amount)
      × ((r.asset_source ≡ from_nowhere not_linked) ↔ (call ≡ failed failed_precondition))
unfolding simulate build_input
unknown_asset user body call profiles answers now events h k =
    rw h (let r = settle_asset-none call k in (gap_of_nothing _ r.0, r.1))
