-- ===== src/Readiness/Request.antt =====
-- The endpoint of app/api/v1/endpoints/readiness.py, with the request of app/schemas/readiness.py,
-- which has the fields of the simulator's. The rows that the service reads are an argument.
use moaje_work.Prelude.{ℕ, ◌≡◌, refl, true, none, some, List, length}
use moaje_work.Onboarding.{Answer, FutureProfile}
use moaje_work.Onboarding.Service.{get_answers, get_profile}
use moaje_work.Metrics.{FeatureEvent, readiness_view, record_event}
use moaje_work.Simulator.{SimulationInput}
use moaje_work.Simulator.Service.{build_result}
use moaje_work.AssetClient.{CallResult}
use moaje_work.Simulator.Request.{
  AssetSource, SimulateRequest, settle_asset, leisure_style_of, leisure_answer, housing_of, work_of,
  build_input, simulate,
}
use moaje_work.Readiness.{History, ReadinessResult, calculate}

pub record ReadinessResponse : Type 0 where
  pub result : ReadinessResult
  pub asset_source : AssetSource

-- `sim_input`, which reads the fifth answer also where there is no profile.
unfoldable pub readiness_input :
    ℕ
    → SimulateRequest
    → CallResult
    → List FutureProfile
    → List Answer
    → SimulationInput × AssetSource
unfolding settle_asset
readiness_input user body call profiles answers =
    let profile = get_profile user profiles in
    let (current_asset, asset_source) = settle_asset body.current_asset call in
    (
      record {
        housing_type = housing_of profile;
        work_env = work_of profile;
        leisure_style = leisure_answer (get_answers user answers);
        monthly_income = body.monthly_income;
        monthly_housing = body.monthly_housing;
        monthly_living = body.monthly_living;
        monthly_leisure = body.monthly_leisure;
        deposit = body.deposit;
        move_in_cost = body.move_in_cost;
        current_asset = current_asset;
      },
      asset_source,
    )

unfoldable pub get_readiness :
    ℕ
    → SimulateRequest
    → CallResult
    → List FutureProfile
    → List Answer
    → History
    → ℕ
    → List FeatureEvent
    → ReadinessResponse × List FeatureEvent
unfolding readiness_input
get_readiness user body call profiles answers history now events =
    let (inp, asset_source) = readiness_input user body call profiles answers in
    (
      record {
        result =
            calculate (build_result inp).progress_rate (length (get_answers user answers)) history;
        asset_source = asset_source;
      },
      record_event true now user readiness_view none events,
    )

-- For a user with a profile the readiness of a request is the one of the progress that the
-- simulation of the same request shows, with the same source of the asset.
readiness_as_simulated :
    (user : ℕ) (body : SimulateRequest) (call : CallResult) (profiles : List FutureProfile)
    (answers : List Answer) (history : History) (now : ℕ) (events : List FeatureEvent)
    (profile : FutureProfile)
    → get_profile user profiles ≡ some profile
    → let simulated = (simulate user body call profiles answers now events).0 in
      let shown = (get_readiness user body call profiles answers history now events).0 in
      (shown.result
        ≡ calculate simulated.result.progress_rate (length (get_answers user answers)) history)
      × (shown.asset_source ≡ simulated.asset_source)
unfolding simulate build_input get_readiness leisure_style_of
readiness_as_simulated user body call profiles answers history now events profile h =
    rw h (refl, refl)
