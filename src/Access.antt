-- ===== src/Access.antt =====
-- Who may ask for what: app/api/deps.py, and the endpoints that check the user of a request's body
-- (app/api/v1/endpoints/spending.py, calendar.py and fds.py). A header is the list of its
-- characters' code points.
pub mod Header
pub mod Owner
use moaje_work.Prelude.{
  ℕ, ◌+◌, ◌-◌, ◌*◌, Bool, true, false, ◌&&◌, ◌||◌, not, Option, none, some, List, [], ◌∷◌, String,
  str_eq, ◌==◌, leb, if◌then◌else◌, length,
}
use moaje_work.Text.{strip}
use moaje_work.Fds.{DetectRequest, DetectResponse, MlModel}
use moaje_work.Fds.Detector.{detect}
use moaje_work.Schedules.{
  AcademicScheduleCreate, create_academic_schedule, CalendarSyncRequest, sync_calendar, undo_tables,
}
use moaje_work.Database.{
  World, Environment, Result, ok, err, unauthorized, forbidden, service_unavailable,
}

abbrev pub is_digit : ℕ → Bool
is_digit c = leb 48 c && leb c 57

abbrev pub all_digits : List ℕ → Bool
all_digits [] = true
all_digits (c ∷ cs) = is_digit c && all_digits cs

-- `_USER_ID_RE.fullmatch(raw)`
unfoldable pub is_user_id : List ℕ → Bool
is_user_id cs = leb 1 (length cs) && (leb (length cs) 19 && all_digits cs)

-- `int(raw)` of ASCII digits, from the value of those before.
abbrev pub int_from : ℕ → List ℕ → ℕ
int_from value [] = value
int_from value (c ∷ cs) = int_from (value * 10 + (c - 48)) cs

-- The checks of the stripped header.
unfoldable pub parse_user_id : List ℕ → Result ℕ
parse_user_id raw =
    if is_user_id raw
    then (let user_id = int_from 0 raw in if leb user_id 0 then err unauthorized else ok user_id)
    else err unauthorized

unfoldable pub get_authenticated_user_id : Option (List ℕ) → Result ℕ
unfolding parse_user_id strip
get_authenticated_user_id none = err unauthorized
get_authenticated_user_id (some header) = parse_user_id (strip header)

unfoldable pub ensure_self : ℕ → ℕ → Result ℕ
ensure_self auth_user_id claimed_user_id =
    if claimed_user_id == auth_user_id then ok auth_user_id else err forbidden

-- The router's guard: the user id of the path, where it has one, as the route has read it.
unfoldable pub verify_path_user_id : Option (List ℕ) → Option ℕ → Result ℕ
unfolding get_authenticated_user_id ensure_self
verify_path_user_id header path_user = elim (get_authenticated_user_id header) [
  | err e ↦ err e
  | ok auth_user_id ↦ elim path_user [
    | none ↦ ok auth_user_id
    | some claimed ↦ ensure_self auth_user_id claimed
  ]
]

-- The first text is `settings.WORK_INTERNAL_TOKEN`.
unfoldable pub require_operator : String → Option String → Result (Unit {0})
require_operator expected token =
    if str_eq expected "" then err service_unavailable else elim token [
      | none ↦ err forbidden
      | some t ↦ if str_eq t expected then ok tt else err forbidden
    ]

-- The three requests whose endpoints compare the user of their body with the header's. The answers
-- of the onboarding carry a user id that nothing reads, and the blacklist is the operators'.
pub data BodyRequest : Type 0 where
  post_detect : DetectRequest → BodyRequest
  post_schedule : AcademicScheduleCreate → BodyRequest
  post_sync : CalendarSyncRequest → BodyRequest

abbrev pub claimed_user : BodyRequest → ℕ
claimed_user (post_detect req) = req.user_id
claimed_user (post_schedule body) = body.user_id
claimed_user (post_sync req) = req.user_id

-- The endpoints after `ensure_self`, with a session whose database answers: what a request that
-- raises has written is rolled back.
unfoldable pub run_session : MlModel → Environment → ℕ → BodyRequest → World → World
run_session model env user (post_detect req) w =
    let (result, w') = detect model env (record req { user_id = user }) w in
    elim result [ ok _ ↦ w' | err _ ↦ undo_tables w w' ]
run_session model env user (post_schedule body) w =
    create_academic_schedule env (record body { user_id = user }) w
run_session model env user (post_sync req) w =
    (sync_calendar env (record req { user_id = user }) w).1

-- Each endpoint asks the database before it writes anything, also to the cache or to Kafka: where
-- that does not answer, the statement raises and nothing is left of the request.
unfoldable pub run_request : MlModel → Environment → ℕ → BodyRequest → World → World
unfolding run_session
run_request model env user request w =
    if env.database_available then run_session model env user request w else w

unfoldable pub handle_request :
    MlModel → Environment → Option (List ℕ) → BodyRequest → World → Result ℕ × World
unfolding verify_path_user_id ensure_self run_request
handle_request model env header request w = elim (verify_path_user_id header none) [
  | err e ↦ (err e, w)
  | ok auth_user_id ↦ elim (ensure_self auth_user_id (claimed_user request)) [
    | err e ↦ (err e, w)
    | ok user ↦ (ok user, run_request model env user request w)
  ]
]
