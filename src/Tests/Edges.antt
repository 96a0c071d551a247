-- ===== src/Tests/Edges.antt =====
-- Concrete runs of the consumer's loop, the clients, the endpoints of the recap and the start.
use moaje_work.Prelude.{
  ℕ, ◌-◌, ◌*◌, ◌↔◌, ◌≤◌, ◌<◌, ◌≡◌, refl, arith, Bool, true, false, ◌&&◌, Option, some, none, List,
  [], ◌∷◌, map, find, count, String, leb, if◌then◌else◌, pos,
}
use moaje_work.Scripts.{is_up, wait_for_server}
use moaje_work.Scripts.Waiting.{wait_ends}
use moaje_work.Text.{split, python_int}
use moaje_work.Access.{get_authenticated_user_id, is_user_id}
use moaje_work.System.{user_registered}
use moaje_work.System.Invariant.{IsSound}
use moaje_work.Consumer.{
  text, to_user_id, unhandled_topic, unreadable, readable, Session, start_failed, lost,
  cancelled_after, start_consumer,
}
use moaje_work.Consumer.Ids.{ReadsAscii, to_user_id_as_header}
use moaje_work.Consumer.Runs.{received, consume_all, start_consumer-IsSound}
use moaje_work.Clients.{no_producer, publish, publish_all, stop_producer}
use moaje_work.Clients.Producer.{never_sent}
use moaje_work.AssetClient.{
  unavailable, PemFile, file_not_found, content, ca, not_there, Credentials, Paths,
  read_credentials, read_pem, channel_options, Reply, current_balance, result_of,
  get_current_balance, ask_balance,
}
use moaje_work.AssetClient.Certificates.{IsCached, ask_balance-IsCached, mounted_later}
use moaje_work.Onboarding.Service.{get_profile}
use moaje_work.Time.{
  kst_month_bounds, to_ordinal, days_before_year, days_before_month, days_in_month,
}
use moaje_work.Recap.{RecapResult}
use moaje_work.Recap.Service.{
  get_monthly, get_recap, build_recap, build_coverage, build_insights, count_transactions,
  get_categories,
}
use moaje_work.Recap.Requests.{range_of, month_range, get_recap_of, is_year_month}
use moaje_work.Recap.Months.{is_day_of, is_log_of, recap_counts_month}
use moaje_work.Metrics.{recap_view, record_event}
use moaje_work.Schema.{DbTable}
use moaje_work.Main.{Raised, answer, Running, start_service}
use moaje_work.Main.Answers.{answer_hides_text}
use moaje_work.Main.Startup.{is_named, has_columns, start_complete}
use moaje_work.Onboarding.Catalog.{validate_answer}
use moaje_work.Onboarding.Questions.{
  QuestionResponse, list_questions, is_number, IsAllowed, offered_accepted,
}
use moaje_work.Tests.Fraud.{start, noon, zero_root}
use moaje_work.Tests.Requests.{no_database}
use moaje_work.Database.{World}
use moaje_work.Spending.{Profile, ProfilePayload}
use moaje_work.Database.Cache.{get_spending_profile_cache}
use moaje_work.Spending.ProfileStore.{cached_profile, profile_of_cache}
use moaje_work.Spending.ProfileView.{response_of_payload, response_of_profile, get_spending_profile}
use moaje_work.Spending.ProfileAnswers.{profile_fails, old_payload_stays}
use moaje_work.Tests.Ledgers.{first_row, month_db, no_estimate}
use moaje_work.Tests.Reports.{alerts_model, old_alerts, all_printed, all_accepted}

-- A connection that fails, one that is lost, and one that delivers the registration again.
abbrev rounds : List Session
rounds =
    start_failed
    ∷ lost (unreadable ∷ readable noon (user_registered (some 7)) ∷ [])
    ∷ cancelled_after (unhandled_topic ∷ readable noon (user_registered (some 7)) ∷ [])
    ∷ []

start_consumer-IsSound_example :
    ((start_consumer zero_root none rounds 0 start).world
      ≡ consume_all zero_root none (received rounds) start)
    × IsSound (start_consumer zero_root none rounds 0 start).world.db
start_consumer-IsSound_example =
    start_consumer-IsSound zero_root none rounds 0 start ((refl, refl), ((refl, refl), tt))
      (record { verdicts = tt; profiles = tt; alerts = tt })

abbrev ascii_value : ℕ → Option ℕ
ascii_value c = if leb 48 c && leb c 57 then some (c - 48) else none

reads_ascii : ReadsAscii ascii_value
reads_ascii d h = ground arith

to_user_id_as_header_example : to_user_id ascii_value (text 55 []) ≡ some (pos 7)
unfolding get_authenticated_user_id is_user_id
to_user_id_as_header_example = to_user_id_as_header ascii_value reads_ascii 55 [] 7 refl

-- Sends where the producer is started and Kafka answers.
abbrev plain_send : Bool → Bool → Bool
plain_send started answers = started && answers

never_sent_example :
    let (sent, state) = publish_all plain_send (false ∷ true ∷ true ∷ []) no_producer in
    (sent ≡ map (λ k. false) (false ∷ true ∷ true ∷ []))
    × ((publish plain_send true state).0 ≡ false)
    × ((publish plain_send true (stop_producer state)).0 ≡ true)
never_sent_example = never_sent plain_send (true ∷ true ∷ []) (λ k. refl) refl

abbrev paths : Paths
paths = record { ca_path = 97 ∷ []; cert_path = 98 ∷ []; key_path = 99 ∷ [] }

abbrev nothing_mounted : List ℕ → PemFile
nothing_mounted path = file_not_found

abbrev all_mounted : List ℕ → PemFile
all_mounted path = content (45 ∷ [])

abbrev mounted : Credentials
mounted = record { root_certificates = 45 ∷ []; certificate_chain = 45 ∷ []; private_key = 45 ∷ [] }

abbrev rich : Credentials → List (List ℕ) → ℕ → Reply
rich credentials options user = current_balance (pos 100)

ask_balance-IsCached_example :
    let (lookup, cached) = ask_balance paths all_mounted [] rich 7 none in
    (lookup ≡ (ask_balance paths all_mounted [] rich 7 none).0) × IsCached cached
ask_balance-IsCached_example =
    ask_balance-IsCached paths all_mounted [] rich rich 7 none tt (λ c options complete. refl)

mounted_later_example :
    let (first, cached) = ask_balance paths nothing_mounted [] rich 7 none in
    let (second, cached') = ask_balance paths all_mounted [] rich 7 cached in
    (first ≡ record { status = unavailable; amount = none })
    × (second ≡ get_current_balance (result_of (rich mounted (channel_options []) 7)))
    × (ask_balance paths nothing_mounted [] rich 7 cached' ≡ (second, cached'))
unfolding read_credentials read_pem
mounted_later_example =
    mounted_later paths nothing_mounted all_mounted nothing_mounted [] rich 7 (not_there ca) mounted
      refl refl

abbrev shown_september : RecapResult
shown_september = build_recap no_estimate first_row (get_categories 7 "2026-09" month_db) 0 none

recap_counts_month_example :
    (shown_september.coverage.total_tx
      ≡ count (is_log_of 7 (is_day_of 2026 9)) month_db.inference_logs)
    × (record_event true 50 7 recap_view (some "2026-09") []
        ≡ record_event true 50 7 recap_view (some "2026-09") [])
unfolding get_recap_of is_year_month range_of month_range get_recap get_monthly split python_int
    count_transactions get_profile build_recap kst_month_bounds build_coverage to_ordinal
    build_insights days_before_year days_before_month days_in_month
recap_counts_month_example =
    recap_counts_month no_estimate ascii_value 50 7 "2026-09" 2026 9 [] month_db []
      (record_event true 50 7 recap_view (some "2026-09") []) shown_september refl refl

abbrev database_error : String → Raised
database_error words = record {
  mro =
      "sqlalchemy.exc.OperationalError" ∷ "sqlalchemy.exc.DBAPIError"
      ∷ "sqlalchemy.exc.SQLAlchemyError" ∷ [];
  text = words;
  http_status = 0;
  errors = [];
}

answer_hides_text_example :
    (answer (database_error "secret") ≡ answer (database_error ""))
    × (500 ≤ (answer (database_error "secret")).status_code)
answer_hides_text_example =
    answer_hides_text (database_error "secret") (database_error "") refl refl

start_complete_example :
    (r : Running) × (start_service all_printed all_accepted true true
        (alerts_model ∷ [])
        (old_alerts ∷ [])
      ≡ some r)
    × (t : DbTable) × (find (is_named "fds_alert_log") r.tables ≡ some t)
    × (has_columns all_printed all_accepted "fds_alert_log" t.columns alerts_model.columns ≡ true)
start_complete_example =
    start_complete all_printed all_accepted (alerts_model ∷ []) (old_alerts ∷ []) alerts_model refl

-- A server that is up from the third second on.
abbrev second : ℕ → ℕ
second i = i * 1000

abbrev third_time : ℕ → Option ℕ
third_time i = if leb 3 i then some 200 else none

wait_ends_example :
    (b : Bool) × (wait_for_server 60000 second third_time 61 0 ≡ some b)
    × ((b ≡ true) ↔ ((i : ℕ) × (second i < 60000) × (is_up (third_time i) ≡ true)))
wait_ends_example = wait_ends 60000 second third_time 60 (omega arith) (λ i. omega arith)

profile_fails_example :
    ((get_spending_profile no_database 7 start).0 ≡ none)
    ↔ ((no_database.database_available ≡ false) × (cached_profile 7 start ≡ none))
profile_fails_example = profile_fails no_database 7 start refl

-- A payload that was written before the peak hour was part of it.
abbrev old_payload : ProfilePayload
old_payload = record {
  user_id = some 7;
  avg_daily_amount = some 420000000;
  std_daily_amount = some 150000000;
  tx_count = some 3;
  peak_spend_hour = none;
  top_category = some "CAFE";
  risk_score_baseline = some 10;
  last_analyzed_at = some 5;
}

abbrev restored : Profile
restored = record {
  user_id = 7;
  university_id = none;
  avg_daily_amount = 420000000;
  std_daily_amount = 150000000;
  tx_count = 3;
  peak_spend_hour = 12;
  top_category = "CAFE";
  risk_score_baseline = 10;
  last_analyzed_at = some 5;
}

abbrev cached_world : World
cached_world = record start {
  redis = record start.redis { spending_profiles = (7, old_payload) ∷ [] };
}

old_payload_stays_example :
    let (shown, after) = get_spending_profile noon 7 cached_world in
    (shown ≡ response_of_profile restored)
    × (after.db ≡ cached_world.db)
    × ((get_spending_profile no_database 7 after).0 ≡ shown)
unfolding get_spending_profile_cache response_of_payload profile_of_cache
old_payload_stays_example =
    old_payload_stays noon no_database 7 cached_world old_payload restored refl refl refl

-- A blank text to the ninth question.
offered_accepted_example : (validate_answer 9 "TEXT" (some " ") ≡ none) ↔ (
    (r : QuestionResponse) × (find (is_number 9) list_questions ≡ some r)
    × IsAllowed r "TEXT" (some " "))
offered_accepted_example = offered_accepted 9 "TEXT" (some " ")
