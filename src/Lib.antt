-- ===== src/Lib.antt =====
-- The work service of MoAje: spending limits, fraud detection, monthly recaps, onboarding and the
-- simulator of a user's future, with the consumer of the events that Asset publishes.
--
-- How the parts work together. The Kafka consumer (app/kafka/consumer.py) takes the events of
-- Asset. A transaction is judged by the fraud detection (app/services/fds/detector.py), which
-- writes a verdict and may publish an alert that the consumer turns into a row for the user, and
-- then enters the running mean of the user's spending profile
-- (app/services/ai/spending_service.py). Monthly totals and categories are kept by their largest
-- revision and read by the recap (app/services/ai/recap_service.py). A user's academic schedules
-- give the event buffer that the daily limit keeps back, and the logged limits, the verdicts and
-- the schedules of a semester become a report card (app/services/ai/report_service.py). The
-- onboarding (app/services/ai/onboarding_service.py) collects ten answers into a profile; the
-- simulator (app/services/ai/simulator_service.py) computes the months to a goal, and the
-- readiness (app/services/ai/readiness_service.py) scores a user from all of these. Every request
-- passes the checks of app/api/deps.py, and what it raises is answered by the handlers of
-- app/main.py. Before it serves, the program creates the tables that it lacks, adds missing columns
-- and indexes (app/db/schema_sync.py), and starts the consumer and the gRPC server.
--
-- Which module models which code:
--   Prelude, Decimal, Text, Time: names and lemmas that the others share; Python's Decimal and its
--   operations on texts; app/core/timeutil.py, with Time.Bounds for proofs.
--   Database, Database.Cache: the tables (app/models), the caches (app/redis/client.py), and the
--   environment of a call: its clock, which services answer, what others commit meanwhile.
--   Fds: Fds.Score is `_calc_rule_score`, `_calc_personal_score`, `_calc_ml_score` and the scoring
--   part of `detect`; Fds.Detector is `detect` and the blacklist. Fds.Bounds, Fds.Verdicts,
--   Fds.Unique and Fds.Blacklist hold proofs.
--   Transactions: `handle_transaction_succeeded`; Delivery and Retries hold proofs.
--   Alerts: `handle_fds_alert` and the alert endpoints of app/api/v1/endpoints/fds.py; Reading holds
--   proofs.
--   Cashflow: Cashflow.Handlers is `handle_monthly_cashflow` and `handle_category_cashflow`,
--   Cashflow.Upsert their shared insert-or-update; Revision, Order, Refinement and
--   Categories hold proofs.
--   Spending: DailyLimit is `calculate_daily_limit`, ProfileStore `get_or_create_profile` and the
--   consumer's `handle_user_registered`, Patterns `_peak_spend_hour` and `_top_category`, Welford
--   `update_profile_from_transaction`, ProfileView the endpoint of the profile; Average, Peak,
--   Coherence, Registration and ProfileAnswers hold proofs.
--   Schedules: `get_event_buffer`, and the schedules of app/api/v1/endpoints/spending.py and
--   calendar.py; Listing is their lists; Resync, Sync and Fresh hold proofs.
--   Budget: app/grpc/server.py.
--   Report: app/services/ai/report_service.py in Limits, Detections, Events and Service, and the
--   safety score of endpoints/fds.py; Bounds and Badges hold proofs.
--   Metrics: app/services/ai/metrics_service.py; Rates holds proofs.
--   Access: app/api/deps.py and the requests that name a user; Header and Owner hold proofs.
--   Recap: Recap.Service is `RecapService.get_recap` and what it calls, Recap.Requests the endpoints
--   of app/api/v1/endpoints/recap.py and `list_months`; Months, Listing and Naming hold proofs.
--   Onboarding: Catalog is app/services/ai/onboarding_catalog.py, Service the service,
--   Requests and Questions app/api/v1/endpoints/onboarding.py; Cover, Progress and Completion hold
--   proofs.
--   AssetClient: app/grpc/asset_client.py, certificates included; Certificates holds proofs.
--   Simulator: Baselines is app/services/ai/cost_baseline.py, Service the service, and Request
--   is app/api/v1/endpoints/simulator.py; Goal and Adjust hold proofs.
--   Readiness: the service, and in Request app/api/v1/endpoints/readiness.py; Bounds holds proofs.
--   Schema: app/db/schema_sync.py; Additions holds proofs.
--   System: the messages and requests as steps of one world; Profiles, Tables, Invariant and
--   Reachable hold proofs.
--   Consumer: `_to_user_id` and the loop of `start_consumer` over connections and deliveries, which
--   hands the messages to System; Ids and Runs hold proofs.
--   Clients: what app/kafka/producer.py, app/redis/client.py and app/services/fds/detector.py keep
--   in their modules: the producer, the connection to Redis, the classifier; Producer holds proofs.
--   Main: the exception handlers, the health check and the start of app/main.py; Answers and Startup
--   hold proofs.
--   Scripts: `wait_for_server` of scripts/smoke_all.py; Waiting holds proofs.
--   Tests: runs on concrete states.
--
-- How the code is read. Amounts of money are numbers of ten-thousandths of a won, the scale of the
-- columns Numeric(18, 4). Quotients are exact fractions, rounded only where the code quantizes:
-- the 28-digit context of the decimal module is not modelled. The float division of
-- `_months_to_goal` is taken as exact too: on amounts with a fraction of a won its ceiling can be
-- a month more, as for a gap of 407066 won and 1628.264 won a month. The database and Kafka answer
-- a call throughout or not at all; where the database does not answer, nothing is left of the
-- call's session but what it did to Redis and Kafka before. `detect`, the schedules and the
-- confirmation of an alert are modelled in a session that answers, and their callers, the
-- consumer's handler and `run_request`, guard it. Texts and log messages are data that carry the
-- numbers they show. Times are seconds of UTC, user ids numbers, and an event is what the parser
-- has read. A lookup in a table is a search of a list, a unique index a refusal to append.
-- Recursion is structural, but for `wait_for_server`, whose rounds are fuel: one more than the
-- seconds of the timeout are enough, since a round sleeps for a second. `start_consumer` runs over
-- the connections and deliveries of its life, which its cancellation ends. A class of exceptions
-- is the list of the names of its ancestors, a text where it is read the list of its codes.
--
-- Parameters, which are not code of the repository: the pickled classifier (a function from
-- features to a probability, or none), the float square roots of the deviations, the 28-digit
-- product of the recap's classified count, the printing of a number into a use's key, which Unicode
-- characters are digits, the collation that orders months, what the files of the certificates and
-- of the classifier hold, what a call of Asset gives, whether Kafka sends for a producer that was
-- or was not started, the printing of a column's definition, which statements the database accepts
-- when the schema is synchronized, and the clock and the answers of the server in `wait_for_server`.
--
-- Not modelled: the routing of HTTP and the endpoints that only pass on, generated code, the
-- protocols of Kafka, Redis, gRPC and MySQL, the settings, CORS and the shutdown, the expiry of
-- caches, and what the scripts print.
pub mod Prelude
pub mod Decimal
pub mod Text
pub mod Time
pub mod Fds
pub mod Spending
pub mod Cashflow
pub mod Database
pub mod AssetClient
pub mod Simulator
pub mod Onboarding
pub mod Readiness
pub mod Recap
pub mod Schedules
pub mod Report
pub mod Access
pub mod Alerts
pub mod Metrics
pub mod Budget
pub mod Transactions
pub mod Schema
pub mod Clients
pub mod System
pub mod Consumer
pub mod Main
pub mod Scripts
pub mod Tests
