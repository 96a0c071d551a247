-- ===== src/Transactions.antt =====
-- `handle_transaction_succeeded` of app/kafka/consumer.py: a transaction that Asset reports is
-- judged once and folded into the user's profile, in one database transaction.
pub mod Delivery
pub mod Retries
use moaje_work.Text.{codes}
use moaje_work.Prelude.{
  ℕ, ◌+◌, ◌/◌, ◌%◌, Option, none, some, List, ◌++◌, String, str_eq, if◌then◌else◌, ℤ, true, Bool,
  pos_part, leb, pos, ◌&&◌, length, ltb, negsuc, false, ◌^◌,
}
use moaje_work.Fds.{DetectRequest, MlModel}
use moaje_work.Fds.Detector.{find_verdict, detect}
use moaje_work.Time.{kst_hour}
use moaje_work.Spending.Welford.{update_profile_from_transaction}
use moaje_work.Database.{World, Environment, Result, ok, err}
use moaje_work.Database.Cache.{delete_daily_limit_cache, delete_spending_profile_cache}

-- The event as parsed: `_to_user_id` has read the user, and `_parse_event_time` the first of the two
-- times that is given, in UTC seconds. The amount is any integer of 64 bits, in ten-thousandths.
pub record TransactionEvent : Type 0 where
  pub user_id : ℕ
  pub public_transaction_id : String
  -- `str(event.transaction_id)`
  pub transaction_id : String
  pub amount : ℤ
  pub occurred_at : Option ℕ

unfoldable pub transaction_key : TransactionEvent → String
transaction_key event =
    if str_eq event.public_transaction_id ""
    then event.transaction_id
    else event.public_transaction_id

unfoldable pub event_hour : Option ℕ → ℕ
event_hour none = 12
event_hour (some t) = kst_hour t

-- What `FdsDetectRequest` and the columns of the verdict take: an amount that is not negative and
-- has at most 14 digits before the point, and a key of at most 100 characters. For another event the
-- validation or the insertion raises.
abbrev not_negative : ℤ → Bool
not_negative (pos n) = true
not_negative (negsuc n) = false

abbrev fits_key : List ℕ → Bool
fits_key key = leb (length key) 100

unfoldable pub is_accepted : TransactionEvent → Bool
unfolding transaction_key
is_accepted event =
    not_negative event.amount
    && (ltb (pos_part event.amount) (10 ^ 18) && fits_key (codes (transaction_key event)))

-- The request of an event that is not refused for its amount.
unfoldable pub request_of : TransactionEvent → DetectRequest
unfolding transaction_key event_hour
request_of event = record {
  user_id = event.user_id;
  transaction_id = transaction_key event;
  amount = pos_part event.amount;
  merchant = "";
  hour = event_hour event.occurred_at;
  occurred_at = event.occurred_at;
}

unfoldable pub clear_caches : ℕ → World → World
clear_caches user_id w = record w {
  redis = delete_spending_profile_cache user_id (delete_daily_limit_cache user_id w.redis);
}

-- What is left after an exception: the session is closed without a commit, and only what other
-- transactions have committed is new. The handler logs the exception and returns.
unfoldable pub rolled_back : Environment → World → World
rolled_back env w = record w {
  db = record w.db { inference_logs = w.db.inference_logs ++ env.concurrent_logs };
}

-- The body of the session for a transaction without a verdict. An event that is refused is logged,
-- and the session ends without a commit.
unfoldable pub judge_accepted :
    (ℤ → ℕ → ℕ) → MlModel → Environment → TransactionEvent → World → World
judge_accepted root model env event w =
    let (result, judged) = detect model env (request_of event) w in
    elim result [
      | ok _ ↦
          update_profile_from_transaction root env event.user_id (pos_part event.amount) true judged
      | err _ ↦ rolled_back env w
    ]

unfoldable pub judge : (ℤ → ℕ → ℕ) → MlModel → Environment → TransactionEvent → World → World
unfolding is_accepted judge_accepted
judge root model env event w =
    if is_accepted event then judge_accepted root model env event w else w

unfoldable pub handle_session :
    (ℤ → ℕ → ℕ) → MlModel → Environment → TransactionEvent → World → World
handle_session root model env event w =
    elim (find_verdict event.user_id (transaction_key event) w.db.inference_logs) [
      | some dup ↦ w
      | none ↦ judge root model env event w
    ]

unfoldable pub handle_transaction_succeeded :
    (ℤ → ℕ → ℕ) → MlModel → Environment → TransactionEvent → World → World
handle_transaction_succeeded root model env event w =
    let cleared = clear_caches event.user_id w in
    if env.database_available then handle_session root model env event cleared else cleared
