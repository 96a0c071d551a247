-- ===== src/System.antt =====
-- The service as a whole: the messages that the consumer dispatches by their topic
-- (`TOPIC_HANDLERS` and `start_consumer` of app/kafka/consumer.py) and the requests, as steps of one
-- world. A step is taken alone: the rows that others commit during one call are the subject of the
-- modules of the calls.
pub mod Profiles
pub mod Tables
pub mod Invariant
pub mod Reachable
use moaje_work.Prelude.{ℕ, ◌≡◌, if◌then◌else◌, Bool, Option, List, [], ◌∷◌, ℤ}
use moaje_work.Fds.{MlModel}
use moaje_work.Database.{World, Redis, Environment, FdsAlertEvent}
use moaje_work.Transactions.{TransactionEvent, handle_transaction_succeeded}
use moaje_work.Cashflow.Handlers.{
  MonthlyEvent, CategoryEvent, handle_monthly_cashflow, handle_category_cashflow,
}
use moaje_work.Spending.ProfileStore.{handle_user_registered}
use moaje_work.Alerts.{handle_fds_alert, confirm_fds_alert}
use moaje_work.Access.{BodyRequest, handle_request}
use moaje_work.Spending.ProfileView.{get_spending_profile}
use moaje_work.Schedules.{read_event_buffer}
use moaje_work.Budget.{BudgetRequest, get_daily_budget}

-- A message with its topic, as parsed.
pub data Message : Type 0 where
  transaction_succeeded : TransactionEvent → Message
  monthly_cashflow : Option MonthlyEvent → Message
  category_cashflow : Option CategoryEvent → Message
  user_registered : Option ℕ → Message
  fds_alert : FdsAlertEvent → Message

unfoldable pub consume : (ℤ → ℕ → ℕ) → MlModel → Environment → Message → World → World
consume root model env (transaction_succeeded event) w =
    handle_transaction_succeeded root model env event w
consume root model env (monthly_cashflow event) w = record w {
  db = record w.db { monthly = handle_monthly_cashflow env.database_available event w.db.monthly };
}
consume root model env (category_cashflow event) w = record w {
  db = record w.db {
    categories = handle_category_cashflow env.database_available event w.db.categories;
  };
}
consume root model env (user_registered user) w = handle_user_registered env user w
consume root model env (fds_alert event) w = handle_fds_alert env event w

-- Nobody else writes during the call.
abbrev pub IsQuiet : Environment → Type 0
IsQuiet env = (env.concurrent_logs ≡ []) × (env.concurrent_profiles ≡ [])

abbrev pub confirm_step : Environment → ℕ → ℕ → World → World
confirm_step env user alert_id w =
    if env.database_available
    then record w {
      db = record w.db { alerts = (confirm_fds_alert env user alert_id w.db.alerts).1 };
    }
    else w

module _ (root : ℤ → ℕ → ℕ) (model : MlModel) where
  pub data Step : World → World → Type 0 where
    consumed :
        (env : Environment) (message : Message) (w : World)
        → IsQuiet env
        → Step w (consume root model env message w)
    requested :
        (env : Environment) (header : Option (List ℕ)) (request : BodyRequest) (w : World)
        → IsQuiet env
        → Step w (handle_request model env header request w).1
    budgeted :
        (env : Environment) (request : BudgetRequest) (w : World)
        → Step w (get_daily_budget env request w).1
    confirmed :
        (env : Environment) (user alert_id : ℕ) (w : World)
        → Step w (confirm_step env user alert_id w)
    profile_read :
        (env : Environment) (user : ℕ) (w : World)
        → IsQuiet env
        → Step w (get_spending_profile env user w).1
    buffer_read :
        (env : Environment) (user : ℕ) (w : World) → Step w (read_event_buffer env user w).1
    -- Redis is lost or found again, and keys expire.
    redis_changed : (redis : Redis) (w : World) → Step w (record w { redis = redis })

  -- What a world becomes in any number of steps.
  pub data Reach : World → World → Type 0 where
    here : (w : World) → Reach w w
    further : (w v u : World) → Reach w v → Step v u → Reach w u
