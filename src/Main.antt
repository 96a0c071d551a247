-- ===== src/Main.antt =====
-- The application of app/main.py: what the clients see of an exception, the health check, and what
-- a start does to the tables. The class of an exception is named by its qualified name, and its
-- ancestors, which the libraries declare, are part of the exception.
pub mod Answers
pub mod Startup
use moaje_work.Prelude.{
  ℕ, Bool, true, false, ◌&&◌, Option, none, some, List, [], ◌∷◌, ◌++◌, map, String, str_eq, ◌==◌,
  if◌then◌else◌, filter, any, not,
}
use moaje_work.AssetClient.{Missing}
use moaje_work.Schema.{
  ModelColumn, ModelIndex, ModelTable, DbTable, column_name, index_name, sync_schema,
}

-- The texts of the answers: a fixed one (by the answer's code), the text of the exception, the list
-- of its validation errors, and the detail of an HTTPException.
pub data Detail : Type 0 where
  fixed : Detail
  its_text : Detail
  its_errors : Detail
  its_detail : Detail

pub record Handler : Type 0 where
  pub code : String
  pub status_code : ℕ
  pub detail : Detail

-- The exception handlers by the class they are registered for; the one for HTTPException is the
-- framework's own, which sends the status and the detail that the exception carries.
abbrev pub handlers : List (String × Handler)
handlers =
    (
      "starlette.exceptions.HTTPException",
      record { code = ""; status_code = 0; detail = its_detail },
    )
    ∷ (
      "fastapi.exceptions.RequestValidationError",
      record { code = "VALIDATION_ERROR"; status_code = 422; detail = its_errors },
    )
    ∷ (
      "sqlalchemy.exc.OperationalError",
      record { code = "DB_CONNECTION_ERROR"; status_code = 503; detail = fixed },
    )
    ∷ (
      "sqlalchemy.exc.SQLAlchemyError",
      record { code = "DB_ERROR"; status_code = 500; detail = fixed },
    )
    ∷ ("ConnectionError", record { code = "CONNECTION_ERROR"; status_code = 503; detail = fixed })
    ∷ ("TimeoutError", record { code = "TIMEOUT_ERROR"; status_code = 504; detail = fixed })
    ∷ ("ValueError", record { code = "INVALID_VALUE"; status_code = 400; detail = its_text })
    ∷ []

-- The handler of `Exception`.
abbrev pub last_handler : Handler
last_handler = record { code = "INTERNAL_SERVER_ERROR"; status_code = 500; detail = fixed }

-- An exception: its class and the ancestors of that, in the order in which Python resolves them, its
-- text, the status that an HTTPException has, and its validation errors, each with its place.
pub record Raised : Type 0 where
  pub mro : List String
  pub text : String
  pub http_status : ℕ
  pub errors : List (List String × String)

abbrev pub lookup_handler : String → List (String × Handler) → Option Handler
lookup_handler name [] = none
lookup_handler name ((n, h) ∷ table) =
    let rest = lookup_handler name table in if str_eq n name then some h else rest

-- The first class with a handler: how the framework dispatches.
unfoldable pub handler_of : List String → Handler
handler_of [] = last_handler
handler_of (c ∷ mro) = elim (lookup_handler c handlers) [ some h ↦ h | none ↦ handler_of mro ]

-- The message of a response.
pub data Message : Type 0 where
  standard : String → Message
  text_of : String → Message
  invalid_input : List (List String × String) → Message

-- `error_response`; the time and the name of the service are left out.
pub record ErrorResponse : Type 0 where
  pub code : String
  pub message : Message
  pub status_code : ℕ

abbrev pub message_of : Detail → String → Raised → Message
message_of fixed code e = standard code
message_of its_text code e = text_of e.text
message_of its_errors code e = invalid_input e.errors
message_of its_detail code e = text_of e.text

abbrev pub status_of : Detail → ℕ → Raised → ℕ
status_of fixed status_code e = status_code
status_of its_text status_code e = status_code
status_of its_errors status_code e = status_code
status_of its_detail status_code e = e.http_status

unfoldable pub answer : Raised → ErrorResponse
unfolding handler_of
answer e =
    let h = handler_of e.mro in
    record {
      code = h.code;
      message = message_of h.detail h.code e;
      status_code = status_of h.detail h.status_code e;
    }

-- What the parts of the health check are found to be; the details of errors are left out, but for
-- a missing certificate.
pub record Health : Type 0 where
  pub database : Bool
  pub redis : Bool
  pub ml_model : Bool
  pub asset_grpc_mtls : Option Missing
  pub degraded : Bool
  pub status_code : ℕ

-- `health_check`, from whether the database and Redis answer, whether the model is loaded, and the
-- status of the certificates.
unfoldable pub health_check : Bool → Bool → Bool → Option Missing → Health
health_check database redis ml_model certificates =
    let ok = database && redis in
    record {
      database = database;
      redis = redis;
      ml_model = ml_model;
      asset_grpc_mtls = certificates;
      degraded = not ok;
      status_code = if ok then 200 else 207;
    }

-- `Base.metadata.create_all`: the tables of the model that the database lacks, with all columns
-- and indexes.
abbrev new_table : ModelTable → DbTable
new_table m = record {
  name = m.name;
  columns = map column_name m.columns;
  indexes = map index_name m.indexes;
}

unfoldable pub create_all : List ModelTable → List DbTable → List DbTable
create_all models tables =
    tables
    ++ map new_table (
        filter (λ (m : ModelTable). not (any (λ (t : DbTable). str_eq t.name m.name) tables))
          models)

-- What runs in the service's process besides the requests.
pub record Running : Type 0 where
  pub consumer : Bool
  pub grpc_server : Bool
  pub tables : List DbTable

-- The first half of `lifespan`: none where `create_all` raises, and then the service does not
-- start. The Booleans are whether the database answers `create_all`, and whether it does again for
-- the synchronization.
module _ (spec : ModelColumn → Bool) (accepts : String → String → Bool) where
  unfoldable pub start_service : Bool → Bool → List ModelTable → List DbTable → Option Running
  unfolding create_all
  start_service creates synchronizes models tables =
      if creates
      then some (record {
        consumer = true;
        grpc_server = true;
        tables = sync_schema spec accepts synchronizes models (create_all models tables);
      })
      else none
