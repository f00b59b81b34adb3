-- ===== src/Api.antt =====
-- control_plane/api.go: the HTTP API. Its store is the interface of control_plane/store/interface.go, a
-- record of operations on a state. JSON is a parameter, an encoder's newline included. A request has
-- the parts that the handlers read; its context holds the tenant. Goroutines that a handler starts
-- are noted in the order of their start. Log lines, metrics and the jitter, which the whole seconds
-- of Retry-After cut to 1, are left out.
pub mod Agents
pub mod Jobs
pub mod States
pub mod Idempotency
pub mod Routes
pub mod Stores
pub mod OnRedis
use flux_forge.Base.{
  ℕ, String, Bool, true, false, Option, none, some, List, [], ◌∷◌, ◌++◌, ◌==◌, string_eq,
  if◌then◌else◌,
}
use flux_forge.Base.Text.{◌<>◌}
use flux_forge.Base.Dict.{Dict}
use flux_forge.Store.{Agent, Job, DesiredState}
use flux_forge.Scheduler.{Scheduler}
use flux_forge.Timeline.{ReconcileEvent}

-- The operations of the interface that the API calls: each returns its results and an error, and
-- UpsertState hands the state back, which it may change in place.
pub record StoreInterface (T : Type 0) : Type 0 where
  pub upsert_agent : ℕ → String → Agent → T → T × Option String
  pub get_agent : String → String → T → T × Option Agent × Option String
  pub list_agents : String → T → T × List Agent × Option String
  pub update_agent_heartbeat : String → String → ℕ → T → T × Option String
  pub upsert_state : ℕ → String → DesiredState → T → T × DesiredState × Option String
  pub get_state : String → String → T → T × Option DesiredState × Option String
  pub list_states : String → T → T × List DesiredState × Option String
  pub create_job : String → Job → T → T × Option String
  pub update_job_status : ℕ → String → String → String → ℕ → String → String → T → T × Option String
  pub get_job : String → String → T → T × Option Job × Option String
  pub list_jobs : String → String → ℕ → T → T × List Job × Option String

-- The backend of the idempotency store, on the state of the store.
pub record Backend (T : Type 0) : Type 0 where
  pub set : String → String → ℕ → T → T × Option String
  pub get : String → T → String × Option String

pub record Request : Type 0 where
  pub method : String
  pub path : String
  pub node_id_param : String
  pub state_id_param : String
  pub idempotency_key : String
  pub authorization : String
  pub body : String
  pub tenant : Option String

pub record Response : Type 0 where
  pub status_code : ℕ
  pub headers : List (String × String)
  pub body : String

-- A goroutine that a handler starts.
pub data Started : Type 0 where
  dispatches : Agent → Job → Started
  reconciles : String → String → Started

pub record Entry : Type 0 where
  pub resp : Response
  pub timestamp : ℕ

pub record Api (T B : Type 0) : Type 0 where
  pub store : T
  pub scheduler : Scheduler B
  pub heartbeat_limiter : B
  pub reconcile_limiter : B
  pub idempotency_cache : Dict String Entry
  pub started : List Started

pub record JobReport : Type 0 where
  pub job_id : String
  pub status : String
  pub stdout : String
  pub stderr : String
  pub exit_code : ℕ

pub record IncidentReport : Type 0 where
  pub state_id : String
  pub desired_state : DesiredState
  pub agent : Option Agent
  pub events : List ReconcileEvent
  pub jobs : List Job
  pub captured_at : ℕ

pub record Json : Type 0 where
  pub decode_agent : String → Option Agent
  pub decode_job : String → Option Job
  pub decode_state : String → Option DesiredState
  pub decode_heartbeat : String → Option String
  pub decode_mode : String → Option String
  pub decode_result : String → Option JobReport
  pub encode_agents : List Agent → String
  pub encode_job : Job → String
  pub encode_jobs : List Job → String
  pub encode_state : DesiredState → String
  pub encode_states : List DesiredState → String
  pub encode_map : List (String × String) → String
  pub encode_report : IncidentReport → String
  pub encode_entry : Entry → String
  pub decode_entry : String → Option Entry

-- http.Error.
unfoldable pub http_error : String → ℕ → Response
http_error message code = record {
  status_code = code;
  headers =
      ("Content-Type", "text/plain; charset=utf-8") ∷ ("X-Content-Type-Options", "nosniff") ∷ [];
  body = message <> "\n";
}

abbrev pub plain : ℕ → String → Response
plain code body = record { status_code = code; headers = []; body = body }

abbrev pub json_response : ℕ → String → Response
json_response code body = record {
  status_code = code;
  headers = ("Content-Type", "application/json") ∷ [];
  body = body;
}

abbrev pub rate_limit_error : Response
rate_limit_error =
    let refused = http_error "Too Many Requests (Storm Protection Active)" 429 in
    record refused { headers = ("Retry-After", "1") ∷ refused.headers }

abbrev pub method_not_allowed : Response
method_not_allowed = http_error "Method not allowed" 405

abbrev pub unauthorized : Response
unauthorized = http_error "Unauthorized" 401

abbrev pub internal_error : Response
internal_error = http_error "Internal Server Error" 500

-- What a handler leaves.
abbrev pub Handled : Type 0 → Type 0 → Type 0
Handled T B = Api T B × Response

module _ {T B : Type 0} where
  -- The reply of the store's operation, without an error or with one.
  unfoldable pub or_error : Response → Response → Api T B → T × Option String → Handled T B
  or_error fine bad a (t, none) = (record a { store = t }, fine)
  or_error fine bad a (t, some e) = (record a { store = t }, bad)
