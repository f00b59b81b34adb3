-- ===== src/Examples/Api.antt =====
-- The HTTP API on small stores: requests, guarded routes, and Redis behind it.
use flux_forge.Base.{
  ℕ, ◌*◌, String, false, Option, none, some, List, [], ◌∷◌, ◌≡◌, ◌≢◌, refl, ◌==◌, nat_eq, string_eq,
  if◌then◌else◌, ==_iff,
}
use flux_forge.Base.Dict.{lookup, insert}
use flux_forge.Task.{second}
use flux_forge.Scheduler.{new_scheduler}
use flux_forge.Store.{Agent, Job, tenant_key}
use flux_forge.Store.Memory.{MemoryStore, new_memory_store}
use flux_forge.Store.Memory
use flux_forge.Redis.{call}
use flux_forge.Redis.Versioned.{RedisStore}
use flux_forge.Redis.Records.{Codec}
use flux_forge.Redis.Records
use flux_forge.Api.{Request, Response, Api, Json, Handled, plain}
use flux_forge.Api.Jobs.{handle_submit_job}
use flux_forge.Api.States.{handle_get_state, handle_reconcile_state, handle_capture_incident}
use flux_forge.Api.States.Missing.{NotQueued}
use flux_forge.Api.Idempotency.{with_idempotency, entry_of}
use flux_forge.Api.Stores.{memory_interface, redis_interface, redis_backend}
use flux_forge.Api.OnRedis.{states_not_served, client_key_writes}
use flux_forge.Api.Routes.{serve, route_of, is_guarded}
use flux_forge.Api.Routes.Guard.{IsGuarded, serve-IsGuarded}
use flux_forge.Examples.Scheduler.{one_per_second, config}
use flux_forge.Examples.Auth.{tokens}
use flux_forge.Examples.Redis.{Memory, empty_memory, server, server-TextLaws}
use flux_forge.Examples.RedisStates.{agent_a, agent_codec, started, state_codec}

abbrev job_a : Job
job_a = record {
  job_id = "";
  node_id = "a1";
  tenant_id = "";
  state_id = "";
  command = "uptime";
  status = "";
  exit_code = 0;
  stdout = "";
  stderr = "";
  created_at = 0;
  started_at = none;
  finished_at = none;
}

abbrev no_response : Response
no_response = plain 0 ""

abbrev json : Json
json = record {
  decode_agent = λ t. none;
  decode_job = λ t. if t == "{job}" then some job_a else none;
  decode_state = λ t. none;
  decode_heartbeat = λ t. none;
  decode_mode = λ t. none;
  decode_result = λ t. none;
  encode_agents = λ found. "[agents]";
  encode_job = λ job. "{job}";
  encode_jobs = λ found. "[jobs]";
  encode_state = λ st. "{state}";
  encode_states = λ found. "[states]";
  encode_map = λ m. "{map}";
  encode_report = λ report. "{report}";
  encode_entry = λ e. "{entry}";
  decode_entry = λ t. if t == "{entry}" then some (entry_of 0 no_response) else none;
}

abbrev request : String → String → Request
request method path = record {
  method = method;
  path = path;
  node_id_param = "";
  state_id_param = "";
  idempotency_key = "";
  authorization = "";
  body = "{job}";
  tenant = some "acme";
}

abbrev api_on : {T : Type 0} → T → Api T ℕ
api_on t = record {
  store = t;
  scheduler = new_scheduler one_per_second 0 1 config;
  heartbeat_limiter = 0;
  reconcile_limiter = 0;
  idempotency_cache = [];
  started = [];
}

abbrev on_memory : Api MemoryStore ℕ
on_memory = api_on (Memory.upsert_agent "acme" agent_a new_memory_store)

-- The submission is accepted.
submitted :
    (handle_submit_job memory_interface json 9 "j1"
      (request "POST" "/jobs")
      on_memory).1.status_code
    ≡ 202
unfolding handle_submit_job Memory.get_agent Memory.upsert_agent new_memory_store insert lookup
    tenant_key
submitted = refl

get_ne_options : ◌≢◌ {A = String} "GET" "OPTIONS"
get_ne_options h =
    let fact : (◌==◌ {A = String} "GET" "OPTIONS") ≡ false = refl in
    cc (fact, (==_iff {A = String} "GET" "OPTIONS").1 h)

abbrev bearer_request : Request
bearer_request = record (request "GET" "/jobs") { authorization = "Bearer H.P.S"; tenant = none }

serve-IsGuarded_example :
    IsGuarded memory_interface one_per_second json tokens none
      (λ r a. none)
      9
      200
      "u"
      bearer_request
      on_memory
      (serve memory_interface one_per_second json tokens none
        (λ r a. none)
        9
        200
        "u"
        bearer_request
        on_memory)
unfolding route_of is_guarded
serve-IsGuarded_example =
    serve-IsGuarded memory_interface one_per_second json tokens none (λ r a. none) 9 200 "u"
      bearer_request on_memory refl get_ne_options

abbrev job_codec : Codec Job
job_codec = record { marshal = λ j. "{job}"; unmarshal = λ t. none }

states_not_served_example :
    let over = redis_interface server agent_codec job_codec state_codec in
    let a = api_on started in
    ((handle_get_state over one_per_second json (request "GET" "/states/s1") a).1.status_code ≢ 200)
    × NotQueued a
        (handle_reconcile_state over one_per_second json 9 "u" (request "GET" "/states/s1") a)
    × ((handle_capture_incident over one_per_second json 9
          (request "GET" "/states/s1")
          a).1.status_code
        ≢ 200)
states_not_served_example =
    states_not_served server agent_codec job_codec state_codec one_per_second json (λ t. refl) 9 "u"
      (request "GET" "/states/s1") (api_on started)

abbrev epoch_key : String
epoch_key = "leader_election:epoch"

epoch_key_named : ◌≢◌ {A = String} epoch_key ""
epoch_key_named h =
    let fact : (◌==◌ {A = String} epoch_key "") ≡ false = refl in
    cc (fact, (==_iff {A = String} epoch_key "").1 h)

abbrev with_epoch : Api (RedisStore Memory) ℕ
with_epoch =
    api_on (record started { server = record empty_memory { texts = insert epoch_key "5" [] } })

abbrev next : Api (RedisStore Memory) ℕ → Option (Handled (RedisStore Memory) ℕ)
next a = some (a, plain 202 "{job}")

-- A client's key may be the one under which the epoch of elections is kept.
client_key_writes_example :
    (a'' : Api (RedisStore Memory) ℕ) × (with_idempotency json
        (some (redis_backend server))
        9
        (record (request "POST" "/jobs") { idempotency_key = epoch_key })
        next
        with_epoch
      ≡ some (a'', plain 202 "{job}"))
    × (server.get epoch_key a''.store.server
        ≡ some (json.encode_entry (entry_of 9 (plain 202 "{job}"))))
unfolding Records.set call insert lookup
client_key_writes_example =
    client_key_writes server server-TextLaws json 9
      (record (request "POST" "/jobs") { idempotency_key = epoch_key }) next with_epoch with_epoch
      "5" (plain 202 "{job}") epoch_key_named refl refl refl refl

-- One of two agents has not been heard of for more than ten seconds.
abbrev two_agents : List Agent
two_agents = agent_a ∷ record agent_a { node_id = "a2"; last_heartbeat = 15 * second } ∷ []
