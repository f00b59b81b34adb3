-- ===== src/Api/Stores.antt =====
-- The two stores behind the interface of control_plane/store/interface.go: control_plane/store/memory.go
-- and control_plane/store/redis.go. The memory store hands the caller's object back with its tenant.
use flux_forge.Base.{String, Option, none, some}
use flux_forge.Store.{Agent, Job}
use flux_forge.Store.Memory.{
  MemoryStore, StoreError, agent_not_found, state_not_found, optimistic_lock_failure, job_not_found,
}
use flux_forge.Store.Memory
use flux_forge.Redis.{RedisServer}
use flux_forge.Redis.Versioned.{RedisStore}
use flux_forge.Redis.Records.{Codec}
use flux_forge.Redis.Records
use flux_forge.Redis.States.{StateCodec}
use flux_forge.Redis.States
use flux_forge.Api.{StoreInterface, Backend}

abbrev pub store_error_string : StoreError → String
store_error_string agent_not_found = "agent not found"
store_error_string state_not_found = "state not found"
store_error_string optimistic_lock_failure = "optimistic lock failure: state version changed"
store_error_string job_not_found = "job not found"

abbrev pub failure : MemoryStore × Option StoreError → MemoryStore × Option String
failure (s, none) = (s, none)
failure (s, some e) = (s, some (store_error_string e))

abbrev pub memory_interface : StoreInterface MemoryStore
memory_interface = record {
  upsert_agent = λ now t a s. (Memory.upsert_agent t a s, none);
  get_agent = λ t n s. (s, Memory.get_agent t n s, none);
  list_agents = λ t s. (s, Memory.list_agents t s, none);
  update_agent_heartbeat = λ t n now s. failure (Memory.update_agent_heartbeat t n now s);
  upsert_state = λ now t st s. (Memory.upsert_state t st s, record st { tenant_id = t }, none);
  get_state = λ t i s. (s, Memory.get_state t i s, none);
  list_states = λ t s. (s, Memory.list_states t s, none);
  create_job = λ t j s. (Memory.create_job t j s, none);
  update_job_status = λ now t i status exit_code stdout stderr s.
      failure (Memory.update_job_status now t i status exit_code stdout stderr s);
  get_job = λ t i s. (s, Memory.get_job t i s, none);
  list_jobs = λ t n limit s. (s, Memory.list_jobs t n limit s, none);
}

-- An operation on texts runs on the server of the store.
abbrev pub on_server : {S A : Type 0} → (S → S × A) → RedisStore S → RedisStore S × A
on_server op r = let (s, a) = op r.server in (record r { server = s }, a)

module _ {S : Type 0} (redis : RedisServer S) where
  abbrev pub redis_backend : Backend (RedisStore S)
  redis_backend = record {
    set = λ k v ttl. on_server (Records.set redis k v ttl);
    get = λ k r. Records.get redis k r.server;
  }

module _ {S : Type 0} (redis : RedisServer S) (agent_codec : Codec Agent) (job_codec : Codec Job)
    (state_codec : StateCodec) where
  abbrev pub redis_interface : StoreInterface (RedisStore S)
  redis_interface = record {
    upsert_agent = λ now t a. on_server (Records.upsert_agent redis agent_codec t a);
    get_agent =
        λ t n r. let (found, e) = Records.get_agent redis agent_codec t n r.server in (r, found, e);
    list_agents =
        λ t r. let (found, e) = Records.list_agents redis agent_codec t r.server in (r, found, e);
    update_agent_heartbeat =
        λ t n now. on_server (Records.update_agent_heartbeat redis agent_codec t n now);
    upsert_state = States.upsert_state redis state_codec;
    get_state = States.get_state redis state_codec;
    list_states = States.list_states redis state_codec;
    create_job = λ t j. on_server (Records.create_job redis job_codec t j);
    update_job_status = λ now t i status exit_code stdout stderr.
        on_server (Records.update_job_status redis job_codec t i status exit_code stdout stderr);
    get_job =
        λ t i r. let (found, e) = Records.get_job redis job_codec t i r.server in (r, found, e);
    list_jobs = λ t n limit r.
        let (found, e) = Records.list_jobs redis job_codec t n limit r.server in (r, found, e);
  }
