-- ===== src/Store/Memory.antt =====
-- control_plane/store/memory.go: the in-memory store. A stored pointer is the value that it points
-- to: callers of the upserts hand their object over, and the getters return copies. A context is
-- never read here. The idempotency methods, which do nothing, are left out.
use flux_forge.Base.{
  ℕ, ◌+◌, ◌*◌, ◌%◌, ◌^◌, String, Bool, ◌&&◌, ◌||◌, Option, none, some, List, [], ◌∷◌, ◌==◌, nat_eq,
  string_eq, ltb, leb, if◌then◌else◌, length, keep_if, map,
}
use Prim.Native.Nat.{bit_xor}
use text.Mathlib.Text.{starts_with}
use flux_forge.Base.Dict.{Dict, lookup, insert}
use flux_forge.Base.Text.{bytes}
use flux_forge.Store.{Agent, Job, DesiredState, agents, jobs, states, tenant_key, tenant_prefix}

pub record MemoryStore : Type 0 where
  pub agent_map : Dict String Agent
  pub job_map : Dict String Job
  pub state_map : Dict String DesiredState
  pub epochs : Dict String ℕ

pub data StoreError : Type 0 where
  agent_not_found state_not_found optimistic_lock_failure job_not_found : StoreError

unfoldable pub new_memory_store : MemoryStore
new_memory_store = record { agent_map = []; job_map = []; state_map = []; epochs = [] }

abbrev values {ℓ} : {A : Type ℓ} → Dict String A → List A
values = map (λ e. e.1)

unfoldable pub upsert_agent : String → Agent → MemoryStore → MemoryStore
upsert_agent tenant_id a s = record s {
  agent_map =
      insert (tenant_key tenant_id agents a.node_id) (record a { tenant_id = tenant_id })
        s.agent_map;
}

unfoldable pub get_agent : String → String → MemoryStore → Option Agent
get_agent tenant_id node_id s = lookup (tenant_key tenant_id agents node_id) s.agent_map

-- Every agent whose key begins with the tenant's prefix.
unfoldable pub list_agents : String → MemoryStore → List Agent
list_agents tenant_id s =
    map (λ e. e.1) (keep_if (λ e. starts_with e.0 (tenant_prefix tenant_id agents)) s.agent_map)

beat : String → ℕ → MemoryStore → Option Agent → MemoryStore × Option StoreError
beat key t s none = (s, some agent_not_found)
beat key t s (some a) =
    (record s { agent_map = insert key (record a { last_heartbeat = t }) s.agent_map }, none)

unfoldable pub update_agent_heartbeat :
    String → String → ℕ → MemoryStore → MemoryStore × Option StoreError
unfolding beat
update_agent_heartbeat tenant_id node_id t s =
    let key = tenant_key tenant_id agents node_id in beat key t s (lookup key s.agent_map)

unfoldable pub upsert_state : String → DesiredState → MemoryStore → MemoryStore
upsert_state tenant_id st s = record s {
  state_map =
      insert (tenant_key tenant_id states st.state_id) (record st { tenant_id = tenant_id })
        s.state_map;
}

set_status :
    String
    → String
    → String
    → ℕ
    → ℕ
    → MemoryStore
    → Option DesiredState
    → MemoryStore × Option StoreError
set_status key status last_error last_checked expected s none = (s, some state_not_found)
set_status key status last_error last_checked expected s (some st) =
    if st.version == expected
    then (
      record s {
        state_map =
            insert key
              (record st { status = status; last_checked = last_checked; last_error = last_error })
              s.state_map;
      },
      none,
    )
    else (s, some optimistic_lock_failure)

unfoldable pub update_state_status :
    String → String → String → String → ℕ → ℕ → MemoryStore → MemoryStore × Option StoreError
unfolding set_status
update_state_status tenant_id state_id status last_error last_checked expected s =
    let key = tenant_key tenant_id states state_id in
    set_status key status last_error last_checked expected s (lookup key s.state_map)

unfoldable pub get_state : String → String → MemoryStore → Option DesiredState
get_state tenant_id state_id s = lookup (tenant_key tenant_id states state_id) s.state_map

first {ℓ} : {A : Type ℓ} → List A → Option A
first [] = none
first (a ∷ _) = some a

-- The first fit of the range over the map.
unfoldable pub get_state_by_node : String → String → MemoryStore → Option DesiredState
unfolding first
get_state_by_node tenant_id node_id s =
    first (keep_if (λ st. st.tenant_id == tenant_id && st.node_id == node_id) (values s.state_map))

unfoldable pub list_states : String → MemoryStore → List DesiredState
list_states tenant_id s = keep_if (λ st. st.tenant_id == tenant_id) (values s.state_map)

unfoldable pub create_job : String → Job → MemoryStore → MemoryStore
create_job tenant_id j s = record s {
  job_map =
      insert (tenant_key tenant_id jobs j.job_id) (record j { tenant_id = tenant_id }) s.job_map;
}

job_after : ℕ → String → ℕ → String → String → Job → Job
job_after now status exit_code stdout stderr j =
    if status == "running"
    then record j { status = status; started_at = some now }
    else if status == "completed" || status == "failed"
    then record j {
      status = status;
      finished_at = some now;
      exit_code = exit_code;
      stdout = stdout;
      stderr = stderr;
    }
    else record j { status = status }

set_job :
    ℕ
    → String
    → String
    → ℕ
    → String
    → String
    → MemoryStore
    → Option Job
    → MemoryStore × Option StoreError
unfolding job_after
set_job now key status exit_code stdout stderr s none = (s, some job_not_found)
set_job now key status exit_code stdout stderr s (some j) = (
  record s { job_map = insert key (job_after now status exit_code stdout stderr j) s.job_map },
  none,
)

unfoldable pub update_job_status :
    ℕ
    → String
    → String
    → String
    → ℕ
    → String
    → String
    → MemoryStore
    → MemoryStore × Option StoreError
unfolding set_job
update_job_status now tenant_id job_id status exit_code stdout stderr s =
    let key = tenant_key tenant_id jobs job_id in
    set_job now key status exit_code stdout stderr s (lookup key s.job_map)

unfoldable pub get_job : String → String → MemoryStore → Option Job
get_job tenant_id job_id s = lookup (tenant_key tenant_id jobs job_id) s.job_map

-- 32-bit FNV-1.
unfoldable pub fnv_loop : ℕ → List ℕ → ℕ
fnv_loop h [] = h
fnv_loop h (b ∷ s) = fnv_loop (bit_xor (h * 16777619 % 2 ^ 32) b) s

unfoldable pub fnv_hash : String → ℕ
unfolding fnv_loop
fnv_hash s = fnv_loop 2166136261 (bytes s)

-- The states of one status in the shard, of all tenants.
unfoldable pub list_states_by_status : String → ℕ → ℕ → MemoryStore → List DesiredState
list_states_by_status status shard_index shard_count s =
    keep_if
      (λ st.
        st.status == status
        && (leb shard_count 1 || fnv_hash st.node_id % (shard_count % 2 ^ 32) == shard_index))
      (values s.state_map)

unfoldable pub count_states_by_status : String → String → MemoryStore → ℕ
count_states_by_status tenant_id status s =
    length (keep_if (λ st. st.tenant_id == tenant_id && st.status == status) (values s.state_map))

-- The loop of the job lists: it stops after `limit` fits, and a limit of 0 is none.
collect : (Job → Bool) → ℕ → ℕ → List Job → List Job
collect fits limit count [] = []
collect fits limit count (j ∷ js) =
    let more = collect fits limit (count + 1) js in
    let skip = collect fits limit count js in
    if fits j then (if ltb 0 limit && leb limit (count + 1) then j ∷ [] else j ∷ more) else skip

unfoldable pub list_jobs : String → String → ℕ → MemoryStore → List Job
unfolding collect
list_jobs tenant_id node_id limit s =
    collect (λ j. j.tenant_id == tenant_id && j.node_id == node_id) limit 0 (values s.job_map)

unfoldable pub list_jobs_by_tenant : String → ℕ → MemoryStore → List Job
unfolding collect
list_jobs_by_tenant tenant_id limit s =
    collect (λ j. j.tenant_id == tenant_id) limit 0 (values s.job_map)

abbrev pub or_zero : Option ℕ → ℕ
or_zero none = 0
or_zero (some n) = n

unfoldable pub get_durable_epoch : String → MemoryStore → ℕ
get_durable_epoch resource_id s = or_zero (lookup resource_id s.epochs)

unfoldable pub increment_durable_epoch : String → MemoryStore → MemoryStore × ℕ
unfolding get_durable_epoch
increment_durable_epoch resource_id s =
    let epoch = get_durable_epoch resource_id s + 1 in
    (record s { epochs = insert resource_id epoch s.epochs }, epoch)
