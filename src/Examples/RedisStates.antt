-- ===== src/Examples/RedisStates.antt =====
-- Versioned values, desired states and agents on the server of Examples/Redis.
use flux_forge.Base.{
  ℕ, suc, ◌≤◌, String, false, Option, none, some, [], ◌≡◌, ◌≢◌, ◌⊎◌, refl, ◌==◌, nat_eq, string_eq,
  arith, if◌then◌else◌, subst, sym, ap,
}
use flux_forge.Base.Dict.{lookup, insert}
use flux_forge.Degraded.Sync.{VersionedValue}
use flux_forge.Store.{Agent, DesiredState, states, tenant_key, resource_string}
use flux_forge.Store.Memory.{MemoryStore, new_memory_store}
use flux_forge.Store.Memory
use flux_forge.Redis.{call, read, versioned_set_script, versioned_get_script}
use flux_forge.Redis.Versioned.{RedisStore, set_versioned, compare_and_set_versioned, run_cas}
use flux_forge.Redis.Versioned.Writer.{stored_version}
use flux_forge.Redis.Versioned.Swap.{setting, Writes, start, later, cas_exclusive}
use flux_forge.Redis.Records.{Codec, upsert_agent, get_agent, update_agent_heartbeat}
use flux_forge.Redis.Records.Mirror.{Mirrors, IsOwnActive, Runs, registered, beaten, agents_agree}
use flux_forge.Redis.Records.Mirror
use flux_forge.Redis.States.{
  StateCodec, get_state, list_states, get_state_by_node, list_states_by_status,
  count_states_by_status, update_state_status, upsert_state,
}
use flux_forge.Redis.States.Unreadable.{states_unreadable}
use flux_forge.Redis.States.Counting.{upsert_state_counts}
use flux_forge.Examples.Redis.{Memory, empty_memory, server, server-TextLaws, server-HashLaws}

abbrev pub started : RedisStore Memory
started = record {
  server = empty_memory;
  versioned_set_sha = some versioned_set_script;
  versioned_get_sha = some versioned_get_script;
}

-- Values are their own JSON.
abbrev pub json : String → Option String
json t = some t

abbrev pub as_is : String → String
as_is t = t

abbrev version_n : ℕ → VersionedValue String
version_n n = record { value = "v"; version = n; timestamp = 0 }

abbrev at_one : RedisStore Memory
at_one = record started {
  server = record empty_memory {
    hashes = insert "k" (record { value = "v"; version = 1; timestamp = 0 }) [];
  };
}

abbrev swapped_once : RedisStore Memory
swapped_once = (compare_and_set_versioned server json as_is "k" 1 (version_n 2) 0 at_one).0

then_set :
    Writes server json as_is "k" swapped_once
      (set_versioned server json as_is "k" (version_n 7) 0 swapped_once).0
then_set = later start (setting "k" (version_n 7) 0)

cas_exclusive_example :
    let after = (set_versioned server json as_is "k" (version_n 7) 0 swapped_once).0 in
    ((server.hash "k" at_one.server ≡ none)
      ⊎ (stored_version server server-HashLaws at_one "k" ≡ 1))
    × (2 ≤ stored_version server server-HashLaws after "k")
    × ((compare_and_set_versioned server json as_is "k" 1 (version_n 9) 0 after).1 ≡ false)
unfolding compare_and_set_versioned run_cas call insert lookup
cas_exclusive_example =
    cas_exclusive server server-HashLaws json as_is "k" 1 (version_n 2) (version_n 9) 0 0 at_one _
      refl (omega arith) then_set

-- The JSON of agents and of states is one fixed text each; a text in quotes is no state.
abbrev pub agent_a : Agent
agent_a = record {
  node_id = "a1";
  tenant_id = "acme";
  ip_address = "10.0.0.1";
  status = "active";
  last_heartbeat = 5;
  created_at = 1;
  updated_at = 1;
  port = 9000;
  tier = "normal";
}

-- The codec knows the agent as it was registered and after a heartbeat at 9.
abbrev pub agent_codec : Codec Agent
agent_codec = record {
  marshal = λ a. if a.last_heartbeat == 5 then "{5}" else "{9}";
  unmarshal = λ t.
      if t == "{5}"
      then some agent_a
      else if t == "{9}"
      then some (record agent_a { last_heartbeat = 9 })
      else none;
}

abbrev registered_redis : Memory
registered_redis = (upsert_agent server agent_codec "acme" agent_a empty_memory).0

abbrev registered_memory : MemoryStore
registered_memory = Memory.upsert_agent "acme" agent_a new_memory_store

abbrev beaten_redis : Memory
beaten_redis = (update_agent_heartbeat server agent_codec "acme" "a1" 9 registered_redis).0

abbrev beaten_memory : MemoryStore
beaten_memory = (Memory.update_agent_heartbeat "acme" "a1" 9 registered_memory).0

empty-Mirrors : Mirrors server agent_codec empty_memory new_memory_store
unfolding Memory.get_agent new_memory_store lookup
empty-Mirrors t n = refl

only_a : (t n : String) (a : Agent) → Memory.get_agent t n registered_memory ≡ some a → a ≡ agent_a
unfolding Memory.get_agent Memory.upsert_agent new_memory_store insert lookup
only_a t n a h = ground (arith, h)

only_beaten :
    (t n : String) (a : Agent)
    → Memory.get_agent t n beaten_memory ≡ some a
    → a ≡ record agent_a { last_heartbeat = 9 }
unfolding Memory.get_agent Memory.update_agent_heartbeat Memory.upsert_agent new_memory_store insert
    lookup tenant_key resource_string
only_beaten t n a h = ground (arith, h)

agent_runs : Runs server agent_codec empty_memory new_memory_store beaten_redis beaten_memory
unfolding upsert_agent update_agent_heartbeat call read insert lookup tenant_key
agent_runs =
    beaten (registered Mirror.start "acme" agent_a refl) "acme" "a1" 9
      (λ a h.
        let same = only_a "acme" "a1" a h in
        (ap (λ x. x.tenant_id) same, ap (λ x. x.node_id) same, ap (λ x. x.status) same))
      (λ t n a h.
        subst (λ x. agent_codec.unmarshal (agent_codec.marshal x) ≡ some x) (sym (only_a t n a h))
          refl)
      refl

agents_agree_example :
    (get_agent server agent_codec "acme" "a1" beaten_redis).0
    ≡ Memory.get_agent "acme" "a1" beaten_memory
unfolding get_agent upsert_agent update_agent_heartbeat call read insert lookup tenant_key
agents_agree_example =
    agents_agree server server-TextLaws agent_codec empty_memory beaten_redis new_memory_store
      beaten_memory "acme" "a1" empty-Mirrors agent_runs
      (λ t n a h.
        subst (λ x. agent_codec.unmarshal (agent_codec.marshal x) ≡ some x)
          (sym (only_beaten t n a h)) refl)
      refl

abbrev state_1 : DesiredState
state_1 = record {
  state_id = "s1";
  node_id = "a1";
  tenant_id = "acme";
  check_cmd = "check";
  apply_cmd = "apply";
  desired_exit_code = 0;
  created_at = 1;
  updated_at = 1;
  version = 0;
  status = "pending";
  last_checked = 0;
  last_error = "";
}

abbrev pub state_codec : StateCodec
state_codec = record {
  marshal_state = λ st. "{}";
  quote = λ t. "quoted";
  unmarshal_state = λ t. if t == "{}" then some state_1 else none;
}

abbrev state_key : String
state_key = tenant_key "acme" states "s1"

upsert_state_counts_example :
    let (r, _, _) = upsert_state server state_codec 5 "acme" state_1 started in
    stored_version server server-HashLaws r state_key
    ≡ suc (stored_version server server-HashLaws started state_key)
unfolding upsert_state call lookup
upsert_state_counts_example =
    upsert_state_counts server server-HashLaws state_codec 5 "acme" state_1 _ started _ refl

-- The state is stored, and still not to be had.
abbrev with_state_1 : RedisStore Memory
with_state_1 = (upsert_state server state_codec 5 "acme" state_1 started).0

states_unreadable_example :
    ((get_state server state_codec "acme" "s1" with_state_1).1 ≡ none)
    × ((list_states server state_codec "acme" with_state_1).1 ≡ [])
    × ((get_state_by_node server state_codec "acme" "s1" with_state_1).1 ≡ none)
    × ((list_states_by_status server state_codec "pending" 0 1 with_state_1).1 ≡ [])
    × ((count_states_by_status server state_codec "acme" "pending" with_state_1).1 ≡ 0)
    × ((update_state_status server state_codec 9 "acme" "s1" "pending" "" 9 1 with_state_1).1
        ≢ none)
states_unreadable_example =
    states_unreadable server state_codec (λ t. refl) 9 "acme" "s1" "pending" "" 9 1 0 1 with_state_1
