-- ===== src/Redis/States.antt =====
-- control_plane/store/redis.go: desired states, each a versioned hash under its key. A Go interface
-- holds the state that is stored, or the text that GetVersioned brings. JSON is a parameter.
pub mod Unreadable
pub mod Counting
use flux_forge.Base.{
  ℕ, zero, suc, ◌+◌, ◌-◌, ◌*◌, ◌/◌, ◌%◌, ◌^◌, String, Bool, true, false, not, Option, none, some,
  List, [], ◌∷◌, ◌==◌, nat_eq, string_eq, ltb, ◌&&◌, if◌then◌else◌, get_elem?, keep_if, length,
}
use flux_forge.Base.Text.{◌<>◌, split}
use flux_forge.Task.{second}
use flux_forge.Store.{DesiredState, states, tenant_key, tenant_prefix, tenant_wildcard_prefix}
use flux_forge.Store.Memory.{fnv_hash}
use flux_forge.Degraded.Sync.{VersionedValue}
use flux_forge.Redis.{RedisServer, Reply, ok, redis_error, call, read}
use flux_forge.Redis.Versioned.{RedisStore, set_versioned, get_versioned, compare_and_set_versioned}

pub data Interface : Type 0 where
  state_value : DesiredState → Interface
  text_value : String → Interface

pub record StateCodec : Type 0 where
  pub marshal_state : DesiredState → String
  pub quote : String → String
  pub unmarshal_state : String → Option DesiredState

unfoldable pub marshal_value : StateCodec → Interface → String
marshal_value codec (state_value st) = codec.marshal_state st
marshal_value codec (text_value t) = codec.quote t

abbrev pub marshal_any : StateCodec → Interface → Option String
marshal_any codec v = some (marshal_value codec v)

-- Marshalled again, then unmarshalled into a state.
decoded : StateCodec → VersionedValue Interface → Option DesiredState
unfolding marshal_value
decoded codec v = codec.unmarshal_state (marshal_value codec v.value)

answered :
    StateCodec
    → Option (VersionedValue Interface)
    → Option String
    → Option DesiredState × Option String
unfolding decoded
answered codec found (some e) = (none, if e == "not found" then none else some e)
answered codec none none = (none, none)
answered codec (some v) none = elim (decoded codec v) [
  | none ↦ (none, some "failed to unmarshal")
  | some st ↦ (some st, none)
]

-- The version that UpsertState goes on from, or its error.
next_version : Option (VersionedValue Interface) → Option String → Option ℕ
next_version found (some e) = if e == "not found" then some 1 else none
next_version none none = some 1
next_version (some v) none = some (v.version + 1)

-- The shard of the field 4 of a key, the state's id.
unfoldable pub in_shard : ℕ → ℕ → String → Bool
in_shard shard_index shard_count key = elim (get_elem? (split 58 key) 4) [
  | none ↦ false
  | some state_id ↦ fnv_hash state_id % shard_count == shard_index
]

module _ {S : Type 0} (redis : RedisServer S) (codec : StateCodec) where
  -- The caller's object is changed too, and handed back.
  write_state :
      ℕ
      → String
      → DesiredState
      → RedisStore S
      → Option ℕ
      → RedisStore S × DesiredState × Option String
  unfolding set_versioned
  write_state now key st r none = (r, st, some "failed to get versioned value")
  write_state now key st r (some version) =
      let next : DesiredState = record st { version = version; updated_at = now } in
      let (r', err) =
        set_versioned redis (marshal_any codec) text_value key
          (record { value = state_value next; version = version; timestamp = now / second }) 0 r in
      (r', next, err)

  unfoldable pub upsert_state :
      ℕ → String → DesiredState → RedisStore S → RedisStore S × DesiredState × Option String
  unfolding write_state next_version get_versioned
  upsert_state now tenant_id st r =
      let key = tenant_key tenant_id states st.state_id in
      let (r', found, err) = get_versioned redis (marshal_any codec) text_value key r in
      write_state now key (record st { tenant_id = tenant_id }) r' (next_version found err)

  unfoldable pub get_state :
      String → String → RedisStore S → RedisStore S × Option DesiredState × Option String
  unfolding get_versioned answered
  get_state tenant_id state_id r =
      let (r', found, err) =
        get_versioned redis (marshal_any codec) text_value (tenant_key tenant_id states state_id)
          r in
      let (st, e) = answered codec found err in (r', st, e)

  swapped : RedisStore S × Bool × Option String → RedisStore S × Option String
  swapped (r, told, some e) = (r, some e)
  swapped (r, told, none) = (r, if told then none else some "concurrent modification")

  status_written :
      ℕ
      → String
      → String
      → String
      → ℕ
      → ℕ
      → RedisStore S
      → Option DesiredState × Option String
      → RedisStore S × Option String
  unfolding compare_and_set_versioned swapped
  status_written now key status last_error last_checked expected r (st, some e) = (r, some e)
  status_written now key status last_error last_checked expected r (none, none) =
      (r, some "state not found")
  status_written now key status last_error last_checked expected r (some st, none) =
      if ltb 0 expected && not (st.version == expected)
      then (r, some "version mismatch")
      else swapped (
          compare_and_set_versioned redis (marshal_any codec) text_value key st.version
            (record {
              value = state_value (record st {
                status = status;
                last_error = last_error;
                last_checked = last_checked;
                version = st.version + 1;
                updated_at = now;
              });
              version = st.version + 1;
              timestamp = now / second;
            })
            0 r)

  unfoldable pub update_state_status :
      ℕ → String → String → String → String → ℕ → ℕ → RedisStore S → RedisStore S × Option String
  unfolding get_state status_written
  update_state_status now tenant_id state_id status last_error last_checked expected r =
      let (r', st, err) = get_state tenant_id state_id r in
      status_written now (tenant_key tenant_id states state_id) status last_error last_checked
        expected r' (st, err)

  with_state : Option DesiredState → List DesiredState → List DesiredState
  with_state none rest = rest
  with_state (some st) rest = st ∷ rest

  -- The loop over the scanned keys: a value that cannot be had or read is passed over.
  gather_states : List String → RedisStore S → RedisStore S × List DesiredState
  unfolding get_versioned answered with_state
  gather_states [] r = (r, [])
  gather_states (key ∷ keys) r =
      let (r', found, err) = get_versioned redis (marshal_any codec) text_value key r in
      let (r'', rest) = gather_states keys r' in (r'', with_state (answered codec found err).0 rest)

  scanned :
      (String → Bool)
      → Reply (List String)
      → RedisStore S
      → RedisStore S × List DesiredState × Option String
  unfolding gather_states
  scanned mine (redis_error e) r = (r, [], some e)
  scanned mine (ok keys) r =
      let (r', found) = gather_states (keep_if mine keys) r in (r', found, none)

  unfoldable pub list_states :
      String → RedisStore S → RedisStore S × List DesiredState × Option String
  unfolding scanned
  list_states tenant_id r =
      scanned (λ key. true)
        (read redis (redis.scan (tenant_prefix tenant_id states <> "*")) r.server) r

  first : List DesiredState → Option DesiredState
  first [] = none
  first (st ∷ _) = some st

  unfoldable pub get_state_by_node :
      String → String → RedisStore S → RedisStore S × Option DesiredState × Option String
  unfolding list_states first
  get_state_by_node tenant_id node_id r =
      let (r', found, err) = list_states tenant_id r in
      (r', first (keep_if (λ st. st.node_id == node_id) found), err)

  unfoldable pub list_states_by_status :
      String → ℕ → ℕ → RedisStore S → RedisStore S × List DesiredState × Option String
  unfolding scanned in_shard
  list_states_by_status status shard_index shard_count r =
      let (r', found, err) =
        scanned (in_shard shard_index shard_count)
          (read redis (redis.scan (tenant_wildcard_prefix states)) r.server) r in
      if shard_count == 0
      then (r, [], some "shardCount must be > 0")
      else (r', keep_if (λ st. st.status == status) found, err)

  unfoldable pub count_states_by_status :
      String → String → RedisStore S → RedisStore S × ℕ × Option String
  unfolding scanned
  count_states_by_status tenant_id status r =
      let (r', found, err) =
        scanned (λ key. true)
          (read redis (redis.scan (tenant_prefix tenant_id states <> "*")) r.server) r in
      (r', length (keep_if (λ st. st.status == status) found), err)
