-- ===== src/Redis/States/Unreadable.antt =====
-- control_plane/store/redis.go: what reading a stored state brings.
use flux_forge.Base.{
  ℕ, String, Bool, true, Option, none, some, List, [], ◌∷◌, ◌≡◌, ap, ◌∙◌, refl, ◌==◌, string_eq,
  arith, nat_eq, if_cases, ◌≢◌, keep_if,
}
use flux_forge.Base.Text.{◌<>◌}
use flux_forge.Degraded.Sync.{VersionedValue}
use flux_forge.Store.{DesiredState, states, tenant_key, tenant_prefix, tenant_wildcard_prefix}
use flux_forge.Redis.{RedisServer, Reply, ok, redis_error, read}
use flux_forge.Redis.Versioned.{RedisStore, get_versioned}
use flux_forge.Redis.Versioned.Scripts.{get_brings_text}
use flux_forge.Redis.States.{
  Interface, in_shard, text_value, StateCodec, marshal_any, marshal_value, decoded, answered,
  get_state, scanned, gather_states, with_state, list_states, list_states_by_status,
  count_states_by_status, get_state_by_node, update_state_status, status_written,
}

module _ {S : Type 0} (redis : RedisServer S) (codec : StateCodec)
    (quoted : (t : String) → codec.unmarshal_state (codec.quote t) ≡ none) where
  text_unreadable :
      (found : Option (VersionedValue Interface)) (err : Option String)
      → ((v : VersionedValue Interface) → found ≡ some v → (t : String) × (v.value ≡ text_value t))
      → (answered codec found err).0 ≡ none
  unfolding answered decoded marshal_value
  text_unreadable found (some e) texts = refl
  text_unreadable none none texts = refl
  text_unreadable (some v) none texts =
      let (t, text) = texts v refl in
      let unread : decoded codec v ≡ none =
        ap (λ x. codec.unmarshal_state (marshal_value codec x)) text ∙ quoted t in
      ground (arith, unread)

  -- The value that GetVersioned brings is a text.
  found_unreadable :
      (key : String) (r : RedisStore S)
      → let (r', found, err) = get_versioned redis (marshal_any codec) text_value key r in
        (answered codec found err).0 ≡ none
  found_unreadable key r =
      text_unreadable _ _ (get_brings_text redis (marshal_any codec) text_value key r)

  gather_nothing :
      (keys : List String) (r : RedisStore S) → (gather_states redis codec keys r).1 ≡ []
  unfolding gather_states with_state
  gather_nothing [] r = refl
  gather_nothing (key ∷ keys) r =
      let answer = get_versioned redis (marshal_any codec) text_value key r in
      ground (arith, found_unreadable key r, gather_nothing keys answer.0)

  scanned_nothing :
      (mine : String → Bool) (reply : Reply (List String)) (r : RedisStore S)
      → (scanned redis codec mine reply r).1 ≡ []
  unfolding scanned
  scanned_nothing mine (redis_error e) r = refl
  scanned_nothing mine (ok keys) r = gather_nothing (keep_if mine keys) r

  status_refused :
      (now : ℕ) (key status last_error : String) (last_checked expected : ℕ) (r : RedisStore S)
      (answer : Option DesiredState × Option String)
      → answer.0 ≡ none
      → let (r', err) =
          status_written redis codec now key status last_error last_checked expected r answer in
        (err ≢ none) × (r' ≡ r)
  unfolding status_written
  status_refused now key status last_error last_checked expected r (st, some e) h =
      (λ same. ground arith, refl)
  status_refused now key status last_error last_checked expected r (none, none) h =
      (λ same. ground arith, refl)
  status_refused now key status last_error last_checked expected r (some st, none) h = ground arith

  -- No desired state that Redis stores can be read back, as the unmarshaller of states refuses a quoted text: GetState returns none, and the four readers of the states of a tenant, a node, a status or a shard return none, an empty list or 0, whatever the server holds and however calls fail; and UpdateStateStatus always fails.
  pub states_unreadable :
      (now : ℕ) (tenant_id id status last_error : String) (last_checked expected n m : ℕ)
      (r : RedisStore S)
      → ((get_state redis codec tenant_id id r).1 ≡ none)
        × ((list_states redis codec tenant_id r).1 ≡ [])
        × ((get_state_by_node redis codec tenant_id id r).1 ≡ none)
        × ((list_states_by_status redis codec status n m r).1 ≡ [])
        × ((count_states_by_status redis codec tenant_id status r).1 ≡ 0)
        × ((update_state_status redis codec now tenant_id id status last_error last_checked expected
              r).1
            ≢ none)
  unfolding get_state list_states get_state_by_node list_states_by_status count_states_by_status
      update_state_status keep_if
  states_unreadable now tenant_id id status last_error last_checked expected n m r =
      let key = tenant_key tenant_id states id in
      let one = found_unreadable key r in
      let tenant = redis.scan (tenant_prefix tenant_id states <> "*") in
      let listed = scanned_nothing (λ k. true) (read redis tenant r.server) r in
      let sharded =
        scanned_nothing (in_shard n m)
          (read redis (redis.scan (tenant_wildcard_prefix states)) r.server) r in
      let answer = get_state redis codec tenant_id id r in
      let refused =
        status_refused now key status last_error last_checked expected answer.0 (answer.1, answer.2)
          one in
      (
        one,
        listed,
        rw listed refl,
        if_cases (λ (x : RedisStore S × List DesiredState × Option String). x.1 ≡ []) (m == 0)
            (λ e. refl) (λ e. rw sharded refl),
        rw listed refl,
        refused.0,
      )
