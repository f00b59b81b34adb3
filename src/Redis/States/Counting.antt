-- ===== src/Redis/States/Counting.antt =====
-- control_plane/store/redis.go: the versions that UpsertState gives to a desired state.
use flux_forge.Base.{ℕ, suc, ◌/◌, String, Option, none, some, ◌≡◌, ◌⊎◌, refl, string_eq, arith}
use flux_forge.Task.{second}
use flux_forge.Store.{DesiredState, states, tenant_key}
use flux_forge.Degraded.Sync.{VersionedValue}
use flux_forge.Redis.{RedisServer, HashLaws}
use flux_forge.Redis.Versioned.{RedisStore, get_versioned}
use flux_forge.Redis.Versioned.Writer.{stored_version, get_keeps, get_finds, set_outcome}
use flux_forge.Redis.States.{
  Interface, text_value, state_value, StateCodec, marshal_any, next_version, write_state,
  upsert_state,
}

module _ {S : Type 0} (redis : RedisServer S) (laws : HashLaws redis) (codec : StateCodec) where
  written :
      (now : ℕ) (key : String) (st : DesiredState) (r q : RedisStore S) (next : Option ℕ)
      → redis.hash key q.server ≡ redis.hash key r.server
      → (next ≡ none) ⊎ (next ≡ some 1) ⊎ (next ≡ some (suc (stored_version redis laws r key)))
      → (write_state redis codec now key st q next).2 ≡ none
      → stored_version redis laws (write_state redis codec now key st q next).0 key
        ≡ suc (stored_version redis laws r key)
  unfolding write_state
  written now key st r q none same choice done = ground arith
  written now key st r q (some n) same choice done =
      let value : VersionedValue Interface = record {
        value = state_value (record st { version = n; updated_at = now });
        version = n;
        timestamp = now / second;
      } in
      let outcome = set_outcome redis laws (marshal_any codec) text_value key key value 0 q in
      ground (arith, same, choice, done, outcome)

  goes_on :
      (key : String) (r : RedisStore S) (found : Option (VersionedValue Interface))
      (err : Option String)
      → ((v : VersionedValue Interface)
          → found ≡ some v
          → stored_version redis laws r key ≡ v.version)
      → let next = next_version found err in
        (next ≡ none) ⊎ (next ≡ some 1) ⊎ (next ≡ some (suc (stored_version redis laws r key)))
  unfolding next_version
  goes_on key r found (some e) finds = ground arith
  goes_on key r none none finds = ground arith
  goes_on key r (some v) none finds = ground (arith, finds v refl)

  -- Every UpsertState that reports no error raises the version that Redis stores for the state by exactly one, from 0 for a state that is not stored, also where the read before it failed and was taken for a missing state, if no other writer comes between its read and its write.
  pub upsert_state_counts :
      (now : ℕ) (tenant_id : String) (st st' : DesiredState) (r r' : RedisStore S)
      → upsert_state redis codec now tenant_id st r ≡ (r', st', none)
      → stored_version redis laws r' (tenant_key tenant_id states st.state_id)
        ≡ suc (stored_version redis laws r (tenant_key tenant_id states st.state_id))
  unfolding upsert_state
  upsert_state_counts now tenant_id st st' r r' h =
      let key = tenant_key tenant_id states st.state_id in
      let (q, found, err) = get_versioned redis (marshal_any codec) text_value key r in
      let same = get_keeps redis laws (marshal_any codec) text_value key key r in
      let next =
        goes_on key r found err (get_finds redis laws (marshal_any codec) text_value key r) in
      let bound : DesiredState = record st { tenant_id = tenant_id } in
      let done = written now key bound r q (next_version found err) same next in
      ground (arith, h, done)
