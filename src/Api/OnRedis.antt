-- ===== src/Api/OnRedis.antt =====
-- control_plane/api.go as control_plane/main.go starts it: Redis is its store and the backend of its
-- idempotency keys.
use flux_forge.Base.{ℕ, String, Option, none, some, ◌≡◌, ◌≢◌, string_eq, ◌*◌}
use flux_forge.Limiter.{RateLib}
use flux_forge.Store.{Agent, Job}
use flux_forge.Redis.{RedisServer, TextLaws}
use flux_forge.Redis.Versioned.{RedisStore}
use flux_forge.Redis.Records.{Codec}
use flux_forge.Redis.Records.Values.{set_held, get_held}
use flux_forge.Redis.Records
use flux_forge.Redis.States.{StateCodec}
use flux_forge.Redis.States.Unreadable.{states_unreadable}
use flux_forge.Api.{Request, Response, Api, Json, Handled, StoreInterface}
use flux_forge.Api.States.{handle_get_state, handle_reconcile_state, handle_capture_incident}
use flux_forge.Api.States.Missing.{NotQueued, get_state_missing, reconcile_missing, capture_missing}
use flux_forge.Api.Idempotency.{with_idempotency, set_response, entry_of, hour}
use flux_forge.Api.Idempotency.Repeats.{Keeps, unread_fresh, fresh_runs}
use flux_forge.Api.Stores.{redis_interface, redis_backend}

module _ {S : Type 0} (redis : RedisServer S) (laws : TextLaws redis) where
  -- Redis keeps what the idempotency store promises its clients: a value that was set without an error is the one that a get without an error reads.
  pub redis_backend-Keeps : Keeps (redis_backend redis)
  redis_backend-Keeps = record {
    get-set = λ k v ttl r done read.
        get_held redis laws k v (Records.set redis k v ttl r.server).0
          (set_held redis laws k v ttl r.server done) read;
  }

  -- A client's idempotency key is a key of Redis: a request under a key whose value is no entry of the idempotency store overwrites that value by its response, whatever the value was kept for, if the handler leaves it and the write reports no error.
  pub client_key_writes :
      {B : Type 0} (json : Json) (now : ℕ) (r : Request)
      (next : Api (RedisStore S) B → Option (Handled (RedisStore S) B))
      (a a' : Api (RedisStore S) B) (v : String) (resp : Response)
      → r.idempotency_key ≢ ""
      → redis.get r.idempotency_key a.store.server ≡ some v
      → json.decode_entry v ≡ none
      → next a ≡ some (a', resp)
      → (Records.set redis r.idempotency_key
          (json.encode_entry (entry_of now resp))
          (24 * hour)
          a'.store.server).1
        ≡ none
      → (a'' : Api (RedisStore S) B) × (with_idempotency json
            (some (redis_backend redis))
            now
            r
            next
            a
          ≡ some (a'', resp))
        × (redis.get r.idempotency_key a''.store.server
            ≡ some (json.encode_entry (entry_of now resp)))
  unfolding set_response
  client_key_writes json now r next a a' v resp named held unread ran done =
      let fresh =
        unread_fresh json (redis_backend redis) now r.idempotency_key v a unread
          (get_held redis laws r.idempotency_key v a.store.server held) in
      let stored = set_response json (some (redis_backend redis)) now r.idempotency_key resp a' in
      let value = json.encode_entry (entry_of now resp) in
      (
        stored,
        fresh_runs json (some (redis_backend redis)) now r next a a a' resp named fresh ran,
        set_held redis laws r.idempotency_key value (24 * hour) a'.store.server done,
      )

module _ {S B R : Type 0} (redis : RedisServer S) (agent_codec : Codec Agent)
    (job_codec : Codec Job) (state_codec : StateCodec) (lib : RateLib B R) (json : Json)
    (quoted : (t : String) → state_codec.unmarshal_state (state_codec.quote t) ≡ none) where
  abbrev pub over : StoreInterface (RedisStore S)
  over = redis_interface redis agent_codec job_codec state_codec

  no_state : (t i : String) (s : RedisStore S) → (over.get_state t i s).1 ≡ none
  no_state t i s = (states_unreadable redis state_codec quoted 0 t i "" "" 0 0 0 0 s).0

  -- With Redis as its store, the API never serves a desired state: a state that was asked for is never found, a reconciliation of one is never accepted and leaves the scheduler alone, and an incident of one is never captured, whatever Redis holds and however its calls fail. The unmarshaller of states refuses a quoted text.
  pub states_not_served :
      (now : ℕ) (uuid : String) (r : Request) (a : Api (RedisStore S) B)
      → ((handle_get_state over lib json r a).1.status_code ≢ 200)
        × NotQueued a (handle_reconcile_state over lib json now uuid r a)
        × ((handle_capture_incident over lib json now r a).1.status_code ≢ 200)
  states_not_served now uuid r a = (
    get_state_missing over lib json no_state r a,
    reconcile_missing over lib json no_state now uuid r a,
    capture_missing over lib json no_state now r a,
  )
