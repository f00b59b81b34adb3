-- ===== src/Api/Idempotency.antt =====
-- control_plane/idempotency/store.go and withIdempotency of control_plane/api.go. The entry's time is
-- the one at which the request came. `none` is a panic of the wrapped handler.
pub mod Repeats
use flux_forge.Base.{
  ℕ, ◌-◌, ◌*◌, String, Bool, Option, none, some, List, [], ◌==◌, string_eq, ltb, if◌then◌else◌,
}
use flux_forge.Base.Dict.{Dict, lookup, insert, delete}
use flux_forge.Task.{second}
use flux_forge.Api.{Backend, Request, Response, Entry, Api, Json, Handled}

abbrev pub hour : ℕ
hour = 3600 * second

abbrev pub entry_of : ℕ → Response → Entry
entry_of now resp = record { resp = resp; timestamp = now }

resp_of : Option Entry → Option Response
resp_of none = none
resp_of (some e) = some e.resp

backend_response : Json → String × Option String → Option Response
unfolding resp_of
backend_response json (val, some e) = none
backend_response json (val, none) = if val == "" then none else resp_of (json.decode_entry val)

module _ {T B : Type 0} (json : Json) where
  cache_response : ℕ → String → Api T B → Option Entry → Api T B × Option Response
  cache_response now key a none = (a, none)
  cache_response now key a (some e) =
      if ltb hour (now - e.timestamp)
      then (record a { idempotency_cache = delete key a.idempotency_cache }, none)
      else (a, some e.resp)

  unfoldable pub get_response :
      Option (Backend T) → ℕ → String → Api T B → Api T B × Option Response
  unfolding backend_response cache_response
  get_response (some backend) now key a = (a, backend_response json (backend.get key a.store))
  get_response none now key a = cache_response now key a (lookup key a.idempotency_cache)

  unfoldable pub set_response : Option (Backend T) → ℕ → String → Response → Api T B → Api T B
  set_response (some backend) now key resp a = record a {
    store = (backend.set key (json.encode_entry (entry_of now resp)) (24 * hour) a.store).0;
  }
  set_response none now key resp a = record a {
    idempotency_cache = insert key (entry_of now resp) a.idempotency_cache;
  }

  recorded : Option (Backend T) → ℕ → String → Option (Handled T B) → Option (Handled T B)
  unfolding set_response
  recorded backend now key none = none
  recorded backend now key (some (a, resp)) = some (set_response backend now key resp a, resp)

  replayed :
      Option (Backend T)
      → ℕ
      → String
      → (Api T B → Option (Handled T B))
      → Api T B × Option Response
      → Option (Handled T B)
  unfolding recorded
  replayed backend now key next (a, some resp) = some (a, resp)
  replayed backend now key next (a, none) = recorded backend now key (next a)

  unfoldable pub with_idempotency :
      Option (Backend T)
      → ℕ
      → Request
      → (Api T B → Option (Handled T B))
      → Api T B
      → Option (Handled T B)
  unfolding get_response replayed
  with_idempotency backend now r next a =
      let repeat =
        replayed backend now r.idempotency_key next
          (get_response backend now r.idempotency_key a) in
      if r.idempotency_key == "" then next a else repeat
