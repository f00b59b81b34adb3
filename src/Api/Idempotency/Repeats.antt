-- ===== src/Api/Idempotency/Repeats.antt =====
-- control_plane/api.go: what a repeated idempotency key brings.
use flux_forge.Base.{
  ℕ, ◌+◌, ◌≤◌, String, Option, none, some, ◌≡◌, ◌≢◌, refl, sym, ◌∙◌, subst, ◌*◌, string_eq, arith,
  ==_ne,
}
use flux_forge.Base.Dict.{lookup-insert_self}
use flux_forge.Api.{Backend, Request, Response, Entry, Api, Json, Handled}
use flux_forge.Api.Idempotency.{
  hour, entry_of, resp_of, backend_response, cache_response, get_response, set_response, recorded,
  replayed, with_idempotency,
}

-- What a backend promises: a value that was set without an error is what a get reads that brings no
-- error.
pub record Keeps {T : Type 0} (backend : Backend T) : Type 0 where
  pub get-set :
      (k v : String) (ttl : ℕ) (t : T)
      → (backend.set k v ttl t).1 ≡ none
      → (backend.get k (backend.set k v ttl t).0).1 ≡ none
      → (backend.get k (backend.set k v ttl t).0).0 ≡ v

module _ {T B : Type 0} (json : Json) where
  -- A fresh key: the handler runs and its response is stored.
  pub fresh_runs :
      (backend : Option (Backend T)) (now : ℕ) (r : Request) (next : Api T B → Option (Handled T B))
      (a a' a'' : Api T B) (resp : Response)
      → r.idempotency_key ≢ ""
      → get_response json backend now r.idempotency_key a ≡ (a', none)
      → next a' ≡ some (a'', resp)
      → with_idempotency json backend now r next a
        ≡ some (set_response json backend now r.idempotency_key resp a'', resp)
  unfolding with_idempotency replayed recorded
  fresh_runs backend now r next a a' a'' resp named fresh ran =
      rw (==_ne r.idempotency_key "" named, fresh, ran) refl

  pub unread_fresh :
      (backend : Backend T) (now : ℕ) (key v : String) (a : Api T B)
      → json.decode_entry v ≡ none
      → ((backend.get key a.store).1 ≡ none → (backend.get key a.store).0 ≡ v)
      → get_response json (some backend) now key a ≡ (a, none)
  unfolding get_response backend_response resp_of
  unread_fresh backend now key v a unread held = ground (arith, unread, held)

  cached_again :
      (now later : ℕ) (resp : Response) (next : Api T B → Option (Handled T B)) (r : Request)
      (a : Api T B)
      → r.idempotency_key ≢ ""
      → later ≤ now + hour
      → let stored = set_response json none now r.idempotency_key resp a in
        with_idempotency json none later r next stored ≡ some (stored, resp)
  unfolding with_idempotency get_response set_response cache_response replayed
  cached_again now later resp next r a named soon =
      rw
        (
          ==_ne r.idempotency_key "" named,
          lookup-insert_self r.idempotency_key (entry_of now resp) a.idempotency_cache,
        )
        (ground (arith, soon))

  backend_again :
      (backend : Backend T) (now later : ℕ) (resp : Response)
      (next : Api T B → Option (Handled T B)) (r : Request) (a : Api T B)
      → Keeps backend
      → ((e : Entry) → json.decode_entry (json.encode_entry e) ≡ some e)
      → ((e : Entry) → json.encode_entry e ≢ "")
      → r.idempotency_key ≢ ""
      → let stored = set_response json (some backend) now r.idempotency_key resp a in
        (backend.set r.idempotency_key
            (json.encode_entry (entry_of now resp))
            (24 * hour)
            a.store).1
          ≡ none
        → (backend.get r.idempotency_key stored.store).1 ≡ none
        → with_idempotency json (some backend) later r next stored ≡ some (stored, resp)
  unfolding with_idempotency get_response set_response backend_response replayed resp_of
  backend_again backend now later resp next r a keeps reads text named set got =
      let value = json.encode_entry (entry_of now resp) in
      let kept = keeps.get-set r.idempotency_key value (24 * hour) a.store set got in
      ground (
        arith,
        kept,
        got,
        reads (entry_of now resp),
        text (entry_of now resp),
        ==_ne r.idempotency_key "" named,
        ==_ne value "" (text (entry_of now resp)),
      )

  -- The first request under a key in the cache runs its handler and stores the response; any later request under that key within an hour, by whatever client and for whatever handler, runs nothing, changes nothing and gets the same response.
  pub cached_repeats :
      (now later : ℕ) (first second : Request) (next other : Api T B → Option (Handled T B))
      (a a' a'' : Api T B) (resp : Response)
      → first.idempotency_key ≢ ""
      → second.idempotency_key ≡ first.idempotency_key
      → get_response json none now first.idempotency_key a ≡ (a', none)
      → next a' ≡ some (a'', resp)
      → later ≤ now + hour
      → let stored = set_response json none now first.idempotency_key resp a'' in
        (with_idempotency json none now first next a ≡ some (stored, resp))
        × (with_idempotency json none later second other stored ≡ some (stored, resp))
  cached_repeats now later first second next other a a' a'' resp named same fresh ran soon =
      let twice =
        cached_again now later resp other second a'' (λ empty. named (sym same ∙ empty)) soon in
      (
        fresh_runs none now first next a a' a'' resp named fresh ran,
        subst
            (λ key.
              with_idempotency json none later second other
                (set_response json none now key resp a'')
              ≡ some (set_response json none now key resp a'', resp))
            same twice,
      )
