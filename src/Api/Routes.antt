-- ===== src/Api/Routes.antt =====
-- control_plane/main.go: the routes of the API, behind the CORS and the authentication middleware. The
-- handlers of the dashboard, the metrics and the incident replay are a parameter. `none` is a
-- panic, which net/http turns into a closed connection.
pub mod Guard
use flux_forge.Base.{
  ℕ, suc, ◌+◌, ◌-◌, String, Bool, true, false, not, ◌&&◌, Option, none, some, List, [], ◌∷◌, ◌==◌,
  nat_eq, string_eq, ltb, if◌then◌else◌, length,
}
use flux_forge.Base.Text.{bytes, drop_bytes, same_bytes}
use text.Mathlib.Text.{starts_with}
use flux_forge.Limiter.{RateLib}
use flux_forge.Auth.{TokenLib, Access, denied, granted, auth_middleware, with_cors}
use flux_forge.Api.{
  StoreInterface, Backend, Request, Response, Api, Json, Handled, http_error, plain,
}
use flux_forge.Api.Agents.{
  handle_register, handle_heartbeat, handle_list_agents, handle_set_admission_mode,
}
use flux_forge.Api.Jobs.{handle_submit_job, handle_get_job, handle_list_jobs, handle_job_result}
use flux_forge.Api.States.{
  handle_create_state, handle_get_state, handle_list_states, handle_reconcile_state,
  handle_capture_incident,
}
use flux_forge.Api.Idempotency.{with_idempotency}

pub data Route : Type 0 where
  health register heartbeat agents jobs job_result job states state capture admission_mode : Route
  elsewhere : Route

-- The pattern that ServeMux picks: the path itself, else the longest prefix that ends in a slash.
unfoldable pub route_of : String → Route
route_of path =
    if path == "/health"
    then health
    else if path == "/agent/register"
    then register
    else if path == "/agent/heartbeat"
    then heartbeat
    else if path == "/agents"
    then agents
    else if path == "/jobs"
    then jobs
    else if path == "/jobs/result"
    then job_result
    else if starts_with path "/jobs/"
    then job
    else if path == "/states"
    then states
    else if starts_with path "/states/"
    then state
    else if path == "/incident/capture"
    then capture
    else if path == "/admin/admission-mode"
    then admission_mode
    else elsewhere

-- Whether the route is behind AuthMiddleware.
unfoldable pub is_guarded : Route → Bool
is_guarded health = false
is_guarded admission_mode = false
is_guarded elsewhere = false
is_guarded _ = true

module _ {T B R : Type 0} (ops : StoreInterface T) (lib : RateLib B R) (json : Json)
    (tokens : TokenLib) (backend : Option (Backend T))
    (others : Request → Api T B → Option (Handled T B)) where
  -- The slice of the path's last ten bytes panics where it has fewer.
  state_route : ℕ → String → Request → Api T B → Option (Handled T B)
  unfolding with_idempotency handle_reconcile_state handle_get_state
  state_route now uuid r a =
      let reconciled =
        with_idempotency json backend now r (handle_reconcile_state ops lib json now uuid r) a in
      let read =
        if r.method == "GET"
        then some (handle_get_state ops lib json r a)
        else some (a, http_error "Not found" 404) in
      if r.method == "POST" && ltb 8 (length (bytes r.path))
      then (if ltb (length (bytes r.path)) 10
          then none
          else (if same_bytes (drop_bytes (length (bytes r.path) - 10) (bytes r.path))
                (bytes "/reconcile")
              then reconciled
              else read))
      else read

  -- The handlers behind AuthMiddleware.
  unfoldable pub guarded : ℕ → String → Route → Request → Api T B → Option (Handled T B)
  unfolding state_route
  guarded now uuid register r a = some (handle_register ops lib json now r a)
  guarded now uuid heartbeat r a = some (handle_heartbeat ops lib json now r a)
  guarded now uuid agents r a = some (handle_list_agents ops lib json r a)
  guarded now uuid jobs r a =
      if r.method == "GET"
      then some (handle_list_jobs ops json r a)
      else with_idempotency json backend now r (λ b. some (handle_submit_job ops json now uuid r b))
          a
  guarded now uuid job_result r a = some (handle_job_result ops json now r a)
  guarded now uuid job r a = some (handle_get_job ops json r a)
  guarded now uuid states r a =
      if r.method == "GET"
      then some (handle_list_states ops lib json r a)
      else with_idempotency json backend now r
          (λ b. some (handle_create_state ops lib json now uuid r b)) a
  guarded now uuid state r a = state_route now uuid r a
  guarded now uuid capture r a = some (handle_capture_incident ops lib json now r a)
  guarded now uuid _ r a = others r a

  checked : ℕ → String → Route → Api T B → Access tokens → Option (Handled T B)
  unfolding guarded
  checked now uuid route a (denied resp) = some (a, resp)
  checked now uuid route a (granted r) = guarded now uuid route r a

  routed : ℕ → ℕ → String → Route → Request → Api T B → Option (Handled T B)
  unfolding checked auth_middleware is_guarded
  routed now unix uuid health r a = some (a, plain 200 "ok")
  routed now unix uuid admission_mode r a = some (handle_set_admission_mode ops lib json r a)
  routed now unix uuid elsewhere r a = others r a
  routed now unix uuid route r a = checked now uuid route a (auth_middleware tokens unix r)

  unfoldable pub mux : ℕ → ℕ → String → Request → Api T B → Option (Handled T B)
  unfolding routed route_of
  mux now unix uuid r a = routed now unix uuid (route_of r.path) r a

  unfoldable pub cors : Option (Handled T B) → Option (Handled T B)
  cors none = none
  cors (some (a, resp)) = some (a, with_cors resp)

  -- A request to the server, with the clock in nanoseconds and in Unix seconds.
  unfoldable pub serve : ℕ → ℕ → String → Request → Api T B → Option (Handled T B)
  unfolding cors mux
  serve now unix uuid r a =
      let handled = cors (mux now unix uuid r a) in
      if r.method == "OPTIONS" then some (a, with_cors (plain 200 "")) else handled
