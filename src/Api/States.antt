-- ===== src/Api/States.antt =====
-- control_plane/api.go: desired states and the capture of incidents, with control_plane/incident/capture.go.
-- `none` is a panic of the scheduler's queue.
pub mod Missing
use flux_forge.Base.{
  ℕ, suc, ◌+◌, String, Bool, true, false, not, Option, none, some, List, [], ◌∷◌, ◌++◌, ◌==◌,
  string_eq, if◌then◌else◌, keep_if,
}
use flux_forge.Base.Text.{◌<>◌}
use flux_forge.Limiter.{RateLib}
use flux_forge.Task.{ReconciliationTask, minute}
use flux_forge.Scheduler.{Scheduler, Submitted, submit}
use flux_forge.Store.{Agent, Job, DesiredState}
use flux_forge.Timeline.{Timeline, get_events_by_state_id}
use flux_forge.Api.{
  StoreInterface, Request, Response, Api, Json, IncidentReport, Started, reconciles, http_error,
  plain, json_response, rate_limit_error, method_not_allowed, unauthorized, internal_error, Handled,
}
use flux_forge.Api.Jobs.{path_part}

abbrev pub reconcile_task : ℕ → String → String → DesiredState → String → ReconciliationTask
reconcile_task now uuid tenant_id st state_id = record {
  req_id = uuid;
  node_id = st.node_id;
  tenant_id = tenant_id;
  priority = 5;
  deadline = now + minute;
  attempt = 0;
  failure_domain = "";
  state_id = state_id;
  submit_time = 0;
  enqueued_at = 0;
}

-- The report, nil, or an error.
pub data Captured : Type 0 where
  capture_failed : String → Captured
  state_missing : Captured
  captured : IncidentReport → Captured

module _ {T : Type 0} (ops : StoreInterface T) where
  with_jobs :
      ℕ
      → Timeline
      → String
      → DesiredState
      → Option Agent
      → T × List Job × Option String
      → T × Captured
  with_jobs now timeline state_id st agent (t, jobs, some e) = (t, capture_failed e)
  with_jobs now timeline state_id st agent (t, jobs, none) = (
    t,
    captured (record {
      state_id = state_id;
      desired_state = st;
      agent = agent;
      events = get_events_by_state_id state_id timeline;
      jobs = keep_if (λ j. j.state_id == state_id) jobs;
      captured_at = now;
    }),
  )

  with_agent :
      ℕ
      → Timeline
      → String
      → String
      → DesiredState
      → T × Option Agent × Option String
      → T × Captured
  unfolding with_jobs
  with_agent now timeline tenant_id state_id st (t, agent, some e) = (t, capture_failed e)
  with_agent now timeline tenant_id state_id st (t, agent, none) =
      with_jobs now timeline state_id st agent (ops.list_jobs tenant_id st.node_id 50 t)

  with_state :
      ℕ → Timeline → String → String → T × Option DesiredState × Option String → T × Captured
  unfolding with_agent
  with_state now timeline tenant_id state_id (t, found, some e) = (t, capture_failed e)
  with_state now timeline tenant_id state_id (t, none, none) = (t, state_missing)
  with_state now timeline tenant_id state_id (t, some st, none) =
      with_agent now timeline tenant_id state_id st (ops.get_agent tenant_id st.node_id t)

  unfoldable pub capture_incident : ℕ → Timeline → String → String → T → T × Captured
  unfolding with_state
  capture_incident now timeline tenant_id state_id t =
      with_state now timeline tenant_id state_id (ops.get_state tenant_id state_id t)

module _ {T B R : Type 0} (ops : StoreInterface T) (lib : RateLib B R) (json : Json) where
  state_created : String → Api T B → T × DesiredState × Option String → Handled T B
  state_created tenant_id a (t, st, some e) = (record a { store = t }, internal_error)
  state_created tenant_id a (t, st, none) = (
    record a { store = t; started = a.started ++ reconciles tenant_id st.state_id ∷ [] },
    json_response 201 (json.encode_state st),
  )

  create_tenant : ℕ → DesiredState → Api T B → Option String → Handled T B
  unfolding state_created
  create_tenant now st a none = (a, unauthorized)
  create_tenant now st a (some tenant_id) =
      let bound : DesiredState = record st { tenant_id = tenant_id } in
      state_created tenant_id a (ops.upsert_state now tenant_id bound a.store)

  create_decoded : ℕ → String → Request → Api T B → Option DesiredState → Handled T B
  unfolding create_tenant
  create_decoded now uuid r a none = (a, http_error "Invalid request body" 400)
  create_decoded now uuid r a (some st) =
      if st.node_id == ""
      then (a, http_error "node_id is required" 400)
      else create_tenant now
          (record st {
            state_id = if st.state_id == "" then uuid else st.state_id;
            created_at = now;
            status = "pending";
          })
          a r.tenant

  unfoldable pub handle_create_state : ℕ → String → Request → Api T B → Handled T B
  unfolding create_decoded
  handle_create_state now uuid r a =
      if not (r.method == "POST")
      then (a, method_not_allowed)
      else create_decoded now uuid r a (json.decode_state r.body)

  state_found : Api T B → T × Option DesiredState × Option String → Handled T B
  state_found a (t, found, some e) = (record a { store = t }, internal_error)
  state_found a (t, none, none) = (record a { store = t }, http_error "State not found" 404)
  state_found a (t, some st, none) =
      (record a { store = t }, json_response 200 (json.encode_state st))

  get_tenant : String → Api T B → Option String → Handled T B
  unfolding state_found
  get_tenant state_id a none = (a, unauthorized)
  get_tenant state_id a (some tenant_id) = state_found a (ops.get_state tenant_id state_id a.store)

  unfoldable pub handle_get_state : Request → Api T B → Handled T B
  unfolding get_tenant
  handle_get_state r a = elim (path_part 2 r) [
    | none ↦ (a, http_error "Invalid state ID" 400)
    | some state_id ↦ get_tenant state_id a r.tenant
  ]

  states_listed : Api T B → T × List DesiredState × Option String → Handled T B
  states_listed a (t, found, some e) = (record a { store = t }, internal_error)
  states_listed a (t, found, none) =
      (record a { store = t }, json_response 200 (json.encode_states found))

  list_tenant : Api T B → Option String → Handled T B
  unfolding states_listed
  list_tenant a none = (a, unauthorized)
  list_tenant a (some tenant_id) = states_listed a (ops.list_states tenant_id a.store)

  unfoldable pub handle_list_states : Request → Api T B → Handled T B
  unfolding list_tenant
  handle_list_states r a =
      if not (r.method == "GET") then (a, method_not_allowed) else list_tenant a r.tenant

  submitted : Api T B → Option (Submitted B) → Option (Handled T B)
  submitted a none = none
  submitted a (some (s, task, some e)) =
      some (record a { scheduler = s }, http_error "Service Overloaded" 503)
  submitted a (some (s, task, none)) = some (
    record a { scheduler = s },
    plain 202
        (json.encode_map (("status", "reconciliation_queued") ∷ ("task_id", task.req_id) ∷ [])),
  )

  reconcile_found :
      ℕ
      → String
      → String
      → String
      → Api T B
      → T × Option DesiredState × Option String
      → Option (Handled T B)
  unfolding submitted
  reconcile_found now uuid tenant_id state_id a (t, found, some e) =
      some (record a { store = t }, internal_error)
  reconcile_found now uuid tenant_id state_id a (t, none, none) =
      some (record a { store = t }, http_error "State not found" 404)
  reconcile_found now uuid tenant_id state_id a (t, some st, none) =
      submitted (record a { store = t })
        (submit now (reconcile_task now uuid tenant_id st state_id) a.scheduler)

  reconcile_tenant : ℕ → String → String → Api T B → Option String → Option (Handled T B)
  unfolding reconcile_found
  reconcile_tenant now uuid state_id a none = some (a, unauthorized)
  reconcile_tenant now uuid state_id a (some tenant_id) =
      reconcile_found now uuid tenant_id state_id a (ops.get_state tenant_id state_id a.store)

  reconcile_limited : ℕ → String → Request → Api T B → Option String → Option (Handled T B)
  unfolding reconcile_tenant
  reconcile_limited now uuid r a none = some (a, http_error "Invalid state ID" 400)
  reconcile_limited now uuid r a (some state_id) =
      let (limiter, allowed) = lib.allow now a.reconcile_limiter in
      let asked : Api T B = record a { reconcile_limiter = limiter } in
      if not allowed
      then some (asked, rate_limit_error)
      else reconcile_tenant now uuid state_id asked r.tenant

  unfoldable pub handle_reconcile_state : ℕ → String → Request → Api T B → Option (Handled T B)
  unfolding reconcile_limited
  handle_reconcile_state now uuid r a =
      reconcile_limited now uuid r a (elim (path_part 3 r) [ none ↦ none | some _ ↦ path_part 2 r ])

  report_made : String → Api T B → T × Captured → Handled T B
  report_made state_id a (t, capture_failed e) = (record a { store = t }, internal_error)
  report_made state_id a (t, state_missing) =
      (record a { store = t }, http_error "State not found" 404)
  report_made state_id a (t, captured report) = (
    record a { store = t },
    record {
      status_code = 200;
      headers =
          ("Content-Type", "application/json")
          ∷ ("Content-Disposition", "attachment; filename=incident-" <> state_id <> ".json")
          ∷ [];
      body = json.encode_report report;
    },
  )

  capture_tenant : ℕ → String → Api T B → Option String → Handled T B
  unfolding report_made capture_incident
  capture_tenant now state_id a none = (a, unauthorized)
  capture_tenant now state_id a (some tenant_id) =
      report_made state_id a
        (capture_incident ops now a.scheduler.timeline tenant_id state_id a.store)

  unfoldable pub handle_capture_incident : ℕ → Request → Api T B → Handled T B
  unfolding capture_tenant
  handle_capture_incident now r a =
      if not (r.method == "GET")
      then (a, method_not_allowed)
      else if r.state_id_param == ""
      then (a, http_error "state_id is required" 400)
      else capture_tenant now r.state_id_param a r.tenant
