-- ===== src/Api/Jobs.antt =====
-- control_plane/api.go: the jobs of agents, and control_plane/jobs.go, which sends one to its agent.
-- What becomes of the HTTP request to the agent is a parameter, and so is a fresh identifier.
pub mod Submission
use flux_forge.Base.{
  ℕ, suc, String, Bool, true, false, not, ◌||◌, Option, none, some, List, [], ◌∷◌, ◌++◌, ◌==◌,
  nat_eq, string_eq, if◌then◌else◌, get_elem?,
}
use flux_forge.Base.Text.{◌<>◌, decimal, split}
use flux_forge.Store.{Agent, Job}
use flux_forge.Api.{
  StoreInterface, Request, Response, Api, Json, JobReport, Started, dispatches, http_error, plain,
  json_response, method_not_allowed, unauthorized, internal_error, Handled, or_error,
}

-- How the delivery of a job goes: its context is done, a step before the reply fails, or the agent
-- replies with a status.
pub data Delivery : Type 0 where
  context_done : Delivery
  not_marshalled not_created not_contacted : String → Delivery
  agent_replied : ℕ → Delivery

-- The status and the stderr that a delivery leaves.
unfoldable pub delivery_status : Delivery → String × String
delivery_status context_done = ("failed", "dispatch cancelled: leadership lost")
delivery_status (not_marshalled e) = ("failed", "failed to marshal payload: " <> e)
delivery_status (not_created e) = ("failed", "failed to create request: " <> e)
delivery_status (not_contacted e) = ("failed", "failed to contact agent: " <> e)
delivery_status (agent_replied code) =
    if code == 202 then ("running", "") else ("failed", "agent returned status " <> decimal code)

-- The part i of the path between slashes.
abbrev pub path_part : ℕ → Request → Option String
path_part i r = get_elem? (split 47 r.path) i

module _ {T : Type 0} (ops : StoreInterface T) where
  -- An error of the update is passed over.
  unfoldable pub dispatch_job : ℕ → Delivery → Job → T → T
  unfolding delivery_status
  dispatch_job now delivery job t =
      let (status, stderr) = delivery_status delivery in
      (ops.update_job_status now job.tenant_id job.job_id status 0 "" stderr t).0

module _ {T B : Type 0} (ops : StoreInterface T) (json : Json) where
  created : Agent → Job → Api T B → T × Option String → Handled T B
  created agent job a (t, some e) = (record a { store = t }, http_error "Failed to create job" 500)
  created agent job a (t, none) = (
    record a { store = t; started = a.started ++ dispatches agent job ∷ [] },
    json_response 202 (json.encode_job job),
  )

  agent_found : ℕ → String → String → Job → Api T B → T × Option Agent × Option String → Handled T B
  unfolding created
  agent_found now uuid tenant_id job a (t, found, some e) =
      (record a { store = t }, http_error "Internal Server Error checking agent" 500)
  agent_found now uuid tenant_id job a (t, none, none) =
      (record a { store = t }, http_error "Agent not found" 404)
  agent_found now uuid tenant_id job a (t, some agent, none) =
      let queued : Job = record job { job_id = uuid; status = "queued"; created_at = now } in
      created agent queued a (ops.create_job tenant_id queued t)

  submit_tenant : ℕ → String → Job → Api T B → Option String → Handled T B
  unfolding agent_found
  submit_tenant now uuid job a none = (a, unauthorized)
  submit_tenant now uuid job a (some tenant_id) =
      agent_found now uuid tenant_id (record job { tenant_id = tenant_id }) a
        (ops.get_agent tenant_id job.node_id a.store)

  submit_decoded : ℕ → String → Request → Api T B → Option Job → Handled T B
  unfolding submit_tenant
  submit_decoded now uuid r a none = (a, http_error "Invalid request body" 400)
  submit_decoded now uuid r a (some job) =
      if job.node_id == "" || job.command == ""
      then (a, http_error "node_id and command are required" 400)
      else submit_tenant now uuid job a r.tenant

  unfoldable pub handle_submit_job : ℕ → String → Request → Api T B → Handled T B
  unfolding submit_decoded
  handle_submit_job now uuid r a =
      if not (r.method == "POST")
      then (a, method_not_allowed)
      else submit_decoded now uuid r a (json.decode_job r.body)

  job_found : Api T B → T × Option Job × Option String → Handled T B
  job_found a (t, found, some e) = (record a { store = t }, internal_error)
  job_found a (t, none, none) = (record a { store = t }, http_error "Job not found" 404)
  job_found a (t, some job, none) =
      (record a { store = t }, json_response 200 (json.encode_job job))

  get_tenant : String → Api T B → Option String → Handled T B
  unfolding job_found
  get_tenant job_id a none = (a, unauthorized)
  get_tenant job_id a (some tenant_id) = job_found a (ops.get_job tenant_id job_id a.store)

  unfoldable pub handle_get_job : Request → Api T B → Handled T B
  unfolding get_tenant
  handle_get_job r a =
      if not (r.method == "GET") then (a, method_not_allowed) else elim (path_part 2 r) [
        | none ↦ (a, http_error "Invalid job ID" 400)
        | some job_id ↦ get_tenant job_id a r.tenant
      ]

  jobs_listed : Api T B → T × List Job × Option String → Handled T B
  jobs_listed a (t, found, some e) = (record a { store = t }, internal_error)
  jobs_listed a (t, found, none) =
      (record a { store = t }, json_response 200 (json.encode_jobs found))

  list_tenant : Request → Api T B → Option String → Handled T B
  unfolding jobs_listed
  list_tenant r a none = (a, unauthorized)
  list_tenant r a (some tenant_id) =
      jobs_listed a (ops.list_jobs tenant_id r.node_id_param 50 a.store)

  unfoldable pub handle_list_jobs : Request → Api T B → Handled T B
  unfolding list_tenant
  handle_list_jobs r a =
      if not (r.method == "GET") then (a, method_not_allowed) else list_tenant r a r.tenant

  result_tenant : ℕ → JobReport → Api T B → Option String → Handled T B
  unfolding or_error
  result_tenant now report a none = (a, unauthorized)
  result_tenant now report a (some tenant_id) = or_error (plain 200 "") internal_error a (
      ops.update_job_status now tenant_id report.job_id report.status report.exit_code report.stdout
        report.stderr a.store)

  result_decoded : ℕ → Request → Api T B → Option JobReport → Handled T B
  unfolding result_tenant
  result_decoded now r a none = (a, http_error "Invalid request body" 400)
  result_decoded now r a (some report) = result_tenant now report a r.tenant

  unfoldable pub handle_job_result : ℕ → Request → Api T B → Handled T B
  unfolding result_decoded
  handle_job_result now r a =
      if not (r.method == "POST")
      then (a, method_not_allowed)
      else result_decoded now r a (json.decode_result r.body)
