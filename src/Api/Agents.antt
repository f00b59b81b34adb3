-- ===== src/Api/Agents.antt =====
-- control_plane/api.go: registration, heartbeats, the list of agents and the admission mode.
use flux_forge.Base.{
  ℕ, String, not, Option, none, some, List, [], ◌∷◌, ◌==◌, string_eq, if◌then◌else◌,
}
use flux_forge.Task.{AdmissionMode, open_admission, drain, freeze}
use flux_forge.Limiter.{RateLib}
use flux_forge.Scheduler.{set_admission_mode}
use flux_forge.Scheduler.Dispatch.{update_node_health}
use flux_forge.Store.{Agent}
use flux_forge.Api.{
  StoreInterface, Request, Api, Json, http_error, plain, json_response, rate_limit_error,
  method_not_allowed, unauthorized, internal_error, Handled, or_error,
}

unfoldable pub admission_of : String → Option AdmissionMode
admission_of mode =
    if mode == "normal"
    then some open_admission
    else if mode == "drain"
    then some drain
    else if mode == "freeze"
    then some freeze
    else none

module _ {T B R : Type 0} (ops : StoreInterface T) (lib : RateLib B R) (json : Json) where
  -- The health of a registered agent is perfect, 1.0.
  registered : ℕ → Agent → Api T B → T × Option String → Handled T B
  unfolding update_node_health
  registered now agent a (t, some e) = (record a { store = t }, internal_error)
  registered now agent a (t, none) = (
    record a {
      store = t;
      scheduler =
          update_node_health lib now agent.node_id "registration" 1000 agent.tier a.scheduler;
    },
    plain 200 (json.encode_map (("status", "registered") ∷ [])),
  )

  register_tenant : ℕ → Agent → Api T B → Option String → Handled T B
  unfolding registered
  register_tenant now agent a none = (a, unauthorized)
  register_tenant now agent a (some tenant_id) =
      let bound : Agent = record agent { tenant_id = tenant_id } in
      registered now bound a (ops.upsert_agent now tenant_id bound a.store)

  register_decoded : ℕ → Request → Api T B → Option Agent → Handled T B
  unfolding register_tenant
  register_decoded now r a none = (a, http_error "Invalid request body" 400)
  register_decoded now r a (some agent) =
      if agent.node_id == ""
      then (a, http_error "NodeID is required" 400)
      else register_tenant now
          (record agent {
            status = if agent.status == "" then "active" else agent.status;
            last_heartbeat = now;
          })
          a r.tenant

  unfoldable pub handle_register : ℕ → Request → Api T B → Handled T B
  unfolding register_decoded
  handle_register now r a =
      if not (r.method == "POST")
      then (a, method_not_allowed)
      else register_decoded now r a (json.decode_agent r.body)

  set_decoded : Api T B → Option String → Handled T B
  unfolding set_admission_mode
  set_decoded a none = (a, http_error "Invalid request body" 400)
  set_decoded a (some name) = elim (admission_of name) [
    | none ↦ (a, http_error "Invalid mode. Use: normal, drain, freeze" 400)
    | some mode ↦ (
      record a { scheduler = set_admission_mode mode a.scheduler },
      plain 200 (json.encode_map (("mode", name) ∷ ("status", "updated") ∷ [])),
    )
  ]

  unfoldable pub handle_set_admission_mode : Request → Api T B → Handled T B
  unfolding set_decoded
  handle_set_admission_mode r a =
      if not (r.method == "POST")
      then (a, method_not_allowed)
      else set_decoded a (json.decode_mode r.body)

  beat_tenant : ℕ → String → Api T B → Option String → Handled T B
  unfolding or_error
  beat_tenant now node_id a none = (a, unauthorized)
  beat_tenant now node_id a (some tenant_id) =
      or_error (plain 200 (json.encode_map (("status", "ok") ∷ []))) internal_error a
        (ops.update_agent_heartbeat tenant_id node_id now a.store)

  beat_decoded : ℕ → Request → Api T B → Option String → Handled T B
  unfolding beat_tenant
  beat_decoded now r a none = (a, http_error "Invalid request body" 400)
  beat_decoded now r a (some node_id) =
      if node_id == ""
      then (a, http_error "NodeID is required" 400)
      else beat_tenant now node_id a r.tenant

  -- The bucket is asked before anything else.
  unfoldable pub handle_heartbeat : ℕ → Request → Api T B → Handled T B
  unfolding beat_decoded
  handle_heartbeat now r a =
      let (limiter, allowed) = lib.allow now a.heartbeat_limiter in
      let asked : Api T B = record a { heartbeat_limiter = limiter } in
      if not allowed
      then (asked, rate_limit_error)
      else beat_decoded now r asked (json.decode_heartbeat r.body)

  agents_listed : Api T B → T × List Agent × Option String → Handled T B
  agents_listed a (t, found, some e) = (record a { store = t }, internal_error)
  agents_listed a (t, found, none) =
      (record a { store = t }, json_response 200 (json.encode_agents found))

  list_tenant : Api T B → Option String → Handled T B
  unfolding agents_listed
  list_tenant a none = (a, unauthorized)
  list_tenant a (some tenant_id) = agents_listed a (ops.list_agents tenant_id a.store)

  unfoldable pub handle_list_agents : Request → Api T B → Handled T B
  unfolding list_tenant
  handle_list_agents r a =
      if not (r.method == "GET") then (a, method_not_allowed) else list_tenant a r.tenant
