-- ===== src/Api/States/Missing.antt =====
-- control_plane/api.go on a store that brings no desired state.
use flux_forge.Base.{
  ℕ, String, not, Option, none, some, ◌≡◌, ◌≢◌, refl, ◌==◌, string_eq, arith, if_cases,
}
use Prim.{absurd}
use flux_forge.Limiter.{RateLib}
use flux_forge.Store.{DesiredState}
use flux_forge.Timeline.{Timeline}
use flux_forge.Api.{StoreInterface, Request, Api, Json, Handled, http_error}
use flux_forge.Api.Jobs.{path_part}
use flux_forge.Api.States.{
  capture_incident, with_state, state_found, get_tenant, handle_get_state, reconcile_found,
  reconcile_tenant, reconcile_limited, handle_reconcile_state, report_made, capture_tenant,
  handle_capture_incident,
}

-- A reconciliation is not accepted, and the scheduler is left alone.
abbrev pub NotQueued : {T B : Type 0} → Api T B → Option (Handled T B) → Type 0
NotQueued a none = Unit
NotQueued a (some (a', resp)) = (resp.status_code ≢ 202) × (a'.scheduler ≡ a.scheduler)

module _ {T B R : Type 0} (ops : StoreInterface T) (lib : RateLib B R) (json : Json)
    (missing : (t i : String) (s : T) → (ops.get_state t i s).1 ≡ none) where
  abbrev NotServed : ℕ → Handled T B → Type 0
  NotServed code handled = handled.1.status_code ≢ code

  found_none :
      (a : Api T B) (reply : T × Option DesiredState × Option String)
      → reply.1 ≡ none
      → NotServed 200 (state_found ops lib json a reply)
  unfolding state_found http_error
  found_none a (t, found, some e) h = λ served. ground (arith, served)
  found_none a (t, none, none) h = λ served. ground (arith, served)
  found_none a (t, some st, none) h = absurd (ground (arith, h))

  got_none :
      (id : String) (a : Api T B) (tenant : Option String)
      → NotServed 200 (get_tenant ops lib json id a tenant)
  unfolding get_tenant http_error
  got_none id a none = λ served. ground (arith, served)
  got_none id a (some t) = found_none a _ (missing t id a.store)

  pub get_state_missing :
      (r : Request) (a : Api T B) → NotServed 200 (handle_get_state ops lib json r a)
  unfolding handle_get_state http_error
  get_state_missing r a = path_missing (path_part 2 r)
    where
      path_missing :
          (part : Option String)
          → NotServed 200 (elim part [
            | none ↦ (a, http_error "Invalid state ID" 400)
            | some id ↦ get_tenant ops lib json id a r.tenant
          ])
      path_missing none = λ served. ground (arith, served)
      path_missing (some id) = got_none id a r.tenant

  reconcile_none :
      (now : ℕ) (uuid t id : String) (a : Api T B) (reply : T × Option DesiredState × Option String)
      → reply.1 ≡ none
      → NotQueued a (reconcile_found ops lib json now uuid t id a reply)
  unfolding reconcile_found http_error
  reconcile_none now uuid t id a (s, found, some e) h = ((λ served. ground (arith, served)), refl)
  reconcile_none now uuid t id a (s, none, none) h = ((λ served. ground (arith, served)), refl)
  reconcile_none now uuid t id a (s, some st, none) h = absurd (ground (arith, h))

  tenant_none :
      (now : ℕ) (uuid id : String) (a : Api T B) (tenant : Option String)
      → NotQueued a (reconcile_tenant ops lib json now uuid id a tenant)
  unfolding reconcile_tenant http_error
  tenant_none now uuid id a none = ((λ served. ground (arith, served)), refl)
  tenant_none now uuid id a (some t) = reconcile_none now uuid t id a _ (missing t id a.store)

  limited_none :
      (now : ℕ) (uuid : String) (r : Request) (a : Api T B) (id : Option String)
      → NotQueued a (reconcile_limited ops lib json now uuid r a id)
  unfolding reconcile_limited http_error
  limited_none now uuid r a none = ((λ served. ground (arith, served)), refl)
  limited_none now uuid r a (some id) =
      let (limiter, allowed) = lib.allow now a.reconcile_limiter in
      if_cases (NotQueued a) (not allowed) (λ refused. ((λ served. ground (arith, served)), refl))
        (λ let_on. tenant_none now uuid id (record a { reconcile_limiter = limiter }) r.tenant)

  pub reconcile_missing :
      (now : ℕ) (uuid : String) (r : Request) (a : Api T B)
      → NotQueued a (handle_reconcile_state ops lib json now uuid r a)
  unfolding handle_reconcile_state
  reconcile_missing now uuid r a = limited_none now uuid r a _

  captured_none :
      (now : ℕ) (timeline : Timeline) (id : String) (a : Api T B)
      (reply : T × Option DesiredState × Option String) (t : String)
      → reply.1 ≡ none
      → NotServed 200 (report_made ops lib json id a (with_state ops now timeline t id reply))
  unfolding report_made with_state http_error
  captured_none now timeline id a (s, found, some e) t h = λ served. ground (arith, served)
  captured_none now timeline id a (s, none, none) t h = λ served. ground (arith, served)
  captured_none now timeline id a (s, some st, none) t h = absurd (ground (arith, h))

  capture_none :
      (now : ℕ) (id : String) (a : Api T B) (tenant : Option String)
      → NotServed 200 (capture_tenant ops lib json now id a tenant)
  unfolding capture_tenant capture_incident http_error
  capture_none now id a none = λ served. ground (arith, served)
  capture_none now id a (some t) =
      captured_none now a.scheduler.timeline id a _ t (missing t id a.store)

  pub capture_missing :
      (now : ℕ) (r : Request) (a : Api T B)
      → NotServed 200 (handle_capture_incident ops lib json now r a)
  unfolding handle_capture_incident http_error
  capture_missing now r a =
      if_cases (NotServed 200) (not (r.method == "GET")) (λ other served. ground (arith, served))
        (λ get.
          if_cases (NotServed 200) (r.state_id_param == "")
            (λ unnamed served. ground (arith, served))
            (λ named. capture_none now r.state_id_param a r.tenant))
