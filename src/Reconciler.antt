-- ===== src/Reconciler.antt =====
-- control_plane/reconciler.go over the in-memory store, which fails only where a status is updated.
-- What agents, the dispatcher (control_plane/jobs.go) and other goroutines do to the store between two
-- looks at a job is a parameter, one function for each tick of waitForJob. Cancellation is what the
-- three looks at the context see. Metrics, events and log lines are left out.
pub mod Locks
pub mod Phases
use flux_forge.Base.{
  ℕ, zero, suc, String, Bool, true, false, not, Option, none, some, [], ◌*◌, ◌==◌, nat_eq,
  string_eq, if◌then◌else◌,
}
use flux_forge.Base.Dict.{Dict, lookup, insert, delete}
use flux_forge.Base.Text.{◌<>◌, decimal}
use flux_forge.Task.{minute}
use flux_forge.Store.{Agent, Job, DesiredState}
use flux_forge.Store.Memory.{
  MemoryStore, get_state, get_agent, get_job, create_job, update_state_status,
}

pub record Reconciler : Type 0 where
  pub active_reconciles : Dict String Bool
  pub max_task_runtime : ℕ
  pub shadow_mode : Bool

unfoldable pub new_reconciler : Reconciler
new_reconciler = record {
  active_reconciles = [];
  max_task_runtime = 5 * minute;
  shadow_mode = false;
}

unfoldable pub set_shadow_mode : Bool → Reconciler → Reconciler
set_shadow_mode enabled r = record r { shadow_mode = enabled }

unfoldable pub set_max_task_runtime : ℕ → Reconciler → Reconciler
set_max_task_runtime d r = record r { max_task_runtime = d }

-- A missing key of the map reads as false.
unfoldable pub is_agent_busy : String → Reconciler → Bool
is_agent_busy node_id r = elim (lookup node_id r.active_reconciles) [ none ↦ false | some b ↦ b ]

unfoldable pub acquire_lock : String → Reconciler → Reconciler × Bool
unfolding is_agent_busy
acquire_lock node_id r =
    if is_agent_busy node_id r
    then (r, false)
    else (record r { active_reconciles = insert node_id true r.active_reconciles }, true)

unfoldable pub release_lock : String → Reconciler → Reconciler
release_lock node_id r = record r { active_reconciles = delete node_id r.active_reconciles }

pub data JobResult : Type 0 where
  exited : ℕ → JobResult
  job_error : String → JobResult

pub data ReconcileError : Type 0 where
  cancelled : String → ReconcileError
  state_not_found agent_not_found check_failed apply_failed final_check_failed : ReconcileError

-- What a reconciliation meets: the job identifiers that it draws, the clock, the looks at the context
-- and the changes that others make to the store until each tick of a phase.
pub record Surroundings : Type 0 where
  pub job_id : ℕ → String
  pub clock : ℕ → ℕ
  pub cancelled_at : ℕ → Option String
  pub until_tick : ℕ → ℕ → MemoryStore → MemoryStore

-- The state object of the reconciliation, with the store.
abbrev pub Working : Type 0
Working = DesiredState × MemoryStore

-- The local object changes even where the store refuses the update.
unfoldable pub update_status : String → String → Working → Working
update_status status last_error (st, s) =
    let st' : DesiredState = record st { status = status; last_error = last_error } in
    (
      st',
      (update_state_status st.tenant_id st.state_id status last_error st.last_checked st.version
          s).0,
    )

read_job : String → Option Job → JobResult → JobResult
read_job job_id none later = job_error ("job " <> job_id <> " lost")
read_job job_id (some job) later =
    if job.status == "completed"
    then exited job.exit_code
    else if job.status == "failed"
    then job_error ("job execution failed: " <> job.stderr)
    else later

is_final : Option Job → Bool
is_final none = true
is_final (some job) = if job.status == "completed" then true else job.status == "failed"

-- The ticker fires every half second and the timeout after thirty.
abbrev pub wait_ticks : ℕ
wait_ticks = 60

-- waitForJob, with the ticks that are left.
unfoldable pub wait_for_job :
    (ℕ → MemoryStore → MemoryStore) → ℕ → String → String → MemoryStore → MemoryStore × JobResult
unfolding read_job is_final
wait_for_job until zero tenant_id job_id s = (s, job_error ("timeout waiting for job " <> job_id))
wait_for_job until (suc ticks) tenant_id job_id s =
    let s' = until ticks s in
    let job = get_job tenant_id job_id s' in
    let (later, result) = wait_for_job until ticks tenant_id job_id s' in
    if is_final job then (s', read_job job_id job result) else (later, result)

-- executeJob of the given phase.
unfoldable pub execute_job :
    Surroundings → ℕ → Agent → String → MemoryStore → MemoryStore × JobResult
unfolding wait_for_job
execute_job around phase agent command s =
    let job_id = around.job_id phase in
    let job : Job = record {
      job_id = job_id;
      node_id = agent.node_id;
      tenant_id = agent.tenant_id;
      state_id = "";
      command = command;
      status = "queued";
      exit_code = 0;
      stdout = "";
      stderr = "";
      created_at = around.clock phase;
      started_at = none;
      finished_at = none;
    } in
    wait_for_job (around.until_tick phase) wait_ticks agent.tenant_id job_id
      (create_job agent.tenant_id job s)

checked : ℕ → JobResult → Working → Working × Bool
unfolding update_status
checked now (job_error e) w = (update_status "failed" ("check failed: " <> e) w, false)
checked now (exited code) (st, s) =
    let st' : DesiredState = record st { last_checked = now } in
    if code == st.desired_exit_code then (update_status "compliant" "" (st', s), false) else (
      update_status "drifted"
          ("exit code " <> decimal code <> " (expected " <> decimal st.desired_exit_code <> ")")
          (st', s),
      true,
    )

-- Whether an apply is needed.
unfoldable pub run_check : Surroundings → Agent → Working → Working × Bool
unfolding checked
run_check around agent (st, s) =
    let (s', result) = execute_job around 0 agent st.check_cmd s in
    checked (around.clock 0) result (st, s')

applied : JobResult → Working → Working × Bool
unfolding update_status
applied (job_error e) w = (update_status "failed" ("apply failed: " <> e) w, false)
applied (exited code) w = (w, true)

unfoldable pub run_apply : Surroundings → Reconciler → Agent → Working → Working × Bool
unfolding applied update_status
run_apply around r agent w =
    let (st, s) = update_status "applying" "" w in
    let (s', result) = execute_job around 1 agent st.apply_cmd s in
    if r.shadow_mode then ((st, s), true) else applied result (st, s')

verified : ℕ → JobResult → Working → Working
unfolding update_status
verified now (job_error e) w = update_status "failed" ("final check failed: " <> e) w
verified now (exited code) (st, s) =
    let st' : DesiredState = record st { last_checked = now } in
    if code == st.desired_exit_code
    then update_status "compliant" "" (st', s)
    else update_status "failed" ("drift persisted (exit code " <> decimal code <> ")") (st', s)

unfoldable pub run_final_check : Surroundings → Agent → Working → Working
unfolding verified
run_final_check around agent (st, s) =
    let (s', result) = execute_job around 2 agent st.check_cmd s in
    verified (around.clock 2) result (st, s')

apply_phases : Surroundings → Reconciler → Agent → Working → Working × Option ReconcileError
unfolding run_apply run_final_check
apply_phases around r agent w =
    let (w₁, applies) = run_apply around r agent w in
    let w₂ = run_final_check around agent w₁ in
    if not applies
    then (w₁, some apply_failed)
    else if w₂.0.status == "failed"
    then (w₂, some final_check_failed)
    else (w₂, none)

check_phases : Surroundings → Reconciler → Working → Option Agent → Working × Option ReconcileError
unfolding apply_phases run_check update_status
check_phases around r w none = (update_status "failed" "agent not found" w, some agent_not_found)
check_phases around r w (some agent) =
    let (w₁, needed) = run_check around agent w in
    if not needed then (w₁, some check_failed) else elim (around.cancelled_at 2) [
      | some e ↦ (w₁, some (cancelled e))
      | none ↦ apply_phases around r agent w₁
    ]

-- The part under the agent's lock.
unfoldable pub locked_phases : Surroundings → Reconciler → Working → Working × Option ReconcileError
unfolding check_phases
locked_phases around r (st, s) = elim (around.cancelled_at 1) [
  | some e ↦ ((st, s), some (cancelled e))
  | none ↦ check_phases around r (st, s) (get_agent st.tenant_id st.node_id s)
]

reconcile_found :
    Surroundings
    → Reconciler
    → MemoryStore
    → Option DesiredState
    → Reconciler × MemoryStore × Option ReconcileError
unfolding acquire_lock release_lock locked_phases
reconcile_found around r s none = (r, s, some state_not_found)
reconcile_found around r s (some st) =
    let (r', acquired) = acquire_lock st.node_id r in
    let ((_, s'), err) = locked_phases around r' (st, s) in
    if acquired then (release_lock st.node_id r', s', err) else (r, s, none)

-- reconcileWithContext
unfoldable pub reconcile :
    Surroundings
    → String
    → String
    → Reconciler
    → MemoryStore
    → Reconciler × MemoryStore × Option ReconcileError
unfolding reconcile_found
reconcile around tenant_id state_id r s = elim (around.cancelled_at 0) [
  | some e ↦ (r, s, some (cancelled e))
  | none ↦ reconcile_found around r s (get_state tenant_id state_id s)
]
