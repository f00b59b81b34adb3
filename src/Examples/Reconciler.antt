-- ===== src/Examples/Reconciler.antt =====
-- A drifted state on one agent, which its apply command repairs.
use flux_forge.Base.{ℕ, zero, suc, String, none, some, ◌≡◌, ◌≢◌, refl, ap, string_eq}
use flux_forge.Base.Dict.{lookup, insert}
use flux_forge.Store.{Agent, DesiredState, tenant_key}
use flux_forge.Store.Memory.{
  MemoryStore, new_memory_store, upsert_agent, upsert_state, update_job_status, get_state,
  get_agent, get_job, create_job, update_state_status,
}
use flux_forge.Reconciler.{
  Surroundings, new_reconciler, is_agent_busy, execute_job, exited, check_failed, reconcile,
  run_check,
}
use flux_forge.Reconciler.Locks.{reconcile_restores_locks}
use flux_forge.Reconciler.Phases.{compliant_fails, success_means}

abbrev job_name : ℕ → String
job_name zero = "check"
job_name (suc zero) = "apply"
job_name _ = "verify"

-- The agent reports its exit code before the first look at the job.
abbrev agent_with : (ℕ → ℕ) → Surroundings
agent_with codes = record {
  job_id = job_name;
  clock = λ phase. 7;
  cancelled_at = λ look. none;
  until_tick = λ phase tick s.
      (update_job_status 8 "t" (job_name phase) "completed" (codes phase) "" "" s).0;
}

abbrev drifted : ℕ → ℕ
drifted zero = 1
drifted _ = 0

abbrev sound : ℕ → ℕ
sound _ = 0

abbrev worker : Agent
worker = record {
  node_id = "n";
  tenant_id = "t";
  ip_address = "10.0.0.1";
  status = "active";
  last_heartbeat = 1;
  created_at = 1;
  updated_at = 1;
  port = 9000;
  tier = "";
}

abbrev wanted : DesiredState
wanted = record {
  state_id = "s";
  node_id = "n";
  tenant_id = "t";
  check_cmd = "test -f x";
  apply_cmd = "touch x";
  desired_exit_code = 0;
  created_at = 1;
  updated_at = 1;
  version = 1;
  status = "pending";
  last_checked = 0;
  last_error = "";
}

abbrev start : MemoryStore
start = upsert_state "t" wanted (upsert_agent "t" worker new_memory_store)

wanted-found : get_state "t" "s" start ≡ some wanted
unfolding get_state upsert_state upsert_agent new_memory_store lookup insert tenant_key
wanted-found = refl

worker-found : get_agent "t" "n" start ≡ some worker
unfolding get_agent upsert_state upsert_agent new_memory_store lookup insert tenant_key
worker-found = refl

reconcile_restores_locks_example :
    is_agent_busy "n" (reconcile (agent_with drifted) "t" "s" new_reconciler start).0
    ≡ is_agent_busy "n" new_reconciler
reconcile_restores_locks_example =
    reconcile_restores_locks (agent_with drifted) "t" "s" "n" new_reconciler start

check_exits : (execute_job (agent_with sound) 0 worker "test -f x" start).1 ≡ exited 0
unfolding execute_job update_job_status upsert_state upsert_agent new_memory_store lookup insert
    get_job create_job tenant_key
check_exits = refl

compliant_fails_example :
    ((reconcile (agent_with sound) "t" "s" new_reconciler start).2 ≡ some check_failed)
    × ((run_check (agent_with sound) worker (wanted, start)).0.0.status ≡ "compliant")
unfolding is_agent_busy new_reconciler lookup
compliant_fails_example =
    compliant_fails (agent_with sound) "t" "s" new_reconciler start wanted worker refl refl
      wanted-found refl worker-found check_exits

repaired : (reconcile (agent_with drifted) "t" "s" new_reconciler start).2 ≡ none
unfolding reconcile execute_job update_job_status upsert_state upsert_agent new_memory_store lookup
    insert get_state tenant_key new_reconciler get_agent get_job create_job update_state_status
repaired = refl

success_means_example :
    (agent : Agent) × (get_agent "t" "n" start ≡ some agent)
    × ((code : ℕ) × ((execute_job (agent_with drifted) 0 agent "test -f x" start).1 ≡ exited code)
        × (code ≢ 0))
    × ((s₂ : MemoryStore) × ((execute_job (agent_with drifted) 2 agent "test -f x" s₂).1
          ≡ exited 0))
unfolding is_agent_busy new_reconciler lookup
success_means_example =
    let result = reconcile (agent_with drifted) "t" "s" new_reconciler start in
    success_means (agent_with drifted) "t" "s" new_reconciler result.0 start result.1 wanted
      wanted-found refl (ap (λ e. (result.0, result.1, e)) repaired)
