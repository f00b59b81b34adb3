-- ===== src/Reconciler/Phases.antt =====
-- What the outcome of a reconciliation says about its phases.
use flux_forge.Base.{
  ℕ, String, true, false, Option, none, some, ◌≡◌, ◌≢◌, refl, ap, ◌∙◌, sym, arith, ◌==◌, nat_eq,
  string_eq, ==_iff, inl, inr, Bool-cases,
}
use flux_forge.Store.{Agent, DesiredState}
use flux_forge.Store.Memory.{MemoryStore, get_state, get_agent}
use flux_forge.Reconciler.{
  Reconciler, Surroundings, JobResult, Working, exited, job_error, check_failed, is_agent_busy,
  acquire_lock, locked_phases, reconcile_found, reconcile, execute_job, run_check, run_apply,
  run_final_check, check_phases, apply_phases, checked, applied, verified, update_status,
}

acquire_free :
    (node_id : String) (r : Reconciler)
    → is_agent_busy node_id r ≡ false
    → (acquire_lock node_id r).1 ≡ true
unfolding acquire_lock
acquire_free node_id r free = ground (arith, free)

-- A check that exits with the desired code asks for no apply and marks the state as compliant.
check_compliant :
    (around : Surroundings) (agent : Agent) (st : DesiredState) (s : MemoryStore)
    → (execute_job around 0 agent st.check_cmd s).1 ≡ exited st.desired_exit_code
    → ((run_check around agent (st, s)).1 ≡ false)
      × ((run_check around agent (st, s)).0.0.status ≡ "compliant")
unfolding run_check
check_compliant around agent st s ran = rw (ran, checked) (ground arith)

-- Where the run is not cancelled, the state and its agent are stored, the agent is free and the first check exits with the desired code: the state object is marked as compliant, and the reconciliation ends with the error of a failed check.
pub compliant_fails :
    (around : Surroundings) (tenant_id state_id : String) (r : Reconciler) (s : MemoryStore)
    (st : DesiredState) (agent : Agent)
    → around.cancelled_at 0 ≡ none
    → around.cancelled_at 1 ≡ none
    → get_state tenant_id state_id s ≡ some st
    → is_agent_busy st.node_id r ≡ false
    → get_agent st.tenant_id st.node_id s ≡ some agent
    → (execute_job around 0 agent st.check_cmd s).1 ≡ exited st.desired_exit_code
    → ((reconcile around tenant_id state_id r s).2 ≡ some check_failed)
      × ((run_check around agent (st, s)).0.0.status ≡ "compliant")
unfolding reconcile reconcile_found locked_phases check_phases
compliant_fails around tenant_id state_id r s st agent live₀ live₁ found free known ran =
    let (skips, marks) = check_compliant around agent st s ran in
    let got = acquire_free st.node_id r free in
    (ground (arith, live₀, live₁, found, got, known, skips), marks)

checked_needs :
    (now : ℕ) (result : JobResult) (w : Working)
    → (checked now result w).1 ≡ true
    → (code : ℕ) × (result ≡ exited code) × (code ≢ w.0.desired_exit_code)
unfolding checked
checked_needs now (job_error e) w h = absurd (cc h)
checked_needs now (exited code) (st, s) h = (code, refl, ground (arith, h))

verified_means :
    (now : ℕ) (result : JobResult) (w : Working)
    → ((verified now result w).0.status == "failed") ≡ false
    → result ≡ exited w.0.desired_exit_code
unfolding verified update_status
verified_means now (job_error e) w h = absurd (cc h)
verified_means now (exited code) (st, s) h = elim (Bool-cases (code == st.desired_exit_code)) [
  | inl e ↦ ap exited ((==_iff code st.desired_exit_code).0 e)
  | inr e ↦ absurd (cc (rw (e, verified) at h))
]

-- A phase changes neither the command of the check nor the desired code.
IsSameCheck : DesiredState → DesiredState → Type 0
IsSameCheck old new =
    (new.check_cmd ≡ old.check_cmd) × (new.desired_exit_code ≡ old.desired_exit_code)

checked-IsSameCheck :
    (now : ℕ) (result : JobResult) (w : Working) → IsSameCheck w.0 (checked now result w).0.0
unfolding checked update_status IsSameCheck
checked-IsSameCheck now (job_error e) w = (refl, refl)
checked-IsSameCheck now (exited code) (st, s) = ground arith

run_apply-IsSameCheck :
    (around : Surroundings) (r : Reconciler) (agent : Agent) (w : Working)
    → IsSameCheck w.0 (run_apply around r agent w).0.0
unfolding run_apply applied update_status IsSameCheck
run_apply-IsSameCheck around r agent w = ground arith

moved :
    (run : String → JobResult) (a b : String) (m n : ℕ)
    → a ≡ b
    → m ≡ n
    → run a ≡ exited m
    → run b ≡ exited n
moved run a b m n e g h = sym (ap run e) ∙ h ∙ ap exited g

-- The final check of a run without an error.
apply_means :
    (around : Surroundings) (r : Reconciler) (agent : Agent) (w : Working)
    → (apply_phases around r agent w).1 ≡ none
    → (s₂ : MemoryStore) × ((execute_job around 2 agent w.0.check_cmd s₂).1
        ≡ exited w.0.desired_exit_code)
unfolding apply_phases run_final_check IsSameCheck
apply_means around r agent w h =
    let w₁ = (run_apply around r agent w).0 in
    let (command, code) = run_apply-IsSameCheck around r agent w in
    let ok : ((run_final_check around agent w₁).0.status == "failed") ≡ false = ground (arith, h) in
    let ran =
      verified_means (around.clock 2) (execute_job around 2 agent w₁.0.check_cmd w₁.1).1
        (w₁.0, (execute_job around 2 agent w₁.0.check_cmd w₁.1).0) ok in
    (w₁.1, moved (λ cmd. (execute_job around 2 agent cmd w₁.1).1) _ _ _ _ command code ran)

check_means :
    (around : Surroundings) (r : Reconciler) (st : DesiredState) (s : MemoryStore)
    (found : Option Agent)
    → (check_phases around r (st, s) found).1 ≡ none
    → (agent : Agent) × (found ≡ some agent)
      × ((run_check around agent (st, s)).1 ≡ true)
      × ((apply_phases around r agent (run_check around agent (st, s)).0).1 ≡ none)
unfolding check_phases
check_means around r st s none h = absurd (cc h)
check_means around r st s (some agent) h = (agent, refl, ground (arith, h), ground (arith, h))

locked_means :
    (around : Surroundings) (r : Reconciler) (st : DesiredState) (s : MemoryStore)
    → (locked_phases around r (st, s)).1 ≡ none
    → (check_phases around r (st, s) (get_agent st.tenant_id st.node_id s)).1 ≡ none
unfolding locked_phases
locked_means around r st s h = ground (arith, h)

-- A reconciliation of a stored state with a free agent that returns no error found the agent, saw its check exit with another code than the desired one, and saw its final check exit with the desired code.
pub success_means :
    (around : Surroundings) (tenant_id state_id : String) (r r' : Reconciler) (s s' : MemoryStore)
    (st : DesiredState)
    → get_state tenant_id state_id s ≡ some st
    → is_agent_busy st.node_id r ≡ false
    → reconcile around tenant_id state_id r s ≡ (r', s', none)
    → (agent : Agent) × (get_agent st.tenant_id st.node_id s ≡ some agent)
      × ((code : ℕ) × ((execute_job around 0 agent st.check_cmd s).1 ≡ exited code)
          × (code ≢ st.desired_exit_code))
      × ((s₂ : MemoryStore) × ((execute_job around 2 agent st.check_cmd s₂).1
            ≡ exited st.desired_exit_code))
unfolding reconcile reconcile_found run_check IsSameCheck
success_means around tenant_id state_id r r' s s' st found free done =
    let got = acquire_free st.node_id r free in
    let r₁ = (acquire_lock st.node_id r).0 in
    let locked : (locked_phases around r₁ (st, s)).1 ≡ none = ground (arith, found, got, done) in
    let checks = locked_means around r₁ st s locked in
    let (agent, known, needed, rest) =
      check_means around r₁ st s (get_agent st.tenant_id st.node_id s) checks in
    let first =
      checked_needs (around.clock 0) (execute_job around 0 agent st.check_cmd s).1
        (st, (execute_job around 0 agent st.check_cmd s).0) needed in
    let (command, code) =
      checked-IsSameCheck (around.clock 0) (execute_job around 0 agent st.check_cmd s).1
        (st, (execute_job around 0 agent st.check_cmd s).0) in
    let (s₂, last) = apply_means around r₁ agent (run_check around agent (st, s)).0 rest in
    (
      agent,
      known,
      first,
      (s₂, moved (λ cmd. (execute_job around 2 agent cmd s₂).1) _ _ _ _ command code last),
    )
