-- ===== src/Scheduler/Admission.antt =====
-- When Submit accepts a task, and what it changes.
use flux_forge.Base.{
  ℕ, ◌≤◌, ◌≡◌, some_unique, ◌⊎◌, true, false, none, some, List, ◌∷◌, Perm, ◌==◌, nat_eq, string_eq,
  if◌then◌else◌, length, arith,
}
use flux_forge.Base.Dict.{lookup}
use flux_forge.Task.{
  ReconciliationTask, SchedulerMode, normal, degraded, read_only, draining, open_admission,
}
use flux_forge.Breaker.{should_admit}
use flux_forge.Queue
use flux_forge.Queue.Priority.{push_keeps_tasks}
use flux_forge.Timeline.{record_event}
use flux_forge.Scheduler.{
  Scheduler, Submitted, SubmitError, submit, stamp, queued_event, is_canary, saturation, is_foreign,
  consult_breaker,
}

-- The modes that let a task of this priority in.
abbrev pub ModeAllows : SchedulerMode → ℕ → Type 0
ModeAllows normal priority = Unit
ModeAllows degraded priority = priority ≤ 5
ModeAllows read_only priority = ⊥
ModeAllows draining priority = ⊥

-- The task that is queued: both times are set, an earlier submit time is kept.
abbrev pub queued_task : ℕ → ReconciliationTask → ReconciliationTask
queued_task now task = record task {
  submit_time = if task.submit_time == 0 then now else task.submit_time;
  enqueued_at = now;
}

module _ {B : Type 0} where
  -- The conditions of admission, read off the documentation of the modes and limits.
  pub record IsAdmissible (now : ℕ) (task : ReconciliationTask) (s : Scheduler B) : Type 0 where
    pub leading : s.active ≡ true
    pub unlocked : s.admission_mode ≡ open_admission
    pub circuit :
        (is_canary (lookup task.node_id s.node_health) ≡ true)
        ⊎ ((should_admit (length s.queue) (saturation s) now s.circuit_breaker).1 ≡ true)
    pub mode_allows : ModeAllows s.mode task.priority
    pub room : (length s.queue ≤ 1000) ⊎ (task.priority ≡ 0)
    pub mine : is_foreign task.node_id s ≡ false

  pushes :
      (now : ℕ) (task : ReconciliationTask) (s : Scheduler B)
      → (q : List ReconciliationTask) × (Queue.push now (stamp now task) s.queue ≡ some q)
        × Perm q (queued_task now task ∷ s.queue)
  unfolding stamp
  pushes now task s = push_keeps_tasks now (stamp now task) s.queue

  -- What an accepted task makes of the scheduler.
  admitted_with : ℕ → ReconciliationTask → Scheduler B → List ReconciliationTask → Scheduler B
  admitted_with now task s q = record (consult_breaker now task s).0 {
    queue = q;
    timeline = record_event now (queued_event (stamp now task)) s.timeline;
  }

  submit-some :
      (now : ℕ) (task : ReconciliationTask) (s : Scheduler B) (q : List ReconciliationTask)
      → IsAdmissible now task s
      → Queue.push now (stamp now task) s.queue ≡ some q
      → submit now task s ≡ some (admitted_with now task s q, queued_task now task, none)
  unfolding submit admitted_with
  submit-some now task s q v e = ground arith

  pub submit_needs :
      (now : ℕ) (task t : ReconciliationTask) (s s' : Scheduler B)
      → submit now task s ≡ some (s', t, none)
      → IsAdmissible now task s
  unfolding submit
  submit_needs now task t s s' h = ground arith

  -- A rejected task leaves the queue, the timeline, the node health and the modes as they were.
  pub submit_refused :
      (now : ℕ) (task t : ReconciliationTask) (s s' : Scheduler B) (e : SubmitError)
      → submit now task s ≡ some (s', t, some e)
      → (s'.queue ≡ s.queue)
        × (s'.timeline ≡ s.timeline)
        × (s'.node_health ≡ s.node_health)
        × (s'.mode ≡ s.mode)
        × (s'.admission_mode ≡ s.admission_mode)
        × (s'.active ≡ s.active)
  unfolding submit
  submit_refused now task t s s' e h = ground arith

  -- An accepted task enters the queue once, with both its times set, and no other task enters or leaves.
  pub accepted_task_queued :
      (now : ℕ) (task t : ReconciliationTask) (s s' : Scheduler B)
      → submit now task s ≡ some (s', t, none)
      → Perm s'.queue (queued_task now task ∷ s.queue)
  unfolding admitted_with pushes
  accepted_task_queued now task t s s' h =
      let (q, eq, p) = pushes now task s in
      some_unique (λ (w : Submitted B). Perm w.0.queue (queued_task now task ∷ s.queue))
        (submit now task s) (admitted_with now task s q, queued_task now task, none) (s', t, none)
        (submit-some now task s q (submit_needs now task t s s' h) eq) h p
