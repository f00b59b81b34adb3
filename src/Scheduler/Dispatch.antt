-- ===== src/Scheduler/Dispatch.antt =====
-- scheduler.go, the worker's side: node health, processNextTask and the goroutine of a task.
use flux_forge.Base.{
  ℕ, ◌+◌, ◌-◌, ◌*◌, String, Bool, true, false, not, ◌&&◌, ◌||◌, Option, none, some, [], ◌∷◌, ◌==◌,
  nat_eq, string_eq, ltb, leb, if◌then◌else◌,
}
use flux_forge.Base.Dict.{Dict, lookup, insert}
use flux_forge.Base.Text.{decimal}
use flux_forge.Task.{
  ReconciliationTask, NodeHealth, calculate_composite_score, second, minute, mode_string,
  admission_mode_string,
}
use flux_forge.Breaker.{Fraction, circuit_string}
use flux_forge.Limiter.{RateLib, reserve_key, ensure_limiter}
use flux_forge.Queue
use flux_forge.Queue.{TaskQueue}
use flux_forge.Timeline.{Timeline, ReconcileEvent, record_event}
use flux_forge.Scheduler.{Scheduler, count_at, is_empty, saturation}

fresh_health : String → NodeHealth
fresh_health node_id = record {
  node_id = node_id;
  agent_reported_health = 0;
  observed_failure_rate = 0;
  external_probe_score = 0;
  composite_score = 0;
  quarantined = false;
  backoff_duration = 0;
  last_seen = 0;
  tier = "";
}

set_signal : String → ℕ → NodeHealth → NodeHealth
set_signal signal score h =
    if signal == "agent"
    then record h { agent_reported_health = score }
    else if signal == "observed"
    then record h { observed_failure_rate = score }
    else if signal == "external"
    then record h { external_probe_score = score }
    else if signal == "registration"
    then record h { agent_reported_health = score }
    else h

set_tier : String → NodeHealth → NodeHealth
set_tier tier h = if is_empty tier then h else record h { tier = tier }

-- The threshold is 0.4, here 4000 ten-thousandths.
judge : NodeHealth → NodeHealth
judge h =
    if ltb h.composite_score 4000
    then record h { quarantined = true; backoff_duration = 1 * minute }
    else record h { quarantined = false; backoff_duration = 0 }

or_fresh : String → Option NodeHealth → NodeHealth
or_fresh node_id none = fresh_health node_id
or_fresh node_id (some h) = h

-- The node's new health.
unfoldable pub updated_health : ℕ → String → String → ℕ → String → Option NodeHealth → NodeHealth
unfolding fresh_health set_signal set_tier judge or_fresh calculate_composite_score
updated_health now node_id signal score tier old =
    let seen = record (or_fresh node_id old) { last_seen = now } in
    judge (calculate_composite_score (set_tier tier (set_signal signal score seen)))

-- The outcome of processNextTask for the task that it popped.
pub data Outcome : Type 0 where
  idle : Outcome
  dropped : ReconciliationTask → Outcome
  delayed : ReconciliationTask → ℕ → Outcome
  dispatched : ReconciliationTask → Outcome

abbrev pub is_quarantined : Option NodeHealth → Bool
is_quarantined none = false
is_quarantined (some h) = h.quarantined

-- A failure domain with more than five failures runs one task at a time.
abbrev pub domain_limit : ℕ → ℕ
domain_limit failures = if ltb 5 failures then 1 else 10

abbrev pub increment : String → Dict String ℕ → Dict String ℕ
increment d m = insert d (count_at d m + 1) m

abbrev pub decrement : String → Dict String ℕ → Dict String ℕ
decrement d m = insert d (count_at d m - 1) m

-- How the goroutine of a task ends: skipped by the fence, with the reconciler's error or none, or
-- by a panic that is recovered.
pub data Completion : Type 0 where
  fenced : Completion
  reconciled : Option String → Completion
  panicked : Completion

-- `err != nil` in the deferred function: a recovered panic leaves err nil.
abbrev pub has_error : Completion → Bool
has_error fenced = true
has_error (reconciled none) = false
has_error (reconciled (some _)) = true
has_error panicked = false

-- The map of the event is written to after the event is recorded, and the record shares it.
finish_event : ReconciliationTask → Option String → ReconcileEvent
finish_event task err = record {
  req_id = task.req_id;
  stage = elim err [ none ↦ "FINISHED" | some _ ↦ "FAILED" ];
  timestamp = 0;
  node_id = task.node_id;
  tenant_id = task.tenant_id;
  metadata = some (attempt ∷ elim err [ none ↦ [] | some e ↦ ("error", e) ∷ [] ]);
}
  where
    attempt : String × String
    attempt = ("attempt_number", decimal task.attempt)

log_completion : ℕ → ReconciliationTask → Completion → Timeline → Timeline
unfolding finish_event
log_completion now task (reconciled err) events = record_event now (finish_event task err) events
log_completion now task _ events = events

pub record SchedulerMetrics : Type 0 where
  pub queue_depth : ℕ
  pub active_tasks : ℕ
  pub max_concurrency : ℕ
  pub worker_saturation : Fraction
  pub circuit_breaker_state : String
  pub admission_mode : String
  pub runtime_mode : String

module _ {B : Type 0} where
  -- The failure domain is saturated or throttled.
  abbrev pub domain_full : String → Scheduler B → Bool
  domain_full d s =
      not (is_empty d)
      && leb (domain_limit (count_at d s.domain_failures)) (count_at d s.domain_tasks)

  -- The global budget, and the start of the task's goroutine.
  dispatch : ReconciliationTask → Scheduler B → Scheduler B × Outcome
  dispatch task s = if leb 100 s.active_tasks then (s, delayed task second) else (
    record s {
      active_tasks = s.active_tasks + 1;
      domain_tasks =
          if is_empty task.failure_domain
          then s.domain_tasks
          else increment task.failure_domain s.domain_tasks;
    },
    dispatched task,
  )

  -- The goroutine's end: the timeline entry, then the deferred counters.
  unfoldable pub complete : ℕ → ReconciliationTask → Completion → Scheduler B → Scheduler B
  unfolding log_completion
  complete now task c s = record s {
    timeline = log_completion now task c s.timeline;
    active_tasks = s.active_tasks - 1;
    domain_tasks =
        if is_empty task.failure_domain
        then s.domain_tasks
        else decrement task.failure_domain s.domain_tasks;
    domain_failures =
        if is_empty task.failure_domain || not (has_error c)
        then s.domain_failures
        else increment task.failure_domain s.domain_failures;
  }

  unfoldable pub get_metrics : Scheduler B → SchedulerMetrics
  get_metrics s = record {
    queue_depth = Queue.len s.queue;
    active_tasks = s.active_tasks;
    max_concurrency = s.max_concurrency;
    worker_saturation = saturation s;
    circuit_breaker_state = circuit_string s.circuit_breaker.state;
    admission_mode = admission_mode_string s.admission_mode;
    runtime_mode = mode_string s.mode;
  }

module _ {B R : Type 0} (lib : RateLib B R) where
  unfoldable pub update_node_health : ℕ → String → String → ℕ → String → Scheduler B → Scheduler B
  update_node_health now node_id signal score tier s = record s {
    node_health =
        insert node_id (updated_health now node_id signal score tier (lookup node_id s.node_health))
          s.node_health;
    node_limiters = ensure_limiter lib node_id s.node_limiters;
  }

  -- The tenant's bucket, then the budget.
  admit_tenant : ℕ → ReconciliationTask → Scheduler B → Scheduler B × Outcome
  unfolding dispatch
  admit_tenant now task s =
      let (limiters, (allowed, wait)) = reserve_key lib now task.tenant_id s.tenant_limiters in
      let s' = record s { tenant_limiters = limiters } in
      if allowed then dispatch task s' else (s', delayed task wait)

  -- The node's bucket.
  admit_node : ℕ → ReconciliationTask → Scheduler B → Scheduler B × Outcome
  unfolding admit_tenant
  admit_node now task s =
      let (limiters, (allowed, wait)) = reserve_key lib now task.node_id s.node_limiters in
      let s' = record s { node_limiters = limiters } in
      if allowed then admit_tenant now task s' else (s', delayed task wait)

  -- What happens to a popped task.
  unfoldable pub route : ℕ → ReconciliationTask → Scheduler B → Scheduler B × Outcome
  unfolding admit_node
  route now task s =
      if is_quarantined (lookup task.node_id s.node_health)
      then (s, dropped task)
      else if domain_full task.failure_domain s
      then (s, delayed task (2 * second))
      else admit_node now task s

  unfoldable pub process_next_task : ℕ → Scheduler B → Option (Scheduler B × Outcome)
  process_next_task now s = elim (Queue.pop now s.queue) [
    | none ↦ none
    | some (none, q) ↦ some (record s { queue = q }, idle)
    | some (some task, q) ↦ some (route now task (record s { queue = q }))
  ]
