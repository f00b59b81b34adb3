-- ===== src/Scheduler.antt =====
-- control_plane/scheduler/scheduler.go: admission, dispatch and completion of tasks.
-- Each method is one step on the scheduler, with one clock reading; log lines and metrics are left
-- out. `none` is a panic of the runtime. Counters are natural numbers: Scheduler/Capacity has that
-- none of them is decremented at 0. The goroutine of a dispatched task is an entry of the list
-- `running` in Scheduler/World, where the timers of delayed tasks live too.
pub mod Dispatch
pub mod World
pub mod Framing
pub mod Admission
pub mod Sharding
pub mod Health
pub mod Capacity
pub mod Stopping
use Prim.Native.Nat.{bit_xor}
use flux_forge.Base.{
  ℕ, suc, ◌+◌, ◌-◌, ◌*◌, ◌%◌, ◌^◌, ◌<◌, String, Bool, true, false, not, ◌&&◌, ◌||◌, Option, none,
  some, List, [], ◌∷◌, ◌++◌, ◌==◌, nat_eq, string_eq, ltb, leb, if◌then◌else◌, length,
}
use flux_forge.Base.Dict.{Dict, lookup, insert}
use flux_forge.Base.Text.{bytes, decimal, ◌<>◌}
use flux_forge.Task.{
  ReconciliationTask, SchedulerMode, normal, degraded, read_only, draining, AdmissionMode,
  open_admission, drain, freeze, SchedulerConfig, NodeHealth, calculate_composite_score, second,
  minute, admission_mode_string, mode_string,
}
use flux_forge.Breaker.{CircuitBreaker, Fraction, new_circuit_breaker, should_admit, circuit_string}
use flux_forge.Limiter.{
  RateLib, TokenBucketLimiter, new_token_bucket_limiter, reserve_key, ensure_limiter,
}
use flux_forge.Queue.{TaskQueue}
use flux_forge.Queue
use flux_forge.Timeline.{Timeline, ReconcileEvent, record_event}
use flux_forge.Store.{DesiredState}

-- `queue_id` tells one queue object from the next: Stop puts a new one in.
pub record Scheduler (B : Type 0) : Type 0 where
  pub queue : TaskQueue
  pub queue_id : ℕ
  pub node_limiters : TokenBucketLimiter B
  pub tenant_limiters : TokenBucketLimiter B
  pub shard_index : ℕ
  pub shard_count : ℕ
  pub node_health : Dict String NodeHealth
  pub domain_failures : Dict String ℕ
  pub domain_tasks : Dict String ℕ
  pub active_tasks : ℕ
  pub timeline : Timeline
  pub mode : SchedulerMode
  pub admission_mode : AdmissionMode
  pub active : Bool
  pub circuit_breaker : CircuitBreaker
  pub config : SchedulerConfig
  pub max_concurrency : ℕ

pub data SubmitError : Type 0 where
  not_active frozen draining_admission : SubmitError
  circuit_open : ℕ → Fraction → SubmitError
  read_only_mode low_priority queue_full : SubmitError
  wrong_shard : String → ℕ → ℕ → SubmitError

-- 32-bit FNV-1.
unfoldable pub fnv_loop : ℕ → List ℕ → ℕ
fnv_loop h [] = h
fnv_loop h (b ∷ s) = fnv_loop (bit_xor (h * 16777619 % 2 ^ 32) b) s

unfoldable pub fnv_hash : String → ℕ
unfolding fnv_loop
fnv_hash s = fnv_loop 2166136261 (bytes s)

unfoldable pub shard_of : String → ℕ → ℕ
shard_of node_id shard_count = fnv_hash node_id % (shard_count % 2 ^ 32)

-- A missing key of a map of counters reads as 0.
abbrev pub count_at : String → Dict String ℕ → ℕ
count_at d m = elim (lookup d m) [ none ↦ 0 | some n ↦ n ]

abbrev pub is_empty : String → Bool
is_empty s = s == ""

module _ {B R : Type 0} (lib : RateLib B R) where
  unfoldable pub new_scheduler : ℕ → ℕ → SchedulerConfig → Scheduler B
  new_scheduler shard_index shard_count config = record {
    queue = [];
    queue_id = 0;
    node_limiters = new_token_bucket_limiter lib 5 1;
    tenant_limiters = new_token_bucket_limiter lib 50 10;
    shard_index = shard_index;
    shard_count = if ltb shard_count 1 then 1 else shard_count;
    node_health = [];
    domain_failures = [];
    domain_tasks = [];
    active_tasks = 0;
    timeline = [];
    mode = normal;
    admission_mode = open_admission;
    active = false;
    circuit_breaker = new_circuit_breaker config.circuit_breaker_threshold;
    config = config;
    max_concurrency = config.max_concurrency;
  }

-- Leadership, then the kill switch.
admission_error : Bool → AdmissionMode → Option SubmitError
admission_error false mode = some not_active
admission_error true open_admission = none
admission_error true drain = some draining_admission
admission_error true freeze = some frozen

mode_error : SchedulerMode → ℕ → Option SubmitError
mode_error normal priority = none
mode_error degraded priority = if ltb 5 priority then some low_priority else none
mode_error read_only priority = some read_only_mode
mode_error draining priority = some read_only_mode

abbrev pub is_canary : Option NodeHealth → Bool
is_canary none = false
is_canary (some health) = health.tier == "canary"

stamp : ℕ → ReconciliationTask → ReconciliationTask
stamp now task = record task {
  submit_time = if task.submit_time == 0 then now else task.submit_time;
  enqueued_at = now;
}

queued_event : ReconciliationTask → ReconcileEvent
queued_event task = record {
  req_id = task.req_id;
  stage = "QUEUED";
  timestamp = 0;
  node_id = task.node_id;
  tenant_id = task.tenant_id;
  metadata = some (("state_id", task.state_id) ∷ []);
}

rehydrated_task : ℕ → DesiredState → ReconciliationTask
rehydrated_task now st = record {
  req_id = "rehydrate-" <> st.state_id;
  node_id = st.node_id;
  tenant_id = st.tenant_id;
  priority = 5;
  deadline = 0;
  attempt = 0;
  failure_domain = "";
  state_id = st.state_id;
  submit_time = now;
  enqueued_at = 0;
}

-- What Submit leaves: the scheduler, the caller's task object, and the error.
abbrev pub Submitted : Type 0 → Type 0
Submitted B = Scheduler B × ReconciliationTask × Option SubmitError

module _ {B : Type 0} where
  unfoldable pub set_mode : SchedulerMode → Scheduler B → Scheduler B
  set_mode mode s = record s { mode = mode }

  unfoldable pub set_admission_mode : AdmissionMode → Scheduler B → Scheduler B
  set_admission_mode mode s = record s { admission_mode = mode }

  abbrev pub saturation : Scheduler B → Fraction
  saturation s = record { num = s.active_tasks; den = s.max_concurrency }

  abbrev pub is_foreign : String → Scheduler B → Bool
  is_foreign node_id s =
      ltb 1 s.shard_count && not (shard_of node_id s.shard_count == s.shard_index)

  accept : ℕ → ReconciliationTask → Scheduler B → Option (Submitted B)
  unfolding queued_event
  accept now task s = elim (Queue.push now task s.queue) [
    | none ↦ none
    | some queue ↦ some (
      record s { queue = queue; timeline = record_event now (queued_event task) s.timeline },
      task,
      none,
    )
  ]

  -- Behind the circuit breaker: modes, the full queue, the stamps and the shard.
  submit_admitted : ℕ → ReconciliationTask → Scheduler B → Option (Submitted B)
  unfolding mode_error stamp accept
  submit_admitted now task s = elim (mode_error s.mode task.priority) [
    | some e ↦ some (s, task, some e)
    | none ↦
        let stamped = stamp now task in
        if ltb 1000 (length s.queue) && ltb 0 task.priority
        then some (s, task, some queue_full)
        else if is_foreign task.node_id s
        then some (
          s,
          stamped,
          some (wrong_shard task.node_id (shard_of task.node_id s.shard_count) s.shard_index),
        )
        else accept now stamped s
  ]

  -- `!isCanary && !ShouldAdmit(…)`: a canary node's task does not reach the breaker.
  consult_breaker : ℕ → ReconciliationTask → Scheduler B → Scheduler B × Bool
  consult_breaker now task s =
      let (breaker, admitted) =
        should_admit (length s.queue) (saturation s) now s.circuit_breaker in
      if is_canary (lookup task.node_id s.node_health)
      then (s, true)
      else (record s { circuit_breaker = breaker }, admitted)

  unfoldable pub submit : ℕ → ReconciliationTask → Scheduler B → Option (Submitted B)
  unfolding admission_error consult_breaker submit_admitted
  submit now task s = elim (admission_error s.active s.admission_mode) [
    | some e ↦ some (s, task, some e)
    | none ↦
        let (s', admitted) = consult_breaker now task s in
        if admitted
        then submit_admitted now task s'
        else some (s', task, some (circuit_open (length s.queue) (saturation s)))
  ]

  -- Stop: the queue object is replaced by a new one.
  unfoldable pub stop : Scheduler B → Scheduler B
  stop s = record s { active = false; queue = []; queue_id = suc s.queue_id }

  -- The part of Start before its goroutines.
  unfoldable pub start : Scheduler B → Scheduler B
  start s = record s { active = true }

  -- The inner loop: a rejected task is logged and passed over.
  unfoldable pub submit_states : ℕ → List DesiredState → Scheduler B → Option (Scheduler B)
  unfolding rehydrated_task
  submit_states now [] s = some s
  submit_states now (st ∷ sts) s = elim (submit now (rehydrated_task now st) s) [
    | none ↦ none
    | some (s', _, _) ↦ submit_states now sts s'
  ]

  -- The outer loop over the statuses; a listing is `none` where the store fails.
  rehydrate_loop :
      ℕ
      → (String → ℕ → ℕ → Option (List DesiredState))
      → List String
      → Scheduler B
      → Option (Scheduler B × Option String)
  rehydrate_loop now list_states [] s = some (s, none)
  rehydrate_loop now list_states (status ∷ rest) s =
      elim (list_states status s.shard_index s.shard_count) [
        | none ↦ some (s, some status)
        | some sts ↦ elim (submit_states now sts s) [
          | none ↦ none
          | some s' ↦ rehydrate_loop now list_states rest s'
        ]
      ]

  -- The error, if any, names the status whose listing failed.
  unfoldable pub rehydrate_queue :
      ℕ
      → (String → ℕ → ℕ → Option (List DesiredState))
      → Scheduler B
      → Option (Scheduler B × Option String)
  unfolding rehydrate_loop
  rehydrate_queue now list_states s =
      rehydrate_loop now list_states ("pending" ∷ "drifted" ∷ []) (record s { active = true })
