-- ===== src/Task.antt =====
-- control_plane/scheduler/types.go: tasks, modes, configuration and node health.
-- Times are nanoseconds since the zero time.Time, which is 0; durations are nanoseconds. A task's
-- Cost and TraceContext are left out: nothing of the control plane reads them.
use flux_forge.Base.{ℕ, ◌+◌, ◌*◌, String, Bool}

abbrev pub second : ℕ
second = 1_000_000_000

abbrev pub minute : ℕ
minute = 60 * second

pub record ReconciliationTask : Type 0 where
  pub req_id : String
  pub node_id : String
  pub tenant_id : String
  pub priority : ℕ
  pub deadline : ℕ
  pub attempt : ℕ
  pub failure_domain : String
  pub state_id : String
  pub submit_time : ℕ
  pub enqueued_at : ℕ

pub data SchedulerMode : Type 0 where
  normal degraded read_only draining : SchedulerMode

pub data AdmissionMode : Type 0 where
  open_admission drain freeze : AdmissionMode

pub record SchedulerConfig : Type 0 where
  pub max_task_execution_time : ℕ
  pub max_concurrency : ℕ
  pub circuit_breaker_threshold : ℕ

unfoldable pub default_scheduler_config : SchedulerConfig
default_scheduler_config = record {
  max_task_execution_time = 5 * minute;
  max_concurrency = 10;
  circuit_breaker_threshold = 1000;
}

unfoldable pub admission_mode_string : AdmissionMode → String
admission_mode_string open_admission = "Normal"
admission_mode_string drain = "Drain"
admission_mode_string freeze = "Freeze"

-- The value of the string type SchedulerMode.
unfoldable pub mode_string : SchedulerMode → String
mode_string normal = "NORMAL"
mode_string degraded = "DEGRADED"
mode_string read_only = "READ_ONLY"
mode_string draining = "DRAINING"

-- The three signals are in thousandths, the composite score in ten-thousandths.
pub record NodeHealth : Type 0 where
  pub node_id : String
  pub agent_reported_health : ℕ
  pub observed_failure_rate : ℕ
  pub external_probe_score : ℕ
  pub composite_score : ℕ
  pub quarantined : Bool
  pub backoff_duration : ℕ
  pub last_seen : ℕ
  pub tier : String

-- 0.2 * agent + 0.5 * observed + 0.3 * external.
unfoldable pub calculate_composite_score : NodeHealth → NodeHealth
calculate_composite_score n = record n {
  composite_score =
      2 * n.agent_reported_health + 5 * n.observed_failure_rate + 3 * n.external_probe_score;
}
