-- ===== src/Examples/Scheduler.antt =====
-- The scheduler at concrete tasks, over a simple bucket.
use flux_forge.Base.{
  ℕ, ◌+◌, ◌-◌, ◌≡◌, refl, true, false, none, some, List, [], ◌∷◌, leb, if◌then◌else◌,
}
use flux_forge.Task.{ReconciliationTask, SchedulerConfig}
use flux_forge.Limiter.{RateLib}
use flux_forge.Base.Dict.{lookup}
use flux_forge.Breaker.{should_admit, new_circuit_breaker}
use flux_forge.Queue
use flux_forge.Queue.Heap
use flux_forge.Scheduler.World
use flux_forge.Scheduler.{Scheduler, SubmitError, submit, new_scheduler, start}
use flux_forge.Scheduler.Admission.{queued_task}
use flux_forge.Scheduler.World.{
  World, idle_world, Event, submits, processes, completes, stops, starts, run,
}

-- A bucket that is free from a time on; a reservation holds the bucket before it and the wait.
abbrev pub one_per_second : RateLib ℕ (ℕ × ℕ)
one_per_second = record {
  new_limiter = λ r b. 0;
  allow = λ now t. if leb t now then (now + 1_000_000_000, true) else (t, false);
  reserve = λ now t. (now + 1_000_000_000, (t, t - now));
  delay = λ now r. r.1;
  cancel = λ now r t. r.0;
}

abbrev pub config : SchedulerConfig
config = record {
  max_task_execution_time = 300;
  max_concurrency = 10;
  circuit_breaker_threshold = 1000;
}

abbrev fresh : Scheduler ℕ
fresh = new_scheduler one_per_second 0 1 config

abbrev leader : Scheduler ℕ
leader = start fresh

abbrev pub job : ReconciliationTask
job = record {
  req_id = "r1";
  node_id = "n1";
  tenant_id = "t1";
  priority = 5;
  deadline = 0;
  attempt = 0;
  failure_domain = "zone-a";
  state_id = "s1";
  submit_time = 0;
  enqueued_at = 0;
}

abbrev history : List (ℕ × Event)
history = (1, starts) ∷ (2, submits job) ∷ (3, processes) ∷ []

final : World ℕ
final = elim (run one_per_second history (idle_world fresh)) [
  | none ↦ idle_world fresh
  | some w ↦ w
]

later : World ℕ
later = elim (run one_per_second ((4, stops) ∷ (5, submits job) ∷ []) final) [
  | none ↦ final
  | some w ↦ w
]

after_submit : Scheduler ℕ
after_submit = elim (submit 7 job leader) [ none ↦ leader | some (s, _, _) ↦ s ]

after_submit_eq : submit 7 job leader ≡ some (after_submit, queued_task 7 job, none)
unfolding after_submit submit start new_scheduler lookup should_admit new_circuit_breaker Queue.push
    Heap.push Heap.up
after_submit_eq = refl

not_leading : submit 7 job fresh ≡ some (fresh, job, some SubmitError.not_active)
unfolding submit new_scheduler
not_leading = refl
