-- ===== src/Examples/Shards.antt =====
-- Sharding and node health at concrete nodes.
use flux_forge.Base.{ℕ, ◌≡◌, ◌≢◌, refl, false, none, some, arith}
use flux_forge.Base.Dict.{lookup}
use flux_forge.Base.Text.{bytes}
use flux_forge.Breaker.{should_admit, new_circuit_breaker}
use flux_forge.Queue
use flux_forge.Queue.Heap
use flux_forge.Store.{DesiredState}
use flux_forge.Store.Memory.{MemoryStore, new_memory_store, upsert_state}
use flux_forge.Scheduler.{Scheduler, submit, start, new_scheduler, shard_of, is_foreign}
use flux_forge.Scheduler
use flux_forge.Scheduler.Admission.{queued_task}
use flux_forge.Scheduler.Dispatch.{route, updated_health, update_node_health, dropped}
use flux_forge.Scheduler.Sharding.{submit_one_shard}
use flux_forge.Scheduler.Health.{registration_quarantines}
use flux_forge.Examples.Scheduler.{one_per_second, config, job}

abbrev shard : ℕ → Scheduler ℕ
shard i = start (new_scheduler one_per_second i 2 config)

-- The node of `job` belongs to shard 0 of 2.
home_is : shard_of "n1" 2 ≡ 0
unfolding shard_of Scheduler.fnv_hash bytes
home_is = refl

mine : Scheduler ℕ
mine = elim (submit 7 job (shard 0)) [ none ↦ shard 0 | some (s, _, _) ↦ s ]

mine_eq : submit 7 job (shard 0) ≡ some (mine, queued_task 7 job, none)
unfolding mine submit start new_scheduler lookup should_admit new_circuit_breaker Queue.push
    Heap.push Heap.up shard_of Scheduler.fnv_hash bytes
mine_eq = refl

submit_one_shard_example : submit 9 job (shard 1) ≢ some (shard 1, job, none)
unfolding start new_scheduler
submit_one_shard_example =
    submit_one_shard 7 9 job (shard 0) (shard 1) mine (shard 1) (queued_task 7 job) job
      (omega arith) refl (omega arith) mine_eq

abbrev desired : DesiredState
desired = record {
  state_id = "s1";
  node_id = "n1";
  tenant_id = "t1";
  check_cmd = "check";
  apply_cmd = "apply";
  desired_exit_code = 0;
  created_at = 1;
  updated_at = 1;
  version = 1;
  status = "pending";
  last_checked = 0;
  last_error = "";
}

abbrev one_state : MemoryStore
one_state = upsert_state "t1" desired new_memory_store

-- handleRegister reports a score of 1.0.
abbrev registered : Scheduler ℕ
registered = update_node_health one_per_second 5 "n1" "registration" 1000 "standard" (shard 0)

registration_quarantines_example : route one_per_second 9 job registered ≡ (registered, dropped job)
unfolding start new_scheduler lookup
registration_quarantines_example =
    registration_quarantines one_per_second 5 9 "n1" "standard" 1000 job (shard 0) refl
      (omega arith) refl

released : (updated_health 5 "n1" "observed" 800 "" none).quarantined ≡ false
unfolding updated_health
released = refl
