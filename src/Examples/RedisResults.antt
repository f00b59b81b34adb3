-- ===== src/Examples/RedisResults.antt =====
-- Idempotent executions on the server of Examples/Redis.
use flux_forge.Base.{
  ℕ, ◌+◌, ◌*◌, none, some, [], ◌≡◌, refl, ◌==◌, nat_eq, string_eq, if◌then◌else◌, arith,
}
use flux_forge.Base.Dict.{lookup, insert}
use flux_forge.Task.{second}
use flux_forge.Redis.{call, read, Reply, ok}
use flux_forge.Redis.Records.{Codec}
use flux_forge.Redis.Idempotency.{
  IdempotencyResult, failed, millisecond, get_idempotency_state, store_idempotency_result,
  execute_idempotent, wait_for_idempotency_result,
}
use flux_forge.Redis.Idempotency.Waiting.{wait_ends, IsTimely}
use flux_forge.Examples.Redis.{Memory, empty_memory, server}

abbrev done : IdempotencyResult
done = record { state = "RESULT"; status_code = 201; body = []; headers = []; created_at = 7 }

-- The JSON of the result, and of a lock.
abbrev codec : Codec IdempotencyResult
codec = record {
  marshal = λ r. "{}";
  unmarshal = λ t.
      if t == "{}"
      then some done
      else if t == "{LOCKED}"
      then some (record done { state = "LOCKED" })
      else none;
}

abbrev execute : Memory → Memory × Reply IdempotencyResult
execute s = (s, ok done)

-- The execution under a fresh key fails, and frees its lock.
fresh_fails :
    (execute_idempotent server codec execute 7 "job-1" empty_memory).1
    ≡ failed "failed to unmarshal"
unfolding execute_idempotent call read lookup insert get_idempotency_state
fresh_fails = refl

abbrev stored : Memory
stored = (store_idempotency_result server codec 7 "job-1" done (24 * second) empty_memory).0

-- The result comes in time for the third poll, at 300 milliseconds.
abbrev over_time : ℕ → Memory
over_time t =
    if t == 300 * millisecond
    then record empty_memory { texts = insert "idempotency:result:job-1" "{}" [] }
    else record empty_memory { texts = insert "idempotency:lock:job-1" "{LOCKED}" [] }

wait_ends_example :
    IsTimely server codec over_time "job-1" 0
      (0 + second + 2 * second)
      (wait_for_idempotency_result server codec over_time "job-1" second 11 0)
wait_ends_example = wait_ends server codec over_time "job-1" second 10 0 (omega arith)
