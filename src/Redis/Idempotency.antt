-- ===== src/Redis/Idempotency.antt =====
-- control_plane/store/redis_idempotency.go: idempotent execution in two phases, and the records of
-- redis.go. JSON of a result is a parameter. While a call waits, the server at a time is a parameter;
-- a poll takes no time but its sleep.
pub mod Fresh
pub mod Replay
pub mod Waiting
use flux_forge.Base.{
  ℕ, zero, suc, ◌+◌, ◌*◌, ◌<◌, String, Bool, true, false, Option, none, some, List, ◌==◌, string_eq,
  ltb, if◌then◌else◌,
}
use flux_forge.Base.Text.{◌<>◌}
use flux_forge.Task.{second}
use flux_forge.Redis.{RedisServer, Reply, ok, redis_error, call, read}
use flux_forge.Redis.Leases.{acquire_lock, release_lock}
use flux_forge.Redis.Records.{Codec}

pub record IdempotencyResult : Type 0 where
  pub state : String
  pub status_code : ℕ
  pub body : List ℕ
  pub headers : List (String × String)
  pub created_at : ℕ

abbrev pub result_key : String → String
result_key key = "idempotency:result:" <> key

abbrev pub lock_key : String → String
lock_key key = "idempotency:lock:" <> key

abbrev pub lock_ttl : ℕ
lock_ttl = 2 * (300 * second)

abbrev pub result_ttl : ℕ
result_ttl = 24 * (3600 * second)

abbrev pub millisecond : ℕ
millisecond = 1_000_000

-- What a call of ExecuteIdempotent comes to; `waits` is the call of WaitForIdempotencyResult that it
-- ends with.
pub data Outcome : Type 0 where
  answered : IdempotencyResult → Outcome
  failed : String → Outcome
  waits : Outcome

-- The end of a wait, with its time.
pub record Waited : Type 0 where
  pub ended_at : ℕ
  pub result : Option IdempotencyResult
  pub err : Option String

stored : {S : Type 0} → S × Reply Unit → S × Option String
stored (s, ok _) = (s, none)
stored (s, redis_error e) = (s, some e)

record_text : Reply (Option String) → Option String × Option String
record_text (ok none) = (none, some "not found")
record_text (ok (some v)) = (some v, none)
record_text (redis_error e) = (none, some e)

taken : {S : Type 0} → S × Reply Bool → S × Option String
taken (s, ok true) = (s, none)
taken (s, ok false) = (s, some "key exists")
taken (s, redis_error e) = (s, some e)

module _ {S : Type 0} (redis : RedisServer S) where
  unfoldable pub get_idempotency_record : String → S → Option String × Option String
  unfolding record_text
  get_idempotency_record key s = record_text (read redis (redis.get ("idempotency:" <> key)) s)

  unfoldable pub set_idempotency_record : String → String → ℕ → S → S × Option String
  unfolding stored
  set_idempotency_record key value ttl s =
      stored (call redis (λ x. (redis.set ("idempotency:" <> key) value ttl x, tt)) s)

  unfoldable pub set_idempotency_record_nx : String → String → ℕ → S → S × Option String
  unfolding taken
  set_idempotency_record_nx key value ttl s =
      taken (call redis (redis.set_nx ("idempotency:" <> key) value ttl) s)

  module _ (codec : Codec IdempotencyResult) where
    parsed : Option IdempotencyResult → Option IdempotencyResult × Option String
    parsed none = (none, some "failed to unmarshal")
    parsed (some r) = (some r, none)

    lock_state : Reply (Option String) → Option IdempotencyResult × Option String
    unfolding parsed
    lock_state (ok none) = (none, none)
    lock_state (redis_error e) = (none, some e)
    lock_state (ok (some text)) = parsed (codec.unmarshal text)

    result_state :
        Reply (Option String) → Reply (Option String) → Option IdempotencyResult × Option String
    unfolding parsed lock_state
    result_state (ok (some text)) lock = parsed (codec.unmarshal text)
    result_state (redis_error e) lock = (none, some e)
    result_state (ok none) lock = lock_state lock

    unfoldable pub get_idempotency_state : String → S → Option IdempotencyResult × Option String
    unfolding result_state
    get_idempotency_state key s =
        result_state (read redis (redis.get (result_key key)) s)
          (read redis (redis.get (lock_key key)) s)

    released : String → S × Option String → S × Option String
    unfolding release_lock
    released key (s, some e) = (s, some e)
    released key (s, none) = release_lock redis (lock_key key) key s

    unfoldable pub store_idempotency_result :
        ℕ → String → IdempotencyResult → ℕ → S → S × Option String
    unfolding stored released
    store_idempotency_result now key result ttl s =
        let data_text = codec.marshal (record result { state = "RESULT"; created_at = now }) in
        released key (stored (call redis (λ x. (redis.set (result_key key) data_text ttl x, tt)) s))

    module _ (execute : S → S × Reply IdempotencyResult) where
      -- Whether `execute` was called is the last component of a call's outcome.
      executed : ℕ → String → S × Reply IdempotencyResult → S × Outcome × Bool
      unfolding store_idempotency_result release_lock
      executed now key (s, redis_error e) =
          ((release_lock redis (lock_key key) key s).0, failed e, true)
      executed now key (s, ok result) = (
        (store_idempotency_result now key result result_ttl s).0,
        answered (record result { state = "RESULT"; created_at = now }),
        true,
      )

      checked_again : ℕ → String → S → Option IdempotencyResult × Option String → S × Outcome × Bool
      unfolding executed release_lock
      checked_again now key s (_, some e) =
          ((release_lock redis (lock_key key) key s).0, failed e, false)
      checked_again now key s (none, none) = executed now key (execute s)
      checked_again now key s (some existing, none) =
          let released = (release_lock redis (lock_key key) key s).0 in
          let run = executed now key (execute s) in
          if existing.state == "RESULT" then (released, answered existing, false) else run

      after_acquire : ℕ → String → S × Bool × Option String → S × Outcome × Bool
      unfolding checked_again get_idempotency_state
      after_acquire now key (s, acquired, some e) = (s, failed e, false)
      after_acquire now key (s, false, none) = (s, waits, false)
      after_acquire now key (s, true, none) = checked_again now key s (get_idempotency_state key s)

      checked : ℕ → String → S → Option IdempotencyResult × Option String → S × Outcome × Bool
      unfolding after_acquire acquire_lock
      checked now key s (_, some e) = (s, failed e, false)
      checked now key s (none, none) =
          after_acquire now key (acquire_lock redis (lock_key key) key lock_ttl s)
      checked now key s (some existing, none) =
          let fresh = after_acquire now key (acquire_lock redis (lock_key key) key lock_ttl s) in
          if existing.state == "RESULT"
          then (s, answered existing, false)
          else if existing.state == "LOCKED"
          then (s, waits, false)
          else fresh

      unfoldable pub execute_idempotent : ℕ → String → S → S × Outcome × Bool
      unfolding checked get_idempotency_state
      execute_idempotent now key s = checked now key s (get_idempotency_state key s)

    -- One poll: an answer, or none where the lock is still held.
    polled :
        Option IdempotencyResult × Option String → Option (Option IdempotencyResult × Option String)
    polled (_, some e) = some (none, some e)
    polled (none, none) = some (none, some "idempotency lock expired without result")
    polled (some state, none) = if state.state == "RESULT" then some (some state, none) else none

    ended : ℕ → Option Waited → Option (Option IdempotencyResult × Option String) → Option Waited
    ended now later none = later
    ended now later (some (result, err)) =
        some (record { ended_at = now; result = result; err = err })

    unfoldable pub next_backoff : ℕ → ℕ
    next_backoff backoff = if ltb (2 * second) (backoff * 2) then 2 * second else backoff * 2

    -- The loop, with the time at which it ends; `none` is out of fuel.
    unfoldable pub poll : (ℕ → S) → String → ℕ → ℕ → ℕ → ℕ → Option Waited
    unfolding polled ended get_idempotency_state next_backoff
    poll server key deadline zero now backoff = none
    poll server key deadline (suc fuel) now backoff =
        let later = poll server key deadline fuel (now + backoff) (next_backoff backoff) in
        if ltb now deadline
        then ended now later (polled (get_idempotency_state key (server now)))
        else some (record {
          ended_at = now;
          result = none;
          err = some "timeout waiting for idempotent request to complete";
        })

    unfoldable pub wait_for_idempotency_result : (ℕ → S) → String → ℕ → ℕ → ℕ → Option Waited
    unfolding poll
    wait_for_idempotency_result server key timeout fuel now =
        poll server key (now + timeout) fuel now (100 * millisecond)
