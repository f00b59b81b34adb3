-- ===== src/Redis/Idempotency/Waiting.antt =====
-- control_plane/store/redis_idempotency.go: how long WaitForIdempotencyResult takes.
use flux_forge.Base.{
  ℕ, zero, suc, ◌+◌, ◌*◌, ◌≤◌, ◌<◌, String, Option, none, some, ◌≡◌, ◌≢◌, ==_iff, if_cases, ltb→lt,
  refl, string_eq, ltb, arith,
}
use flux_forge.Task.{second}
use flux_forge.Redis.{RedisServer}
use flux_forge.Redis.Records.{Codec}
use flux_forge.Redis.Idempotency.{
  IdempotencyResult, Waited, millisecond, polled, ended, next_backoff, poll,
  wait_for_idempotency_result, get_idempotency_state,
}

module _ {S : Type 0} (redis : RedisServer S) (codec : Codec IdempotencyResult) where
  -- The wait has ended in time, with a result that Redis held then, or with an error.
  unfoldable pub IsTimely : (ℕ → S) → String → ℕ → ℕ → Option Waited → Type 0
  IsTimely server key now limit none = ⊥
  IsTimely server key now limit (some w) =
      (now ≤ w.ended_at)
      × (w.ended_at < limit)
      × (((r : IdempotencyResult)
            → w.result ≡ some r
            → (r.state ≡ "RESULT")
              × (get_idempotency_state redis codec key (server w.ended_at) ≡ (some r, none)))
          × (w.result ≡ none → w.err ≢ none))

  polled_result :
      (answer : Option IdempotencyResult × Option String) (result : Option IdempotencyResult)
      (err : Option String)
      → polled redis codec answer ≡ some (result, err)
      → ((r : IdempotencyResult)
          → result ≡ some r
          → (r.state ≡ "RESULT") × (answer ≡ (some r, none)))
        × (result ≡ none → err ≢ none)
  unfolding polled
  polled_result (o, some e) result err h = (λ r same. ground (arith, h), λ same. ground (arith, h))
  polled_result (none, none) result err h = (λ r same. ground (arith, h), λ same. ground (arith, h))
  polled_result (some s, none) result err h =
      (λ r same. ground (arith, h, ==_iff s.state "RESULT"), λ same. ground (arith, h))

  later-IsTimely :
      (server : ℕ → S) (key : String) (now later limit : ℕ) (w : Option Waited)
      → now ≤ later
      → IsTimely server key later limit w
      → IsTimely server key now limit w
  unfolding IsTimely
  later-IsTimely server key now later limit none up timely = timely
  later-IsTimely server key now later limit (some w) up (low, high, rest) =
      (omega (arith, low, up), high, rest)

  ended-IsTimely :
      (server : ℕ → S) (key : String) (now limit : ℕ) (later : Option Waited)
      (answer : Option (Option IdempotencyResult × Option String))
      → polled redis codec (get_idempotency_state redis codec key (server now)) ≡ answer
      → now < limit
      → IsTimely server key now limit later
      → IsTimely server key now limit (ended redis codec now later answer)
  unfolding ended IsTimely
  ended-IsTimely server key now limit later none p soon timely = timely
  ended-IsTimely server key now limit later (some (result, err)) p soon timely =
      (omega arith, soon, polled_result _ result err p)

  -- One round: the answer of the poll, the timeout, or a later round.
  round_ends :
      (server : ℕ → S) (key : String) (deadline now fuel backoff : ℕ)
      → now < deadline + 2 * second
      → (now < deadline
          → IsTimely server key now (deadline + 2 * second) (
              poll redis codec server key deadline fuel
                (now + backoff)
                (next_backoff redis codec backoff)))
      → IsTimely server key now
          (deadline + 2 * second)
          (poll redis codec server key deadline (suc fuel) now backoff)
  unfolding poll IsTimely
  round_ends server key deadline now fuel backoff soon later =
      if_cases (IsTimely server key now (deadline + 2 * second)) (ltb now deadline)
        (λ early.
          ended-IsTimely server key now (deadline + 2 * second) _ _ refl soon
            (later (ltb→lt now deadline early)))
        (λ late. (omega arith, soon, ((λ r h. ground arith), λ h e. ground arith)))

  backoff_low :
      (backoff : ℕ)
      → 100 * millisecond ≤ backoff
      → 100 * millisecond ≤ next_backoff redis codec backoff
  unfolding next_backoff
  backoff_low backoff low = ground arith

  backoff_high : (backoff : ℕ) → next_backoff redis codec backoff ≤ 2 * second
  unfolding next_backoff
  backoff_high backoff = ground arith

  poll_ends :
      (server : ℕ → S) (key : String) (deadline fuel now backoff : ℕ)
      → 100 * millisecond ≤ backoff
      → backoff ≤ 2 * second
      → now < deadline + 2 * second
      → deadline ≤ now + fuel * (100 * millisecond)
      → IsTimely server key now
          (deadline + 2 * second)
          (poll redis codec server key deadline (suc fuel) now backoff)
  unfolding IsTimely poll
  poll_ends server key deadline zero now backoff low high soon enough =
      round_ends server key deadline now zero backoff soon (λ early. omega (arith, early, enough))
  poll_ends server key deadline (suc fuel) now backoff low high soon enough =
      round_ends server key deadline now (suc fuel) backoff soon (λ early.
        later-IsTimely server key now (now + backoff) (deadline + 2 * second) _ (omega arith) (
          poll_ends server key deadline fuel (now + backoff) (next_backoff redis codec backoff)
            (backoff_low backoff low) (backoff_high backoff) (omega (arith, early, high))
            (omega (arith, enough, low))))

  -- A wait for a result ends: with fuel for one poll more than the tenths of a second of its timeout, it is over less than two seconds after its deadline, and either with an error or with a result that Redis held, in its state RESULT, when the wait ended.
  pub wait_ends :
      (server : ℕ → S) (key : String) (timeout fuel now : ℕ)
      → timeout ≤ fuel * (100 * millisecond)
      → IsTimely server key now
          (now + timeout + 2 * second)
          (wait_for_idempotency_result redis codec server key timeout (suc fuel) now)
  unfolding wait_for_idempotency_result
  wait_ends server key timeout fuel now enough =
      poll_ends server key (now + timeout) fuel now (100 * millisecond) (omega arith) (omega arith)
        (omega arith) (omega (arith, enough))
