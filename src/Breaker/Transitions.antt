-- ===== src/Breaker/Transitions.antt =====
-- The transition diagram of the circuit breaker, and its invariant over every history of calls.
use flux_forge.Base.{ℕ, ◌-◌, ◌≤◌, ◌<◌, ◌≡◌, List, [], ◌∷◌, arith}
use flux_forge.Breaker.{
  closed, half_open, open_circuit, Fraction, CircuitBreaker, new_circuit_breaker, should_admit,
  record_success, record_failure,
}

-- A call of one of the three operations that change the breaker.
pub data Call : Type 0 where
  admit : ℕ → Fraction → Call
  success failure : Call

unfoldable pub step : ℕ × Call → CircuitBreaker → CircuitBreaker
step (now, admit queue_depth saturation) cb = (should_admit queue_depth saturation now cb).0
step (now, success) cb = record_success cb
step (now, failure) cb = record_failure now cb

unfoldable pub run : List (ℕ × Call) → CircuitBreaker → CircuitBreaker
run [] cb = cb
run (c ∷ cs) cb = run cs (step c cb)

-- The edges of the diagram, with the conditions under which a call takes them.
pub data Edge (cb : CircuitBreaker) (now : ℕ) : CircuitBreaker → Type 0 where
  stay : {cb' : CircuitBreaker} → cb'.state ≡ cb.state → Edge cb now cb'
  trip :
      {cb' : CircuitBreaker}
      → cb.state ≡ closed
      → cb'.state ≡ open_circuit
      → cb'.opened_at ≡ now
      → Edge cb now cb'
  cool :
      {cb' : CircuitBreaker}
      → cb.state ≡ open_circuit
      → cb.cooldown_period < now - cb.opened_at
      → cb'.state ≡ half_open
      → cb'.test_count ≡ 1
      → Edge cb now cb'
  recover :
      {cb' : CircuitBreaker}
      → cb.state ≡ half_open
      → cb.test_limit ≤ cb.test_count
      → cb'.state ≡ closed
      → Edge cb now cb'
  relapse :
      {cb' : CircuitBreaker}
      → cb.state ≡ half_open
      → cb'.state ≡ open_circuit
      → cb'.opened_at ≡ now
      → Edge cb now cb'

-- What holds of a breaker between two calls.
pub record Inv (cb : CircuitBreaker) : Type 0 where
  pub tests_allowed : 0 < cb.test_limit
  pub tests_bounded : cb.test_count ≤ cb.test_limit
  pub probing : cb.state ≡ half_open → 0 < cb.test_count

ruleset edges = (stay, trip, cool, recover, relapse)

-- Every call takes an edge of the diagram: only a closed or half-open breaker opens, only an open one whose cooldown has passed goes half-open, with one probe admitted, and only a half-open one that has admitted all its probes closes.
pub step-Edge : (c : ℕ × Call) (cb : CircuitBreaker) → Inv cb → Edge cb c.0 (step c cb)
unfolding step should_admit record_success record_failure
step-Edge (now, admit depth saturation) cb v = grind (arith, edges)
step-Edge (now, success) cb v = grind (arith, edges)
step-Edge (now, failure) cb v = grind (arith, edges)

pub step-Inv : (c : ℕ × Call) (cb : CircuitBreaker) → Inv cb → Inv (step c cb)
unfolding step should_admit record_success record_failure
step-Inv (now, admit depth saturation) cb v = ground arith
step-Inv (now, success) cb v = ground arith
step-Inv (now, failure) cb v = ground arith

run-Inv_from : (cs : List (ℕ × Call)) (cb : CircuitBreaker) → Inv cb → Inv (run cs cb)
unfolding run
run-Inv_from [] cb v = v
run-Inv_from (c ∷ cs) cb v = run-Inv_from cs (step c cb) (step-Inv c cb v)

-- From a new breaker, any history of calls keeps the number of admitted probes within the limit of five, and a half-open breaker has admitted at least one.
pub run-Inv :
    (queue_threshold : ℕ) (cs : List (ℕ × Call))
    → Inv (run cs (new_circuit_breaker queue_threshold))
unfolding new_circuit_breaker
run-Inv n cs = run-Inv_from cs _ (ground arith)
