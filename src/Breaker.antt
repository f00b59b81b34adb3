-- ===== src/Breaker.antt =====
-- control_plane/scheduler/circuit_breaker.go: admission by queue depth and worker saturation.
-- A method returns the new breaker. The float64 saturation activeTasks / maxConcurrency is kept as
-- that fraction, and a comparison with a threshold is cross-multiplied; at a zero denominator the
-- products compare as Go's NaN (0 / 0) and +Inf do. One clock reading serves a whole call.
pub mod Transitions
pub mod Recovery
use flux_forge.Base.{
  ℕ, ◌+◌, ◌-◌, ◌*◌, ◌/◌, String, Bool, true, false, ◌&&◌, ◌||◌, ltb, leb, if◌then◌else◌,
}
use flux_forge.Task.{second}

pub data CircuitState : Type 0 where
  closed half_open open_circuit : CircuitState

-- num / den
pub record Fraction : Type 0 where
  pub num : ℕ
  pub den : ℕ

pub record CircuitBreaker : Type 0 where
  pub state : CircuitState
  pub queue_threshold : ℕ
  pub saturation_threshold : Fraction
  pub cooldown_period : ℕ
  pub opened_at : ℕ
  pub test_count : ℕ
  pub test_limit : ℕ

abbrev pub frac_ltb : Fraction → Fraction → Bool
frac_ltb a b = ltb (a.num * b.den) (b.num * a.den)

unfoldable pub circuit_string : CircuitState → String
circuit_string closed = "closed"
circuit_string half_open = "half_open"
circuit_string open_circuit = "open"

unfoldable pub new_circuit_breaker : ℕ → CircuitBreaker
new_circuit_breaker queue_threshold = record {
  state = closed;
  queue_threshold = queue_threshold;
  saturation_threshold = record { num = 95; den = 100 };
  cooldown_period = 30 * second;
  opened_at = 0;
  test_count = 0;
  test_limit = 5;
}

-- Open -> HalfOpen once the cooldown has passed.
cool_down : CircuitState → ℕ → CircuitBreaker → CircuitBreaker
cool_down open_circuit now cb =
    if ltb cb.cooldown_period (now - cb.opened_at)
    then record cb { state = half_open; test_count = 0 }
    else cb
cool_down _ now cb = cb

-- The half-open branch: test traffic, then closing if the load has fallen.
probe : ℕ → Fraction → CircuitBreaker → CircuitBreaker × Bool
probe queue_depth saturation cb =
    if ltb cb.test_count cb.test_limit
    then (record cb { test_count = cb.test_count + 1 }, true)
    else if ltb queue_depth (cb.queue_threshold / 2) && frac_ltb saturation cb.saturation_threshold
    then (record cb { state = closed }, true)
    else (cb, false)

abbrev pub is_closed : CircuitState → Bool
is_closed closed = true
is_closed _ = false

abbrev pub is_overloaded : ℕ → Fraction → CircuitBreaker → Bool
is_overloaded queue_depth saturation cb =
    ltb cb.queue_threshold queue_depth || frac_ltb cb.saturation_threshold saturation

admit_in : CircuitState → ℕ → Fraction → ℕ → CircuitBreaker → CircuitBreaker × Bool
unfolding probe
admit_in half_open queue_depth saturation now cb = probe queue_depth saturation cb
admit_in state queue_depth saturation now cb =
    if is_overloaded queue_depth saturation cb
    then (record cb { state = open_circuit; opened_at = now }, false)
    else (cb, is_closed state)

unfoldable pub should_admit : ℕ → Fraction → ℕ → CircuitBreaker → CircuitBreaker × Bool
unfolding cool_down admit_in
should_admit queue_depth saturation now cb =
    let cooled = cool_down cb.state now cb in
    admit_in cooled.state queue_depth saturation now cooled

close_after_tests : CircuitState → CircuitBreaker → CircuitBreaker
close_after_tests half_open cb =
    if leb cb.test_limit cb.test_count then record cb { state = closed } else cb
close_after_tests _ cb = cb

unfoldable pub record_success : CircuitBreaker → CircuitBreaker
unfolding close_after_tests
record_success cb = close_after_tests cb.state cb

reopen : CircuitState → ℕ → CircuitBreaker → CircuitBreaker
reopen half_open now cb = record cb { state = open_circuit; opened_at = now; test_count = 0 }
reopen _ now cb = cb

unfoldable pub record_failure : ℕ → CircuitBreaker → CircuitBreaker
unfolding reopen
record_failure now cb = reopen cb.state now cb
