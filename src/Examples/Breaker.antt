-- ===== src/Examples/Breaker.antt =====
-- The circuit breaker at concrete loads.
use flux_forge.Base.{ℕ, ◌≡◌, refl, List, [], ◌∷◌}
use flux_forge.Breaker.{open_circuit, Fraction, CircuitBreaker, new_circuit_breaker, should_admit}
use flux_forge.Breaker.Transitions.{Call, admit}

abbrev idle_workers : Fraction
idle_workers = record { num = 1; den = 10 }

abbrev opened : CircuitBreaker
opened = record {
  state = open_circuit;
  queue_threshold = 10;
  saturation_threshold = record { num = 95; den = 100 };
  cooldown_period = 30;
  opened_at = 100;
  test_count = 0;
  test_limit = 2;
}

abbrev calm : List (ℕ × Call)
calm = (140, admit 0 idle_workers) ∷ (141, admit 1 idle_workers) ∷ (142, admit 2 idle_workers) ∷ []

abbrev busy : List (ℕ × Call)
busy = (140, admit 20 idle_workers) ∷ (141, admit 9 idle_workers) ∷ (142, admit 5 idle_workers) ∷ []

trips : (should_admit 11 idle_workers 7 (new_circuit_breaker 10)).0.state ≡ open_circuit
unfolding should_admit new_circuit_breaker
trips = refl
