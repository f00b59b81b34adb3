-- ===== src/Breaker/Recovery.antt =====
-- What an open breaker lets through, and how it recovers.
use flux_forge.Base.{
  ℕ, suc, ◌+◌, ◌-◌, ◌/◌, ◌≤◌, ◌<◌, ◌≡◌, refl, ◌∙◌, ◌≢◌, Bool, true, false, List, [], ◌∷◌, arith,
  All,
}
use flux_forge.Breaker.{
  CircuitState, closed, half_open, open_circuit, CircuitBreaker, should_admit, record_success,
  record_failure, frac_ltb,
}
use flux_forge.Breaker.Transitions.{Call, admit, success, failure, step, run}

-- How many requests a history of calls admits.
abbrev bit : Bool → ℕ
bit true = 1
bit false = 0

abbrev pub admits : ℕ × Call → CircuitBreaker → ℕ
admits (now, admit queue_depth saturation) cb = bit (should_admit queue_depth saturation now cb).1
admits (now, success) cb = 0
admits (now, failure) cb = 0

pub admitted : List (ℕ × Call) → CircuitBreaker → ℕ
admitted [] cb = 0
admitted (c ∷ cs) cb = admits c cb + admitted cs (step c cb)

record IsQuiet (since : ℕ) (cb cb' : CircuitBreaker) : Type 0 where
  still_open : cb'.state ≡ open_circuit
  later : since ≤ cb'.opened_at
  same_period : cb'.cooldown_period ≡ cb.cooldown_period

step-IsQuiet :
    (since : ℕ) (c : ℕ × Call) (cb : CircuitBreaker)
    → cb.state ≡ open_circuit
    → since ≤ cb.opened_at
    → since ≤ c.0
    → c.0 ≤ since + cb.cooldown_period
    → IsQuiet since cb (step c cb) × (admits c cb ≡ 0)
unfolding step should_admit record_success record_failure
step-IsQuiet since (now, admit depth saturation) cb o s l u = ground arith
step-IsQuiet since (now, success) cb o s l u = ground arith
step-IsQuiet since (now, failure) cb o s l u = ground arith

quiet_from :
    (since period : ℕ) (cs : List (ℕ × Call)) (cb : CircuitBreaker)
    → cb.state ≡ open_circuit
    → since ≤ cb.opened_at
    → cb.cooldown_period ≡ period
    → All (λ c. (since ≤ c.0) × (c.0 ≤ since + period)) cs
    → ((run cs cb).state ≡ open_circuit) × (admitted cs cb ≡ 0)
unfolding run admitted
quiet_from since period [] cb o s p a = (o, refl)
quiet_from since period (c ∷ cs) cb o s p a =
    let (q, none_admitted) = step-IsQuiet since c cb o s a.0.0 (rw p a.0.1) in
    let rest =
      quiet_from since period cs (step c cb) q.still_open q.later (q.same_period ∙ p) a.1 in
    (rest.0, omega arith)

-- Until its cooldown period is over an open breaker admits nothing and stays open, whatever calls come and whatever load they report.
pub open_rejects :
    (cs : List (ℕ × Call)) (cb : CircuitBreaker)
    → cb.state ≡ open_circuit
    → All (λ c. (cb.opened_at ≤ c.0) × (c.0 ≤ cb.opened_at + cb.cooldown_period)) cs
    → ((run cs cb).state ≡ open_circuit) × (admitted cs cb ≡ 0)
open_rejects cs cb o a = quiet_from cb.opened_at cb.cooldown_period cs cb o (omega arith) refl a

-- A request that comes while the load has not fallen to what closing requires.
abbrev pub IsBusy : CircuitBreaker → ℕ × Call → Type 0
IsBusy cb (now, admit queue_depth saturation) = cb.queue_threshold / 2 ≤ queue_depth
IsBusy cb _ = ⊥

-- The probes that are left before the breaker must see the load fall.
abbrev pub budget : CircuitState → CircuitBreaker → ℕ
budget closed cb = 0
budget half_open cb = cb.test_limit - cb.test_count
budget open_circuit cb = cb.test_limit

step_budget :
    (c : ℕ × Call) (cb : CircuitBreaker)
    → cb.state ≢ closed
    → IsBusy cb c
    → ((step c cb).state ≢ closed)
      × (admits c cb + budget (step c cb).state (step c cb) ≤ budget cb.state cb)
      × ((step c cb).queue_threshold ≡ cb.queue_threshold)
unfolding step should_admit
step_budget (now, admit depth saturation) cb n b = ground arith
step_budget (now, success) cb n b = absurd b
step_budget (now, failure) cb n b = absurd b

All-IsBusy :
    (cs : List (ℕ × Call)) (cb cb' : CircuitBreaker)
    → cb'.queue_threshold ≡ cb.queue_threshold
    → All (IsBusy cb) cs
    → All (IsBusy cb') cs
All-IsBusy [] cb cb' e a = tt
All-IsBusy ((now, admit depth saturation) ∷ cs) cb cb' e a =
    (omega arith, All-IsBusy cs cb cb' e a.1)
All-IsBusy ((now, success) ∷ cs) cb cb' e a = absurd a.0
All-IsBusy ((now, failure) ∷ cs) cb cb' e a = absurd a.0

-- While the queue stays at half the threshold or more, an open breaker, and a half-open one, never closes, and all the requests to come, over any number of cooldown periods, admit no more than the probes that are left: at most the test limit in all.
pub admitted-le-budget :
    (cs : List (ℕ × Call)) (cb : CircuitBreaker)
    → cb.state ≢ closed
    → All (IsBusy cb) cs
    → ((run cs cb).state ≢ closed) × (admitted cs cb ≤ budget cb.state cb)
unfolding run admitted
admitted-le-budget [] cb n a = (n, omega arith)
admitted-le-budget (c ∷ cs) cb n a =
    let (n', spent, same) = step_budget c cb n a.0 in
    let rest = admitted-le-budget cs (step c cb) n' (All-IsBusy cs cb (step c cb) same a.1) in
    (rest.0, omega arith)

-- A request that comes while queue depth and saturation are low enough for closing.
abbrev pub IsHealthy : CircuitBreaker → ℕ × Call → Type 0
IsHealthy cb (now, admit queue_depth saturation) =
    (queue_depth < cb.queue_threshold / 2) × (frac_ltb saturation cb.saturation_threshold ≡ true)
IsHealthy cb _ = ⊥

abbrev pub IsReady : CircuitState → CircuitBreaker → ℕ → Type 0
IsReady closed cb now = Unit
IsReady half_open cb now = Unit
IsReady open_circuit cb now = cb.cooldown_period < now - cb.opened_at

-- The requests that a recovering breaker still has to see, the one that closes it included.
abbrev pub to_go : CircuitState → CircuitBreaker → ℕ
to_go closed cb = 0
to_go half_open cb = suc (cb.test_limit - cb.test_count)
to_go open_circuit cb = suc cb.test_limit

record Recovers (cb cb' : CircuitBreaker) : Type 0 where
  not_open : cb'.state ≢ open_circuit
  nearer : to_go cb'.state cb' ≤ to_go cb.state cb - 1
  same_queue : cb'.queue_threshold ≡ cb.queue_threshold
  same_limit : cb'.test_limit ≡ cb.test_limit
  same_saturation : cb'.saturation_threshold ≡ cb.saturation_threshold

abbrev pub IsReadyFor : List (ℕ × Call) → CircuitBreaker → Type 0
IsReadyFor [] cb = Unit
IsReadyFor (c ∷ cs) cb = IsReady cb.state cb c.0
