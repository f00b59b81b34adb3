-- ===== src/Scheduler/Capacity.antt =====
-- The concurrency limits over every history of the scheduler, its timers and its goroutines.
use flux_forge.Base.{
  ℕ, zero, suc, ◌+◌, ◌-◌, ◌≤◌, ◌<◌, ◌≡◌, refl, sym, String, true, false, none, some, List, [], ◌∷◌,
  ◌==◌, nat_eq, string_eq, if◌then◌else◌, length, get_elem?, arith, inl, inr, Option-cases,
  some_unique,
}
use flux_forge.Base.Dict.{Dict, lookup-insert}
use flux_forge.Task.{ReconciliationTask}
use flux_forge.Limiter.{RateLib}
use flux_forge.Queue
use flux_forge.Scheduler.{
  Scheduler, count_at, is_empty, submit, rehydrate_queue, set_mode, set_admission_mode, stop, start,
}
use flux_forge.Scheduler.Framing.{IsFramed, submit-IsFramed, rehydrate_queue-IsFramed}
use flux_forge.Scheduler.Dispatch.{
  Outcome, idle, dropped, delayed, dispatched, Completion, complete, update_node_health,
  process_next_task, route, increment, decrement,
}
use flux_forge.Scheduler.World.{
  World, Event, submits, processes, fires, completes, updates_health, sets_mode, sets_admission,
  rehydrates, starts, stops, remove_at, after_outcome, fire_timer, complete_task, process, step,
}

-- The tasks of a failure domain among the running ones.
abbrev pub occupancy : String → List ReconciliationTask → ℕ
occupancy d [] = 0
occupancy d (t ∷ ts) = let rest = occupancy d ts in if t.failure_domain == d then suc rest else rest

count_at-increment :
    (d e : String) (m : Dict String ℕ)
    → count_at d (increment e m) ≡ (if e == d then suc (count_at d m) else count_at d m)
count_at-increment d e m =
    ground (arith, lookup-insert e d (count_at e m + 1) m, string_eq.equals_iff e d)

count_at-decrement :
    (d e : String) (m : Dict String ℕ)
    → count_at d (decrement e m) ≡ (if e == d then count_at d m - 1 else count_at d m)
count_at-decrement d e m =
    ground (arith, lookup-insert e d (count_at e m - 1) m, string_eq.equals_iff e d)

occupancy-remove_at :
    (d : String) (i : ℕ) (ts : List ReconciliationTask) (t : ReconciliationTask)
    → get_elem? ts i ≡ some t
    → occupancy d ts ≡ (
        if t.failure_domain == d
        then suc (occupancy d (remove_at i ts))
        else occupancy d (remove_at i ts))
unfolding remove_at
occupancy-remove_at d i [] t e = cc
occupancy-remove_at d zero (x ∷ ts) t e = ground arith
occupancy-remove_at d (suc i) (x ∷ ts) t e = ground (arith, occupancy-remove_at d i ts t)

length-remove_at :
    (i : ℕ) (ts : List ReconciliationTask) (t : ReconciliationTask)
    → get_elem? ts i ≡ some t
    → length ts ≡ suc (length (remove_at i ts))
unfolding remove_at
length-remove_at i [] t e = cc
length-remove_at zero (x ∷ ts) t e = refl
length-remove_at (suc i) (x ∷ ts) t e = ground (arith, length-remove_at i ts t)

module _ {B : Type 0} where
  -- The counters agree with the running tasks, and both limits hold.
  pub record Inv (w : World B) : Type 0 where
    pub counted : w.sched.active_tasks ≡ length w.running
    pub budget : w.sched.active_tasks ≤ 100
    pub domains :
        (d : String) → is_empty d ≡ false → count_at d w.sched.domain_tasks ≡ occupancy d w.running
    pub capped : (d : String) → is_empty d ≡ false → occupancy d w.running ≤ 10

  Inv-of_IsFramed :
      (w : World B) (s' : Scheduler B) → IsFramed w.sched s' → Inv w → Inv (record w { sched = s' })
  Inv-of_IsFramed w s' f v = record {
    counted = omega arith;
    budget = omega arith;
    domains = λ d n. ground (arith, v.domains d n);
    capped = λ d n. v.capped d n;
  }

  complete_task-Inv :
      (now i : ℕ) (c : Completion) (w : World B) → Inv w → Inv (complete_task now i c w)
  unfolding complete_task complete
  complete_task-Inv now i c w v = elim (Option-cases (get_elem? w.running i)) [
    | inl e ↦ rw (e, complete_task) v
    | inr (t, e) ↦
        rw (e, complete_task)
          (record {
            counted = ground (arith, length-remove_at i w.running t e);
            budget = ground arith;
            domains = λ d n. ground (
              arith,
              v.domains d n,
              occupancy-remove_at d i w.running t e,
              count_at-decrement d t.failure_domain w.sched.domain_tasks,
              string_eq.equals_iff t.failure_domain d,
              string_eq.equals_iff t.failure_domain "",
              string_eq.equals_iff d "",
            );
            capped = λ d n. ground (arith, v.capped d n, occupancy-remove_at d i w.running t e);
          })
  ]

  fire_timer-Inv : (now i : ℕ) (w w' : World B) → fire_timer now i w ≡ some w' → Inv w → Inv w'
  unfolding fire_timer
  fire_timer-Inv now i w w' h v = ground arith

  -- What the outcome says of the counters.
  abbrev RouteSpec : ReconciliationTask → Scheduler B → Scheduler B → Outcome → Type 0
  RouteSpec task s s' idle = ⊥
  RouteSpec task s s' (dropped t) = IsFramed s s'
  RouteSpec task s s' (delayed t wait) = IsFramed s s'
  RouteSpec task s s' (dispatched t) =
      (t ≡ task)
      × (s.active_tasks < 100)
      × (s'.active_tasks ≡ s.active_tasks + 1)
      × (is_empty task.failure_domain ≡ false
          → (s'.domain_tasks ≡ increment task.failure_domain s.domain_tasks)
            × (count_at task.failure_domain s.domain_tasks < 10))
      × (is_empty task.failure_domain ≡ true → s'.domain_tasks ≡ s.domain_tasks)

  after_outcome-Inv :
      (now : ℕ) (task : ReconciliationTask) (w : World B) (s' : Scheduler B) (o : Outcome)
      → RouteSpec task w.sched s' o
      → Inv w
      → Inv (after_outcome now o (record w { sched = s' }))
  unfolding after_outcome
  after_outcome-Inv now task w s' idle r v = absurd r
  after_outcome-Inv now task w s' (dropped t) r v = Inv-of_IsFramed w s' r v
  after_outcome-Inv now task w s' (delayed t wait) r v = record {
    counted = omega arith;
    budget = omega arith;
    domains = λ d n. ground (arith, v.domains d n);
    capped = λ d n. v.capped d n;
  }
  after_outcome-Inv now task w s' (dispatched t) r v = record {
    counted = ground arith;
    budget = ground arith;
    domains = λ d n. ground (
      arith,
      v.domains d n,
      count_at-increment d task.failure_domain w.sched.domain_tasks,
      string_eq.equals_iff task.failure_domain d,
      string_eq.equals_iff task.failure_domain "",
      string_eq.equals_iff d "",
    );
    capped = λ d n. ground (
      arith,
      v.capped d n,
      v.domains d n,
      string_eq.equals_iff task.failure_domain d,
      string_eq.equals_iff task.failure_domain "",
      string_eq.equals_iff d "",
    );
  }

  settled :
      (w w' : World B) (s : Scheduler B)
      → some (record w { sched = s }) ≡ some w'
      → IsFramed w.sched s
      → Inv w
      → Inv w'
  settled w w' s h f v =
      some_unique Inv (some w') (record w { sched = s }) w' (sym h) refl (Inv-of_IsFramed w s f v)

module _ {B R : Type 0} (lib : RateLib B R) where
  route-RouteSpec :
      (now : ℕ) (task : ReconciliationTask) (s : Scheduler B)
      → RouteSpec task s (route lib now task s).0 (route lib now task s).1
  unfolding route
  route-RouteSpec now task s = ground arith

  process-Inv : (now : ℕ) (w w' : World B) → process lib now w ≡ some w' → Inv w → Inv w'
  unfolding process process_next_task after_outcome
  process-Inv now w w' h v = elim (Option-cases (Queue.pop now w.sched.queue)) [
    | inl e ↦ cc (rw (e, process, process_next_task) at h)
    | inr ((none, q), e) ↦
        settled w w' (record w.sched { queue = q }) (rw (e, process, process_next_task) at h)
          (record { same_active = refl; same_domains = refl; same_queue = refl }) v
    | inr ((some task, q), e) ↦
        let popped = record w.sched { queue = q } in
        some_unique Inv (process lib now w)
          (after_outcome now (route lib now task popped).1
            (record w { sched = (route lib now task popped).0 }))
          w' (rw (e, process, process_next_task)) h
          (after_outcome-Inv now task (record w { sched = popped }) (route lib now task popped).0
            (route lib now task popped).1 (route-RouteSpec now task popped)
            (Inv-of_IsFramed w popped
              (record { same_active = refl; same_domains = refl; same_queue = refl }) v))
  ]

  -- Whatever the API, the worker, the timers and the goroutines do next keeps the counters right and within their limits.
  pub step-Inv : (e : ℕ × Event) (w w' : World B) → step lib e w ≡ some w' → Inv w → Inv w'
  unfolding step update_node_health set_mode set_admission_mode start stop
  step-Inv (now, submits task) w w' h v = elim (Option-cases (submit now task w.sched)) [
    | inl e ↦ cc (rw (e, step) at h)
    | inr ((s, t, err), e) ↦
        some_unique Inv (step lib (now, submits task) w) (record w { sched = s }) w' (rw (e, step))
          h (Inv-of_IsFramed w s (submit-IsFramed now task w.sched s t err e) v)
  ]
  step-Inv (now, processes) w w' h v = process-Inv now w w' h v
  step-Inv (now, fires i) w w' h v = fire_timer-Inv now i w w' h v
  step-Inv (now, completes i c) w w' h v = ground (arith, complete_task-Inv now i c w v)
  step-Inv (now, rehydrates ls) w w' h v = elim (Option-cases (rehydrate_queue now ls w.sched)) [
    | inl e ↦ cc (rw (e, step) at h)
    | inr ((s, err), e) ↦
        some_unique Inv (step lib (now, rehydrates ls) w) (record w { sched = s }) w' (rw (e, step))
          h (Inv-of_IsFramed w s (rehydrate_queue-IsFramed now ls w.sched s err e) v)
  ]
  step-Inv (now, updates_health n g c t) w w' h v =
      settled w w' _ h (record { same_active = refl; same_domains = refl; same_queue = refl }) v
  step-Inv (now, sets_mode m) w w' h v =
      settled w w' _ h (record { same_active = refl; same_domains = refl; same_queue = refl }) v
  step-Inv (now, sets_admission m) w w' h v =
      settled w w' _ h (record { same_active = refl; same_domains = refl; same_queue = refl }) v
  step-Inv (now, starts) w w' h v =
      settled w w' _ h (record { same_active = refl; same_domains = refl; same_queue = refl }) v
  step-Inv (now, stops) w w' h v =
      some_unique Inv (some w') (record w { sched = stop w.sched }) w' (sym h) refl
        (record { counted = v.counted; budget = v.budget; domains = v.domains; capped = v.capped })
