-- ===== src/Scheduler/World.antt =====
-- The scheduler with its goroutines and timers: what is waiting, what is running, and the steps by
-- which the API, the worker, the timers and the goroutines take turns.
use flux_forge.Base.{
  ℕ, zero, suc, ◌+◌, String, Option, none, some, List, [], ◌∷◌, ◌==◌, nat_eq, ltb, if◌then◌else◌,
  get_elem?,
}
use flux_forge.Task.{ReconciliationTask, SchedulerMode, AdmissionMode}
use flux_forge.Limiter.{RateLib}
use flux_forge.Queue
use flux_forge.Store.{DesiredState}
use flux_forge.Scheduler.{
  Scheduler, submit, set_mode, set_admission_mode, stop, start, rehydrate_queue,
}
use flux_forge.Scheduler.Dispatch.{
  Outcome, idle, dropped, delayed, dispatched, Completion, complete, update_node_health,
  process_next_task,
}

-- A timer of PushDelayed: it holds the queue object that was current when it was set.
pub record Timer : Type 0 where
  pub target : ℕ
  pub task : ReconciliationTask
  pub due : ℕ

pub record World (B : Type 0) : Type 0 where
  pub sched : Scheduler B
  pub timers : List Timer
  pub running : List ReconciliationTask

pub data Event : Type 0 where
  submits : ReconciliationTask → Event
  processes : Event
  fires : ℕ → Event
  completes : ℕ → Completion → Event
  updates_health : String → String → ℕ → String → Event
  sets_mode : SchedulerMode → Event
  sets_admission : AdmissionMode → Event
  rehydrates : (String → ℕ → ℕ → Option (List DesiredState)) → Event
  starts stops : Event

module _ {ℓ} {A : Type ℓ} where
  unfoldable pub remove_at : ℕ → List A → List A
  remove_at i [] = []
  remove_at zero (x ∷ xs) = xs
  remove_at (suc i) (x ∷ xs) = x ∷ remove_at i xs

module _ {B : Type 0} where
  -- A scheduler with nothing running.
  abbrev pub idle_world : Scheduler B → World B
  idle_world s = record { sched = s; timers = []; running = [] }

  unfoldable pub push_delayed : ℕ → ReconciliationTask → ℕ → World B → World B
  push_delayed now task wait w = record w {
    timers = record { target = w.sched.queue_id; task = task; due = now + wait } ∷ w.timers;
  }

  unfoldable pub after_outcome : ℕ → Outcome → World B → World B
  unfolding push_delayed
  after_outcome now idle w = w
  after_outcome now (dropped task) w = w
  after_outcome now (delayed task wait) w = push_delayed now task wait w
  after_outcome now (dispatched task) w = record w { running = task ∷ w.running }

  -- A due timer pushes into its own queue object; one that Stop has replaced is out of reach.
  fire : ℕ → ℕ → World B → Timer → Option (World B)
  fire now i w t =
      let rest = remove_at i w.timers in
      if ltb now t.due
      then some w
      else if t.target == w.sched.queue_id
      then elim (Queue.push now t.task w.sched.queue) [
        | none ↦ none
        | some q ↦ some (record w { sched = record w.sched { queue = q }; timers = rest })
      ]
      else some (record w { timers = rest })

  unfoldable pub fire_timer : ℕ → ℕ → World B → Option (World B)
  unfolding fire
  fire_timer now i w = elim (get_elem? w.timers i) [ none ↦ some w | some t ↦ fire now i w t ]

  unfoldable pub complete_task : ℕ → ℕ → Completion → World B → World B
  complete_task now i c w = elim (get_elem? w.running i) [
    | none ↦ w
    | some task ↦ record w { sched = complete now task c w.sched; running = remove_at i w.running }
  ]

  abbrev with_sched : World B → Scheduler B → World B
  with_sched w s = record w { sched = s }

module _ {B R : Type 0} (lib : RateLib B R) where
  unfoldable pub process : ℕ → World B → Option (World B)
  process now w = elim (process_next_task lib now w.sched) [
    | none ↦ none
    | some (s, outcome) ↦ some (after_outcome now outcome (with_sched w s))
  ]

  unfoldable pub step : ℕ × Event → World B → Option (World B)
  step (now, submits task) w = elim (submit now task w.sched) [
    | none ↦ none
    | some (s, _, _) ↦ some (with_sched w s)
  ]
  step (now, processes) w = process now w
  step (now, fires i) w = fire_timer now i w
  step (now, completes i c) w = some (complete_task now i c w)
  step (now, updates_health node_id signal score tier) w =
      some (with_sched w (update_node_health lib now node_id signal score tier w.sched))
  step (now, sets_mode m) w = some (with_sched w (set_mode m w.sched))
  step (now, sets_admission m) w = some (with_sched w (set_admission_mode m w.sched))
  step (now, rehydrates list_states) w = elim (rehydrate_queue now list_states w.sched) [
    | none ↦ none
    | some (s, _) ↦ some (with_sched w s)
  ]
  step (now, starts) w = some (with_sched w (start w.sched))
  step (now, stops) w = some (with_sched w (stop w.sched))

  unfoldable pub run : List (ℕ × Event) → World B → Option (World B)
  run [] w = some w
  run (e ∷ es) w = elim (step e w) [ none ↦ none | some w' ↦ run es w' ]
