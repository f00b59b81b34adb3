-- ===== src/Scheduler/Stopping.antt =====
-- After Stop: nothing of the old term reaches the queue or starts running.
use flux_forge.Base.{ℕ, suc, ◌≤◌, ◌<◌, ◌≡◌, false, List, [], nat_eq, length, All}
use flux_forge.Limiter.{RateLib}
use flux_forge.Queue
use flux_forge.Scheduler.World.{World, Timer, Event, rehydrates, starts}

-- The timers of a world hold only queue objects below `n`.
abbrev pub TimersBelow : ℕ → List Timer → Type 0
TimersBelow n = All (λ t. t.target < n)

-- Events other than those by which a node becomes leader again.
abbrev pub IsQuiet : ℕ × Event → Type 0
IsQuiet (now, starts) = ⊥
IsQuiet (now, rehydrates ls) = ⊥
IsQuiet (now, e) = Unit

module _ {B : Type 0} where
  -- The scheduler has stopped, and no timer holds its queue.
  pub record IsStopped (w : World B) : Type 0 where
    pub inactive : w.sched.active ≡ false
    pub drained : w.sched.queue ≡ []
    pub orphaned : TimersBelow w.sched.queue_id w.timers

  -- One quiet event: the world stays stopped and starts no task.
  abbrev StillStopped : World B → World B → Type 0
  StillStopped w w' = IsStopped w' × (length w'.running ≤ length w.running)

module _ {B R : Type 0} (lib : RateLib B R) where
  -- Every timer holds the current queue object or an older one.
  abbrev pub TimersKnown : World B → Type 0
  TimersKnown w = TimersBelow (suc w.sched.queue_id) w.timers
