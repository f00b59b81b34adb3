-- ===== src/Queue.antt =====
-- control_plane/scheduler/queue.go: the priority queue of tasks.
-- Priorities, submit times and the clock are combined in nanoseconds, exactly, where the source
-- divides float64 seconds; one clock reading serves all the comparisons of an operation.
pub mod Heap
pub mod Priority
use flux_forge.Base.{
  ℕ, ◌+◌, ◌-◌, ◌*◌, ◌/◌, Bool, true, false, Option, none, some, List, [], ◌∷◌, Comparable, ◌==◌,
  nat_eq, ltb, leb, if◌then◌else◌, length, get_elem?, ◌↔◌, ◌≡◌, arith,
}
use flux_forge.Base.Int.{ℤ, pos, negsuc, negate_ℕ}
use flux_forge.Task.{ReconciliationTask, second}
use Heap
use Heap.{◌>>=◌}

abbrev pub TaskQueue : Type 0
TaskQueue = List ReconciliationTask

-- Ten seconds of waiting are worth one step of priority.
abbrev pub aging_unit : ℕ
aging_unit = 10 * second

-- The effective priority is (urgency - now) / aging_unit, so a smaller urgency is more urgent.
unfoldable pub urgency : ReconciliationTask → ℕ
urgency t = t.priority * aging_unit + t.submit_time

-- int(effPri): Go's conversion rounds towards zero.
unfoldable pub level : ℕ → ReconciliationTask → ℤ
unfolding urgency
level now t =
    if leb now (urgency t)
    then pos ((urgency t - now) / aging_unit)
    else negate_ℕ ((now - urgency t) / aging_unit)

unfoldable pub int_eq : ℤ → ℤ → Bool
int_eq (pos m) (pos n) = m == n
int_eq (negsuc m) (negsuc n) = m == n
int_eq _ _ = false

unfoldable pub less : ℕ → ReconciliationTask → ReconciliationTask → Bool
less now x y =
    if int_eq (level now x) (level now y)
    then ltb x.deadline y.deadline
    else ltb (urgency x) (urgency y)

-- ThreadSafeQueue.Push
unfoldable pub push : ℕ → ReconciliationTask → TaskQueue → Option TaskQueue
push now task q = Heap.push (less now) task q

-- ThreadSafeQueue.Pop; the inner option is nil for an empty queue.
unfoldable pub pop : ℕ → TaskQueue → Option (Option ReconciliationTask × TaskQueue)
pop now [] = some (none, [])
pop now q = Heap.pop (less now) q >>= λ (task, rest). some (some task, rest)

unfoldable pub peek : TaskQueue → Option ReconciliationTask
peek [] = none
peek (task ∷ q) = some task

unfoldable pub len : TaskQueue → ℕ
len q = length q
