-- ===== src/Examples/Queue.antt =====
-- The task queue at concrete tasks.
use flux_forge.Base.{ℕ, zero, suc, ◌<◌, ◌*◌, ◌≡◌, refl, false, some, [], ◌∷◌, arith, All}
use flux_forge.Task.{ReconciliationTask, second}
use flux_forge.Queue.Heap
use flux_forge.Queue.Heap.Order.{entry, parent}
use flux_forge.Queue.{TaskQueue, less, push, pop, int_eq, level}
use flux_forge.Queue.Priority.{IsOrdered, blank_task, push-IsOrdered, pop_most_urgent}

abbrev task : ℕ → ℕ → ℕ → ReconciliationTask
task priority submit_time deadline = record {
  req_id = "r";
  node_id = "n";
  tenant_id = "t";
  priority = priority;
  deadline = deadline;
  attempt = 0;
  failure_domain = "";
  state_id = "s";
  submit_time = submit_time;
  enqueued_at = 0;
}

-- TestQueueOrdering of scheduler_test.go, at a clock of 1000 seconds.
abbrev now : ℕ
now = 1000 * second

abbrev old_low : ReconciliationTask
old_low = task 10 (880 * second) 0

abbrev recent_high : ReconciliationTask
recent_high = task 0 (1000 * second) 0

abbrev recent_medium : ReconciliationTask
recent_medium = task 5 (1000 * second) 0

abbrev pair : TaskQueue
pair = recent_high ∷ recent_medium ∷ []

push_test : push now old_low pair ≡ some (old_low ∷ recent_medium ∷ recent_high ∷ [])
unfolding push Heap.push Heap.up Heap.less_at Heap.swap less int_eq level
push_test = refl

pop_test : pop now (old_low ∷ recent_medium ∷ recent_high ∷ []) ≡ some (some old_low, pair)
unfolding pop Heap.pop Heap.down Heap.smaller_child Heap.less_at Heap.swap less int_eq level
pop_test = refl

pair-edge :
    (k : ℕ)
    → 0 < k
    → k < 2
    → less now (entry (less now) blank_task pair k) (entry (less now) blank_task pair (parent k))
      ≡ false
unfolding less int_eq level
pair-edge zero p q = absurd (omega arith)
pair-edge (suc zero) p q = refl
pair-edge (suc (suc k)) p q = absurd (omega arith)

pair-IsOrdered : IsOrdered now pair
pair-IsOrdered = record { edge = pair-edge }

push-IsOrdered_example : (q : TaskQueue) × (push now old_low pair ≡ some q) × IsOrdered now q
push-IsOrdered_example = push-IsOrdered now old_low pair pair-IsOrdered

pop_most_urgent_example :
    (t : ReconciliationTask) × (rest : TaskQueue) × (pop now pair ≡ some (some t, rest))
    × All (λ other. less now other t ≡ false) pair
    × IsOrdered now rest
pop_most_urgent_example = pop_most_urgent now pair (omega arith) pair-IsOrdered
