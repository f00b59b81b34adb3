-- ===== src/Queue/Priority.antt =====
-- The order of the tasks: aging, and what the queue promises at one moment.
use flux_forge.Base.{
  none, refl, ℕ, suc, ◌+◌, ◌-◌, ◌*◌, ◌<◌, ◌≤◌, ◌≡◌, true, false, some, [], ◌∷◌, Perm, arith, length,
  All, ◌⊎◌, inl, inr,
}
use flux_forge.Base.Int.{ℤ, pos, negsuc}
use flux_forge.Task.{ReconciliationTask}
use flux_forge.Queue.Heap.Order.{IsStrictWeak, IsHeap}
use flux_forge.Queue.Heap.Total.{push_total, pop_total}
use flux_forge.Queue.Heap.Extract.{push_ordered, pop_ordered}
use flux_forge.Queue.{TaskQueue, aging_unit, urgency, level, int_eq, less, push, pop}

-- `level now x` is at most `level now y`, through a shift of both.
abbrev up_part : ℤ → ℕ
up_part (pos n) = n
up_part (negsuc n) = 0

abbrev down_part : ℤ → ℕ
down_part (pos n) = 0
down_part (negsuc n) = suc n

abbrev LevelLe : ℤ → ℤ → Type 0
LevelLe a b = up_part a + down_part b ≤ up_part b + down_part a

level_mono :
    (now : ℕ) (x y : ReconciliationTask)
    → urgency x ≤ urgency y
    → LevelLe (level now x) (level now y)
unfolding level
level_mono now x y h = ground arith

int_eq_of_LevelLe : (a b : ℤ) → LevelLe a b → LevelLe b a → int_eq a b ≡ true
unfolding int_eq
int_eq_of_LevelLe a b h k = ground arith

LevelLe-of_int_eq : (a b : ℤ) → int_eq a b ≡ true → LevelLe a b × LevelLe b a
unfolding int_eq
LevelLe-of_int_eq a b h = ground arith

less_asym : (now : ℕ) (x y : ReconciliationTask) → less now x y ≡ true → less now y x ≡ false
unfolding less
less_asym now x y h = ground (
  arith,
  level_mono now x y,
  level_mono now y x,
  LevelLe-of_int_eq (level now x) (level now y),
  LevelLe-of_int_eq (level now y) (level now x),
  int_eq_of_LevelLe (level now x) (level now y),
  int_eq_of_LevelLe (level now y) (level now x),
)

less_trans :
    (now : ℕ) (x y z : ReconciliationTask)
    → less now y x ≡ false
    → less now z y ≡ false
    → less now z x ≡ false
unfolding less
less_trans now x y z h k = ground (
  arith,
  level_mono now x y,
  level_mono now y z,
  level_mono now z x,
  level_mono now x z,
  level_mono now z y,
  level_mono now y x,
  LevelLe-of_int_eq (level now y) (level now x),
  LevelLe-of_int_eq (level now z) (level now y),
  LevelLe-of_int_eq (level now z) (level now x),
  int_eq_of_LevelLe (level now y) (level now x),
  int_eq_of_LevelLe (level now z) (level now y),
  int_eq_of_LevelLe (level now z) (level now x),
)

pub less-IsStrictWeak : (now : ℕ) → IsStrictWeak (less now)
less-IsStrictWeak now = record { asym = less_asym now; trans = less_trans now }

abbrev pub blank_task : ReconciliationTask
blank_task = record {
  req_id = "";
  node_id = "";
  tenant_id = "";
  priority = 0;
  deadline = 0;
  attempt = 0;
  failure_domain = "";
  state_id = "";
  submit_time = 0;
  enqueued_at = 0;
}

-- The slice is in heap order, by the comparisons of one moment.
abbrev pub IsOrdered : ℕ → TaskQueue → Type 0
IsOrdered now q = IsHeap (less now) blank_task (length q) q

-- Push never panics, and the queue gains exactly the pushed task.
pub push_keeps_tasks :
    (now : ℕ) (task : ReconciliationTask) (q : TaskQueue)
    → (q' : TaskQueue) × (push now task q ≡ some q') × Perm q' (task ∷ q)
unfolding push
push_keeps_tasks now task q = push_total (less now) task q

-- A push into a queue that is in heap order at that moment leaves it in heap order.
pub push-IsOrdered :
    (now : ℕ) (task : ReconciliationTask) (q : TaskQueue)
    → IsOrdered now q
    → (q' : TaskQueue) × (push now task q ≡ some q') × IsOrdered now q'
unfolding push
push-IsOrdered now task q v = push_ordered (less now) blank_task (less-IsStrictWeak now) task q v

-- Pop never panics: it returns nil from the empty queue only, and else takes out exactly one task.
pub pop_keeps_tasks :
    (now : ℕ) (q : TaskQueue)
    → ((q ≡ []) × (pop now q ≡ some (none, [])))
      ⊎ ((task : ReconciliationTask) × (rest : TaskQueue) × (pop now q ≡ some (some task, rest))
          × Perm (task ∷ rest) q)
unfolding pop
pop_keeps_tasks now [] = inl (refl, refl)
pop_keeps_tasks now (t ∷ q) =
    let (x, rest, e, p) = pop_total (less now) (t ∷ q) (omega arith) in inr (x, rest, rw e, p)

-- From a queue that is not empty and in heap order at that moment, Pop returns a task that no task of the queue is more urgent than, and it leaves a queue in heap order.
pub pop_most_urgent :
    (now : ℕ) (q : TaskQueue)
    → 0 < length q
    → IsOrdered now q
    → (task : ReconciliationTask) × (rest : TaskQueue) × (pop now q ≡ some (some task, rest))
      × All (λ other. less now other task ≡ false) q
      × IsOrdered now rest
unfolding pop
pop_most_urgent now [] h v = absurd (omega arith)
pop_most_urgent now (t ∷ q) h v =
    let (x, rest, e, ordered, least) =
      pop_ordered (less now) blank_task (less-IsStrictWeak now) (t ∷ q) h v in
    (x, rest, rw e, least, ordered)

-- Aging: a task of priority p comes before every task that is submitted (p + 2) * 10 seconds or more after it, at every moment and whatever the other's priority and deadlines are.
pub aged_first :
    (now : ℕ) (x y : ReconciliationTask)
    → x.submit_time + (x.priority + 2) * aging_unit ≤ y.submit_time
    → less now x y ≡ true
unfolding less level int_eq urgency
aged_first now x y h = ground arith

-- The order is not stable in time: of two tasks whose urgencies are less than one aging unit apart, the more urgent comes first when the two stand on different levels and the one with the earlier deadline comes first once they stand on the same level.
pub less_drifts :
    (x y : ReconciliationTask)
    → urgency x < urgency y
    → urgency y < urgency x + aging_unit
    → aging_unit ≤ urgency y
    → y.deadline < x.deadline
    → (less (urgency y - aging_unit) x y ≡ true) × (less (urgency x) y x ≡ true)
unfolding less level int_eq
less_drifts x y a b c e = ground arith
