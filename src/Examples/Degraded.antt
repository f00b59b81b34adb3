-- ===== src/Examples/Degraded.antt =====
-- Degraded mode, on a Redis that stores every write that it is given.
use flux_forge.Base.{
  leb, if◌then◌else◌, ℕ, String, true, false, not, ◌&&◌, ◌+◌, ==_iff, Option, none, some, List, [],
  ◌∷◌, ◌≡◌, ◌≢◌, refl, ◌⊎◌, ◌==◌, nat_eq, string_eq, length, keep_if, All, arith, ==_ne, ◌≤◌, ◌<◌,
  ◌*◌,
}
use flux_forge.Base.Dict.{Dict, lookup, insert, delete, lookup-insert, lookup-insert_self}
use flux_forge.Base.Distinct.{IsDistinct}
use flux_forge.Task.{second}
use flux_forge.Degraded.{
  DegradedMode, get_pending_write_count, PendingWrite, new_degraded_mode, set_in_cache_with_ttl,
  make_cache_room, oldest_key, drop_oldest, make_pending_room,
}
use flux_forge.Degraded.Sync.{
  VersionedValue, VersionedRedisWriter, IsFaithful, ReconciliationError, reconcile_pending_writes,
  count_verdict, is_marked, mark,
}
use flux_forge.Degraded.Versions.{IsLanded, reconcile_complete, reconcile_failure}
use flux_forge.Degraded.Histories.{Call, redis_down, sets, gets, IsNamed, calls, calls_bounds}
use flux_forge.Degraded.Coordinator.{
  LeaderEpoch, ReconciliationCoordinator, reconcile_if_leader, leader_reconciles,
}

abbrev Redis : Type 0
Redis = Dict String (VersionedValue String)

abbrev reply :
    Redis → Option (VersionedValue String) → Redis × Option (VersionedValue String) × Option String
reply r none = (r, none, some "not found")
reply r (some v) = (r, some v, none)

abbrev version_of : Option (VersionedValue String) → ℕ
version_of none = 0
version_of (some v) = v.version

abbrev simple_redis : VersionedRedisWriter String Redis
simple_redis = record {
  get_versioned = λ k r. reply r (lookup k r);
  set_versioned = λ k v ttl r.
      if leb (version_of (lookup k r)) v.version
      then (insert k v r, none)
      else (r, some "version conflict");
}

abbrev stored : Redis → String → ℕ
stored r k = version_of (lookup k r)

simple_redis-IsFaithful : IsFaithful simple_redis stored
simple_redis-IsFaithful = record {
  asked = λ k j r. ground arith;
  found = λ k r r' v e g u. ground arith;
  wrote = λ k v ttl r r' g. ground (arith, lookup-insert_self k v r, g);
  refused = λ k v ttl r r' e g. ground (arith, g);
  others = λ k j v ttl r r' e g n. ground (arith, lookup-insert k j v r, ==_ne k j n, g);
}

abbrev history : List (ℕ × Call String)
history =
    (1 * second, redis_down)
    ∷ (2 * second, sets "a" "x" 60)
    ∷ (3 * second, sets "b" "y" 60)
    ∷ (4 * second, sets "a" "z" 60)
    ∷ (5 * second, gets "b")
    ∷ []

history-IsNamed : All IsNamed history
history-IsNamed = (tt, (named "a" refl, (named "b" refl, (named "a" refl, (tt, tt)))))
  where
    named : (s : String) → (s == "") ≡ false → s ≢ ""
    named s h e = cc (h, (==_iff s "").1 e)

calls_bounds_example :
    let d = (calls simple_redis history (new_degraded_mode, [])).0 in
    (d.cache_size ≡ length d.local_cache)
    × (length d.local_cache ≤ 10000)
    × (length d.pending_writes ≤ 10000)
    × (d.degraded_mode_active ≡ not (d.redis_available && d.db_available && d.nats_available))
calls_bounds_example = calls_bounds simple_redis history [] history-IsNamed

abbrev write : String → String → ℕ → ℕ → PendingWrite String
write key value timestamp version = record {
  key = key;
  value = value;
  timestamp = timestamp;
  ttl = 60;
  version = version;
  reconciled = false;
}

abbrev pub waiting : List (PendingWrite String) → DegradedMode String
waiting ws = record {
  redis_available = true;
  db_available = true;
  nats_available = true;
  local_cache = [];
  cache_size = 0;
  max_cache_size = 10000;
  pending_writes = ws;
  max_pending_writes = 10000;
  current_version = 3;
  degraded_mode_active = false;
  last_redis_check = 0;
  last_db_check = 0;
}

abbrev pub two_writes : DegradedMode String
two_writes = waiting (write "a" "x" 2 1 ∷ write "b" "y" 3 2 ∷ [])

-- Redis has a newer value under b.
abbrev newer_b : Redis
newer_b = ("b", record { value = "new"; version = 7; timestamp = 9 }) ∷ []

abbrev synced : Redis
synced =
    ("b", record { value = "new"; version = 7; timestamp = 9 })
    ∷ ("a", record { value = "x"; version = 1; timestamp = 2 })
    ∷ []

two_writes-synced :
    reconcile_pending_writes simple_redis (10 * second) two_writes newer_b
    ≡ (waiting [], synced, none)
unfolding reconcile_pending_writes lookup insert keep_if count_verdict is_marked mark
two_writes-synced = refl

reconcile_complete_example :
    ((waiting []).pending_writes ≡ []) × All (IsLanded stored synced) two_writes.pending_writes
reconcile_complete_example =
    reconcile_complete simple_redis stored simple_redis-IsFaithful (10 * second) two_writes
      (waiting []) newer_b synced two_writes-synced

-- After more than five minutes a write is given up, and reported as a failure.
abbrev one_stale : ReconciliationError
one_stale = record { total = 2; success = 1; skipped = 0; failed = 1 }

stale_write :
    reconcile_pending_writes simple_redis
      (400 * second)
      (waiting (write "a" "x" 2 1 ∷ write "b" "y" 300 2 ∷ []))
      []
    ≡ (waiting [], ("b", record { value = "y"; version = 2; timestamp = 300 }) ∷ [], some one_stale)
unfolding reconcile_pending_writes lookup insert keep_if count_verdict is_marked mark
stale_write = refl

reconcile_failure_example :
    (one_stale.total ≡ 2)
    × (one_stale.success + one_stale.skipped + one_stale.failed ≡ one_stale.total)
    × (0 < one_stale.failed)
    × (length (waiting []).pending_writes ≤ one_stale.failed)
    × All (λ w. w.reconciled ≡ false) (waiting []).pending_writes
reconcile_failure_example =
    reconcile_failure simple_redis (400 * second)
      (waiting (write "a" "x" 2 1 ∷ write "b" "y" 300 2 ∷ [])) (waiting []) []
      (("b", record { value = "y"; version = 2; timestamp = 300 }) ∷ []) one_stale stale_write

-- A cache for two entries; "b" was read last.
abbrev full_cache : DegradedMode String
full_cache = record two_writes {
  local_cache =
      ("b", record { value = "y"; last_access = 8 })
      ∷ ("a", record { value = "x"; last_access = 4 })
      ∷ [];
  cache_size = 2;
  max_cache_size = 2;
}

full_cache-IsDistinct : IsDistinct full_cache.local_cache
unfolding IsDistinct lookup
full_cache-IsDistinct = (refl, (refl, tt))

no_empty_key : lookup "" full_cache.local_cache ≡ none
unfolding lookup
no_empty_key = refl

drops_a :
    (make_cache_room full_cache).local_cache ≡ ("b", record { value = "y"; last_access = 8 }) ∷ []
unfolding make_cache_room oldest_key delete
drops_a = refl

abbrev leader : ReconciliationCoordinator
leader = record { node_id = "n1"; current_epoch = 3; leader_id = "n1"; is_leader = true }

abbrev third_epoch : Option LeaderEpoch × String
third_epoch = (some (record { epoch = 3; leader_id = "n1"; start_time = 0 }), "")

leader_run :
    reconcile_if_leader simple_redis (10 * second) third_epoch leader leader two_writes newer_b
    ≡ (waiting [], synced, none)
unfolding reconcile_if_leader get_pending_write_count
leader_run = rw two_writes-synced refl

leader_reconciles_example :
    ((waiting []).pending_writes ≡ [])
    × All (IsLanded stored synced) two_writes.pending_writes
    × ((two_writes.pending_writes ≡ []) ⊎ (leader.current_epoch ≡ leader.current_epoch))
leader_reconciles_example =
    leader_reconciles simple_redis stored simple_redis-IsFaithful (10 * second) third_epoch leader
      leader two_writes (waiting []) newer_b synced refl leader_run

-- A write in between the run's critical sections: the full list of waiting writes drops its oldest,
-- and the run's mark for that one then falls on the write after it, which is lost unsynced.
abbrev full_pending : DegradedMode String
full_pending = record two_writes { max_pending_writes = 2 }

mark_shifts :
    mark 0 (set_in_cache_with_ttl (4 * second) "c" "z" 60 full_pending).pending_writes
    ≡ record (write "b" "y" 3 2) { reconciled = true } ∷ write "c" "z" 4 4 ∷ []
unfolding mark set_in_cache_with_ttl drop_oldest make_cache_room make_pending_room
mark_shifts = refl
