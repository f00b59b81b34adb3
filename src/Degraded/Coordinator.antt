-- ===== src/Degraded/Coordinator.antt =====
-- control_plane/resilience/leader_reconciliation.go: only the leader reconciles. The leader's epoch
-- comes from a callback, `info` here; UpdateLeadershipStatus may run while Redis is written to, so
-- the coordinator is given twice: as it is at the start and as the second check finds it. The degraded
-- mode and Redis are the two objects that the coordinator points to. Metrics are left out.
use flux_forge.Base.{
  ℕ, String, Bool, true, false, not, ◌&&◌, Option, none, some, [], ◌≡◌, refl, ◌⊎◌, ◌≢◌, inl, inr,
  ◌==◌, nat_eq, if◌then◌else◌, All, arith, Bool-cases, ◌*◌,
}
use flux_forge.Task.{minute}
use flux_forge.Degraded.{DegradedMode, get_pending_write_count}
use flux_forge.Degraded.Sync.{
  VersionedRedisWriter, IsFaithful, ReconciliationError, reconcile_pending_writes,
}
use flux_forge.Degraded.Marks.{length_zero}
use flux_forge.Degraded.Versions.{IsLanded, reconcile_complete}

pub record LeaderEpoch : Type 0 where
  pub epoch : ℕ
  pub leader_id : String
  pub start_time : ℕ

pub record ReconciliationCoordinator : Type 0 where
  pub node_id : String
  pub current_epoch : ℕ
  pub leader_id : String
  pub is_leader : Bool

pub data CoordinatorError : Type 0 where
  no_leader_info : String → CoordinatorError
  leadership_changed : ℕ → ℕ → CoordinatorError
  reconciliation_failed : ReconciliationError → CoordinatorError
  no_lock : String → CoordinatorError

unfoldable pub new_reconciliation_coordinator : String → ReconciliationCoordinator
new_reconciliation_coordinator node_id = record {
  node_id = node_id;
  current_epoch = 0;
  leader_id = "";
  is_leader = false;
}

unfoldable pub update_leadership_status :
    ℕ → String → Bool → ReconciliationCoordinator → ReconciliationCoordinator
update_leadership_status epoch leader_id is_leader c = record c {
  current_epoch = epoch;
  leader_id = leader_id;
  is_leader = is_leader;
}

-- AcquireLock returns whether the lock was taken, and an error; ReleaseLock's error is not read.
pub record LockStore (L : Type 0) : Type 0 where
  pub acquire_lock : String → ℕ → L → L × Bool × Option String
  pub release_lock : String → L → L

abbrev pub reconciliation_lock_key : String
reconciliation_lock_key = "reconciliation-global-lock"

failure : Option ReconciliationError → Option CoordinatorError
failure none = none
failure (some e) = some (reconciliation_failed e)

module _ {V R : Type 0} (redis : VersionedRedisWriter V R) where
  -- The epoch check after the run comes before the run's own error.
  checked_run :
      ℕ
      → ReconciliationCoordinator
      → ReconciliationCoordinator
      → DegradedMode V
      → R
      → DegradedMode V × R × Option CoordinatorError
  unfolding failure
  checked_run now before after d r =
      let (d', r', err) = reconcile_pending_writes redis now d r in
      if after.current_epoch == before.current_epoch
      then (d', r', failure err)
      else (d', r', some (leadership_changed before.current_epoch after.current_epoch))

  unfoldable pub reconcile_if_leader :
      ℕ
      → Option LeaderEpoch × String
      → ReconciliationCoordinator
      → ReconciliationCoordinator
      → DegradedMode V
      → R
      → DegradedMode V × R × Option CoordinatorError
  unfolding checked_run
  reconcile_if_leader now (info, info_error) before after d r =
      if not before.is_leader
      then (d, r, none)
      else if get_pending_write_count d == 0
      then (d, r, none)
      else elim info [
        | none ↦ (d, r, some (no_leader_info info_error))
        | some leader ↦
            if leader.epoch == before.current_epoch
            then checked_run now before after d r
            else (d, r, some (leadership_changed before.current_epoch leader.epoch))
      ]

  -- One tick of StartPeriodicReconciliation; its error is logged.
  unfoldable pub periodic_tick :
      ℕ
      → Option LeaderEpoch × String
      → ReconciliationCoordinator
      → ReconciliationCoordinator
      → DegradedMode V
      → R
      → DegradedMode V × R
  unfolding reconcile_if_leader
  periodic_tick now info before after d r =
      if not before.is_leader
      then (d, r)
      else let (d', r', _) = reconcile_if_leader now info before after d r in (d', r')

  unfoldable pub reconcile_with_distributed_lock :
      {L : Type 0}
      → LockStore L
      → ℕ
      → L
      → DegradedMode V
      → R
      → L × DegradedMode V × R × Option CoordinatorError
  unfolding failure
  reconcile_with_distributed_lock locks now l d r =
      let (l', acquired, lock_error) = locks.acquire_lock reconciliation_lock_key (5 * minute) l in
      elim lock_error [
        | some e ↦ (l', d, r, some (no_lock e))
        | none ↦
            if not acquired
            then (l', d, r, none)
            else let (d', r', err) = reconcile_pending_writes redis now d r in
              (locks.release_lock reconciliation_lock_key l', d', r', failure err)
      ]

  -- Redis and the waiting writes stay as they are unless the node leads and the callback reports the epoch that the node leads in; then they are what a reconciliation makes of them.
  pub reconcile_if_leader_guarded :
      (now : ℕ) (info : Option LeaderEpoch × String) (before after : ReconciliationCoordinator)
      (d : DegradedMode V) (r : R)
      → let (d', r', _) = reconcile_if_leader now info before after d r in
        ((d' ≡ d) × (r' ≡ r))
        ⊎ ((before.is_leader ≡ true)
            × ((leader : LeaderEpoch) × (info.0 ≡ some leader)
                × (leader.epoch ≡ before.current_epoch))
            × (d' ≡ (reconcile_pending_writes redis now d r).0)
            × (r' ≡ (reconcile_pending_writes redis now d r).1))
  unfolding reconcile_if_leader
  reconcile_if_leader_guarded now (none, e) before after d r = ground arith
  reconcile_if_leader_guarded now (some leader, e) before after d r =
      elim (Bool-cases (
        before.is_leader
        && leader.epoch == before.current_epoch
        && not (get_pending_write_count d == 0))) [
          | inl runs ↦ inr (
            ground (arith, runs),
            (leader, refl, ground (arith, runs)),
            ground (arith, runs),
            ground (arith, runs),
          )
          | inr skips ↦ inl (ground (arith, skips), ground (arith, skips))
        ]

  module _ (stored : R → String → ℕ) (faithful : IsFaithful redis stored) where
    -- With a Redis that keeps its promises: where the leader's call returns no error, no write waits any more, Redis stores for every write that waited a version no older than the write's, unless the write was marked as done before, and the leader's epoch did not change during a run.
    pub leader_reconciles :
        (now : ℕ) (info : Option LeaderEpoch × String) (before after : ReconciliationCoordinator)
        (d d' : DegradedMode V) (r r' : R)
        → before.is_leader ≡ true
        → reconcile_if_leader now info before after d r ≡ (d', r', none)
        → (d'.pending_writes ≡ [])
          × All (IsLanded stored r') d.pending_writes
          × ((d.pending_writes ≡ []) ⊎ (after.current_epoch ≡ before.current_epoch))
    unfolding reconcile_if_leader get_pending_write_count
    leader_reconciles now (none, e) before after d d' r r' leads h =
        let empty : d.pending_writes ≡ [] =
          length_zero d.pending_writes (ground (arith, h, leads)) in
        let same : (d' ≡ d) × (r' ≡ r) = (ground (arith, h, leads), ground (arith, h, leads)) in
        (rw same.0 empty, rw empty tt, inl empty)
    leader_reconciles now (some leader, e) before after d d' r r' leads h =
        elim (Bool-cases (get_pending_write_count d == 0)) [
          | inl z ↦
              let empty : d.pending_writes ≡ [] =
                length_zero d.pending_writes (ground (arith, z)) in
              let same : (d' ≡ d) × (r' ≡ r) =
                (ground (arith, h, leads, z), ground (arith, h, leads, z)) in
              (rw same.0 empty, rw empty tt, inl empty)
          | inr z ↦
              let done : reconcile_pending_writes redis now d r ≡ (d', r', none) =
                ground (arith, h, leads, z) in
              let (cleared, landed) = reconcile_complete redis stored faithful now d d' r r' done in
              (cleared, landed, inr (ground (arith, h, leads, z)))
        ]

  -- With the distributed lock: where the lock was taken without an error, the run happens and the lock is given back, whatever the run's outcome; otherwise neither Redis nor the waiting writes change.
  pub locked_run :
      {L : Type 0} (locks : LockStore L) (now : ℕ) (l : L) (d : DegradedMode V) (r : R)
      → let (l', acquired, lock_error) =
          locks.acquire_lock reconciliation_lock_key (5 * minute) l in
        let result = reconcile_with_distributed_lock locks now l d r in
        ((acquired ≡ true)
          × (lock_error ≡ none)
          × (result.0 ≡ locks.release_lock reconciliation_lock_key l')
          × (result.1 ≡ (reconcile_pending_writes redis now d r).0)
          × (result.2 ≡ (reconcile_pending_writes redis now d r).1))
        ⊎ (((acquired ≡ false) ⊎ (lock_error ≢ none))
            × (result.0 ≡ l')
            × (result.1 ≡ d)
            × (result.2 ≡ r))
  unfolding reconcile_with_distributed_lock
  locked_run locks now l d r = ground arith
