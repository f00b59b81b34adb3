-- ===== src/Degraded/Sync.antt =====
-- control_plane/resilience/reconciliation.go and errors.go: the waiting writes go to Redis once it is
-- back. Redis is the caller's VersionedRedisWriter, a parameter with a state of its own. The run is
-- one step here, as if no other method came between its critical sections.
use flux_forge.Base.{
  ℕ, zero, suc, ◌-◌, ◌*◌, String, Bool, true, false, not, Option, none, some, List, [], ◌∷◌, ◌≡◌,
  ◌≢◌, ◌⊎◌, ◌≤◌, ◌==◌, nat_eq, string_eq, ltb, leb, if◌then◌else◌, length, keep_if,
}
use flux_forge.Task.{second, minute}
use flux_forge.Degraded.{PendingWrite, DegradedMode, check_degraded_mode}

pub record VersionedValue (V : Type 0) : Type 0 where
  pub value : V
  pub version : ℕ
  pub timestamp : ℕ

-- GetVersioned returns a pointer and an error, SetVersioned an error; asking may change the store too,
-- as where it loads a script again.
pub record VersionedRedisWriter (V R : Type 0) : Type 0 where
  pub get_versioned : String → R → R × Option (VersionedValue V) × Option String
  pub set_versioned : String → VersionedValue V → ℕ → R → R × Option String

-- The reply can be used: no error, or the error of a missing key.
abbrev pub is_usable : Option String → Bool
is_usable none = true
is_usable (some e) = e == "not found"

-- What the writer promises, by the version that it stores under a key, 0 where it stores none: asking
-- changes no version, and a value found has the stored one; a write without an error stores its
-- version, over none that is newer; a write with an error does so or nothing; no other key changes.
pub record IsFaithful {V R : Type 0} (redis : VersionedRedisWriter V R) (stored : R → String → ℕ)
    : Type 0 where
  pub asked : (k j : String) (r : R) → stored (redis.get_versioned k r).0 j ≡ stored r j
  pub found :
      (k : String) (r r' : R) (v : VersionedValue V) (e : Option String)
      → redis.get_versioned k r ≡ (r', some v, e)
      → is_usable e ≡ true
      → stored r k ≡ v.version
  pub wrote :
      (k : String) (v : VersionedValue V) (ttl : ℕ) (r r' : R)
      → redis.set_versioned k v ttl r ≡ (r', none)
      → (stored r' k ≡ v.version) × (stored r k ≤ v.version)
  pub refused :
      (k : String) (v : VersionedValue V) (ttl : ℕ) (r r' : R) (e : String)
      → redis.set_versioned k v ttl r ≡ (r', some e)
      → (stored r' k ≡ stored r k) ⊎ ((stored r' k ≡ v.version) × (stored r k ≤ v.version))
  pub others :
      (k j : String) (v : VersionedValue V) (ttl : ℕ) (r r' : R) (e : Option String)
      → redis.set_versioned k v ttl r ≡ (r', e)
      → k ≢ j
      → stored r' j ≡ stored r j

pub record ReconciliationError : Type 0 where
  pub total : ℕ
  pub success : ℕ
  pub skipped : ℕ
  pub failed : ℕ

-- What happens to one write: the counter that it adds to, and whether it is marked as reconciled.
pub data Verdict : Type 0 where
  already stale unreadable newer refused written : Verdict

unfoldable pub is_marked : Verdict → Bool
is_marked already = false
is_marked stale = true
is_marked unreadable = false
is_marked newer = true
is_marked refused = false
is_marked written = true

unfoldable pub count_verdict : Verdict → ReconciliationError → ReconciliationError
count_verdict already c = record c { skipped = suc c.skipped }
count_verdict stale c = record c { failed = suc c.failed }
count_verdict unreadable c = record c { failed = suc c.failed }
count_verdict newer c = record c { skipped = suc c.skipped }
count_verdict refused c = record c { failed = suc c.failed }
count_verdict written c = record c { success = suc c.success }

module _ {V : Type 0} where
  -- `if i < len(d.pendingWrites) { d.pendingWrites[i].Reconciled = true }`
  unfoldable pub mark : ℕ → List (PendingWrite V) → List (PendingWrite V)
  mark i [] = []
  mark zero (w ∷ ws) = record w { reconciled = true } ∷ ws
  mark (suc i) (w ∷ ws) = w ∷ mark i ws

  -- `age > 5*time.Minute`; a timestamp ahead of the clock has no positive age.
  unfoldable pub is_stale : ℕ → PendingWrite V → Bool
  is_stale now w = ltb (5 * minute) (now - w.timestamp * second)

  unfoldable pub is_newer : PendingWrite V → Option (VersionedValue V) → Bool
  is_newer w none = false
  is_newer w (some existing) = leb w.version existing.version

  unfoldable pub versioned : PendingWrite V → VersionedValue V
  versioned w = record { value = w.value; version = w.version; timestamp = w.timestamp }

module _ {V R : Type 0} (redis : VersionedRedisWriter V R) where
  write_result : R × Option String → R × Verdict
  write_result (r, none) = (r, written)
  write_result (r, some _) = (r, refused)

  -- The body of the loop, but for the counters and the mark.
  unfoldable pub sync_write : ℕ → PendingWrite V → R → R × Verdict
  unfolding is_stale is_newer versioned write_result
  sync_write now w r =
      if w.reconciled
      then (r, already)
      else if is_stale now w
      then (r, stale)
      else let (r', existing, err) = redis.get_versioned w.key r in
        if not (is_usable err)
        then (r', unreadable)
        else if is_newer w existing
        then (r', newer)
        else write_result (redis.set_versioned w.key (versioned w) w.ttl r')

  -- The loop over the copy of the writes, from index i.
  unfoldable pub sync_loop :
      ℕ
      → ℕ
      → List (PendingWrite V)
      → R
      → List (PendingWrite V)
      → ReconciliationError
      → R × List (PendingWrite V) × ReconciliationError
  unfolding sync_write
  sync_loop now i [] r pending c = (r, pending, c)
  sync_loop now i (w ∷ ws) r pending c =
      let (r', verdict) = sync_write now w r in
      let marked = if is_marked verdict then mark i pending else pending in
      sync_loop now (suc i) ws r' marked (count_verdict verdict c)

  unfoldable pub reconcile_pending_writes :
      ℕ → DegradedMode V → R → DegradedMode V × R × Option ReconciliationError
  unfolding sync_loop
  reconcile_pending_writes now d r =
      if length d.pending_writes == 0
      then (d, r, none)
      else let none_yet : ReconciliationError = record {
        total = length d.pending_writes;
        success = 0;
        skipped = 0;
        failed = 0;
      } in
        let (r', pending, counts) = sync_loop now 0 d.pending_writes r d.pending_writes none_yet in
        (
          record d { pending_writes = keep_if (λ w. not w.reconciled) pending },
          r',
          if ltb 0 counts.failed then some counts else none,
        )

  unfoldable pub mark_redis_available_with_reconciliation :
      ℕ → DegradedMode V → R → DegradedMode V × R × Option ReconciliationError
  unfolding check_degraded_mode reconcile_pending_writes
  mark_redis_available_with_reconciliation now d r =
      let up = check_degraded_mode (record d { redis_available = true }) in
      if not d.redis_available then reconcile_pending_writes now up r else (up, r, none)
