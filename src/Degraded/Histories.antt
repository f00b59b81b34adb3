-- ===== src/Degraded/Histories.antt =====
-- Every history of calls of the degraded mode, with the Redis that reconciliation writes to.
use flux_forge.Base.{
  ℕ, ◌≤◌, String, true, false, not, ◌&&◌, some, List, [], ◌∷◌, ◌++◌, ◌≡◌, ◌≢◌, refl, ap, sym, subst,
  inl, inr, Bool-cases, string_eq, length, All, arith, ◌/◌, suc,
}
use flux_forge.Base.Dict.{lookup-insert_self}
use flux_forge.Task.{second}
use flux_forge.Degraded.{
  CacheEntry, PendingWrite, DegradedMode, new_degraded_mode, set_in_cache_with_ttl, get_from_cache,
  clear_cache, mark_redis_available, mark_redis_unavailable, mark_db_available, mark_db_unavailable,
  check_degraded_mode, make_cache_room, make_pending_room,
}
use flux_forge.Degraded.Sync.{
  VersionedRedisWriter, reconcile_pending_writes, mark_redis_available_with_reconciliation,
}
use flux_forge.Degraded.Marks.{
  IsIncreasing, IsBelow, reconcile_frame, reconcile-IsIncreasing, reconcile-IsBelow,
}
use flux_forge.Degraded.Bounds.{
  Inv, new_degraded_mode-Inv, mark_redis_unavailable-Inv, mark_redis_available-Inv,
  mark_db_unavailable-Inv, mark_db_available-Inv, clear_cache-Inv, get_from_cache-Inv,
  set_in_cache_with_ttl-Inv,
}

pub data Call (V : Type 0) : Type 0 where
  redis_down redis_up db_down db_up clears reconciles recovers : Call V
  gets : String → Call V
  sets : String → V → ℕ → Call V

-- A call never caches under the empty text.
abbrev pub IsNamed : {V : Type 0} → ℕ × Call V → Type 0
IsNamed (_, sets key _ _) = key ≢ ""
IsNamed _ = Unit

module _ {V R : Type 0} (redis : VersionedRedisWriter V R) where
  unfoldable pub call : ℕ × Call V → DegradedMode V × R → DegradedMode V × R
  call (now, redis_down) (d, r) = (mark_redis_unavailable now d, r)
  call (now, redis_up) (d, r) = (mark_redis_available d, r)
  call (now, db_down) (d, r) = (mark_db_unavailable now d, r)
  call (now, db_up) (d, r) = (mark_db_available d, r)
  call (now, clears) (d, r) = (clear_cache d, r)
  call (now, reconciles) (d, r) =
      let (d', r', _) = reconcile_pending_writes redis now d r in (d', r')
  call (now, recovers) (d, r) =
      let (d', r', _) = mark_redis_available_with_reconciliation redis now d r in (d', r')
  call (now, gets key) (d, r) = ((get_from_cache now key d).0, r)
  call (now, sets key value ttl) (d, r) = (set_in_cache_with_ttl now key value ttl d, r)

  unfoldable pub calls : List (ℕ × Call V) → DegradedMode V × R → DegradedMode V × R
  calls [] s = s
  calls (c ∷ cs) s = calls cs (call c s)

  reconcile-Inv :
      (now : ℕ) (d : DegradedMode V) (r : R)
      → Inv d
      → Inv (reconcile_pending_writes redis now d r).0
  reconcile-Inv now d r v =
      let (frame, fresh, few) = reconcile_frame redis now d r in
      let ordered = reconcile-IsIncreasing redis now d r v.ordered in
      let below = reconcile-IsBelow redis now d.current_version d r v.below in
      subst Inv (sym frame) (record {
        max_cache = v.max_cache;
        max_pending = v.max_pending;
        flags = v.flags;
        distinct = v.distinct;
        size = v.size;
        unnamed = v.unnamed;
        cache_bound = v.cache_bound;
        pending_bound = omega (arith, few, v.pending_bound);
        fresh = fresh;
        ordered = ordered;
        below = below;
      })

  up-Inv :
      (d : DegradedMode V) → Inv d → Inv (check_degraded_mode (record d { redis_available = true }))
  unfolding check_degraded_mode
  up-Inv d v = ground (arith, v)

  recover-Inv :
      (now : ℕ) (d : DegradedMode V) (r : R)
      → Inv d
      → Inv (mark_redis_available_with_reconciliation redis now d r).0
  unfolding mark_redis_available_with_reconciliation
  recover-Inv now d r v = elim (Bool-cases d.redis_available) [
    | inl e ↦ rw e (up-Inv d v)
    | inr e ↦ rw e (
        reconcile-Inv now (check_degraded_mode (record d { redis_available = true })) r
          (up-Inv d v))
  ]

  call-Inv :
      (c : ℕ × Call V) (d : DegradedMode V) (r : R) → IsNamed c → Inv d → Inv (call c (d, r)).0
  unfolding call
  call-Inv (now, redis_down) d r n v = mark_redis_unavailable-Inv now d v
  call-Inv (now, redis_up) d r n v = mark_redis_available-Inv d v
  call-Inv (now, db_down) d r n v = mark_db_unavailable-Inv now d v
  call-Inv (now, db_up) d r n v = mark_db_available-Inv d v
  call-Inv (now, clears) d r n v = clear_cache-Inv d v
  call-Inv (now, reconciles) d r n v = reconcile-Inv now d r v
  call-Inv (now, recovers) d r n v = recover-Inv now d r v
  call-Inv (now, gets key) d r n v = get_from_cache-Inv now key d v
  call-Inv (now, sets key value ttl) d r n v = set_in_cache_with_ttl-Inv now key value ttl d n v

  calls-Inv :
      (cs : List (ℕ × Call V)) (d : DegradedMode V) (r : R)
      → All IsNamed cs
      → Inv d
      → Inv (calls cs (d, r)).0
  unfolding calls
  calls-Inv [] d r n v = v
  calls-Inv (c ∷ cs) d r (n, ns) v =
      calls-Inv cs (call c (d, r)).0 (call c (d, r)).1 ns (call-Inv c d r n v)

  -- After any history of calls of a new degraded mode that never caches under the empty text, the size field is the number of cached entries and at most 10000, at most 10000 writes wait, and the degraded flag is set exactly when some dependency is down.
  pub calls_bounds :
      (cs : List (ℕ × Call V)) (r : R)
      → All IsNamed cs
      → let d = (calls cs (new_degraded_mode, r)).0 in
        (d.cache_size ≡ length d.local_cache)
        × (length d.local_cache ≤ 10000)
        × (length d.pending_writes ≤ 10000)
        × (d.degraded_mode_active ≡ not (d.redis_available && d.db_available && d.nats_available))
  calls_bounds cs r n =
      let v = calls-Inv cs new_degraded_mode r n new_degraded_mode-Inv in
      (v.size, omega (arith, v.size, v.cache_bound), v.pending_bound, v.flags)

  -- After any history of calls of a new degraded mode that never caches under the empty text, no waiting write is marked as done, their versions strictly increase from the oldest to the newest, and none is above the current version.
  pub calls-IsIncreasing :
      (cs : List (ℕ × Call V)) (r : R)
      → All IsNamed cs
      → let d = (calls cs (new_degraded_mode, r)).0 in
        All (λ w. w.reconciled ≡ false) d.pending_writes
        × IsIncreasing d.pending_writes
        × IsBelow d.current_version d.pending_writes
  calls-IsIncreasing cs r n =
      let v = calls-Inv cs new_degraded_mode r n new_degraded_mode-Inv in
      (v.fresh, v.ordered, v.below)

module _ {V : Type 0} where
  room-current_version :
      (d : DegradedMode V)
      → (make_cache_room (make_pending_room d)).current_version ≡ d.current_version
  unfolding make_pending_room make_cache_room
  room-current_version d = ground arith

  -- A value that was set is read back until the next call, whatever had to be evicted; the write waits as the newest one, under the next version and not yet done.
  pub set_in_cache-get_from_cache :
      (now later : ℕ) (key : String) (value : V) (ttl : ℕ) (d : DegradedMode V)
      → let d' = set_in_cache_with_ttl now key value ttl d in
        ((get_from_cache later key d').1 ≡ some value)
        × (d'.current_version ≡ suc d.current_version)
        × ((older : List (PendingWrite V)) × (d'.pending_writes
              ≡ older
                ++ record {
                  key = key;
                  value = value;
                  timestamp = now / second;
                  ttl = ttl;
                  version = suc d.current_version;
                  reconciled = false;
                }
                  ∷ []))
  unfolding set_in_cache_with_ttl get_from_cache
  set_in_cache-get_from_cache now later key value ttl d =
      let room = make_cache_room (make_pending_room d) in
      let entry : CacheEntry V = record { value = value; last_access = now } in
      let same = room-current_version d in
      (
        rw (lookup-insert_self key entry room.local_cache) refl,
        ap suc same,
        (room.pending_writes, rw same refl),
      )
