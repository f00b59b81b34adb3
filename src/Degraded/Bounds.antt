-- ===== src/Degraded/Bounds.antt =====
-- The bounds of the cache and of the waiting writes, and the flags, over every history of calls.
use flux_forge.Base.{
  ℕ, suc, ◌/◌, ◌≤◌, ◌<◌, String, false, not, ◌&&◌, none, List, [], ◌∷◌, ◌++◌, ◌≡◌, ◌≢◌, refl,
  nat_eq, string_eq, leb, length, All, arith, Bool-cases, Option-cases, ==_iff, length-append, inl,
  inr,
}
use flux_forge.Base.Dict.{lookup, lookup-insert, lookup-delete}
use flux_forge.Base.Distinct.{
  IsDistinct, insert-IsDistinct, delete-IsDistinct, length-insert, length-delete,
}
use flux_forge.Task.{second}
use flux_forge.Degraded.{
  CacheEntry, PendingWrite, DegradedMode, new_degraded_mode, oldest_key, make_cache_room,
  make_pending_room, drop_oldest, store_entry, track_write, set_in_cache_with_ttl, get_from_cache,
  clear_cache, mark_redis_available, mark_redis_unavailable, mark_db_available, mark_db_unavailable,
}
use flux_forge.Degraded.Eviction.{oldest_key-found}
use flux_forge.Degraded.Marks.{IsIncreasing, IsBelow}

module _ {V : Type 0} where
  pub record Inv (d : DegradedMode V) : Type 0 where
    pub max_cache : d.max_cache_size ≡ 10000
    pub max_pending : d.max_pending_writes ≡ 10000
    pub flags :
        d.degraded_mode_active ≡ not (d.redis_available && d.db_available && d.nats_available)
    pub distinct : IsDistinct d.local_cache
    pub size : d.cache_size ≡ length d.local_cache
    pub unnamed : lookup "" d.local_cache ≡ none
    pub cache_bound : d.cache_size ≤ 10000
    pub pending_bound : length d.pending_writes ≤ 10000
    pub fresh : All (λ w. w.reconciled ≡ false) d.pending_writes
    pub ordered : IsIncreasing d.pending_writes
    pub below : IsBelow d.current_version d.pending_writes

  pub new_degraded_mode-Inv : Inv new_degraded_mode
  unfolding new_degraded_mode IsDistinct lookup IsIncreasing IsBelow
  new_degraded_mode-Inv = record {
    max_cache = refl;
    max_pending = refl;
    flags = refl;
    distinct = tt;
    size = refl;
    unnamed = refl;
    cache_bound = omega arith;
    pending_bound = omega arith;
    fresh = tt;
    ordered = tt;
    below = tt;
  }

  pub mark_redis_unavailable-Inv :
      (now : ℕ) (d : DegradedMode V) → Inv d → Inv (mark_redis_unavailable now d)
  unfolding mark_redis_unavailable
  mark_redis_unavailable-Inv now d v = ground (arith, v)

  pub mark_redis_available-Inv : (d : DegradedMode V) → Inv d → Inv (mark_redis_available d)
  unfolding mark_redis_available
  mark_redis_available-Inv d v = ground (arith, v)

  pub mark_db_unavailable-Inv :
      (now : ℕ) (d : DegradedMode V) → Inv d → Inv (mark_db_unavailable now d)
  unfolding mark_db_unavailable
  mark_db_unavailable-Inv now d v = ground (arith, v)

  pub mark_db_available-Inv : (d : DegradedMode V) → Inv d → Inv (mark_db_available d)
  unfolding mark_db_available
  mark_db_available-Inv d v = ground (arith, v)

  pub clear_cache-Inv : (d : DegradedMode V) → Inv d → Inv (clear_cache d)
  unfolding clear_cache IsDistinct lookup
  clear_cache-Inv d v = ground (arith, v)

  pub get_from_cache-Inv :
      (now : ℕ) (key : String) (d : DegradedMode V) → Inv d → Inv (get_from_cache now key d).0
  unfolding get_from_cache
  get_from_cache-Inv now key d v = elim (Option-cases (lookup key d.local_cache)) [
    | inl e ↦ rw e v
    | inr (entry, e) ↦
        let touched : CacheEntry V = record { value = entry.value; last_access = now } in
        rw e (
          ground (
            arith,
            v,
            e,
            insert-IsDistinct key touched d.local_cache,
            length-insert key touched d.local_cache,
            lookup-insert key "" touched d.local_cache,
            ==_iff key "",
          ))
  ]

  -- Among writes that are all still waiting, the oldest is the first.
  drop_oldest-fresh :
      (ws : List (PendingWrite V)) (n : ℕ)
      → All (λ w. w.reconciled ≡ false) ws
      → IsIncreasing ws
      → IsBelow n ws
      → 0 < length ws
      → (length ws ≡ suc (length (drop_oldest ws)))
        × All (λ w. w.reconciled ≡ false) (drop_oldest ws)
        × IsIncreasing (drop_oldest ws)
        × IsBelow n (drop_oldest ws)
  unfolding drop_oldest IsIncreasing IsBelow
  drop_oldest-fresh [] n h o b p = absurd (omega arith)
  drop_oldest-fresh (w ∷ ws) n (h, hs) (o, os) (b, bs) p = rw h (refl, hs, os, bs)

  append-fresh :
      (ws : List (PendingWrite V)) (w : PendingWrite V) (n : ℕ)
      → n < w.version
      → w.reconciled ≡ false
      → All (λ u. u.reconciled ≡ false) ws
      → IsIncreasing ws
      → IsBelow n ws
      → All (λ u. u.reconciled ≡ false) (ws ++ w ∷ [])
        × IsIncreasing (ws ++ w ∷ [])
        × IsBelow w.version (ws ++ w ∷ [])
  unfolding IsIncreasing IsBelow
  append-fresh [] w n lt f h o b = ground arith
  append-fresh (u ∷ ws) w n lt f (h, hs) (o, os) (b, bs) =
      let (f', o', b') = append-fresh ws w n lt f hs os bs in
      ((h, f'), (append-later ws w u.version (omega arith) o, o'), (omega arith, b'))
    where
      append-later :
          (ws : List (PendingWrite V)) (w : PendingWrite V) (m : ℕ)
          → m < w.version
          → All (λ u. m < u.version) ws
          → All (λ u. m < u.version) (ws ++ w ∷ [])
      append-later [] w m lt h = (lt, tt)
      append-later (u ∷ ws) w m lt (h, hs) = (h, append-later ws w m lt hs)

  pub make_pending_room-Inv :
      (d : DegradedMode V)
      → Inv d
      → Inv (make_pending_room d) × (length (make_pending_room d).pending_writes < 10000)
  unfolding make_pending_room
  make_pending_room-Inv d v =
      ground
        (arith, v, drop_oldest-fresh d.pending_writes d.current_version v.fresh v.ordered v.below)

  pub make_cache_room-Inv :
      (d : DegradedMode V)
      → Inv d
      → Inv (make_cache_room d)
        × (length (make_cache_room d).local_cache < 10000)
        × ((make_cache_room d).pending_writes ≡ d.pending_writes)
  unfolding make_cache_room
  make_cache_room-Inv d v = elim (Bool-cases (leb d.max_cache_size d.cache_size)) [
    | inl full ↦
        let (entry, e, _) = oldest_key-found d.local_cache v.distinct (ground (arith, v, full)) in
        ground (
          arith,
          v,
          e,
          full,
          ==_iff (oldest_key d.local_cache) "",
          delete-IsDistinct (oldest_key d.local_cache) d.local_cache,
          length-delete (oldest_key d.local_cache) d.local_cache,
          lookup-delete (oldest_key d.local_cache) "" d.local_cache,
        )
    | inr room ↦ ground (arith, v, room)
  ]

  pub store_entry-Inv :
      (now : ℕ) (key : String) (value : V) (d : DegradedMode V)
      → key ≢ ""
      → length d.local_cache < 10000
      → Inv d
      → Inv (store_entry now key value d)
  unfolding store_entry
  store_entry-Inv now key value d n room v =
      let entry : CacheEntry V = record { value = value; last_access = now } in
      ground (
        arith,
        v,
        insert-IsDistinct key entry d.local_cache,
        length-insert key entry d.local_cache,
        lookup-insert key "" entry d.local_cache,
        ==_iff key "",
      )

  pub track_write-Inv :
      (now : ℕ) (key : String) (value : V) (ttl : ℕ) (d : DegradedMode V)
      → length d.pending_writes < 10000
      → Inv d
      → Inv (track_write now key value ttl d)
  unfolding track_write
  track_write-Inv now key value ttl d room v =
      let write : PendingWrite V = record {
        key = key;
        value = value;
        timestamp = now / second;
        ttl = ttl;
        version = suc d.current_version;
        reconciled = false;
      } in
      let (f, o, b) =
        append-fresh d.pending_writes write d.current_version (omega arith) refl v.fresh v.ordered
          v.below in
      ground (arith, v, f, o, b, length-append d.pending_writes (write ∷ []))

  pub set_in_cache_with_ttl-Inv :
      (now : ℕ) (key : String) (value : V) (ttl : ℕ) (d : DegradedMode V)
      → key ≢ ""
      → Inv d
      → Inv (set_in_cache_with_ttl now key value ttl d)
  unfolding set_in_cache_with_ttl store_entry
  set_in_cache_with_ttl-Inv now key value ttl d n v =
      let (v₁, short) = make_pending_room-Inv d v in
      let (v₂, small, same) = make_cache_room-Inv (make_pending_room d) v₁ in
      track_write-Inv now key value ttl _ (rw same short)
        (store_entry-Inv now key value _ n small v₂)
