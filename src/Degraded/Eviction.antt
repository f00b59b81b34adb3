-- ===== src/Degraded/Eviction.antt =====
-- The LRU scan: the key that eviction picks.
use flux_forge.Base.{
  ℕ, suc, ◌≤◌, ◌<◌, String, none, some, [], ◌∷◌, ◌≡◌, subst, refl, sym, nat_eq, string_eq, ltb,
  length, All, arith, Bool-cases, ==_iff, inl, inr, ◌⊎◌,
}
use flux_forge.Base.Dict.{Dict, lookup, delete}
use flux_forge.Base.Distinct.{IsDistinct, length-delete}
use flux_forge.Degraded.{CacheEntry, DegradedMode, oldest_from, oldest_key, make_cache_room}

module _ {V : Type 0} where
  -- The map binds the key to an entry that was last accessed at t.
  Binds : String → ℕ → Dict String (CacheEntry V) → Type 0
  Binds k t [] = ⊥
  Binds k t ((j, entry) ∷ m) = ((j ≡ k) × (entry.last_access ≡ t)) ⊎ Binds k t m

  oldest_found :
      (key : String) (time : ℕ) (m : Dict String (CacheEntry V))
      → (k : String) × (t : ℕ) × (oldest_from key time m ≡ k)
        × (((k ≡ key) × (t ≡ time)) ⊎ Binds k t m)
        × (t ≤ time)
        × All (λ other. t ≤ other.1.last_access) m
  unfolding oldest_from Binds
  oldest_found key time [] = (key, time, refl, inl (refl, refl), omega arith, tt)
  oldest_found key time ((j, entry) ∷ m) = elim (Bool-cases (ltb entry.last_access time)) [
    | inl e ↦
        let (k, t, same, found, early, least) = oldest_found j entry.last_access m in
        (k, t, rw (e, same), ground (arith, found), ground (arith, e, early), (early, least))
    | inr e ↦
        let (k, t, same, found, early, least) = oldest_found key time m in
        (k, t, rw (e, same), ground (arith, found), early, (ground (arith, e, early), least))
  ]

  Binds-lookup :
      (k : String) (t : ℕ) (m : Dict String (CacheEntry V))
      → IsDistinct m
      → Binds k t m
      → (entry : CacheEntry V) × (lookup k m ≡ some entry) × (entry.last_access ≡ t)
  unfolding Binds IsDistinct lookup
  Binds-lookup k t [] d b = absurd b
  Binds-lookup k t ((j, entry) ∷ m) (fresh, d) (inl (same, time)) =
      (entry, rw ((==_iff j k).1 same) refl, time)
  Binds-lookup k t ((j, entry) ∷ m) (fresh, d) (inr b) =
      let (found, e, time) = Binds-lookup k t m d b in
      (found, ground (arith, e, fresh, ==_iff j k), time)

  -- In a cache that is not empty the oldest key is there, and no entry was accessed before its own.
  pub oldest_key-found :
      (m : Dict String (CacheEntry V))
      → IsDistinct m
      → 0 < length m
      → (entry : CacheEntry V) × (lookup (oldest_key m) m ≡ some entry)
        × All (λ other. entry.last_access ≤ other.1.last_access) m
  unfolding oldest_key Binds
  oldest_key-found [] d h = absurd (omega arith)
  oldest_key-found ((j, first) ∷ m) d h =
      let (k, t, same, found, early, least) = oldest_found j first.last_access m in
      let bound : Binds k t ((j, first) ∷ m) = elim found [
        | inl (a, b) ↦ inl (sym a, sym b)
        | inr b ↦ inr b
      ] in
      let (entry, e, time) = Binds-lookup k t ((j, first) ∷ m) d bound in
      let all = (j, first) ∷ m in
      (
        entry,
        subst (λ x. lookup x all ≡ some entry) (sym same) e,
        subst (λ s. All (λ other. s ≤ other.1.last_access) all) (sym time) (early, least),
      )

  -- A cache with distinct keys, none the empty text, at least one entry and a size field at the maximum or above makes room by dropping one entry, and no cached entry was accessed before the dropped one.
  pub evicts_oldest :
      (d : DegradedMode V)
      → IsDistinct d.local_cache
      → lookup "" d.local_cache ≡ none
      → 0 < length d.local_cache
      → d.max_cache_size ≤ d.cache_size
      → (key : String) × (entry : CacheEntry V) × (lookup key d.local_cache ≡ some entry)
        × ((make_cache_room d).local_cache ≡ delete key d.local_cache)
        × (length d.local_cache ≡ suc (length (make_cache_room d).local_cache))
        × All (λ other. entry.last_access ≤ other.1.last_access) d.local_cache
  unfolding make_cache_room
  evicts_oldest d distinct unnamed p full =
      let key = oldest_key d.local_cache in
      let (entry, e, least) = oldest_key-found d.local_cache distinct p in
      let size = length-delete key d.local_cache distinct in
      let apart = ==_iff key "" in
      (
        key,
        entry,
        e,
        ground (arith, full, e, unnamed, apart),
        ground (arith, full, e, unnamed, apart, size),
        least,
      )
