-- ===== src/Redis/Versioned/Swap.antt =====
-- control_plane/store/redis_versioned.go: the versions under one key, over every sequence of versioned
-- reads, writes and swaps.
use flux_forge.Base.{
  ℕ, ◌/◌, ◌≤◌, ◌<◌, String, true, false, Option, none, some, ◌≡◌, ◌≢◌, ◌⊎◌, refl, nat_eq, string_eq,
  arith, ==_iff, inl,
}
use flux_forge.Task.{second}
use flux_forge.Redis.{RedisServer, HashLaws, VersionedHash}
use flux_forge.Redis.Calls.{call_cases}
use flux_forge.Degraded.Sync.{VersionedValue}
use flux_forge.Redis.Versioned.{
  RedisStore, run_cas, cas_result, cas_text, compare_and_set_versioned, set_versioned,
  get_versioned,
}
use flux_forge.Redis.Versioned.Hashes.{version_of, cas_hashes}
use flux_forge.Redis.Versioned.Writer.{stored_version, get_keeps, set_outcome}

-- An operation under any key, or time passing without the key k expiring; a swap never lowers the
-- version.
pub data Write {S V : Type 0} (redis : RedisServer S) (marshal : V → Option String)
    (of_text : String → V) (k : String) (r : RedisStore S) : RedisStore S → Type 0 where
  asking :
      (j : String) → Write redis marshal of_text k r (get_versioned redis marshal of_text j r).0
  setting :
      (j : String) (v : VersionedValue V) (ttl : ℕ)
      → Write redis marshal of_text k r (set_versioned redis marshal of_text j v ttl r).0
  swapping :
      (j : String) (expected : ℕ) (v : VersionedValue V) (ttl : ℕ)
      → expected ≤ v.version
      → Write redis marshal of_text k r
          (compare_and_set_versioned redis marshal of_text j expected v ttl r).0
  passing :
      {q : RedisStore S}
      → redis.hash k q.server ≡ redis.hash k r.server
      → Write redis marshal of_text k r q

pub data Writes {S V : Type 0} (redis : RedisServer S) (marshal : V → Option String)
    (of_text : String → V) (k : String) (r : RedisStore S) : RedisStore S → Type 0 where
  start : Writes redis marshal of_text k r r
  later :
      {p q : RedisStore S}
      → Writes redis marshal of_text k r p
      → Write redis marshal of_text k p q
      → Writes redis marshal of_text k r q

module _ {S V : Type 0} (redis : RedisServer S) (laws : HashLaws redis)
    (marshal : V → Option String) (of_text : String → V) where
  cas_outcome :
      (k j : String) (expected : ℕ) (v : VersionedValue V) (ttl : ℕ) (r : RedisStore S)
      (json : Option String)
      → let (r', told, err) = cas_text redis marshal of_text k expected v ttl r json in
        ((told ≡ false) × (redis.hash j r'.server ≡ redis.hash j r.server))
        ⊎ ((k ≢ j) × (redis.hash j r'.server ≡ redis.hash j r.server))
        ⊎ ((k ≡ j)
            × (redis.hash k r'.server ≢ none)
            × (version_of (redis.hash k r'.server) ≡ v.version)
            × ((redis.hash k r.server ≡ none) ⊎ (version_of (redis.hash k r.server) ≡ expected)))
  unfolding cas_text cas_result
  cas_outcome k j expected v ttl r none = ground arith
  cas_outcome k j expected v ttl r (some json) =
      let h : VersionedHash = record {
        value = json;
        version = v.version;
        timestamp = v.timestamp;
      } in
      let here = cas_hashes redis laws k k expected h (ttl / second) r.server in
      let there = cas_hashes redis laws k j expected h (ttl / second) r.server in
      call_cases redis
        (λ x.
          (((cas_result x.1).0 ≡ false) × (redis.hash j x.0 ≡ redis.hash j r.server))
          ⊎ ((k ≢ j) × (redis.hash j x.0 ≡ redis.hash j r.server))
          ⊎ ((k ≡ j)
              × (redis.hash k x.0 ≢ none)
              × (version_of (redis.hash k x.0) ≡ v.version)
              × ((redis.hash k r.server ≡ none) ⊎ (version_of (redis.hash k r.server) ≡ expected))))
        (run_cas redis k expected h (ttl / second)) r.server (λ e. inl (refl, refl))
        (λ e. ground (arith, here, there, ==_iff k j, ==_iff k k))
        (ground (arith, here, there, ==_iff k j, ==_iff k k))

  Write-grows :
      (k : String) (r q : RedisStore S)
      → Write redis marshal of_text k r q
      → (stored_version redis laws r k ≤ stored_version redis laws q k)
        × (redis.hash k r.server ≢ none → redis.hash k q.server ≢ none)
  unfolding compare_and_set_versioned
  Write-grows k r _ (asking j) = ground (arith, get_keeps redis laws marshal of_text j k r)
  Write-grows k r _ (setting j v ttl) =
      ground (arith, set_outcome redis laws marshal of_text j k v ttl r)
  Write-grows k r _ (swapping j expected v ttl up) =
      ground (arith, up, cas_outcome j k expected v ttl r (marshal v.value))
  Write-grows k r q (passing same) = ground (arith, same)

  Writes-grow :
      (k : String) (r q : RedisStore S)
      → Writes redis marshal of_text k r q
      → (stored_version redis laws r k ≤ stored_version redis laws q k)
        × (redis.hash k r.server ≢ none → redis.hash k q.server ≢ none)
  Writes-grow k r _ start = (omega arith, λ h. h)
  Writes-grow k r q (later {p} before step) =
      let (low, kept) = Writes-grow k r p before in
      let (high, kept') = Write-grows k p q step in (omega (arith, low, high), λ h. kept' (kept h))

  -- A swap that tells `true` and raises the version has replaced exactly the version that its caller expected, or a missing value; and whatever reads, writes and swaps follow that never lower a version, while the key does not expire, the stored version is no older than the swap's, and no other swap that expects the same version tells `true`, whether calls fail or replies get lost in between.
  pub cas_exclusive :
      (k : String) (expected : ℕ) (v w : VersionedValue V) (ttl ttl' : ℕ) (r q : RedisStore S)
      → (compare_and_set_versioned redis marshal of_text k expected v ttl r).1 ≡ true
      → expected < v.version
      → Writes redis marshal of_text k
          (compare_and_set_versioned redis marshal of_text k expected v ttl r).0
          q
      → ((redis.hash k r.server ≡ none) ⊎ (stored_version redis laws r k ≡ expected))
        × (v.version ≤ stored_version redis laws q k)
        × ((compare_and_set_versioned redis marshal of_text k expected w ttl' q).1 ≡ false)
  unfolding compare_and_set_versioned
  cas_exclusive k expected v w ttl ttl' r q told up writes =
      let first = cas_outcome k k expected v ttl r (marshal v.value) in
      let (low, kept) = Writes-grow k _ q writes in
      let second_try = cas_outcome k k expected w ttl' q (marshal w.value) in
      (
        ground (arith, told, first),
        ground (arith, told, first, low),
        ground (arith, told, up, first, low, kept, second_try),
      )
