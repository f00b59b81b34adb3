-- ===== src/Redis/Versioned/Hashes.antt =====
-- control_plane/store/redis_versioned.go: what the two writing scripts do to the hashes.
use flux_forge.Base.{
  ℕ, ◌<◌, String, Option, none, some, ◌≡◌, ◌⊎◌, refl, ◌∙◌, ◌==◌, nat_eq, string_eq, ltb,
  if◌then◌else◌, arith, inl, inr, Bool-cases, Option-cases,
}
use flux_forge.Redis.{RedisServer, HashLaws, VersionedHash}
use flux_forge.Redis.Versioned.{write_hash, set_over, run_versioned_set, cas_over, run_cas}

abbrev pub version_of : Option VersionedHash → ℕ
version_of none = 0
version_of (some h) = h.version

module _ {S : Type 0} (redis : RedisServer S) (laws : HashLaws redis) where
  hash-write_hash :
      (k j : String) (h : VersionedHash) (sec : ℕ) (x : S)
      → redis.hash j (write_hash redis k h sec x) ≡ (if k == j then some h else redis.hash j x)
  unfolding write_hash
  hash-write_hash k j h sec x = elim (Bool-cases (ltb 0 sec)) [
    | inl limited ↦ rw limited (
        laws.hash-expire k j sec (redis.hmset k h x) (ground (arith, limited))
        ∙ laws.hash-hmset k j h x)
    | inr unlimited ↦ rw unlimited (laws.hash-hmset k j h x)
  ]

  pub set_hashes :
      (k j : String) (h : VersionedHash) (sec : ℕ) (x : S)
      → let (x', code) = run_versioned_set redis k h sec x in
        ((code ≡ 0) × (redis.hash j x' ≡ redis.hash j x))
        ⊎ ((code ≡ 1)
            × (redis.hash j x' ≡ (if k == j then some h else redis.hash j x))
            × ((redis.hash k x ≡ none) ⊎ (version_of (redis.hash k x) < h.version)))
  unfolding run_versioned_set set_over
  set_hashes k j h sec x = elim (Option-cases (redis.hash k x)) [
    | inl free ↦ rw free (inr (refl, hash-write_hash k j h sec x, inl refl))
    | inr (old, held) ↦ rw held (ground (arith, hash-write_hash k j h sec x))
  ]

  pub cas_hashes :
      (k j : String) (expected : ℕ) (h : VersionedHash) (sec : ℕ) (x : S)
      → let (x', code) = run_cas redis k expected h sec x in
        ((code ≡ 0) × (redis.hash j x' ≡ redis.hash j x))
        ⊎ ((code ≡ 1)
            × (redis.hash j x' ≡ (if k == j then some h else redis.hash j x))
            × ((redis.hash k x ≡ none) ⊎ (version_of (redis.hash k x) ≡ expected)))
  unfolding run_cas cas_over
  cas_hashes k j expected h sec x = elim (Option-cases (redis.hash k x)) [
    | inl free ↦ rw free (inr (refl, hash-write_hash k j h sec x, inl refl))
    | inr (old, held) ↦ rw held (ground (arith, hash-write_hash k j h sec x))
  ]
