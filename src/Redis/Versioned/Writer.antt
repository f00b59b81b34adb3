-- ===== src/Redis/Versioned/Writer.antt =====
-- control_plane/store/redis_versioned.go is the writer that the reconciliation of
-- control_plane/resilience/reconciliation.go expects.
use flux_forge.Base.{
  ℕ, ◌/◌, ◌<◌, String, Option, none, some, ◌≡◌, ◌≢◌, ◌⊎◌, refl, ◌∙◌, nat_eq, string_eq, arith,
  ==_iff,
}
use flux_forge.Task.{second}
use flux_forge.Redis.{RedisServer, HashLaws, VersionedHash, Script}
use flux_forge.Degraded.Sync.{VersionedValue}
use flux_forge.Redis.Versioned.{
  RedisStore, run_versioned_set, run_versioned_get, set_result, get_result, set_text, set_versioned,
  get_versioned,
}
use flux_forge.Redis.Versioned.Scripts.{run_script_cases}
use flux_forge.Redis.Versioned.Hashes.{version_of, set_hashes}

module _ {S : Type 0} (redis : RedisServer S) (laws : HashLaws redis) where
  abbrev pub stored_version : RedisStore S → String → ℕ
  stored_version r k = version_of (redis.hash k r.server)

  -- The hashes are those of x.
  abbrev pub SameHashes : S → S → Type 0
  SameHashes x y = (j : String) → redis.hash j y ≡ redis.hash j x

  pub reloads :
      (x y : S) (script : Script) → SameHashes x y → SameHashes x (redis.script_load script y)
  reloads x y script same j = laws.hash-script_load script j y ∙ same j

  module _ {V : Type 0} (marshal : V → Option String) (of_text : String → V) where
    pub get_keeps :
        (k j : String) (r : RedisStore S)
        → redis.hash j (get_versioned redis marshal of_text k r).0.server ≡ redis.hash j r.server
    unfolding get_versioned run_versioned_get
    get_keeps k j r =
        run_script_cases redis (SameHashes r.server) (reloads r.server) (run_versioned_get redis k)
          (λ x reply. redis.hash j x ≡ redis.hash j r.server) (λ x e same. same j)
          (λ x same. same j) (λ x e same. same j) (λ x same. same j) _ r.versioned_get_sha r.server
          (λ i. refl)

    pub get_finds :
        (k : String) (r : RedisStore S) (v : VersionedValue V)
        → (get_versioned redis marshal of_text k r).1 ≡ some v
        → stored_version r k ≡ v.version
    unfolding get_versioned run_versioned_get get_result
    get_finds k r v =
        run_script_cases redis (SameHashes r.server) (reloads r.server) (run_versioned_get redis k)
          (λ x reply. (get_result of_text reply).0 ≡ some v → stored_version r k ≡ v.version)
          (λ x e same h. ground arith) (λ x same h. ground arith) (λ x e same h. ground arith)
          (λ x same h. ground (arith, h, same k)) _ r.versioned_get_sha r.server (λ i. refl)

    -- At one key: the hash stays, or is the value's, over none that is newer; without an error it is.
    text_outcome :
        (k j : String) (v : VersionedValue V) (ttl : ℕ) (r : RedisStore S) (json : Option String)
        → let (r', err) = set_text redis marshal of_text k v ttl r json in
          ((err ≢ none) × (redis.hash j r'.server ≡ redis.hash j r.server))
          ⊎ ((k ≢ j) × (redis.hash j r'.server ≡ redis.hash j r.server))
          ⊎ ((k ≡ j)
              × (redis.hash k r'.server ≢ none)
              × (version_of (redis.hash k r'.server) ≡ v.version)
              × ((redis.hash k r.server ≡ none) ⊎ (version_of (redis.hash k r.server) < v.version)))
    unfolding set_text set_result
    text_outcome k j v ttl r none = ground arith
    text_outcome k j v ttl r (some json) =
        let h : VersionedHash = record {
          value = json;
          version = v.version;
          timestamp = v.timestamp;
        } in
        run_script_cases redis (SameHashes r.server) (reloads r.server)
          (run_versioned_set redis k h (ttl / second))
          (λ x reply.
            ((set_result reply ≢ none) × (redis.hash j x ≡ redis.hash j r.server))
            ⊎ ((k ≢ j) × (redis.hash j x ≡ redis.hash j r.server))
            ⊎ ((k ≡ j)
                × (redis.hash k x ≢ none)
                × (version_of (redis.hash k x) ≡ v.version)
                × ((redis.hash k r.server ≡ none)
                    ⊎ (version_of (redis.hash k r.server) < v.version))))
          (λ x e same. ground (arith, same j)) (λ x same. ground (arith, same j))
          (λ x e same. ground (
            arith,
            same j,
            same k,
            set_hashes redis laws k j h (ttl / second) x,
            set_hashes redis laws k k h (ttl / second) x,
            ==_iff k j,
            ==_iff k k,
          ))
          (λ x same. ground (
            arith,
            same j,
            same k,
            set_hashes redis laws k j h (ttl / second) x,
            set_hashes redis laws k k h (ttl / second) x,
            ==_iff k j,
            ==_iff k k,
          ))
          _ r.versioned_set_sha r.server (λ i. refl)

    pub set_outcome :
        (k j : String) (v : VersionedValue V) (ttl : ℕ) (r : RedisStore S)
        → let (r', err) = set_versioned redis marshal of_text k v ttl r in
          ((err ≢ none) × (redis.hash j r'.server ≡ redis.hash j r.server))
          ⊎ ((k ≢ j) × (redis.hash j r'.server ≡ redis.hash j r.server))
          ⊎ ((k ≡ j)
              × (redis.hash k r'.server ≢ none)
              × (version_of (redis.hash k r'.server) ≡ v.version)
              × ((redis.hash k r.server ≡ none) ⊎ (version_of (redis.hash k r.server) < v.version)))
    unfolding set_versioned
    set_outcome k j v ttl r = text_outcome k j v ttl r (marshal v.value)
