-- ===== src/Redis/Versioned.antt =====
-- control_plane/store/redis_versioned.go. The scripts run as one command each. JSON of a stored value
-- is a parameter: its encoder, and the value that a Go interface takes from a JSON text. The versions
-- and timestamps stay below the fourteen digits that cjson prints.
pub mod Scripts
pub mod Hashes
pub mod Writer
pub mod Swap
use flux_forge.Base.{
  ℕ, zero, suc, ◌/◌, String, Bool, true, false, not, Option, none, some, ◌≡◌, ◌==◌, nat_eq, ltb,
  if◌then◌else◌,
}
use flux_forge.Task.{second}
use flux_forge.Degraded.Sync.{VersionedValue, VersionedRedisWriter}
use flux_forge.Redis.{
  RedisServer, VersionedHash, Script, versioned_set_script, versioned_get_script, Reply, ok,
  redis_error, call,
}

-- RedisStore with its server: the fields hold the digest of a script, or the empty text after a failed
-- load.
pub record RedisStore (S : Type 0) : Type 0 where
  pub server : S
  pub versioned_set_sha : Option Script
  pub versioned_get_sha : Option Script

set_result : Reply (Option ℕ) → Option String
set_result (redis_error e) = some "failed to execute versioned set"
set_result (ok none) = some "failed to execute versioned set"
set_result (ok (some n)) =
    if n == 0 then some "version conflict: newer version exists in Redis" else none

-- Any error is a missing value: the client's result is nil with every error, and the test for nil
-- comes before the one for the error.
get_result :
    {V : Type 0}
    → (String → V)
    → Reply (Option (Option VersionedHash))
    → Option (VersionedValue V) × Option String
get_result of_text (redis_error e) = (none, some "not found")
get_result of_text (ok none) = (none, some "not found")
get_result of_text (ok (some none)) = (none, some "not found")
get_result of_text (ok (some (some h))) =
    (some (record { value = of_text h.value; version = h.version; timestamp = h.timestamp }), none)

cas_result : Reply ℕ → Bool × Option String
cas_result (ok n) = (n == 1, none)
cas_result (redis_error e) = (false, some e)

module _ {S : Type 0} (redis : RedisServer S) where
  write_hash : String → VersionedHash → ℕ → S → S
  write_hash key h sec s =
      let s' = redis.hmset key h s in if ltb 0 sec then redis.expire key sec s' else s'

  set_over : String → VersionedHash → ℕ → S → Option VersionedHash → S × ℕ
  unfolding write_hash
  set_over key h sec s none = (write_hash key h sec s, 1)
  set_over key h sec s (some current) =
      if ltb current.version h.version then (write_hash key h sec s, 1) else (s, 0)

  unfoldable pub run_versioned_set : String → VersionedHash → ℕ → S → S × ℕ
  unfolding set_over
  run_versioned_set key h sec s = set_over key h sec s (redis.hash key s)

  unfoldable pub run_versioned_get : String → S → S × Option VersionedHash
  run_versioned_get key s = (s, redis.hash key s)

  cas_over : String → ℕ → VersionedHash → ℕ → S → Option VersionedHash → S × ℕ
  unfolding write_hash
  cas_over key expected h sec s none = (write_hash key h sec s, 1)
  cas_over key expected h sec s (some current) =
      if current.version == expected then (write_hash key h sec s, 1) else (s, 0)

  unfoldable pub run_cas : String → ℕ → VersionedHash → ℕ → S → S × ℕ
  unfolding cas_over
  run_cas key expected h sec s = cas_over key expected h sec s (redis.hash key s)

  -- EVALSHA; `none` is the NOSCRIPT error.
  unfoldable pub eval_sha : {A : Type 0} → Option Script → (S → S × A) → S → S × Reply (Option A)
  eval_sha none command s = call redis (λ x. (x, none)) s
  eval_sha (some script) command s =
      call redis
        (λ x.
          if redis.script_known script x
          then (let (x', a) = command x in (x', some a))
          else (x, none))
        s

  loaded : Script → S × Reply Unit → S × Option Script
  loaded script (s, ok _) = (s, some script)
  loaded script (s, redis_error _) = (s, none)

  unfoldable pub reload : Script → S → S × Option Script
  unfolding loaded
  reload script s = loaded script (call redis (λ x. (redis.script_load script x, tt)) s)

  evaluated :
      {A : Type 0}
      → Script
      → Option Script
      → (S → S × A)
      → S × Reply (Option A)
      → S × Option Script × Reply (Option A)
  unfolding reload eval_sha
  evaluated script sha command (s, redis_error e) = (s, sha, redis_error e)
  evaluated script sha command (s, ok (some a)) = (s, sha, ok (some a))
  evaluated script sha command (s, ok none) =
      let (s', sha') = reload script s in
      let (s'', reply) = eval_sha sha' command s' in (s'', sha', reply)

  -- A script by its digest, loaded again after a NOSCRIPT error.
  unfoldable pub run_script :
      {A : Type 0} → Script → Option Script → (S → S × A) → S → S × Option Script × Reply (Option A)
  unfolding evaluated eval_sha
  run_script script sha command s = evaluated script sha command (eval_sha sha command s)

  module _ {V : Type 0} (marshal : V → Option String) (of_text : String → V) where
    set_text :
        String → VersionedValue V → ℕ → RedisStore S → Option String → RedisStore S × Option String
    unfolding run_script run_versioned_set set_result
    set_text key value ttl r none = (r, some "failed to marshal value")
    set_text key value ttl r (some json) =
        let h : VersionedHash = record {
          value = json;
          version = value.version;
          timestamp = value.timestamp;
        } in
        let command = run_versioned_set key h (ttl / second) in
        let (s', sha, reply) =
          run_script versioned_set_script r.versioned_set_sha command r.server in
        (record r { server = s'; versioned_set_sha = sha }, set_result reply)

    unfoldable pub set_versioned :
        String → VersionedValue V → ℕ → RedisStore S → RedisStore S × Option String
    unfolding set_text
    set_versioned key value ttl r = set_text key value ttl r (marshal value.value)

    unfoldable pub get_versioned :
        String → RedisStore S → RedisStore S × Option (VersionedValue V) × Option String
    unfolding run_script run_versioned_get get_result
    get_versioned key r =
        let command = run_versioned_get key in
        let (s', sha, reply) =
          run_script versioned_get_script r.versioned_get_sha command r.server in
        let (found, err) = get_result of_text reply in
        (record r { server = s'; versioned_get_sha = sha }, found, err)

    cas_text :
        String
        → ℕ
        → VersionedValue V
        → ℕ
        → RedisStore S
        → Option String
        → RedisStore S × Bool × Option String
    unfolding run_cas cas_result
    cas_text key expected value ttl r none = (r, false, some "marshal")
    cas_text key expected value ttl r (some json) =
        let h : VersionedHash = record {
          value = json;
          version = value.version;
          timestamp = value.timestamp;
        } in
        let (s', reply) = call redis (run_cas key expected h (ttl / second)) r.server in
        let (done, err) = cas_result reply in (record r { server = s' }, done, err)

    unfoldable pub compare_and_set_versioned :
        String → ℕ → VersionedValue V → ℕ → RedisStore S → RedisStore S × Bool × Option String
    unfolding cas_text
    compare_and_set_versioned key expected value ttl r =
        cas_text key expected value ttl r (marshal value.value)

    unfoldable pub redis_writer : VersionedRedisWriter V (RedisStore S)
    unfolding get_versioned set_versioned
    redis_writer = record { get_versioned = get_versioned; set_versioned = set_versioned }
