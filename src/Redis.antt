-- ===== src/Redis.antt =====
-- Redis as control_plane/store/redis.go uses it. The server and the go-redis client are parameters:
-- a record of the commands, with the laws that their documentation states. A call of the client may
-- fail before the server runs the command, or after, when the reply is lost; a read that fails
-- leaves the server as it is. Expiry is left to the server's state. A time to live is in
-- nanoseconds, but for PEXPIRE, in milliseconds, and EXPIRE, in seconds. A key that holds another
-- kind of value than the command's is left out, and so are the latency metrics.
pub mod Leases
pub mod Calls
pub mod Versioned
pub mod Records
pub mod States
pub mod Idempotency
use flux_forge.Base.{
  ℕ, ◌+◌, ◌<◌, String, Bool, true, false, Option, none, some, List, ◌≡◌, ◌==◌, string_eq,
  if◌then◌else◌,
}
use flux_forge.Base.Distinct.{is_some}

-- A hash that the scripts write: HMSET writes its three fields together. Redis keeps numbers as texts,
-- which tonumber reads back.
pub record VersionedHash : Type 0 where
  pub value : String
  pub version : ℕ
  pub timestamp : ℕ

pub data Script : Type 0 where
  versioned_set_script versioned_get_script : Script

pub record RedisServer (S : Type 0) : Type 0 where
  pub get : String → S → Option String
  pub get_int64 : String → S → Option ℕ
  pub set : String → String → ℕ → S → S
  pub set_nx : String → String → ℕ → S → S × Bool
  pub del : String → S → S × ℕ
  pub pexpire : String → ℕ → S → S × ℕ
  pub incr : String → S → S × ℕ
  pub scan : String → S → List String
  pub hash : String → S → Option VersionedHash
  pub hmset : String → VersionedHash → S → S
  pub expire : String → ℕ → S → S
  pub script_known : Script → S → Bool
  pub script_load : Script → S → S
  pub refuses : S → Option String
  pub loses : S → Option String

-- What the commands do to texts.
pub record TextLaws {S : Type 0} (redis : RedisServer S) : Type 0 where
  pub get-set :
      (k j v : String) (ttl : ℕ) (s : S)
      → redis.get j (redis.set k v ttl s) ≡ (if k == j then some v else redis.get j s)
  pub set_nx_lem :
      (k v : String) (ttl : ℕ) (s : S)
      → redis.set_nx k v ttl s
        ≡ (if is_some (redis.get k s) then (s, false) else (redis.set k v ttl s, true))
  pub get-del :
      (k j : String) (s : S)
      → redis.get j (redis.del k s).0 ≡ (if k == j then none else redis.get j s)
  -- A time to live that is not positive deletes the key.
  pub get-pexpire :
      (k j : String) (ms : ℕ) (s : S)
      → 0 < ms
      → redis.get j (redis.pexpire k ms s).0 ≡ redis.get j s

-- What the commands do to hashes, SCRIPT LOAD included.
pub record HashLaws {S : Type 0} (redis : RedisServer S) : Type 0 where
  pub hash-hmset :
      (k j : String) (h : VersionedHash) (s : S)
      → redis.hash j (redis.hmset k h s) ≡ (if k == j then some h else redis.hash j s)
  pub hash-expire :
      (k j : String) (sec : ℕ) (s : S)
      → 0 < sec
      → redis.hash j (redis.expire k sec s) ≡ redis.hash j s
  pub hash-script_load :
      (x : Script) (j : String) (s : S) → redis.hash j (redis.script_load x s) ≡ redis.hash j s

-- What INCR does to a counter, 0 where the key is missing.
pub record CounterLaws {S : Type 0} (redis : RedisServer S) (counter : S → String → ℕ)
    : Type 0 where
  pub counts : (k : String) (s : S) → (redis.incr k s).1 ≡ counter s k + 1
  pub counter-incr : (k : String) (s : S) → counter (redis.incr k s).0 k ≡ counter s k + 1
  pub reads : (k : String) (s : S) (n : ℕ) → redis.get_int64 k s ≡ some n → counter s k ≡ n
  pub misses : (k : String) (s : S) → redis.get_int64 k s ≡ none → counter s k ≡ 0

-- The outcome of a call.
pub data Reply (A : Type 0) : Type 0 where
  ok : A → Reply A
  redis_error : String → Reply A

module _ {S : Type 0} (redis : RedisServer S) where
  received : {A : Type 0} → S × A → Option String → S × Reply A
  received (s, a) none = (s, ok a)
  received (s, a) (some e) = (s, redis_error e)

  sent : {A : Type 0} → (S → S × A) → S → Option String → S × Reply A
  unfolding received
  sent command s none = let r = command s in received r (redis.loses r.0)
  sent command s (some e) = (s, redis_error e)

  -- One round trip to the server.
  unfoldable pub call : {A : Type 0} → (S → S × A) → S → S × Reply A
  unfolding sent
  call command s = sent command s (redis.refuses s)

  -- A command that only reads.
  unfoldable pub read : {A : Type 0} → (S → A) → S → Reply A
  unfolding call
  read command s = (call (λ x. (x, command x)) s).1
