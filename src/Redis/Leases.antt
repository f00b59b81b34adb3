-- ===== src/Redis/Leases.antt =====
-- control_plane/store/redis.go: locks, leases and epochs. Sub-second times to live reach Redis as the
-- client rounds them.
pub mod Texts
pub mod Exclusion
pub mod Coordination
use flux_forge.Base.{
  ℕ, zero, suc, ◌/◌, String, Bool, true, false, Option, none, some, List, [], ◌==◌, string_eq,
  if◌then◌else◌,
}
use flux_forge.Base.Int.{ℤ, pos, negsuc}
use flux_forge.Base.Text.{◌<>◌}
use flux_forge.Leader.{Coordinator, EpochStore}
use flux_forge.Redis.{RedisServer, Reply, ok, redis_error, call, read}

abbrev pub or_empty : Option String → String
or_empty none = ""
or_empty (some v) = v

flag : {S : Type 0} → S × Reply Bool → S × Bool × Option String
flag (s, ok b) = (s, b, none)
flag (s, redis_error e) = (s, false, some e)

error_of : {S A : Type 0} → S × Reply A → S × Option String
error_of (s, ok _) = (s, none)
error_of (s, redis_error e) = (s, some e)

text : Reply (Option String) → String × Option String
text (ok v) = (or_empty v, none)
text (redis_error e) = ("", some e)

-- The codes of the renewal script: 1 and 0 are PEXPIRE's, -1 a missing key, -2 another owner.
renewal : {S : Type 0} → S × Reply ℤ → S × Bool × Option String
renewal (s, redis_error e) = (s, false, some e)
renewal (s, ok (pos zero)) = (s, false, none)
renewal (s, ok (pos (suc zero))) = (s, true, none)
renewal (s, ok (negsuc zero)) = (s, false, none)
renewal (s, ok (negsuc (suc zero))) = (s, false, none)
renewal (s, ok _) = (s, false, some "unexpected return type from lua script")

owned_by : String → String × Option String → Bool × Option String
owned_by value (owner, none) = (owner == value, none)
owned_by value (owner, some e) = (false, some e)

listed : Reply (List String) → List String × Option String
listed (ok keys) = (keys, none)
listed (redis_error e) = ([], some e)

counted : {S : Type 0} → S × Reply ℕ → S × Option ℕ
counted (s, ok n) = (s, some n)
counted (s, redis_error e) = (s, none)

stored_epoch : Reply (Option ℕ) → Option ℕ
stored_epoch (ok none) = some 0
stored_epoch (ok (some n)) = some n
stored_epoch (redis_error e) = none

module _ {S : Type 0} (redis : RedisServer S) where
  unfoldable pub acquire_lock : String → String → ℕ → S → S × Bool × Option String
  unfolding flag
  acquire_lock key owner_id ttl s = flag (call redis (redis.set_nx key owner_id ttl) s)

  renew_owned : String → String → ℕ → S → Option String → S × ℤ
  renew_owned key owner_id ms s none = (s, negsuc 0)
  renew_owned key owner_id ms s (some val) =
      if val == owner_id
      then (let (s', n) = redis.pexpire key ms s in (s', pos n))
      else (s, negsuc 1)

  unfoldable pub renew_script : String → String → ℕ → S → S × ℤ
  unfolding renew_owned
  renew_script key owner_id ms s = renew_owned key owner_id ms s (redis.get key s)

  unfoldable pub renew_lock : String → String → ℕ → S → S × Bool × Option String
  unfolding renewal renew_script
  renew_lock key owner_id ttl s = renewal (call redis (renew_script key owner_id (ttl / 1000000)) s)

  release_owned : String → String → S → Option String → S × ℕ
  release_owned key owner_id s none = (s, 0)
  release_owned key owner_id s (some val) = if val == owner_id then redis.del key s else (s, 0)

  unfoldable pub release_script : String → String → S → S × ℕ
  unfolding release_owned
  release_script key owner_id s = release_owned key owner_id s (redis.get key s)

  unfoldable pub release_lock : String → String → S → S × Option String
  unfolding error_of release_script
  release_lock key owner_id s = error_of (call redis (release_script key owner_id) s)

  unfoldable pub get_lock_owner : String → S → String × Option String
  unfolding text
  get_lock_owner key s = text (read redis (redis.get key) s)

  unfoldable pub acquire_lease : String → String → ℕ → S → S × Bool × Option String
  unfolding acquire_lock
  acquire_lease = acquire_lock

  unfoldable pub renew_lease : String → String → ℕ → S → S × Bool × Option String
  unfolding renew_lock
  renew_lease = renew_lock

  unfoldable pub release_lease : String → String → S → S × Option String
  unfolding release_lock
  release_lease = release_lock

  unfoldable pub is_lease_owner : String → String → S → Bool × Option String
  unfolding get_lock_owner owned_by
  is_lease_owner key value s = owned_by value (get_lock_owner key s)

  unfoldable pub scan_locks : String → S → List String × Option String
  unfolding listed
  scan_locks pattern s = listed (read redis (redis.scan pattern) s)

  unfoldable pub increment_epoch : String → S → S × Option ℕ
  unfolding counted
  increment_epoch key s = counted (call redis (redis.incr (key <> ":epoch")) s)

  unfoldable pub increment_durable_epoch : String → S → S × Option ℕ
  unfolding increment_epoch
  increment_durable_epoch = increment_epoch

  unfoldable pub get_durable_epoch : String → S → Option ℕ
  unfolding stored_epoch
  get_durable_epoch resource_id s =
      stored_epoch (read redis (redis.get_int64 (resource_id <> ":epoch")) s)

  unfoldable pub redis_coordinator : Coordinator S
  unfolding acquire_lease renew_lease release_lease get_lock_owner scan_locks
  redis_coordinator = record {
    acquire_lease = acquire_lease;
    renew_lease = renew_lease;
    release_lease = release_lease;
    get_lock_owner = get_lock_owner;
    scan_locks = scan_locks;
  }

  unfoldable pub redis_epochs : EpochStore S
  unfolding increment_durable_epoch get_durable_epoch
  redis_epochs = record {
    increment_durable_epoch = increment_durable_epoch;
    get_durable_epoch = get_durable_epoch;
  }
