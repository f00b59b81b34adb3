-- ===== src/Degraded.antt =====
-- control_plane/resilience/degraded_mode.go: the fallback cache and the writes that wait for Redis.
-- The mutex makes each method one step. Times are nanoseconds of one clock, `now` is the reading of
-- the call, and a time that was never set is 0. Log lines are left out.
pub mod Sync
pub mod Coordinator
pub mod Eviction
pub mod Bounds
pub mod Marks
pub mod Versions
pub mod Histories
pub mod OnRedis
use flux_forge.Base.{
  ℕ, suc, ◌+◌, ◌-◌, ◌/◌, String, Bool, true, false, not, ◌&&◌, Option, none, some, List, [], ◌∷◌,
  ◌++◌, ◌==◌, nat_eq, string_eq, ltb, leb, if◌then◌else◌, length,
}
use flux_forge.Base.Dict.{Dict, lookup, insert, delete}
use flux_forge.Base.Text.{◌<>◌}
use flux_forge.Task.{second}

-- Value is an interface{}: any type.
pub record PendingWrite (V : Type 0) : Type 0 where
  pub key : String
  pub value : V
  pub timestamp : ℕ
  pub ttl : ℕ
  pub version : ℕ
  pub reconciled : Bool

pub record CacheEntry (V : Type 0) : Type 0 where
  pub value : V
  pub last_access : ℕ

pub record DegradedMode (V : Type 0) : Type 0 where
  pub redis_available : Bool
  pub db_available : Bool
  pub nats_available : Bool
  pub local_cache : Dict String (CacheEntry V)
  pub cache_size : ℕ
  pub max_cache_size : ℕ
  pub pending_writes : List (PendingWrite V)
  pub max_pending_writes : ℕ
  pub current_version : ℕ
  pub degraded_mode_active : Bool
  pub last_redis_check : ℕ
  pub last_db_check : ℕ

module _ {V : Type 0} where
  unfoldable pub new_degraded_mode : DegradedMode V
  new_degraded_mode = record {
    redis_available = true;
    db_available = true;
    nats_available = true;
    local_cache = [];
    cache_size = 0;
    max_cache_size = 10000;
    pending_writes = [];
    max_pending_writes = 10000;
    current_version = 0;
    degraded_mode_active = false;
    last_redis_check = 0;
    last_db_check = 0;
  }

  unfoldable pub mark_redis_unavailable : ℕ → DegradedMode V → DegradedMode V
  mark_redis_unavailable now d =
      if d.redis_available
      then record d { redis_available = false; degraded_mode_active = true; last_redis_check = now }
      else d

  unfoldable pub check_degraded_mode : DegradedMode V → DegradedMode V
  check_degraded_mode d =
      if d.redis_available && d.db_available && d.nats_available
      then record d { degraded_mode_active = false }
      else d

  unfoldable pub mark_redis_available : DegradedMode V → DegradedMode V
  unfolding check_degraded_mode
  mark_redis_available d =
      if not d.redis_available then check_degraded_mode (record d { redis_available = true }) else d

  unfoldable pub mark_db_unavailable : ℕ → DegradedMode V → DegradedMode V
  mark_db_unavailable now d =
      if d.db_available
      then record d { db_available = false; degraded_mode_active = true; last_db_check = now }
      else d

  unfoldable pub mark_db_available : DegradedMode V → DegradedMode V
  unfolding check_degraded_mode
  mark_db_available d =
      if not d.db_available then check_degraded_mode (record d { db_available = true }) else d

  touch : ℕ → String → DegradedMode V → Option (CacheEntry V) → DegradedMode V × Option V
  touch now key d none = (d, none)
  touch now key d (some entry) = (
    record d { local_cache = insert key (record entry { last_access = now }) d.local_cache },
    some entry.value,
  )

  unfoldable pub get_from_cache : ℕ → String → DegradedMode V → DegradedMode V × Option V
  unfolding touch
  get_from_cache now key d = touch now key d (lookup key d.local_cache)

  -- `append(p[:i], p[i+1:]...)` for the first i that is not reconciled.
  unfoldable pub drop_oldest : List (PendingWrite V) → List (PendingWrite V)
  drop_oldest [] = []
  drop_oldest (w ∷ ws) = if not w.reconciled then ws else w ∷ drop_oldest ws

  -- The loop's oldestKey, with the access time that comes with it.
  unfoldable pub oldest_from : String → ℕ → Dict String (CacheEntry V) → String
  oldest_from key time [] = key
  oldest_from key time ((k, entry) ∷ m) =
      if ltb entry.last_access time
      then oldest_from k entry.last_access m
      else oldest_from key time m

  unfoldable pub oldest_key : Dict String (CacheEntry V) → String
  unfolding oldest_from
  oldest_key [] = ""
  oldest_key ((k, entry) ∷ m) = oldest_from k entry.last_access m

  unfoldable pub make_pending_room : DegradedMode V → DegradedMode V
  make_pending_room d =
      if leb d.max_pending_writes (length d.pending_writes)
      then record d { pending_writes = drop_oldest d.pending_writes }
      else d

  -- A cache whose oldest key is the empty text evicts nothing.
  unfoldable pub make_cache_room : DegradedMode V → DegradedMode V
  make_cache_room d =
      let oldest = oldest_key d.local_cache in
      if leb d.max_cache_size d.cache_size && not (oldest == "")
      then record d { local_cache = delete oldest d.local_cache; cache_size = d.cache_size - 1 }
      else d

  unfoldable pub is_cached : String → DegradedMode V → Bool
  is_cached key d = elim (lookup key d.local_cache) [ none ↦ false | some _ ↦ true ]

  unfoldable pub store_entry : ℕ → String → V → DegradedMode V → DegradedMode V
  unfolding is_cached
  store_entry now key value d = record d {
    cache_size = if is_cached key d then d.cache_size else suc d.cache_size;
    local_cache = insert key (record { value = value; last_access = now }) d.local_cache;
  }

  unfoldable pub track_write : ℕ → String → V → ℕ → DegradedMode V → DegradedMode V
  track_write now key value ttl d = record d {
    current_version = suc d.current_version;
    pending_writes =
        d.pending_writes
        ++ record {
          key = key;
          value = value;
          timestamp = now / second;
          ttl = ttl;
          version = suc d.current_version;
          reconciled = false;
        }
          ∷ [];
  }

  unfoldable pub set_in_cache_with_ttl : ℕ → String → V → ℕ → DegradedMode V → DegradedMode V
  unfolding make_pending_room make_cache_room store_entry track_write
  set_in_cache_with_ttl now key value ttl d =
      track_write now key value ttl
        (store_entry now key value (make_cache_room (make_pending_room d)))

  unfoldable pub set_in_cache : ℕ → String → V → DegradedMode V → DegradedMode V
  unfolding set_in_cache_with_ttl
  set_in_cache now key value d = set_in_cache_with_ttl now key value 0 d

  unfoldable pub clear_cache : DegradedMode V → DegradedMode V
  clear_cache d = record d { local_cache = []; cache_size = 0 }

  unfoldable pub health_check : DegradedMode V → Dict String Bool
  health_check d =
      ("redis", d.redis_available)
      ∷ ("database", d.db_available)
      ∷ ("nats", d.nats_available)
      ∷ ("degraded", d.degraded_mode_active)
      ∷ []

  unfoldable pub get_pending_write_count : DegradedMode V → ℕ
  get_pending_write_count d = length d.pending_writes

-- The two operations act on a state S and fail with a text; the error of the fallback is wrapped.
unfoldable pub with_fallback :
    {S : Type 0} → (S → S × Option String) → (S → S × Option String) → S → S × Option String
with_fallback primary fallback s =
    let (s', err) = primary s in
    elim err [
      | none ↦ (s', none)
      | some _ ↦
          let (s'', fallback_err) = fallback s' in
          (
            s'',
            elim fallback_err [
              | none ↦ none
              | some e ↦ some ("both primary and fallback failed: " <> e)
            ],
          )
    ]
