-- ===== src/Examples/OnRedis.antt =====
-- The degraded mode with the Redis store as its writer, on the server of Examples/Redis.
use flux_forge.Base.{[], nat_eq, string_eq}
use flux_forge.Base.Dict.{insert}
use flux_forge.Redis.Versioned.{RedisStore}
use flux_forge.Examples.Redis.{Memory, empty_memory, server}
use flux_forge.Examples.RedisStates.{started}

-- Redis has a newer value under b.
abbrev newer_b : RedisStore Memory
newer_b = record started {
  server = record empty_memory {
    hashes = insert "b" (record { value = "new"; version = 7; timestamp = 9 }) [];
  };
}

abbrev synced : RedisStore Memory
synced = record started {
  server = record empty_memory {
    hashes =
        insert "a" (record { value = "x"; version = 1; timestamp = 2 })
          (insert "b" (record { value = "new"; version = 7; timestamp = 9 }) []);
  };
}
