-- ===== src/Degraded/OnRedis.antt =====
-- The reconciliation of control_plane/resilience/reconciliation.go with the Redis store of
-- control_plane/store/redis_versioned.go as its writer.
