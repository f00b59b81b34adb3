-- ===== src/Redis/Idempotency/Replay.antt =====
-- control_plane/store/redis_idempotency.go: a stored result is replayed.
use flux_forge.Base.{string_eq}
