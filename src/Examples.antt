-- ===== src/Examples.antt =====
-- The theorems at concrete inputs, and tests of the definitions.
mod Breaker
mod Queue
mod Scheduler
mod Shards
mod Degraded
mod Leader
mod Reconciler
mod Redis
mod RedisLeases
mod RedisStates
mod RedisResults
mod OnRedis
mod Api
mod Auth
