-- ===== src/Lib.antt =====
-- The control plane of FluxForge: a Go server that keeps the desired states of agents' machines and
-- reconciles them. A scheduler admits and orders reconciliation tasks, a reconciler runs each of
-- them on its agent, a store keeps agents, jobs and states, one node of several is elected leader,
-- and a degraded mode keeps writes while Redis is away. The API authenticates requests, changes the
-- store and submits tasks (control_plane/api.go), the scheduler's worker hands them to the
-- reconciler, which updates the store; the elector starts and stops the scheduler, and the janitor
-- releases the locks of earlier leaders.
--
-- Which file models which part:
--   Task: control_plane/scheduler/types.go, the tasks, modes, node health and its composite score.
--   Breaker: control_plane/scheduler/circuit_breaker.go, its three states and admissions. Breaker/Transitions has
--     the state machine, Breaker/Recovery its way back to normal operation.
--   Queue: control_plane/scheduler/queue.go, the order of tasks by effective priority; Queue/Heap is Go's
--     container/heap, on which Push and Pop of the queue stand.
--   Limiter: control_plane/scheduler/limiter.go; the buckets of golang.org/x/time/rate are a parameter.
--   Scheduler: control_plane/scheduler/scheduler.go, Submit, Stop, RehydrateQueue and the modes; Scheduler/Dispatch
--     is UpdateNodeHealth, processNextTask and the end of a task's goroutine; Scheduler/World lets
--     submissions, the worker, timers and goroutines take turns in any order.
--   Reconciler: control_plane/reconciler.go, the lock of each agent, the phases of a reconciliation,
--     the jobs that it runs and the polling of their results.
--   Store, Store/Memory: control_plane/store/types.go, control_plane/store/keys.go and
--     control_plane/store/memory.go.
--   Degraded: control_plane/resilience/degraded_mode.go; Degraded/Sync is
--     control_plane/resilience/reconciliation.go and errors.go beside it (Degraded/OnRedis has it with the
--     Redis store), Degraded/Coordinator is
--     control_plane/resilience/leader_reconciliation.go.
--   Leader: control_plane/coordination/leader.go, a node's elector; Leader/Janitor is
--     control_plane/coordination/janitor.go.
--   Timeline: control_plane/timeline/store.go.
--   Redis: the server that control_plane/store/redis.go calls. Redis/Leases has the locks, leases and
--     epochs of that file, Redis/Records its agents, jobs and generic keys, Redis/States its versioned
--     states; Redis/Versioned is control_plane/store/redis_versioned.go with its scripts,
--     Redis/Idempotency control_plane/store/redis_idempotency.go.
--   Api: control_plane/api.go over the interface of control_plane/store/interface.go. Api/Agents, Api/Jobs
--     (with DispatchJob of control_plane/jobs.go) and Api/States (with
--     control_plane/incident/capture.go) are its handlers, Api/Idempotency is its middleware with
--     control_plane/idempotency/store.go, Api/Routes the routes of control_plane/main.go. Api/Stores
--     makes the memory store and the Redis store instances of the interface, Api/OnRedis is the API on
--     Redis, as the program starts it.
--   Auth: control_plane/auth/jwt.go and control_plane/middleware.
--   Monitor: control_plane/coordination/agent_monitor.go.
--   Attestation: control_plane/attestation/signer.go and verifier.go beside it.
--   Base: Go's maps, slices and texts, Boolean tests, and the lemmas that the parts share.
--   Examples: the theorems at concrete inputs, and tests of the definitions.
--
-- How code becomes definitions. A struct is a record, an enumeration a data type, a method a function
-- from the state before to the state after and the results; an error is a value. A mutex makes a
-- method one step, so what goroutines do together is a sequence of steps. A map is an association
-- list with one binding for each key, in the order of the list where Go leaves the order open. Times
-- and durations are natural numbers of nanoseconds of one clock, 0 for the zero time, and `now` is
-- the clock's reading in a call. Floating-point numbers are exact fractions: the queue compares
-- nanoseconds in place of float64 seconds, the health score counts ten-thousandths, and a saturation
-- is a numerator with its denominator. Counters (versions, epochs, transitions) are natural numbers:
-- an int64 that goes up by one with each call does not reach its limit. The 32-bit FNV hash keeps its
-- wrap-around. Exit codes are natural numbers, as agents report them.
--
-- Loops. The two sift loops of the heap run on fuel, the length of the slice, and Queue/Heap/Total
-- shows that they return and never index out of range. Waiting for a job looks at it at most 60 times,
-- a half-second ticker against a timeout of 30 seconds. The polls of WaitForIdempotencyResult run on
-- fuel: each sleeps a tenth of a second at least, so one more than the tenths of a second of the
-- timeout is enough. All other loops are recursions over lists; the endless loops of workers, tickers
-- and electors are modelled one round at a time.
--
-- Parameters. golang.org/x/time/rate (a record RateLib); the Redis server with its client (RedisServer,
-- whose documented behaviour TextLaws, HashLaws and CounterLaws state); what JSON, HMAC, RSA and
-- base64 compute (Codec, StateCodec, Json, TokenLib, SignatureLib); UUIDs; the outcome of an HTTP call to
-- an agent; what agents and other nodes do meanwhile. The degraded mode and the elector are written over
-- interfaces (VersionedRedisWriter, LockStore, Coordinator, EpochStore), which the Redis store fills.
-- Theorems name what they rely on: IsFaithful, Holds, IsMonotone, IsCutOff, Keeps, IsReadable, IsPaired.
-- Of the Redis client, its own retries and connection pool are not modelled; an error is any text
-- that it reports. Versions and timestamps stay below the 14 digits that Lua's numbers print exactly.
-- The expiry of a key is a change of the server's state between two calls.
--
-- Not modelled: the SQL text of the Postgres store; the endpoints of the dashboard, the clusters, the
-- incident replay and the event stream with the WebSocket hub, which only read or report; metrics,
-- logging and event publishing; the environment variables, wiring and signals of the program's start;
-- the web client, deployments and scripts.
pub mod Base
pub mod Task
pub mod Breaker
pub mod Timeline
pub mod Limiter
pub mod Queue
pub mod Store
pub mod Scheduler
mod Examples
pub mod Degraded
pub mod Leader
pub mod Reconciler
pub mod Redis
pub mod Monitor
pub mod Attestation
pub mod Auth
pub mod Api
