-- ===== src/Monitor/Expiry.antt =====
-- control_plane/coordination/agent_monitor.go on the in-memory store: which agents go offline.
use flux_forge.Base.{
  ℕ, ◌+◌, ◌&&◌, not, String, Bool, true, Option, none, some, List, ◌≡◌, ◌==◌, string_eq, keep_if,
  length, All,
}
use flux_forge.Store.{Agent}
use flux_forge.Store.Memory.{MemoryStore}
use flux_forge.Store.Memory
use flux_forge.Monitor.{AgentMonitor, is_stale}

-- The status of a stored agent.
abbrev pub status_of : Option Agent → Option String
status_of none = none
status_of (some a) = some a.status

abbrev pub status_at : MemoryStore → Agent → Option String
status_at s a = status_of (Memory.get_agent a.tenant_id a.node_id s)

-- The agent is to be taken offline.
abbrev pub is_due : ℕ → AgentMonitor → Agent → Bool
is_due now m a = not (a.status == "offline") && is_stale now m a

abbrev pub is_active : ℕ → AgentMonitor → Agent → Bool
is_active now m a = not (a.status == "offline") && not (is_stale now m a)

-- Every agent that was to be taken offline is, and the active ones are counted.
abbrev pub IsSwept : ℕ → AgentMonitor → List Agent → ℕ → MemoryStore × ℕ → Type 0
IsSwept now m found active (s', count) =
    All (λ a. is_due now m a ≡ true → status_at s' a ≡ some "offline") found
    × (count ≡ active + length (keep_if (is_active now m) found))
