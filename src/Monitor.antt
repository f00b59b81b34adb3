-- ===== src/Monitor.antt =====
-- control_plane/coordination/agent_monitor.go: the check for stale heartbeats, one tick of the loop.
-- The store is a parameter; log lines are left out, and the metric is the count that is returned.
pub mod Expiry
use flux_forge.Base.{
  ℕ, zero, suc, ◌+◌, ◌-◌, ◌≤◌, ◌<◌, String, Bool, true, false, Option, none, some, List, [], ◌∷◌,
  ◌≡◌, ◌≢◌, refl, ◌==◌, string_eq, ltb, if◌then◌else◌, arith, keep_if, length, ==_iff,
}
use flux_forge.Store.{Agent}
use flux_forge.Api.{StoreInterface}

pub record AgentMonitor : Type 0 where
  pub interval : ℕ
  pub threshold : ℕ

unfoldable pub new_agent_monitor : ℕ → ℕ → AgentMonitor
new_agent_monitor interval threshold = record { interval = interval; threshold = threshold }

-- The heartbeat is older than the threshold; one ahead of the clock is not.
unfoldable pub is_stale : ℕ → AgentMonitor → Agent → Bool
is_stale now m a = ltb m.threshold (now - a.last_heartbeat)

abbrev pub taken_offline : ℕ → Agent → Agent
taken_offline now a = record a { status = "offline"; updated_at = now }

module _ {T : Type 0} (ops : StoreInterface T) (m : AgentMonitor) where
  -- The loop over the listed agents, with the count of the active ones.
  unfoldable pub check_agents : ℕ → List Agent → ℕ → T → T × ℕ
  unfolding is_stale
  check_agents now [] active t = (t, active)
  check_agents now (a ∷ rest) active t =
      let skipped = check_agents now rest active t in
      let expired =
        check_agents now rest active (ops.upsert_agent now a.tenant_id (taken_offline now a) t).0 in
      let counted = check_agents now rest (suc active) t in
      if a.status == "offline" then skipped else if is_stale now m a then expired else counted

  checked : ℕ → T × List Agent × Option String → T × Option ℕ
  unfolding check_agents
  checked now (t, found, some e) = (t, none)
  checked now (t, found, none) = let (t', active) = check_agents now found 0 t in (t', some active)

  -- `none` where the agents could not be listed.
  unfoldable pub check_liveness : ℕ → T → T × Option ℕ
  unfolding checked
  check_liveness now t = checked now (ops.list_agents "" t)
