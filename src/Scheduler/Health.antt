-- ===== src/Scheduler/Health.antt =====
-- Node health: who is quarantined, and what becomes of the tasks of a quarantined node.
use flux_forge.Base.{
  ℕ, ◌+◌, ◌*◌, ◌≤◌, ◌<◌, ◌≡◌, ◌↔◌, String, true, false, Option, none, string_eq, nat_eq, arith,
}
use flux_forge.Base.Dict.{lookup, lookup-insert_self}
use flux_forge.Task.{ReconciliationTask, NodeHealth}
use flux_forge.Limiter.{RateLib}
use flux_forge.Scheduler.{Scheduler}
use flux_forge.Scheduler.Dispatch.{updated_health, update_node_health, dropped, route}

-- The quarantine rule: it looks at the composite of the three signals of the updated health only.
pub quarantined_iff :
    (now : ℕ) (node_id signal : String) (score : ℕ) (tier : String) (old : Option NodeHealth)
    → let h = updated_health now node_id signal score tier old in
      (h.quarantined ≡ true) ↔ (
        2 * h.agent_reported_health + 5 * h.observed_failure_rate + 3 * h.external_probe_score
        < 4000)
unfolding updated_health
quarantined_iff now node_id signal score tier old = ground arith

module _ {B R : Type 0} (lib : RateLib B R) where
  registered_quarantined :
      (now : ℕ) (node_id tier : String) (score : ℕ)
      → score ≤ 1000
      → (updated_health now node_id "registration" score tier none).quarantined ≡ true
  unfolding updated_health
  registered_quarantined now node_id tier score h = ground arith

  -- A node that the scheduler has not seen is quarantined by its own registration, whatever tier it has and however well (up to 1.0) it reports itself, and each of its tasks that the worker takes is then dropped.
  pub registration_quarantines :
      (now later : ℕ) (node_id tier : String) (score : ℕ) (task : ReconciliationTask)
      (s : Scheduler B)
      → lookup node_id s.node_health ≡ none
      → score ≤ 1000
      → task.node_id ≡ node_id
      → let s' = update_node_health lib now node_id "registration" score tier s in
        route lib later task s' ≡ (s', dropped task)
  unfolding route update_node_health
  registration_quarantines now later node_id tier score task s unseen h e = ground (
    arith,
    e,
    unseen,
    registered_quarantined now node_id tier score h,
    lookup-insert_self node_id (updated_health now node_id "registration" score tier none)
        s.node_health,
  )

-- A higher failure rate only ever lifts a quarantine: a node that is not quarantined at one observed failure rate is not at any higher one.
pub failure_rate_lifts :
    (now : ℕ) (node_id tier : String) (low high : ℕ) (h : Option NodeHealth)
    → low ≤ high
    → (updated_health now node_id "observed" low tier h).quarantined ≡ false
    → (updated_health now node_id "observed" high tier h).quarantined ≡ false
unfolding updated_health
failure_rate_lifts now node_id tier low high h le free = ground arith
