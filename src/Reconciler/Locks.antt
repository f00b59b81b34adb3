-- ===== src/Reconciler/Locks.antt =====
-- One reconciliation at a time for each agent.
use flux_forge.Base.{
  String, true, false, not, Option, none, some, ◌≡◌, refl, arith, string_eq, ==_iff, if_cases,
}
use flux_forge.Base.Dict.{insert, lookup-insert, lookup-delete}
use flux_forge.Store.{DesiredState}
use flux_forge.Store.Memory.{MemoryStore, get_state}
use flux_forge.Reconciler.{
  Reconciler, Surroundings, ReconcileError, is_agent_busy, acquire_lock, release_lock,
  reconcile_found, reconcile,
}

lock_cycle :
    (n node_id : String) (r : Reconciler)
    → is_agent_busy node_id r ≡ false
    → is_agent_busy n (release_lock node_id (acquire_lock node_id r).0) ≡ is_agent_busy n r
unfolding is_agent_busy acquire_lock release_lock
lock_cycle n node_id r free = ground (
  arith,
  free,
  lookup-insert node_id n true r.active_reconciles,
  lookup-delete node_id n (insert node_id true r.active_reconciles),
  ==_iff node_id n,
)

acquire-is_agent_busy :
    (node_id : String) (r : Reconciler) → (acquire_lock node_id r).1 ≡ not (is_agent_busy node_id r)
unfolding acquire_lock
acquire-is_agent_busy node_id r = ground arith

found_locks :
    (around : Surroundings) (n : String) (r : Reconciler) (s : MemoryStore)
    (st : Option DesiredState)
    → is_agent_busy n (reconcile_found around r s st).0 ≡ is_agent_busy n r
unfolding reconcile_found
found_locks around n r s none = refl
found_locks around n r s (some st) =
    if_cases
      (λ (x : Reconciler × MemoryStore × Option ReconcileError).
        is_agent_busy n x.0 ≡ is_agent_busy n r)
      (acquire_lock st.node_id r).1
      (λ got. lock_cycle n st.node_id r (ground (arith, got, acquire-is_agent_busy st.node_id r)))
      (λ busy. refl)

-- A reconciliation, however it ends, leaves every agent exactly as busy as it found it.
pub reconcile_restores_locks :
    (around : Surroundings) (tenant_id state_id n : String) (r : Reconciler) (s : MemoryStore)
    → is_agent_busy n (reconcile around tenant_id state_id r s).0 ≡ is_agent_busy n r
unfolding reconcile
reconcile_restores_locks around tenant_id state_id n r s =
    ground (arith, found_locks around n r s (get_state tenant_id state_id s))
