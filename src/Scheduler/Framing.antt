-- ===== src/Scheduler/Framing.antt =====
-- Admission and rehydration leave the counters of the running tasks alone.
use flux_forge.Base.{
  ℕ, ◌≡◌, ◌∙◌, String, true, Option, some, List, [], ◌∷◌, nat_eq, string_eq, arith, inl, inr,
  Option-cases,
}
use flux_forge.Task.{ReconciliationTask}
use flux_forge.Store.{DesiredState}
use flux_forge.Scheduler.{
  Scheduler, SubmitError, submit, submit_states, rehydrate_queue, rehydrate_loop, rehydrated_task,
}

-- What admission and administration leave alone.
pub record IsFramed {B : Type 0} (s s' : Scheduler B) : Type 0 where
  pub same_active : s'.active_tasks ≡ s.active_tasks
  pub same_domains : s'.domain_tasks ≡ s.domain_tasks
  pub same_queue : s'.queue_id ≡ s.queue_id

module _ {B : Type 0} where
  pub submit-IsFramed :
      (now : ℕ) (task : ReconciliationTask) (s s' : Scheduler B) (t : ReconciliationTask)
      (e : Option SubmitError)
      → submit now task s ≡ some (s', t, e)
      → IsFramed s s'
  unfolding submit
  submit-IsFramed now task s s' t e h = ground arith

  IsFramed-trans : {s t u : Scheduler B} → IsFramed s t → IsFramed t u → IsFramed s u
  IsFramed-trans f g = record {
    same_active = g.same_active ∙ f.same_active;
    same_domains = g.same_domains ∙ f.same_domains;
    same_queue = g.same_queue ∙ f.same_queue;
  }

  pub submit_states-IsFramed :
      (now : ℕ) (sts : List DesiredState) (s s' : Scheduler B)
      → submit_states now sts s ≡ some s'
      → IsFramed s s'
  unfolding submit_states
  submit_states-IsFramed now [] s s' h = ground arith
  submit_states-IsFramed now (st ∷ sts) s s' h =
      elim (Option-cases (submit now (rehydrated_task now st) s)) [
        | inl e ↦ cc (rw (e, submit_states) at h)
        | inr ((s₁, t, err), e) ↦
            IsFramed-trans (submit-IsFramed now (rehydrated_task now st) s s₁ t err e)
              (submit_states-IsFramed now sts s₁ s' (rw (e, submit_states) at h))
      ]

  rehydrate_loop-IsFramed :
      (now : ℕ) (list_states : String → ℕ → ℕ → Option (List DesiredState)) (statuses : List String)
      (s s' : Scheduler B) (e : Option String)
      → rehydrate_loop now list_states statuses s ≡ some (s', e)
      → IsFramed s s'
  unfolding rehydrate_loop
  rehydrate_loop-IsFramed now ls [] s s' e h = ground arith
  rehydrate_loop-IsFramed now ls (x ∷ xs) s s' err h =
      elim (Option-cases (ls x s.shard_index s.shard_count)) [
        | inl e ↦ ground (arith, e)
        | inr (sts, e) ↦ elim (Option-cases (submit_states now sts s)) [
          | inl f ↦ ground (arith, e, f)
          | inr (s₁, f) ↦
              IsFramed-trans (submit_states-IsFramed now sts s s₁ f)
                (rehydrate_loop-IsFramed now ls xs s₁ s' err (rw (e, f, rehydrate_loop) at h))
        ]
      ]

  pub rehydrate_queue-IsFramed :
      (now : ℕ) (list_states : String → ℕ → ℕ → Option (List DesiredState)) (s s' : Scheduler B)
      (e : Option String)
      → rehydrate_queue now list_states s ≡ some (s', e)
      → IsFramed s s'
  unfolding rehydrate_queue
  rehydrate_queue-IsFramed now ls s s' e h =
      let f =
        rehydrate_loop-IsFramed now ls ("pending" ∷ "drifted" ∷ []) (record s { active = true }) s'
          e h in
      record {
        same_active = f.same_active;
        same_domains = f.same_domains;
        same_queue = f.same_queue;
      }
