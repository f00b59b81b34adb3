-- ===== src/Api/Jobs/Submission.antt =====
-- control_plane/api.go on the in-memory store: the submission of a job.
use flux_forge.Base.{ℕ, String, Option, some, [], ◌∷◌, ◌++◌, ◌≡◌, ◌≢◌, ◌⊎◌, nat_eq, string_eq}
use flux_forge.Store.{Agent, Job}
use flux_forge.Store.Memory.{MemoryStore, get_agent, get_job, create_job}
use flux_forge.Api.{Api, dispatches, Handled}

-- A refusal that changes nothing, or the job accepted for an agent that the tenant has: stored as
-- queued under the fresh identifier, and its dispatch started, once.
abbrev pub IsSubmitted :
    {B : Type 0} → ℕ → String → Option String → Api MemoryStore B → Handled MemoryStore B → Type 0
IsSubmitted now uuid tenant a (a', resp) =
    ((resp.status_code ≢ 202) × (a' ≡ a))
    ⊎ ((t : String) × (agent : Agent) × (job : Job) × (tenant ≡ some t)
        × (get_agent t job.node_id a.store ≡ some agent)
        × (job.job_id ≡ uuid)
        × (job.tenant_id ≡ t)
        × (job.status ≡ "queued")
        × (job.created_at ≡ now)
        × (resp.status_code ≡ 202)
        × (get_job t uuid a'.store ≡ some job)
        × (a' ≡ record a {
          store = create_job t job a.store;
          started = a.started ++ dispatches agent job ∷ [];
        }))
