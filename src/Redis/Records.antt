-- ===== src/Redis/Records.antt =====
-- control_plane/store/redis.go: agents and jobs, each one text under its key. JSON of an entity is a
-- parameter. The iteration of SCAN is one call. An error is its text.
pub mod Mirror
pub mod Values
use flux_forge.Base.{
  ℕ, suc, ◌+◌, String, Bool, true, false, Option, none, some, List, [], ◌∷◌, ◌==◌, string_eq, ltb,
  leb, ◌&&◌, if◌then◌else◌,
}
use flux_forge.Base.Text.{◌<>◌}
use flux_forge.Store.{
  Agent, Job, Resource, agents, jobs, tenant_key, tenant_prefix, tenant_wildcard_prefix,
}
use flux_forge.Redis.{RedisServer, Reply, ok, redis_error, call, read}

pub record Codec (A : Type 0) : Type 0 where
  pub marshal : A → String
  pub unmarshal : String → Option A

parsed : {A : Type 0} → Option A → Option A × Option String
parsed none = (none, some "failed to unmarshal")
parsed (some a) = (some a, none)

fetched : {A : Type 0} → Codec A → Reply (Option String) → Option A × Option String
unfolding parsed
fetched codec (redis_error e) = (none, some e)
fetched codec (ok none) = (none, none)
fetched codec (ok (some json)) = parsed (codec.unmarshal json)

stored : {S : Type 0} → S × Reply Unit → S × Option String
stored (s, ok _) = (s, none)
stored (s, redis_error e) = (s, some e)

-- A missing key reads as the empty text.
got : Reply (Option String) → String × Option String
got (redis_error e) = ("", some e)
got (ok none) = ("", none)
got (ok (some v)) = (v, none)

scan_error : Reply (List String) → Option String
scan_error (ok _) = none
scan_error (redis_error e) = some e

scanned_keys : Reply (List String) → List String
scanned_keys (ok keys) = keys
scanned_keys (redis_error e) = []

module _ {S : Type 0} (redis : RedisServer S) where
  unfoldable pub put : String → String → S → S × Option String
  unfolding stored
  put key value s = stored (call redis (λ x. (redis.set key value 0 x, tt)) s)

  unfoldable pub fetch : {A : Type 0} → Codec A → String → S → Option A × Option String
  unfolding fetched
  fetch codec key s = fetched codec (read redis (redis.get key) s)

  -- Set and Get of the generic keys.
  unfoldable pub set : String → String → ℕ → S → S × Option String
  unfolding stored
  set key value ttl s = stored (call redis (λ x. (redis.set key value ttl x, tt)) s)

  unfoldable pub get : String → S → String × Option String
  unfolding got
  get key s = got (read redis (redis.get key) s)

  module _ (codec : Codec Agent) where
    unfoldable pub upsert_agent : String → Agent → S → S × Option String
    unfolding put
    upsert_agent tenant_id a s =
        put (tenant_key tenant_id agents a.node_id)
          (codec.marshal (record a { tenant_id = tenant_id })) s

    unfoldable pub get_agent : String → String → S → Option Agent × Option String
    unfolding fetch
    get_agent tenant_id node_id s = fetch codec (tenant_key tenant_id agents node_id) s

    with_agent : Option Agent → List Agent → List Agent
    with_agent none rest = rest
    with_agent (some a) rest = a ∷ rest

    -- A key whose value cannot be had or read is passed over.
    gather_agents : List String → S → List Agent
    unfolding fetch with_agent
    gather_agents [] s = []
    gather_agents (key ∷ keys) s = with_agent (fetch codec key s).0 (gather_agents keys s)

    unfoldable pub list_agents : String → S → List Agent × Option String
    unfolding gather_agents scan_error scanned_keys
    list_agents tenant_id s =
        let match =
          if tenant_id == ""
          then tenant_wildcard_prefix agents
          else tenant_prefix tenant_id agents <> "*" in
        let found = read redis (redis.scan match) s in
        (gather_agents (scanned_keys found) s, scan_error found)

    beat : String → String → ℕ → S → Option Agent × Option String → S × Option String
    unfolding upsert_agent
    beat tenant_id node_id t s (a, some e) = (s, some e)
    beat tenant_id node_id t s (none, none) = (s, some ("agent not found: " <> node_id))
    beat tenant_id node_id t s (some a, none) =
        upsert_agent tenant_id (record a { last_heartbeat = t; status = "active" }) s

    unfoldable pub update_agent_heartbeat : String → String → ℕ → S → S × Option String
    unfolding beat get_agent
    update_agent_heartbeat tenant_id node_id t s =
        beat tenant_id node_id t s (get_agent tenant_id node_id s)

  module _ (codec : Codec Job) where
    unfoldable pub create_job : String → Job → S → S × Option String
    unfolding put
    create_job tenant_id j s =
        put (tenant_key tenant_id jobs j.job_id)
          (codec.marshal (record j { tenant_id = tenant_id })) s

    unfoldable pub get_job : String → String → S → Option Job × Option String
    unfolding fetch
    get_job tenant_id job_id s = fetch codec (tenant_key tenant_id jobs job_id) s

    finish :
        String
        → String
        → String
        → ℕ
        → String
        → String
        → S
        → Option Job × Option String
        → S × Option String
    unfolding create_job
    finish tenant_id job_id status exit_code stdout stderr s (j, some e) = (s, some e)
    finish tenant_id job_id status exit_code stdout stderr s (none, none) =
        (s, some ("job not found: " <> job_id))
    finish tenant_id job_id status exit_code stdout stderr s (some j, none) =
        create_job tenant_id
          (record j { status = status; exit_code = exit_code; stdout = stdout; stderr = stderr }) s

    unfoldable pub update_job_status :
        String → String → String → ℕ → String → String → S → S × Option String
    unfolding finish get_job
    update_job_status tenant_id job_id status exit_code stdout stderr s =
        finish tenant_id job_id status exit_code stdout stderr s (get_job tenant_id job_id s)

    -- The loop of the lists: a limit of 0 is none; the limit is tested after every key that could be
    -- read.
    gather_job : (Job → Bool) → ℕ → ℕ → Option Job → (ℕ → List Job) → List Job
    gather_job fits limit count none rest = rest count
    gather_job fits limit count (some j) rest =
        let later = rest (count + 1) in
        let skipped = rest count in
        if fits j
        then (if ltb 0 limit && leb limit (count + 1) then j ∷ [] else j ∷ later)
        else (if ltb 0 limit && leb limit count then [] else skipped)

    gather_jobs : (Job → Bool) → ℕ → List String → S → ℕ → List Job
    unfolding fetch gather_job
    gather_jobs fits limit [] s count = []
    gather_jobs fits limit (key ∷ keys) s count =
        gather_job fits limit count (fetch codec key s).0 (gather_jobs fits limit keys s)

    listed_jobs : (Job → Bool) → String → ℕ → S → List Job × Option String
    unfolding gather_jobs scan_error scanned_keys
    listed_jobs fits tenant_id limit s =
        let found = read redis (redis.scan (tenant_prefix tenant_id jobs <> "*")) s in
        (gather_jobs fits limit (scanned_keys found) s 0, scan_error found)

    unfoldable pub list_jobs : String → String → ℕ → S → List Job × Option String
    unfolding listed_jobs
    list_jobs tenant_id node_id limit s = listed_jobs (λ j. j.node_id == node_id) tenant_id limit s

    unfoldable pub list_jobs_by_tenant : String → ℕ → S → List Job × Option String
    unfolding listed_jobs
    list_jobs_by_tenant tenant_id limit s = listed_jobs (λ j. true) tenant_id limit s
