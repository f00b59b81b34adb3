-- ===== src/Redis/Versioned/Scripts.antt =====
-- control_plane/store/redis_versioned.go: what a script run by its digest can do, through failed calls,
-- lost replies and lost scripts.
use flux_forge.Base.{String, Option, none, some, ◌≡◌, arith, Bool-cases, inl, inr}
use flux_forge.Redis.{RedisServer, Script, Reply, ok, redis_error, VersionedHash}
use flux_forge.Degraded.Sync.{VersionedValue}
use flux_forge.Redis.Calls.{call_cases}
use flux_forge.Redis.Versioned.{
  eval_sha, reload, loaded, evaluated, run_script, RedisStore, get_versioned, run_versioned_get,
  get_result,
}

module _ {S : Type 0} (redis : RedisServer S) (Same : S → Type 0)
    (reloads : (x : S) (script : Script) → Same x → Same (redis.script_load script x)) where
  module _ {A : Type 0} (command : S → S × A) (P : S → Reply (Option A) → Type 0)
      (failed : (x : S) (e : String) → Same x → P x (redis_error e))
      (unknown : (x : S) → Same x → P x (ok none))
      (gone : (x : S) (e : String) → Same x → P (command x).0 (redis_error e))
      (done : (x : S) → Same x → P (command x).0 (ok (some (command x).1))) where
    eval_sha_cases :
        (sha : Option Script) (x : S)
        → Same x
        → P (eval_sha redis sha command x).0 (eval_sha redis sha command x).1
    unfolding eval_sha
    eval_sha_cases none x same =
        call_cases redis (λ r. P r.0 r.1) _ x (λ e. failed x e same) (λ e. failed x e same)
          (unknown x same)
    eval_sha_cases (some script) x same = elim (Bool-cases (redis.script_known script x)) [
      | inl known ↦
          call_cases redis (λ r. P r.0 r.1) _ x (λ e. failed x e same)
            (λ e. rw known (gone x e same)) (rw known (done x same))
      | inr lost ↦
          call_cases redis (λ r. P r.0 r.1) _ x (λ e. failed x e same)
            (λ e. rw lost (failed x e same)) (rw lost (unknown x same))
    ]

  reload-keeps : (script : Script) (x : S) → Same x → Same (reload redis script x).0
  unfolding reload loaded
  reload-keeps script x same =
      call_cases redis (λ r. Same (loaded redis script r).0) _ x (λ e. same)
        (λ e. reloads x script same) (reloads x script same)

  -- The first try: with NOSCRIPT the command has not run.
  abbrev FirstTry : {A : Type 0} → (S → Reply (Option A) → Type 0) → S → Reply (Option A) → Type 0
  FirstTry P x (ok none) = Same x
  FirstTry P x (ok (some a)) = P x (ok (some a))
  FirstTry P x (redis_error e) = P x (redis_error e)

  pub run_script_cases :
      {A : Type 0} (command : S → S × A) (P : S → Reply (Option A) → Type 0)
      → ((x : S) (e : String) → Same x → P x (redis_error e))
      → ((x : S) → Same x → P x (ok none))
      → ((x : S) (e : String) → Same x → P (command x).0 (redis_error e))
      → ((x : S) → Same x → P (command x).0 (ok (some (command x).1)))
      → (script : Script) (sha : Option Script) (x : S) → Same x
      → P (run_script redis script sha command x).0 (run_script redis script sha command x).2
  unfolding run_script evaluated
  run_script_cases {A} command P failed unknown gone done script sha x same =
      retried (eval_sha redis sha command x)
        (eval_sha_cases command (FirstTry P) failed (λ y s. s) gone done sha x same)
    where
      retried :
          (r : S × Reply (Option A))
          → FirstTry P r.0 r.1
          → P (evaluated redis script sha command r).0 (evaluated redis script sha command r).2
      retried (y, redis_error e) p = p
      retried (y, ok (some a)) p = p
      retried (y, ok none) p =
          eval_sha_cases command P failed unknown gone done (reload redis script y).1
            (reload redis script y).0 (reload-keeps script y p)

module _ {S V : Type 0} (redis : RedisServer S) (marshal : V → Option String)
    (of_text : String → V) where
  -- The value found is what the interface takes from a text, whatever was stored.
  pub get_brings_text :
      (k : String) (r : RedisStore S) (v : VersionedValue V)
      → (get_versioned redis marshal of_text k r).1 ≡ some v
      → (t : String) × (v.value ≡ of_text t)
  unfolding get_versioned run_versioned_get get_result
  get_brings_text k r v =
      run_script_cases redis (λ x. Unit) (λ x script u. tt) (run_versioned_get redis k)
        (λ x reply. (get_result of_text reply).0 ≡ some v → (t : String) × (v.value ≡ of_text t))
        (λ x e u h. ground arith) (λ x u h. ground arith) (λ x e u h. ground arith)
        (λ x u. text_found (redis.hash k x)) _ r.versioned_get_sha r.server tt
    where
      text_found :
          (o : Option VersionedHash)
          → (get_result of_text (ok (some o))).0 ≡ some v
          → (t : String) × (v.value ≡ of_text t)
      text_found none h = ground arith
      text_found (some found) h = (found.value, ground (arith, h))
