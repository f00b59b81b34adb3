-- ===== src/Redis/Calls.antt =====
-- What is known of a call of control_plane/store/redis.go: it fails before the command, after it, or
-- brings its reply.
use flux_forge.Base.{inl, inr, String, Option-cases}
use flux_forge.Redis.{RedisServer, Reply, ok, redis_error, call, read, sent, received}

module _ {S : Type 0} (redis : RedisServer S) where
  pub call_cases :
      {A : Type 0} (P : S × Reply A → Type 0) (command : S → S × A) (s : S)
      → ((e : String) → P (s, redis_error e))
      → ((e : String) → P ((command s).0, redis_error e))
      → P ((command s).0, ok (command s).1)
      → P (call redis command s)
  unfolding call sent received
  call_cases P command s p q r = elim (Option-cases (redis.refuses s)) [
    | inr (e, refused) ↦ rw refused (p e)
    | inl served ↦ rw served (elim (Option-cases (redis.loses (command s).0)) [
      | inr (e, gone) ↦ rw gone (q e)
      | inl back ↦ rw back r
    ])
  ]

  pub read_cases :
      {A : Type 0} (P : Reply A → Type 0) (command : S → A) (s : S)
      → ((e : String) → P (redis_error e))
      → P (ok (command s))
      → P (read redis command s)
  unfolding read
  read_cases P command s p r = call_cases (λ x. P x.1) (λ x. (x, command x)) s p p r
