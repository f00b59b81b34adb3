-- ===== src/Redis/Records/Values.antt =====
-- control_plane/store/redis.go: Set and Get of the generic keys.
use flux_forge.Base.{ℕ, String, none, some, ◌≡◌, refl, string_eq, arith, ==_iff}
use flux_forge.Redis.{RedisServer, TextLaws}
use flux_forge.Redis.Calls.{call_cases, read_cases}
use flux_forge.Redis.Records.{stored, got, set, get}

module _ {S : Type 0} (redis : RedisServer S) (laws : TextLaws redis) where
  pub set_held :
      (k v : String) (ttl : ℕ) (s : S)
      → (set redis k v ttl s).1 ≡ none
      → redis.get k (set redis k v ttl s).0 ≡ some v
  unfolding set stored
  set_held k v ttl s =
      call_cases redis (λ r. (stored r).1 ≡ none → redis.get k (stored r).0 ≡ some v)
        (λ x. (redis.set k v ttl x, tt)) s (λ e h. ground arith) (λ e h. ground arith)
        (λ h. ground (arith, laws.get-set k k v ttl s, ==_iff k k))

  pub get_held :
      (k v : String) (s : S)
      → redis.get k s ≡ some v
      → (get redis k s).1 ≡ none
      → (get redis k s).0 ≡ v
  unfolding get got
  get_held k v s held =
      read_cases redis (λ r. (got r).1 ≡ none → (got r).0 ≡ v) (redis.get k) s (λ e h. ground arith)
        (rw held (λ h. refl))
