-- ===== src/Redis/Leases/Exclusion.antt =====
-- control_plane/store/redis.go: a lease excludes other holders.
use flux_forge.Base.{
  ℕ, ◌≤◌, String, true, false, some, ◌≡◌, ◌≢◌, ◌⊎◌, ◌∙◌, string_eq, arith, ==_iff,
}
use flux_forge.Redis.{RedisServer, TextLaws}
use flux_forge.Redis.Calls.{call_cases, read_cases}
use flux_forge.Redis.Leases.{
  acquire_lock, flag, renew_lock, release_lock, text, get_lock_owner, owned_by, is_lease_owner,
}
use flux_forge.Redis.Leases.Texts.{
  acquire_refused, acquire_texts, renew_texts, renew_owner, release_texts,
}

-- What the nodes and the server may do while the value v is to keep the key k: any operation of any
-- node but the release of that value, and the passing of time before it expires.
pub data Step {S : Type 0} (redis : RedisServer S) (k v : String) (s : S) : S → Type 0 where
  acquiring : (j w : String) (ttl : ℕ) → Step redis k v s (acquire_lock redis j w ttl s).0
  renewing :
      (j w : String) (ttl : ℕ) → 1000000 ≤ ttl → Step redis k v s (renew_lock redis j w ttl s).0
  releasing : (j w : String) → (j ≢ k) ⊎ (w ≢ v) → Step redis k v s (release_lock redis j w s).0
  passing : {s' : S} → redis.get k s' ≡ redis.get k s → Step redis k v s s'

pub data Steps {S : Type 0} (redis : RedisServer S) (k v : String) (s : S) : S → Type 0 where
  start : Steps redis k v s s
  later : {t u : S} → Steps redis k v s t → Step redis k v t u → Steps redis k v s u

module _ {S : Type 0} (redis : RedisServer S) (laws : TextLaws redis) where
  Step-keeps :
      (k v : String) (s s' : S)
      → Step redis k v s s'
      → redis.get k s ≡ some v
      → redis.get k s' ≡ some v
  Step-keeps k v s _ (acquiring j w ttl) held =
      ground (arith, held, acquire_texts redis laws j k w ttl s)
  Step-keeps k v s _ (renewing j w ttl h) held = renew_texts redis laws j w ttl s h k ∙ held
  Step-keeps k v s _ (releasing j w apart) held =
      ground (arith, held, apart, release_texts redis laws j k w s)
  Step-keeps k v s _ (passing same) held = same ∙ held

  Steps-keeps :
      (k v : String) (s s' : S)
      → Steps redis k v s s'
      → redis.get k s ≡ some v
      → redis.get k s' ≡ some v
  Steps-keeps k v s _ start held = held
  Steps-keeps k v s s' (later {t} before step) held =
      Step-keeps k v t s' step (Steps-keeps k v s t before held)

  pub acquired_holds :
      (k v : String) (ttl : ℕ) (s : S)
      → (acquire_lock redis k v ttl s).1 ≡ true
      → redis.get k (acquire_lock redis k v ttl s).0 ≡ some v
  unfolding acquire_lock flag
  acquired_holds k v ttl s =
      call_cases redis (λ r. (flag r).1 ≡ true → redis.get k (flag r).0 ≡ some v)
        (redis.set_nx k v ttl) s (λ e h. ground arith) (λ e h. ground arith)
        (λ h. ground (arith, h, laws.set_nx_lem k v ttl s, laws.get-set k k v ttl s, ==_iff k k))

  owner_told :
      (k v w : String) (s : S)
      → redis.get k s ≡ some v
      → (is_lease_owner redis k w s).0 ≡ true
      → w ≡ v
  unfolding is_lease_owner owned_by get_lock_owner text
  owner_told k v w s held =
      read_cases redis (λ r. (owned_by w (text r)).0 ≡ true → w ≡ v) (redis.get k) s
        (λ e h. ground arith) (λ h. ground (arith, h, held, ==_iff v w))

  -- After an acquisition that told its caller `true`, and whatever acquisitions, renewals and releases of any node follow but the release of that value, with times to live of a millisecond at least and before the key expires, no acquisition of the key tells `true`, and no renewal nor question for the owner tells `true` for another value, whether calls fail or replies get lost in between.
  pub lease_exclusive :
      (k v w : String) (ttl ttl' : ℕ) (s s' : S)
      → (acquire_lock redis k v ttl s).1 ≡ true
      → Steps redis k v (acquire_lock redis k v ttl s).0 s'
      → w ≢ v
      → ((acquire_lock redis k v ttl' s').1 ≡ false)
        × ((acquire_lock redis k w ttl' s').1 ≡ false)
        × ((renew_lock redis k w ttl' s').1 ≡ false)
        × ((is_lease_owner redis k w s').0 ≡ false)
  lease_exclusive k v w ttl ttl' s s' h steps apart =
      let held = Steps-keeps k v _ s' steps (acquired_holds k v ttl s h) in
      (
        (acquire_refused redis laws k v v ttl' s' held).0,
        (acquire_refused redis laws k v w ttl' s' held).0,
        ground (arith, apart, held, renew_owner redis laws k w ttl' s'),
        ground (arith, apart, held, owner_told k v w s' held),
      )
