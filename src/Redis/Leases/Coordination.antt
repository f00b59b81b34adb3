-- ===== src/Redis/Leases/Coordination.antt =====
-- control_plane/store/redis.go implements what the janitor and the elections of
-- control_plane/coordination expect of their coordinator and of the store of epochs.
use flux_forge.Base.{
  ℕ, suc, ◌≤◌, String, none, some, ◌≡◌, ◌≢◌, refl, string_eq, arith, ==_iff, inl, inr, Option-cases,
}
use flux_forge.Base.Text.{◌<>◌}
use flux_forge.Leader.{election_resource}
use flux_forge.Leader.Janitor.{Holds}
use flux_forge.Leader.Fencing.{IsMonotone}
use flux_forge.Redis.{RedisServer, TextLaws, CounterLaws}
use flux_forge.Redis.Calls.{call_cases, read_cases}
use flux_forge.Redis.Leases.{
  or_empty, error_of, release_script, release_owned, release_lock, release_lease, text,
  get_lock_owner, redis_coordinator, redis_epochs, counted, increment_epoch,
  increment_durable_epoch, stored_epoch, get_durable_epoch,
}
use flux_forge.Redis.Leases.Texts.{release_texts}

module _ {S : Type 0} (redis : RedisServer S) (laws : TextLaws redis) where
  abbrev pub held_text : S → String → String
  held_text s k = or_empty (redis.get k s)

  read_owner : (k v : String) (s : S) → get_lock_owner redis k s ≡ (v, none) → held_text s k ≡ v
  unfolding get_lock_owner text
  read_owner k v s =
      read_cases redis (λ r. text r ≡ (v, none) → held_text s k ≡ v) (redis.get k) s
        (λ e h. ground arith) (λ h. ground arith)

  released_text :
      (k v : String) (s : S)
      → held_text s k ≡ v
      → (release_lock redis k v s).1 ≡ none
      → held_text (release_lock redis k v s).0 k ≡ ""
  unfolding release_lock error_of release_script release_owned
  released_text k v s h =
      call_cases redis (λ r. (error_of r).1 ≡ none → held_text (error_of r).0 k ≡ "")
        (release_script redis k v) s (λ e done. ground arith) (λ e done. ground arith)
        (λ done. script_frees)
    where
      script_frees : held_text (release_script redis k v s).0 k ≡ ""
      script_frees = elim (Option-cases (redis.get k s)) [
        | inl free ↦ rw (free, free) refl
        | inr (w, held) ↦
            let own : w ≡ v = ground (arith, h, held) in
            rw (held, (==_iff w v).1 own, laws.get-del k k s, (==_iff k k).1 refl) refl
      ]

  kept_text :
      (k v j : String) (s : S) → k ≢ j → held_text (release_lock redis k v s).0 j ≡ held_text s j
  kept_text k v j s apart = ground (arith, apart, release_texts redis laws k j v s)

  -- Redis is a coordinator as the janitor expects it: the owner that it reports is the value that it holds, a release that reports no error removes the value held, and a release touches no other key.
  pub redis_coordinator-Holds : Holds (redis_coordinator redis) held_text
  unfolding redis_coordinator release_lease
  redis_coordinator-Holds = record {
    owner = read_owner;
    released = released_text;
    kept = kept_text;
  }

module _ {S : Type 0} (redis : RedisServer S) (counter : S → String → ℕ)
    (laws : CounterLaws redis counter) where
  abbrev pub durable_counter : S → ℕ
  durable_counter s = counter s (election_resource <> ":epoch")

  -- Redis is a store of epochs as the elections expect it: an increment that returns an epoch returns the old one plus one and has stored it, one that fails never takes the stored epoch back, and a read returns what is stored.
  pub redis_epochs-IsMonotone : IsMonotone (redis_epochs redis) durable_counter
  unfolding redis_epochs increment_durable_epoch increment_epoch get_durable_epoch counted
      stored_epoch
  redis_epochs-IsMonotone =
      let key = election_resource <> ":epoch" in
      record {
        raised = λ d d' n.
            call_cases redis
              (λ r. counted r ≡ (d', some n) → (n ≡ suc (counter d key)) × (counter d' key ≡ n))
              (redis.incr key) d (λ e h. ground arith) (λ e h. ground arith)
              (λ h. ground (arith, h, laws.counts key d, laws.counter-incr key d));
        refused = λ d d'.
            call_cases redis (λ r. counted r ≡ (d', none) → counter d key ≤ counter d' key)
              (redis.incr key) d (λ e h. ground (arith, h))
              (λ e h. ground (arith, h, laws.counter-incr key d)) (λ h. ground arith);
        read = λ d n.
            read_cases redis (λ r. stored_epoch r ≡ some n → n ≡ counter d key)
              (redis.get_int64 key) d (λ e h. ground arith)
              (λ h. ground (arith, laws.reads key d n, laws.misses key d));
      }
