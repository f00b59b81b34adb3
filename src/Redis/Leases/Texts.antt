-- ===== src/Redis/Leases/Texts.antt =====
-- control_plane/store/redis.go: what the operations on leases do to the texts that Redis holds.
use flux_forge.Base.{
  ℕ, zero, suc, ◌/◌, ◌≤◌, ◌<◌, String, true, false, Option, none, some, ◌≡◌, ◌⊎◌, refl, string_eq,
  arith, ==_iff, inl, inr, Option-cases,
}
use flux_forge.Base.Int.{ℤ, pos, negsuc}
use flux_forge.Redis.{RedisServer, TextLaws, Reply, ok, redis_error, call}
use flux_forge.Redis.Calls.{call_cases}
use flux_forge.Redis.Leases.{
  acquire_lock, flag, renew_owned, renew_script, renewal, renew_lock, release_owned, release_script,
  error_of, release_lock,
}

module _ {S : Type 0} (redis : RedisServer S) (laws : TextLaws redis) where
  -- No text changes.
  abbrev SameTexts : S → S → Type 0
  SameTexts s s' = (j : String) → redis.get j s' ≡ redis.get j s

  pub acquire_refused :
      (k v w : String) (ttl : ℕ) (s : S)
      → redis.get k s ≡ some v
      → ((acquire_lock redis k w ttl s).1 ≡ false) × SameTexts s (acquire_lock redis k w ttl s).0
  unfolding acquire_lock flag
  acquire_refused k v w ttl s held =
      let found : redis.set_nx k w ttl s ≡ (s, false) = rw (laws.set_nx_lem k w ttl s, held) refl in
      call_cases redis (λ r. ((flag r).1 ≡ false) × SameTexts s (flag r).0) (redis.set_nx k w ttl) s
        (λ e. (refl, λ j. refl)) (λ e. (refl, λ j. rw found refl)) (rw found (refl, λ j. refl))

  -- At the key, an acquisition changes nothing, or the key was free and holds the value.
  pub acquire_texts :
      (k j w : String) (ttl : ℕ) (s : S)
      → (redis.get j (acquire_lock redis k w ttl s).0 ≡ redis.get j s)
        ⊎ ((redis.get k s ≡ none)
            × (k ≡ j)
            × (redis.get j (acquire_lock redis k w ttl s).0 ≡ some w))
  unfolding acquire_lock flag
  acquire_texts k j w ttl s =
      call_cases redis
        (λ r.
          (redis.get j (flag r).0 ≡ redis.get j s)
          ⊎ ((redis.get k s ≡ none) × (k ≡ j) × (redis.get j (flag r).0 ≡ some w)))
        (redis.set_nx k w ttl) s (λ e. inl refl) (λ e. set_nx_texts) set_nx_texts
    where
      set_nx_texts :
          (redis.get j (redis.set_nx k w ttl s).0 ≡ redis.get j s)
          ⊎ ((redis.get k s ≡ none) × (k ≡ j) × (redis.get j (redis.set_nx k w ttl s).0 ≡ some w))
      set_nx_texts = elim (Option-cases (redis.get k s)) [
        | inr (v, held) ↦ rw (laws.set_nx_lem k w ttl s, held) (inl refl)
        | inl free ↦
            rw (laws.set_nx_lem k w ttl s, free)
              (ground (arith, laws.get-set k j w ttl s, ==_iff k j))
      ]

  renew_script_texts :
      (k w : String) (ms : ℕ) (s : S) → 0 < ms → SameTexts s (renew_script redis k w ms s).0
  unfolding renew_script renew_owned
  renew_script_texts k w ms s positive j = elim (Option-cases (redis.get k s)) [
    | inl free ↦ rw free refl
    | inr (v, held) ↦ rw held (ground (arith, laws.get-pexpire k j ms s positive))
  ]

  renewal_state : (r : S × Reply ℤ) → (renewal r).0 ≡ r.0
  unfolding renewal
  renewal_state (s, redis_error e) = refl
  renewal_state (s, ok (pos zero)) = refl
  renewal_state (s, ok (pos (suc zero))) = refl
  renewal_state (s, ok (pos (suc (suc n)))) = refl
  renewal_state (s, ok (negsuc zero)) = refl
  renewal_state (s, ok (negsuc (suc zero))) = refl
  renewal_state (s, ok (negsuc (suc (suc n)))) = refl

  pub renew_texts :
      (k w : String) (ttl : ℕ) (s : S) → 1000000 ≤ ttl → SameTexts s (renew_lock redis k w ttl s).0
  unfolding renew_lock
  renew_texts k w ttl s h j =
      let script = renew_script redis k w (ttl / 1000000) in
      let same = renew_script_texts k w (ttl / 1000000) s (omega arith) j in
      rw (renewal_state (call redis script s)) (
        call_cases redis (λ r. redis.get j r.0 ≡ redis.get j s) script s (λ e. refl) (λ e. same)
          same)

  renew_code :
      (k w : String) (ms : ℕ) (s : S) (o : Option String) (n : ℕ)
      → (renew_owned redis k w ms s o).1 ≡ pos n
      → o ≡ some w
  unfolding renew_owned
  renew_code k w ms s none n h = ground (arith, h)
  renew_code k w ms s (some v) n h = ground (arith, h, ==_iff v w)

  renewal_code : (s : S) (c : ℤ) → (renewal (s, ok c)).1 ≡ true → c ≡ pos 1
  unfolding renewal
  renewal_code s (pos zero) h = ground arith
  renewal_code s (pos (suc zero)) h = refl
  renewal_code s (pos (suc (suc n))) h = ground arith
  renewal_code s (negsuc zero) h = ground arith
  renewal_code s (negsuc (suc zero)) h = ground arith
  renewal_code s (negsuc (suc (suc n))) h = ground arith

  pub renew_owner :
      (k w : String) (ttl : ℕ) (s : S)
      → (renew_lock redis k w ttl s).1 ≡ true
      → redis.get k s ≡ some w
  unfolding renew_lock renewal renew_script
  renew_owner k w ttl s =
      let script = renew_script redis k w (ttl / 1000000) in
      call_cases redis (λ r. (renewal r).1 ≡ true → redis.get k s ≡ some w) script s
        (λ e h. ground arith) (λ e h. ground arith)
        (λ h.
          renew_code k w (ttl / 1000000) s (redis.get k s) 1
            (renewal_code (script s).0 (script s).1 h))

  release_script_texts :
      (k j w : String) (s : S)
      → (redis.get j (release_script redis k w s).0 ≡ redis.get j s)
        ⊎ ((k ≡ j) × (redis.get k s ≡ some w) × (redis.get j (release_script redis k w s).0 ≡ none))
  unfolding release_script release_owned
  release_script_texts k j w s = elim (Option-cases (redis.get k s)) [
    | inl free ↦ rw free (inl refl)
    | inr (v, held) ↦ rw held (ground (arith, laws.get-del k j s, ==_iff k j, ==_iff v w))
  ]

  pub release_texts :
      (k j w : String) (s : S)
      → (redis.get j (release_lock redis k w s).0 ≡ redis.get j s)
        ⊎ ((k ≡ j) × (redis.get k s ≡ some w) × (redis.get j (release_lock redis k w s).0 ≡ none))
  unfolding release_lock error_of
  release_texts k j w s =
      call_cases redis
        (λ r.
          (redis.get j (error_of r).0 ≡ redis.get j s)
          ⊎ ((k ≡ j) × (redis.get k s ≡ some w) × (redis.get j (error_of r).0 ≡ none)))
        (release_script redis k w) s (λ e. inl refl) (λ e. release_script_texts k j w s)
        (release_script_texts k j w s)
