-- ===== src/Leader/Backoff.antt =====
-- The pace of an elector's loop, its leader context, and what it does when it cannot renew.
use flux_forge.Base.{
  ℕ, suc, ◌+◌, ◌*◌, ◌/◌, ◌≤◌, ◌<◌, String, Bool, true, false, Option, none, some, ◌≡◌, refl, ◌∙◌,
  ◌==◌, string_eq, if◌then◌else◌, arith, inl, inr, if_cases, ◌⊎◌, ◌≢◌,
}
use flux_forge.Leader.{
  LockMetadata, Coordinator, EpochStore, LeaderElector, Loop, Callback, tick, follower_tick,
  leader_tick, acquire, acquire_with, lease, after_acquire, after_renew, renew, election_resource,
  new_leader_elector, start_loop,
}

-- The context is live exactly for a leader, and then carries the leader's epoch.
unfoldable pub IsCurrent : LeaderElector → Type 0
IsCurrent l =
    if l.is_leader
    then l.leader_ctx ≡ some (record { fencing_epoch = l.current_epoch; live = true })
    else elim l.leader_ctx [ none ↦ Unit | some c ↦ c.live ≡ false ]

pub record IsPaced (s : Loop) : Type 0 where
  pub least : s.elector.ttl / 3 ≤ s.interval
  pub most : s.interval ≤ 10 * s.elector.ttl
  pub failures : s.renew_failures < 3
  pub current : IsCurrent s.elector

pub start_loop-IsPaced :
    (node_id : String) (ttl : ℕ) → IsPaced (start_loop (new_leader_elector node_id ttl))
unfolding start_loop new_leader_elector IsCurrent
start_loop-IsPaced node_id ttl = ground arith

after_renew-IsPaced :
    (now : ℕ) (renewed : Bool) (err : Option String) (s : Loop)
    → s.elector.is_leader ≡ true
    → IsPaced s
    → IsPaced (after_renew now renewed err s).0
unfolding after_renew IsCurrent
after_renew-IsPaced now renewed err s leads v = ground (arith, v)

after_acquire-IsPaced :
    {C D : Type 0} (coordinator : Coordinator C) (epochs : EpochStore D)
    (marshal : LockMetadata → String) (acquired : Bool) (err : Option String) (l : LeaderElector)
    (s : Loop)
    → l.ttl ≡ s.elector.ttl
    → l.is_leader ≡ false
    → IsCurrent l
    → IsPaced s
    → IsPaced (after_acquire coordinator epochs marshal acquired err l s).0
unfolding after_acquire IsCurrent
after_acquire-IsPaced coordinator epochs marshal acquired err l s t f cur v = ground (arith, v)

module _ {C D : Type 0} (coordinator : Coordinator C) (epochs : EpochStore D)
    (marshal : LockMetadata → String) where
  IsFollower : LeaderElector → LeaderElector → Type 0
  IsFollower old l = (l.ttl ≡ old.ttl) × (l.is_leader ≡ false) × IsCurrent l

  acquired-IsFollower :
      (now : ℕ) (req_id : String) (l : LeaderElector) (c : C) (reply : D × Option ℕ)
      → l.is_leader ≡ false
      → IsCurrent l
      → IsFollower l (acquire_with coordinator epochs marshal now req_id l c reply).0
  unfolding acquire_with lease IsCurrent IsFollower
  acquired-IsFollower now req_id l c reply f cur = ground arith

  -- From a loop for which this holds, every tick keeps the loop's interval between a third of the lease's time and ten times it, the failed renewals below three, and the leader's context live exactly while the node leads, with the epoch that it leads in.
  pub tick-IsPaced :
      (now : ℕ) (req_id : String) (s : Loop) (c : C) (d : D)
      → IsPaced s
      → IsPaced (tick coordinator epochs marshal now req_id s c d).0
  unfolding tick leader_tick follower_tick acquire IsFollower
  tick-IsPaced now req_id s c d v =
      if_cases (λ (r : Loop × C × D × Callback). IsPaced r.0) s.elector.is_leader
        (λ leads. after_renew-IsPaced now _ _ s leads v)
        (λ follows.
          let (t, f, cur) =
            acquired-IsFollower now req_id s.elector c
              (epochs.increment_durable_epoch election_resource d) follows v.current in
          after_acquire-IsPaced coordinator epochs marshal
            (acquire coordinator epochs marshal now req_id s.elector c d).3
            (acquire coordinator epochs marshal now req_id s.elector c d).4 _ s t f cur v)

  -- The coordinator cannot be reached: no renewal and no attempt comes back without an error.
  pub record IsCutOff : Type 0 where
    pub renewals : (k v : String) (ttl : ℕ) (c : C) → (coordinator.renew_lease k v ttl c).2 ≢ none
    pub attempts : (k v : String) (ttl : ℕ) (c : C) → (coordinator.acquire_lease k v ttl c).2 ≢ none

  module _ (cut : IsCutOff) where
    -- A cut-off tick ends without leadership, or with one more failed renewal, still below three.
    IsWaning : Loop → Loop → Type 0
    IsWaning s s' =
        (s'.elector.is_leader ≡ false)
        ⊎ ((s.elector.is_leader ≡ true)
            × (s'.renew_failures ≡ suc s.renew_failures)
            × (s'.renew_failures < 3))

    renew_fails :
        (l : LeaderElector) (c : C)
        → ((renew coordinator epochs marshal l c).2 ≢ none)
          ⊎ ((renew coordinator epochs marshal l c).1 ≡ false)
    unfolding renew
    renew_fails l c =
        let fails = cut.renewals l.lock_key l.current_value l.ttl c in
        if_cases (λ (r : C × Bool × Option String). (r.2 ≢ none) ⊎ (r.1 ≡ false))
          (l.current_value == "") (λ e. inr refl) (λ e. inl fails)

    renewal-IsWaning :
        (now : ℕ) (renewed : Bool) (err : Option String) (s : Loop)
        → (err ≢ none) ⊎ (renewed ≡ false)
        → s.elector.is_leader ≡ true
        → IsWaning s (after_renew now renewed err s).0
    unfolding after_renew IsWaning
    renewal-IsWaning now renewed none s (inl h) leads = absurd (h refl)
    renewal-IsWaning now renewed none s (inr h) leads = ground (arith, h, leads)
    renewal-IsWaning now renewed (some e) s h leads = ground (arith, leads)

    refused_lease :
        (value : String) (l : LeaderElector) (answer : C × Bool × Option String)
        → answer.2 ≢ none
        → (lease coordinator epochs marshal value l answer).3 ≢ none
    unfolding lease
    refused_lease value l (c, acquired, none) h = absurd (h refl)
    refused_lease value l (c, acquired, some e) h = λ p. cc

    refused_attempt :
        (now : ℕ) (req_id : String) (l : LeaderElector) (c : C) (reply : D × Option ℕ)
        → (acquire_with coordinator epochs marshal now req_id l c reply).4 ≢ none
    unfolding acquire_with
    refused_attempt now req_id l c (d, none) = λ p. cc
    refused_attempt now req_id l c (d, some n) =
        let value = marshal (record {
          owner_pod = l.node_id;
          epoch = n;
          req_id = req_id;
          created_at = now;
          expires_at = now + l.ttl;
        }) in
        refused_lease value (record l { current_epoch = n })
          (coordinator.acquire_lease l.lock_key value l.ttl c)
          (cut.attempts l.lock_key value l.ttl c)

    attempt_keeps :
        (now : ℕ) (req_id : String) (l : LeaderElector) (c : C) (reply : D × Option ℕ)
        → (acquire_with coordinator epochs marshal now req_id l c reply).0.is_leader ≡ l.is_leader
    unfolding acquire_with lease
    attempt_keeps now req_id l c reply = ground arith

    unelected :
        (acquired : Bool) (err : Option String) (l : LeaderElector) (s : Loop)
        → err ≢ none
        → (after_acquire coordinator epochs marshal acquired err l s).0.elector.is_leader
          ≡ l.is_leader
    unfolding after_acquire
    unelected acquired none l s h = absurd (h refl)
    unelected acquired (some e) l s h = refl

    attempt-follows :
        (now : ℕ) (req_id : String) (s : Loop) (c : C) (d : D)
        → s.elector.is_leader ≡ false
        → (follower_tick coordinator epochs marshal now req_id s c d).0.elector.is_leader ≡ false
    unfolding follower_tick acquire
    attempt-follows now req_id s c d f =
        let reply = epochs.increment_durable_epoch election_resource d in
        unelected _ (acquire_with coordinator epochs marshal now req_id s.elector c reply).4 _ s
          (refused_attempt now req_id s.elector c reply)
        ∙ attempt_keeps now req_id s.elector c reply
        ∙ f

    tick-IsWaning :
        (now : ℕ) (req_id : String) (s : Loop) (c : C) (d : D)
        → IsWaning s (tick coordinator epochs marshal now req_id s c d).0
    unfolding tick leader_tick follower_tick acquire IsWaning
    tick-IsWaning now req_id s c d =
        if_cases (λ (r : Loop × C × D × Callback). IsWaning s r.0) s.elector.is_leader
          (λ leads. renewal-IsWaning now _ _ s (renew_fails s.elector c) leads)
          (λ follows. inl (attempt-follows now req_id s c d follows))

    -- Where no renewal and no attempt comes back from the coordinator without an error, a node leads no longer after three ticks, whatever state its loop was in.
    pub cut_off-follows :
        (t₁ t₂ t₃ : ℕ) (r₁ r₂ r₃ : String) (s : Loop) (c : C) (d : D)
        → let (s₁, c₁, d₁, _) = tick coordinator epochs marshal t₁ r₁ s c d in
          let (s₂, c₂, d₂, _) = tick coordinator epochs marshal t₂ r₂ s₁ c₁ d₁ in
          let (s₃, _, _, _) = tick coordinator epochs marshal t₃ r₃ s₂ c₂ d₂ in
          s₃.elector.is_leader ≡ false
    unfolding IsWaning
    cut_off-follows t₁ t₂ t₃ r₁ r₂ r₃ s c d =
        let (s₁, c₁, d₁, _) = tick coordinator epochs marshal t₁ r₁ s c d in
        let (s₂, c₂, d₂, _) = tick coordinator epochs marshal t₂ r₂ s₁ c₁ d₁ in
        let w₁ = tick-IsWaning t₁ r₁ s c d in
        let w₂ = tick-IsWaning t₂ r₂ s₁ c₁ d₁ in
        let w₃ = tick-IsWaning t₃ r₃ s₂ c₂ d₂ in ground (arith, w₁, w₂, w₃)
