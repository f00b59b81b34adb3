-- ===== src/Degraded/Versions.antt =====
-- Reconciliation against the versions that Redis stores.
use flux_forge.Base.{
  ℕ, suc, ◌+◌, ◌≤◌, ◌<◌, String, true, false, Option, none, some, List, [], ◌∷◌, ◌≡◌, refl, sym,
  ◌∙◌, ◌⊎◌, ◌≢◌, subst, inl, inr, ◌==◌, nat_eq, string_eq, if◌then◌else◌, length, All, arith,
  Bool-cases, ==_iff, All-keep_if,
}
use flux_forge.Degraded.{PendingWrite, DegradedMode}
use flux_forge.Degraded.Sync.{
  VersionedValue, VersionedRedisWriter, IsFaithful, ReconciliationError, is_marked, count_verdict,
  mark, sync_write, sync_loop, reconcile_pending_writes, versioned, is_stale, is_newer,
}
use flux_forge.Degraded.Marks.{
  is_failure, failure_counts, length_zero, loop_counts, starting, run_of, left_over,
  reconcile_result,
}

-- The write was done before, or Redis stores a version that is no older.
abbrev pub IsLanded : {V R : Type 0} → (R → String → ℕ) → R → PendingWrite V → Type 0
IsLanded stored r w = (w.reconciled ≡ true) ⊎ (w.version ≤ stored r w.key)

module _ {V R : Type 0} (redis : VersionedRedisWriter V R) where
  module _ (stored : R → String → ℕ) (faithful : IsFaithful redis stored) where
    -- One write at its own key: the stored version does not fall, and where the write did not fail it
    -- is at least the write's, unless the write was reconciled before.
    sent_own :
        (now : ℕ) (w : PendingWrite V) (r q : R) (found : Option (VersionedValue V))
        (e : Option String) (answer : R × Option String)
        → redis.get_versioned w.key r ≡ (q, found, e)
        → redis.set_versioned w.key (versioned w) w.ttl q ≡ answer
        → (stored r w.key ≤ stored (sync_write redis now w r).0 w.key)
          × ((is_failure (sync_write redis now w r).1 ≡ true)
              ⊎ ((w.reconciled ≡ true) ⊎ (w.version ≤ stored (sync_write redis now w r).0 w.key)))
    unfolding sync_write is_failure versioned is_newer is_stale
    sent_own now w r q none e (r', none) g s =
        let same : stored q w.key ≡ stored r w.key = rw g at (faithful.asked w.key w.key r) in
        rw (g, s) (ground (arith, same, faithful.wrote w.key (versioned w) w.ttl q r' s))
    sent_own now w r q none e (r', some x) g s =
        let same : stored q w.key ≡ stored r w.key = rw g at (faithful.asked w.key w.key r) in
        rw (g, s) (ground (arith, same, faithful.refused w.key (versioned w) w.ttl q r' x s))
    sent_own now w r q (some v) e (r', none) g s =
        let same : stored q w.key ≡ stored r w.key = rw g at (faithful.asked w.key w.key r) in
        rw (g, s)
          (ground (
            arith,
            same,
            faithful.found w.key r q v e g,
            faithful.wrote w.key (versioned w) w.ttl q r' s,
          ))
    sent_own now w r q (some v) e (r', some x) g s =
        let same : stored q w.key ≡ stored r w.key = rw g at (faithful.asked w.key w.key r) in
        rw (g, s)
          (ground (
            arith,
            same,
            faithful.found w.key r q v e g,
            faithful.refused w.key (versioned w) w.ttl q r' x s,
          ))

    sent_others :
        (now : ℕ) (w : PendingWrite V) (r : R) (k : String) (answer : R × Option String)
        → w.key ≢ k
        → redis.set_versioned w.key (versioned w) w.ttl (redis.get_versioned w.key r).0 ≡ answer
        → stored (sync_write redis now w r).0 k ≡ stored r k
    unfolding sync_write versioned
    sent_others now w r k (r', e) n s =
        let q = (redis.get_versioned w.key r).0 in
        let asked = faithful.asked w.key k r in
        let written = faithful.others w.key k (versioned w) w.ttl q r' e s n in
        ground (arith, asked, written, s)

    sent_grows :
        (now : ℕ) (w : PendingWrite V) (r : R) (k : String)
        → stored r k ≤ stored (sync_write redis now w r).0 k
    sent_grows now w r k = elim (Bool-cases (w.key == k)) [
      | inl e ↦
          let same = (==_iff w.key k).0 e in
          subst (λ j. stored r j ≤ stored (sync_write redis now w r).0 j) same
            (sent_own now w r _ _ _ _ refl refl).0
      | inr e ↦
          let apart : w.key ≢ k = λ same. cc (e, (==_iff w.key k).1 same) in
          omega (arith, sent_others now w r k _ apart refl)
    ]

    loop_grows :
        (now i : ℕ) (ws p : List (PendingWrite V)) (r : R) (c : ReconciliationError) (k : String)
        → stored r k ≤ stored (sync_loop redis now i ws r p c).0 k
    unfolding sync_loop
    loop_grows now i [] p r c k = omega arith
    loop_grows now i (w ∷ ws) p r c k =
        omega (
          arith,
          sent_grows now w r k,
          loop_grows now (suc i) ws _ (sync_write redis now w r).0 _ k,
        )

    -- A run without a failure lands every write.
    loop_lands :
        (now i : ℕ) (ws p : List (PendingWrite V)) (r : R) (c : ReconciliationError)
        → (sync_loop redis now i ws r p c).2.failed ≡ 0
        → All (IsLanded stored (sync_loop redis now i ws r p c).0) ws
    unfolding sync_loop
    loop_lands now i [] p r c h = tt
    loop_lands now i (w ∷ ws) p r c h =
        let (r', v) = sync_write redis now w r in
        let p' = if is_marked (sync_write redis now w r).1 then mark i p else p in
        let c' = count_verdict (sync_write redis now w r).1 c in
        let own = (sent_own now w r _ _ _ _ refl refl).1 in
        let later = loop_grows now (suc i) ws p' (sync_write redis now w r).0 c' w.key in
        let counts = loop_counts redis now (suc i) ws p' (sync_write redis now w r).0 c' in
        (
          ground (arith, own, later, counts, failure_counts (sync_write redis now w r).1 c, h),
          loop_lands now (suc i) ws p' (sync_write redis now w r).0 c' h,
        )

    -- With a Redis that keeps its promises, a run that reports no error leaves no write waiting, and Redis then stores, for every write that was waiting, a version no older than the write's, unless the write was marked as done before.
    pub reconcile_complete :
        (now : ℕ) (d d' : DegradedMode V) (r r' : R)
        → reconcile_pending_writes redis now d r ≡ (d', r', none)
        → (d'.pending_writes ≡ []) × All (IsLanded stored r') d.pending_writes
    unfolding sync_loop run_of left_over
    reconcile_complete now d d' r r' h =
        let (left, state, err) = reconcile_result redis now d r in
        let (_, _, few) =
          loop_counts redis now 0 d.pending_writes d.pending_writes r (starting redis d) in
        let quiet : (run_of redis now d r).2.failed ≡ 0 = ground (arith, err, h) in
        let landed =
          loop_lands now 0 d.pending_writes d.pending_writes r (starting redis d) quiet in
        (
          rw h at left ∙ length_zero _ (ground (arith, few, quiet)),
          subst (λ x. All (IsLanded stored x) d.pending_writes) (sym (rw h at state)) landed,
        )

    -- With a Redis that keeps its promises, a run, with or without failures, never lowers the version that Redis stores under any key.
    pub reconcile_monotone :
        (now : ℕ) (d : DegradedMode V) (r : R) (k : String)
        → stored r k ≤ stored (reconcile_pending_writes redis now d r).1 k
    unfolding run_of
    reconcile_monotone now d r k =
        let (_, state, _) = reconcile_result redis now d r in
        rw state (loop_grows now 0 d.pending_writes d.pending_writes r (starting redis d) k)

  -- A run that reports an error counts every waiting write once, as reconciled, skipped or failed, has at least one failure, and leaves no more writes waiting than failed, none of them marked as done.
  pub reconcile_failure :
      (now : ℕ) (d d' : DegradedMode V) (r r' : R) (c : ReconciliationError)
      → reconcile_pending_writes redis now d r ≡ (d', r', some c)
      → (c.total ≡ length d.pending_writes)
        × (c.success + c.skipped + c.failed ≡ c.total)
        × (0 < c.failed)
        × (length d'.pending_writes ≤ c.failed)
        × All (λ w. w.reconciled ≡ false) d'.pending_writes
  unfolding run_of left_over starting
  reconcile_failure now d d' r r' c h =
      let (left, _, err) = reconcile_result redis now d r in
      let counts = loop_counts redis now 0 d.pending_writes d.pending_writes r (starting redis d) in
      let left' = rw h at left in
      let err' = rw h at err in
      let waits : All (λ w. w.reconciled ≡ false) (left_over redis now d r) =
        All-keep_if _ _ _ (λ w e. ground arith) in
      (
        ground (arith, counts, err'),
        ground (arith, counts, err'),
        ground (arith, counts, err'),
        ground (arith, counts, err', left'),
        subst (λ x. All (λ w. w.reconciled ≡ false) x) (sym left') waits,
      )
