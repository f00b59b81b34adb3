-- ===== src/Degraded/Marks.antt =====
-- What a reconciliation leaves of the waiting writes, and its counters.
use flux_forge.Base.{
  ℕ, suc, ◌+◌, ◌≤◌, ◌<◌, Bool, true, false, not, none, some, List, [], ◌∷◌, ◌++◌, ◌≡◌, refl, sym,
  ap, ◌∙◌, subst, inl, inr, ◌==◌, nat_eq, string_eq, ltb, if◌then◌else◌, length, keep_if, All,
  arith, Bool-cases, ==_iff, length-append, length-keep_if, All-keep_if,
}
use flux_forge.Degraded.{PendingWrite, DegradedMode}
use flux_forge.Degraded.Sync.{
  VersionedRedisWriter, ReconciliationError, Verdict, already, stale, unreadable, newer, refused,
  written, is_marked, count_verdict, mark, sync_write, sync_loop, reconcile_pending_writes,
}

unfoldable pub is_failure : Verdict → Bool
is_failure already = false
is_failure stale = true
is_failure unreadable = true
is_failure newer = false
is_failure refused = true
is_failure written = false

pub failure_counts :
    (v : Verdict) (c : ReconciliationError)
    → ((count_verdict v c).failed ≡ (if is_failure v then suc c.failed else c.failed))
      × ((count_verdict v c).success + (count_verdict v c).skipped + (count_verdict v c).failed
          ≡ suc (c.success + c.skipped + c.failed))
      × ((count_verdict v c).total ≡ c.total)
unfolding count_verdict is_failure
failure_counts v c = ground arith

module _ {V : Type 0} where
  pub length_zero : (ws : List (PendingWrite V)) → length ws ≡ 0 → ws ≡ []
  length_zero ws h = ground arith

  mark-append :
      (pre ws : List (PendingWrite V)) (w : PendingWrite V)
      → mark (length pre) (pre ++ w ∷ ws) ≡ (pre ++ record w { reconciled = true } ∷ ws)
  unfolding mark
  mark-append [] ws w = refl
  mark-append (x ∷ pre) ws w = ap (λ t. x ∷ t) (mark-append pre ws w)

  regroup :
      (pre ws : List (PendingWrite V)) (w : PendingWrite V)
      → (pre ++ w ∷ ws) ≡ (pre ++ w ∷ []) ++ ws
  regroup [] ws w = refl
  regroup (x ∷ pre) ws w = ap (λ t. x ∷ t) (regroup pre ws w)

-- The versions of the waiting writes grow from the oldest to the newest.
unfoldable pub IsIncreasing : {V : Type 0} → List (PendingWrite V) → Type 0
IsIncreasing [] = Unit
IsIncreasing (w ∷ ws) = All (λ u. w.version < u.version) ws × IsIncreasing ws

-- No waiting write has a version above n.
unfoldable pub IsBelow : {V : Type 0} → ℕ → List (PendingWrite V) → Type 0
IsBelow n ws = All (λ w. w.version ≤ n) ws

module _ {V R : Type 0} (redis : VersionedRedisWriter V R) where
  -- The writes after a run, each marked by what happened to it.
  marked_write : ℕ → PendingWrite V → R → PendingWrite V
  marked_write now w r =
      if is_marked (sync_write redis now w r).1 then record w { reconciled = true } else w

  unfoldable pub sync_marks : ℕ → List (PendingWrite V) → R → List (PendingWrite V)
  unfolding marked_write
  sync_marks now [] r = []
  sync_marks now (w ∷ ws) r = marked_write now w r ∷ sync_marks now ws (sync_write redis now w r).0

  marked_here :
      (now : ℕ) (w : PendingWrite V) (pre ws : List (PendingWrite V)) (r : R)
      → (if is_marked (sync_write redis now w r).1
          then mark (length pre) (pre ++ w ∷ ws)
          else pre ++ w ∷ ws)
        ≡ (pre ++ marked_write now w r ∷ []) ++ ws
  unfolding marked_write
  marked_here now w pre ws r = elim (Bool-cases (is_marked (sync_write redis now w r).1)) [
    | inl m ↦ rw m (mark-append pre ws w ∙ regroup pre ws (record w { reconciled = true }))
    | inr m ↦ rw m (regroup pre ws w)
  ]

  loop_pending :
      (now i : ℕ) (ws pre p : List (PendingWrite V)) (r : R) (c : ReconciliationError)
      → i ≡ length pre
      → p ≡ pre ++ ws
      → (sync_loop redis now i ws r p c).1 ≡ (pre ++ sync_marks now ws r)
  unfolding sync_loop sync_marks
  loop_pending now i [] pre p r c ei ep = ep
  loop_pending now i (w ∷ ws) pre p r c ei ep =
      let here = marked_here now w pre ws r in
      loop_pending now (suc i) ws (pre ++ marked_write now w r ∷ []) _ _ _
        (omega (arith, ei, length-append pre (marked_write now w r ∷ []))) (rw (ei, ep) here)
      ∙ sym (regroup pre (sync_marks now ws (sync_write redis now w r).0) (marked_write now w r))

  unmarked_failed :
      (now : ℕ) (w : PendingWrite V) (r : R)
      → (marked_write now w r).reconciled ≡ false
      → is_failure (sync_write redis now w r).1 ≡ true
  unfolding marked_write sync_write is_marked is_failure
  unmarked_failed now w r h = ground arith

  -- The counters of a run, and the writes that it leaves to be retried.
  pub loop_counts :
      (now i : ℕ) (ws p : List (PendingWrite V)) (r : R) (c : ReconciliationError)
      → let c' = (sync_loop redis now i ws r p c).2 in
        (c'.total ≡ c.total)
        × (c'.success + c'.skipped + c'.failed ≡ c.success + c.skipped + c.failed + length ws)
        × (length (keep_if (λ w. not w.reconciled) (sync_marks now ws r)) + c.failed ≤ c'.failed)
  unfolding sync_loop sync_marks keep_if
  loop_counts now i [] p r c = ground arith
  loop_counts now i (w ∷ ws) p r c =
      let v = (sync_write redis now w r).1 in
      let p' = if is_marked v then mark i p else p in
      let rest = loop_counts now (suc i) ws p' (sync_write redis now w r).0 (count_verdict v c) in
      ground (arith, failure_counts v c, unmarked_failed now w r, rest)

  unfoldable pub starting : DegradedMode V → ReconciliationError
  starting d = record { total = length d.pending_writes; success = 0; skipped = 0; failed = 0 }

  unfoldable pub run_of : ℕ → DegradedMode V → R → R × List (PendingWrite V) × ReconciliationError
  unfolding starting
  run_of now d r = sync_loop redis now 0 d.pending_writes r d.pending_writes (starting d)

  unfoldable pub left_over : ℕ → DegradedMode V → R → List (PendingWrite V)
  left_over now d r = keep_if (λ w. not w.reconciled) (sync_marks now d.pending_writes r)

  pub reconcile_result :
      (now : ℕ) (d : DegradedMode V) (r : R)
      → let result = reconcile_pending_writes redis now d r in
        let counts = (run_of now d r).2 in
        (result.0.pending_writes ≡ left_over now d r)
        × (result.1 ≡ (run_of now d r).0)
        × (result.2 ≡ (if ltb 0 counts.failed then some counts else none))
  unfolding reconcile_pending_writes run_of left_over sync_loop sync_marks keep_if
  reconcile_result now d r = elim (Bool-cases (length d.pending_writes == 0)) [
    | inl e ↦
        let empty : d.pending_writes ≡ [] =
          length_zero _ ((==_iff (length d.pending_writes) 0).0 e) in
        rw (e, empty) (refl, refl, refl)
    | inr e ↦
        let pending =
          loop_pending now 0 d.pending_writes [] d.pending_writes r (starting d) refl refl in
        rw (e, pending) (refl, refl, refl)
  ]

  marks_size :
      (now : ℕ) (ws : List (PendingWrite V)) (r : R) → length (sync_marks now ws r) ≡ length ws
  unfolding sync_marks
  marks_size now [] r = refl
  marks_size now (w ∷ ws) r = ap suc (marks_size now ws (sync_write redis now w r).0)

  marked-version :
      (now : ℕ) (w : PendingWrite V) (r : R) → (marked_write now w r).version ≡ w.version
  unfolding marked_write
  marked-version now w r = ground arith

  marks-later :
      (now n : ℕ) (ws : List (PendingWrite V)) (r : R)
      → All (λ w. n < w.version) ws
      → All (λ w. n < w.version) (keep_if (λ w. not w.reconciled) (sync_marks now ws r))
  unfolding sync_marks keep_if
  marks-later now n [] r h = tt
  marks-later now n (w ∷ ws) r (h, hs) =
      let r' = (sync_write redis now w r).0 in
      ground (arith, marked-version now w r, h, marks-later now n ws r' hs)

  marks-earlier :
      (now n : ℕ) (ws : List (PendingWrite V)) (r : R)
      → All (λ w. w.version ≤ n) ws
      → All (λ w. w.version ≤ n) (keep_if (λ w. not w.reconciled) (sync_marks now ws r))
  unfolding sync_marks keep_if
  marks-earlier now n [] r h = tt
  marks-earlier now n (w ∷ ws) r (h, hs) =
      let r' = (sync_write redis now w r).0 in
      ground (arith, marked-version now w r, h, marks-earlier now n ws r' hs)

  marks-IsIncreasing :
      (now : ℕ) (ws : List (PendingWrite V)) (r : R)
      → IsIncreasing ws
      → IsIncreasing (keep_if (λ w. not w.reconciled) (sync_marks now ws r))
  unfolding sync_marks keep_if IsIncreasing
  marks-IsIncreasing now [] r h = tt
  marks-IsIncreasing now (w ∷ ws) r (h, hs) =
      let r' = (sync_write redis now w r).0 in
      let rest = marks-IsIncreasing now ws r' hs in
      elim (Bool-cases (marked_write now w r).reconciled) [
        | inl e ↦ rw e rest
        | inr e ↦ rw e (rw (marked-version now w r) (marks-later now w.version ws r' h), rest)
      ]

  -- A run changes the waiting writes and nothing else of the degraded mode.
  pub reconcile_frame :
      (now : ℕ) (d : DegradedMode V) (r : R)
      → let result = (reconcile_pending_writes redis now d r).0 in
        (result ≡ record d { pending_writes = result.pending_writes })
        × All (λ w. w.reconciled ≡ false) result.pending_writes
        × (length result.pending_writes ≤ length d.pending_writes)
  unfolding reconcile_pending_writes left_over
  reconcile_frame now d r =
      let (left, _, _) = reconcile_result now d r in
      let fresh : All (λ w. w.reconciled ≡ false) (left_over now d r) =
        All-keep_if _ _ _ (λ w e. ground arith) in
      let few = length-keep_if (λ w. not w.reconciled) (sync_marks now d.pending_writes r) in
      (
        ground arith,
        subst (λ x. All (λ w. w.reconciled ≡ false) x) (sym left) fresh,
        rw left (ground (arith, few, marks_size now d.pending_writes r)),
      )

  pub reconcile-IsIncreasing :
      (now : ℕ) (d : DegradedMode V) (r : R)
      → IsIncreasing d.pending_writes
      → IsIncreasing (reconcile_pending_writes redis now d r).0.pending_writes
  unfolding left_over
  reconcile-IsIncreasing now d r h =
      let (left, _, _) = reconcile_result now d r in
      subst IsIncreasing (sym left) (marks-IsIncreasing now d.pending_writes r h)

  pub reconcile-IsBelow :
      (now n : ℕ) (d : DegradedMode V) (r : R)
      → IsBelow n d.pending_writes
      → IsBelow n (reconcile_pending_writes redis now d r).0.pending_writes
  unfolding left_over IsBelow
  reconcile-IsBelow now n d r h =
      let (left, _, _) = reconcile_result now d r in
      subst (IsBelow n) (sym left) (marks-earlier now n d.pending_writes r h)
