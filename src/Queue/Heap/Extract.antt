-- ===== src/Queue/Heap/Extract.antt =====
-- heap.Push keeps the heap order, and heap.Pop returns an entry that none of the others is above.
use flux_forge.Base.{
  ℕ, zero, suc, ◌+◌, ◌-◌, ◌<◌, ◌≤◌, ◌≡◌, refl, Bool, false, some, List, [], ◌∷◌, ◌++◌, arith,
  nat_eq, length, length-append, take, All,
}
use flux_forge.Queue.Heap.{push, pop}
use flux_forge.Queue.Heap.Array.{get_elem?-some, swap_total}
use flux_forge.Queue.Heap.Order.{
  IsStrictWeak, irreflexive, parent, entry, IsHeap, UpInv, DownInv, entry-swap, up_restores,
  down_restores,
}

module _ {ℓ} {A : Type ℓ} (less : A → A → Bool) (d : A) where
  entry-append_left :
      (a : List A) (x : A) (k : ℕ) → k < length a → entry less d (a ++ x ∷ []) k ≡ entry less d a k
  entry-append_left [] x k h = absurd (omega arith)
  entry-append_left (y ∷ a) x zero h = refl
  entry-append_left (y ∷ a) x (suc k) h = entry-append_left a x k (omega arith)

  length-take : (n : ℕ) (a : List A) → n ≤ length a → length (take n a) ≡ n
  length-take zero a h = refl
  length-take (suc n) [] h = absurd (omega arith)
  length-take (suc n) (x ∷ a) h = omega (arith, length-take n a)

  entry-take : (n : ℕ) (a : List A) (k : ℕ) → k < n → entry less d (take n a) k ≡ entry less d a k
  entry-take zero a k h = absurd (omega arith)
  entry-take (suc n) [] k h = refl
  entry-take (suc n) (x ∷ a) zero h = refl
  entry-take (suc n) (x ∷ a) (suc k) h = entry-take n a k (omega arith)

  All-of_entries {κ} :
      (P : A → Type κ) (a : List A) → ((k : ℕ) → k < length a → P (entry less d a k)) → All P a
  All-of_entries P [] h = tt
  All-of_entries P (x ∷ a) h =
      (h 0 (omega arith), All-of_entries P a (λ k p. h (suc k) (omega arith)))

  module _ (o : IsStrictWeak less) where
    pub push_ordered :
        (x : A) (a : List A)
        → IsHeap less d (length a) a
        → (b : List A) × (push less x a ≡ some b) × IsHeap less d (length b) b
    unfolding push
    push_ordered x a v =
        let long : length (a ++ x ∷ []) ≡ length a + 1 = omega (arith, length-append a (x ∷ [])) in
        let j = length (a ++ x ∷ []) - 1 in
        let grown : UpInv less d (a ++ x ∷ []) j = record {
          edge = λ k p q r.
              ground
                (arith, long, v.edge k, entry-append_left a x k, entry-append_left a x (parent k));
          bridge = λ k p q r t. absurd (omega arith);
        } in
        let (b, e, _, ordered) =
          up_restores less d o (length (a ++ x ∷ [])) (a ++ x ∷ []) j (omega arith) (omega arith)
            grown in
        (b, e, ordered)

    root_least :
        (fuel n : ℕ) (a : List A)
        → IsHeap less d n a
        → (k : ℕ) → k < fuel
        → k < n
        → less (entry less d a k) (entry less d a 0) ≡ false
    root_least zero n a v k f h = absurd (omega arith)
    root_least (suc fuel) n a v zero f h = irreflexive less d o _
    root_least (suc fuel) n a v (suc k) f h =
        o.trans _ _ _ (root_least fuel n a v (parent (suc k)) (omega arith) (omega arith))
          (v.edge (suc k) (omega arith) h)

    least_of_All :
        (a : List A) → IsHeap less d (length a) a → All (λ y. less y (entry less d a 0) ≡ false) a
    least_of_All a v =
        All-of_entries (λ y. less y (entry less d a 0) ≡ false) a
          (λ k h. root_least (suc k) (length a) a v k (omega arith) h)

    pub pop_ordered :
        (a : List A)
        → 0 < length a
        → IsHeap less d (length a) a
        → (x : A) × (rest : List A) × (pop less a ≡ some (x, rest))
          × IsHeap less d (length rest) rest
          × All (λ y. less y x ≡ false) a
    unfolding pop
    pop_ordered a h v =
        let n = length a - 1 in
        let (b, s) = swap_total a 0 n h (omega arith) in
        let at = entry-swap less d s in
        let broken : DownInv less d n b 0 = record {
          edge = λ k p q r. ground (arith, at k, at (parent k), v.edge k);
          bridge = λ k p q r t. absurd (omega arith);
        } in
        let (c, ec, long, ordered, kept) =
          down_restores less d o (length a) b 0 n (omega arith) (omega arith)
            (rw s.size (omega arith)) broken in
        let (x, ex) = get_elem?-some c n (rw (long, s.size) (omega arith)) in
        let root : x ≡ entry less d a 0 = ground (arith, ex, kept n, at n) in
        let shorter : length (take n c) ≡ n = length-take n c (rw (long, s.size) (omega arith)) in
        (
          x,
          take n c,
          rw (s.done, ec, ex),
          record {
            edge = λ k p q.
                ground
                  (arith, shorter, entry-take n c k, entry-take n c (parent k), ordered.edge k);
          },
          rw root (least_of_All a v),
        )
