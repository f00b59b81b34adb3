-- ===== src/Queue/Heap/Order.antt =====
-- container/heap keeps the heap order, for a `less` that is a strict weak order.
use flux_forge.Base.{
  ℕ, zero, suc, ◌+◌, ◌-◌, ◌*◌, ◌/◌, ◌<◌, ◌≤◌, ◌≡◌, ◌≢◌, refl, ◌∙◌, inl, inr, Bool, true, false,
  Option, none, some, List, arith, ◌==◌, nat_eq, if◌then◌else◌, leb, ltb, length, get_elem?,
  Bool-cases,
}
use flux_forge.Queue.Heap.{less_at, up, down, smaller_child}
use flux_forge.Queue.Heap.Array.{get_elem?-some, IsSwapped, swap_total}

-- `less` is a strict weak order: its failure, "not above", is a total preorder.
pub record IsStrictWeak {ℓ} {A : Type ℓ} (less : A → A → Bool) : Type ℓ where
  pub asym : (x y : A) → less x y ≡ true → less y x ≡ false
  pub trans : (x y z : A) → less y x ≡ false → less z y ≡ false → less z x ≡ false

abbrev pub or_default {ℓ} : {A : Type ℓ} → A → Option A → A
or_default d none = d
or_default d (some x) = x

abbrev pub parent : ℕ → ℕ
parent k = (k - 1) / 2

module _ {ℓ} {A : Type ℓ} (less : A → A → Bool) (d : A) where
  -- `a[k]`, with `d` out of range
  abbrev pub entry : List A → ℕ → A
  entry a k = or_default d (get_elem? a k)

  -- No entry below `n` is above its parent.
  pub record IsHeap (n : ℕ) (a : List A) : Type ℓ where
    pub edge : (k : ℕ) → 0 < k → k < n → less (entry a k) (entry a (parent k)) ≡ false

  -- Only the edge from `j` up may be out of order.
  pub record UpInv (a : List A) (j : ℕ) : Type ℓ where
    pub edge :
        (k : ℕ) → 0 < k → k < length a → k ≢ j → less (entry a k) (entry a (parent k)) ≡ false
    pub bridge :
        (k : ℕ)
        → 0 < k
        → k < length a
        → parent k ≡ j
        → 0 < j
        → less (entry a k) (entry a (parent j)) ≡ false

  -- Only the edges from `i` down to entries below `n` may be out of order.
  pub record DownInv (n : ℕ) (a : List A) (i : ℕ) : Type ℓ where
    pub edge :
        (k : ℕ) → 0 < k → k < n → parent k ≢ i → less (entry a k) (entry a (parent k)) ≡ false
    pub bridge :
        (k : ℕ)
        → 0 < k
        → k < n
        → parent k ≡ i
        → 0 < i
        → less (entry a k) (entry a (parent i)) ≡ false

  less_at-entry :
      (a : List A) (i j : ℕ)
      → i < length a
      → j < length a
      → less_at less a i j ≡ some (less (entry a i) (entry a j))
  unfolding less_at
  less_at-entry a i j hi hj =
      let (x, ex) = get_elem?-some a i hi in let (y, ey) = get_elem?-some a j hj in rw (ex, ey)

  pub entry-swap :
      {a b : List A} {i j : ℕ}
      → IsSwapped a i j b
      → (k : ℕ)
      → entry b k ≡ (if j == k then entry a i else if i == k then entry a j else entry a k)
  entry-swap s k = ground (arith, s.at k)

  module _ (o : IsStrictWeak less) where
    swap-UpInv :
        (a b : List A) (j : ℕ)
        → 0 < j
        → j < length a
        → UpInv a j
        → less (entry a j) (entry a (parent j)) ≡ true
        → IsSwapped a (parent j) j b
        → UpInv b (parent j)
    swap-UpInv a b j p h v below s =
        let at = entry-swap s in
        let turned = o.asym (entry a j) (entry a (parent j)) below in
        record {
          edge = λ k q r t. ground (
            arith,
            s.size,
            at k,
            at (parent k),
            turned,
            v.edge k,
            v.bridge k,
            o.trans (entry a j) (entry a (parent j)) (entry a k),
          );
          bridge = λ k q r t u. ground (
            arith,
            s.size,
            at k,
            at (parent (parent j)),
            v.edge (parent j),
            v.edge k,
            o.trans (entry a (parent (parent j))) (entry a (parent j)) (entry a k),
          );
        }

    pub up_restores :
        (fuel : ℕ) (a : List A) (j : ℕ)
        → j < fuel
        → j < length a
        → UpInv a j
        → (b : List A) × (up less fuel a j ≡ some b) × (length b ≡ length a) × IsHeap (length b) b
    unfolding up
    up_restores zero a j f h v = absurd (omega arith)
    up_restores (suc fuel) a j f h v = elim (Bool-cases (parent j == j)) [
      | inl e ↦ (a, rw e, refl, record { edge = λ k p q. v.edge k p q (ground arith) })
      | inr e ↦
          let hi : parent j < length a = omega arith in
          let seen = less_at-entry a j (parent j) h hi in
          elim (Bool-cases (less (entry a j) (entry a (parent j)))) [
            | inl below ↦
                let (b, s) = swap_total a (parent j) j hi h in
                let v' = swap-UpInv a b j (ground arith) h v below s in
                let (c, ec, long, ordered) =
                  up_restores fuel b (parent j) (ground arith) (rw s.size hi) v' in
                (c, rw (e, seen, below, s.done) ec, long ∙ s.size, ordered)
            | inr stays ↦
                (a, rw (e, seen, stays), refl, record { edge = λ k p q. ground (arith, v.edge k) })
          ]
    ]

    -- `m` is a child of `i` below `n` that no child of `i` is above.
    record IsLeastChild (n : ℕ) (a : List A) (i m : ℕ) : Type ℓ where
      inside : m < n
      child : parent m ≡ i
      below : i < m
      least : (k : ℕ) → 0 < k → k < n → parent k ≡ i → less (entry a k) (entry a m) ≡ false

    pub irreflexive : (x : A) → less x x ≡ false
    irreflexive x = elim (Bool-cases (less x x)) [ inl e ↦ o.asym x x e | inr e ↦ e ]

    smaller_child_least :
        (a : List A) (i n : ℕ)
        → 2 * i + 1 < n
        → n ≤ length a
        → (m : ℕ) × (smaller_child less a i n ≡ some m) × IsLeastChild n a i m
    unfolding smaller_child
    smaller_child_least a i n h k =
        let l = 2 * i + 1 in
        let r = l + 1 in
        elim (Bool-cases (ltb r n)) [
          | inl both ↦
              let seen = less_at-entry a r l (ground arith) (omega arith) in
              elim (Bool-cases (less (entry a r) (entry a l))) [
                | inl right ↦ (
                  r,
                  rw (both, seen, right),
                  record {
                    inside = ground arith;
                    child = omega arith;
                    below = omega arith;
                    least = λ c p q e.
                        ground
                          (arith, irreflexive (entry a r), o.asym (entry a r) (entry a l) right);
                  },
                )
                | inr left ↦ (
                  l,
                  rw (both, seen, left),
                  record {
                    inside = h;
                    child = omega arith;
                    below = omega arith;
                    least = λ c p q e. ground (arith, irreflexive (entry a l));
                  },
                )
              ]
          | inr one ↦ (
            l,
            rw one,
            record {
              inside = h;
              child = omega arith;
              below = omega arith;
              least = λ c p q e. ground (arith, irreflexive (entry a l));
            },
          )
        ]

    swap-DownInv :
        (n : ℕ) (a b : List A) (i m : ℕ)
        → DownInv n a i
        → IsLeastChild n a i m
        → less (entry a m) (entry a i) ≡ true
        → IsSwapped a i m b
        → DownInv n b m
    swap-DownInv n a b i m v c sinks s =
        let at = entry-swap s in
        record {
          edge = λ k p q t. ground (
            arith,
            c.inside,
            c.child,
            c.below,
            at k,
            at (parent k),
            o.asym (entry a m) (entry a i) sinks,
            v.edge k,
            v.bridge m,
            v.bridge k,
            c.least k,
          );
          bridge = λ k p q t u.
              ground (arith, c.inside, c.child, c.below, at k, at (parent m), v.edge k);
        }

    pub down_restores :
        (fuel : ℕ) (a : List A) (i n : ℕ)
        → n < fuel + i
        → i ≤ n
        → n < length a
        → DownInv n a i
        → (b : List A) × (down less fuel a i n ≡ some b)
          × (length b ≡ length a)
          × IsHeap n b
          × ((k : ℕ) → n ≤ k → entry b k ≡ entry a k)
    unfolding down
    down_restores zero a i n f hi hn v = absurd (omega arith)
    down_restores (suc fuel) a i n f hi hn v = elim (Bool-cases (leb n (2 * i + 1))) [
      | inl e ↦ (a, rw e, refl, record { edge = λ k p q. v.edge k p q (ground arith) }, λ k p. refl)
      | inr e ↦
          let (m, em, c) = smaller_child_least a i n (ground arith) (omega arith) in
          let hm : m < length a = omega (arith, c.inside) in
          let seen = less_at-entry a m i hm (omega (arith, c.below, c.inside)) in
          elim (Bool-cases (less (entry a m) (entry a i))) [
            | inl sinks ↦
                let (b, s) = swap_total a i m (omega (arith, c.below)) hm in
                let v' = swap-DownInv n a b i m v c sinks s in
                let (z, ez, long, ordered, kept) =
                  down_restores fuel b m n (omega (arith, c.below)) (omega (arith, c.inside))
                    (rw s.size hn) v' in
                (
                  z,
                  rw (e, em, seen, sinks, s.done) ez,
                  long ∙ s.size,
                  ordered,
                  λ k p. kept k p ∙ ground (arith, entry-swap s k, c.below, c.inside),
                )
            | inr stays ↦ (
              a,
              rw (e, em, seen, stays),
              refl,
              record {
                edge = λ k p q.
                    ground
                      (arith, v.edge k, c.least k, o.trans (entry a i) (entry a m) (entry a k));
              },
              λ k p. refl,
            )
          ]
    ]
