-- ===== src/Queue/Heap/Total.antt =====
-- container/heap neither panics nor loses an element, whatever `less` is.
use mathlib.Core.List.Perm
use flux_forge.Base.{
  ℕ, zero, suc, ◌+◌, ◌-◌, ◌*◌, ◌/◌, ◌<◌, ◌≤◌, ◌≡◌, ap, inl, inr, Bool, some, List, [], ◌∷◌, ◌++◌,
  Perm, arith, ◌==◌, nat_eq, leb, ltb, length, length-append, get_elem?, take, Bool-cases,
}
use flux_forge.Queue.Heap.{less_at, up, down, smaller_child, push, pop}
use flux_forge.Queue.Heap.Array.{length-perm, concat-perm, get_elem?-some, swap_total}

module _ {ℓ} {A : Type ℓ} (less : A → A → Bool) where
  pub less_at_total :
      (a : List A) (i j : ℕ)
      → i < length a
      → j < length a
      → (c : Bool) × (less_at less a i j ≡ some c)
  unfolding less_at
  less_at_total a i j hi hj =
      let (x, ex) = get_elem?-some a i hi in
      let (y, ey) = get_elem?-some a j hj in (less x y, rw (ex, ey))

  pub up_total :
      (fuel : ℕ) (a : List A) (j : ℕ)
      → j < fuel
      → j < length a
      → (b : List A) × (up less fuel a j ≡ some b) × Perm b a
  unfolding up
  up_total zero a j f h = absurd (omega arith)
  up_total (suc fuel) a j f h =
      let i = (j - 1) / 2 in
      elim (Bool-cases (i == j)) [
        | inl e ↦ (a, rw e, Perm.refl a)
        | inr e ↦
            let hi : i < length a = ground arith in
            let (c, ec) = less_at_total a j i h hi in
            elim (Bool-cases c) [
              | inl below ↦
                  let (b, s) = swap_total a i j hi h in
                  let (d, ed, p) = up_total fuel b i (ground arith) (rw s.size hi) in
                  (d, rw (e, ec, below, s.done) ed, Perm.trans p s.same)
              | inr stays ↦ (a, rw (e, ec, stays), Perm.refl a)
            ]
      ]

  pub smaller_child_total :
      (a : List A) (i n : ℕ)
      → 2 * i + 1 < n
      → n ≤ length a
      → (j : ℕ) × (smaller_child less a i n ≡ some j) × (i < j) × (j < n)
  unfolding smaller_child
  smaller_child_total a i n h k = elim (Bool-cases (ltb (2 * i + 1 + 1) n)) [
    | inl both ↦
        let (c, ec) = less_at_total a (2 * i + 1 + 1) (2 * i + 1) (ground arith) (omega arith) in
        elim (Bool-cases c) [
          | inl right ↦ (2 * i + 1 + 1, rw (both, ec, right), omega arith, ground arith)
          | inr left ↦ (2 * i + 1, rw (both, ec, left), omega arith, h)
        ]
    | inr one ↦ (2 * i + 1, rw one, omega arith, h)
  ]

  pub down_total :
      (fuel : ℕ) (a : List A) (i n : ℕ)
      → n < fuel + i
      → i ≤ n
      → n < length a
      → (b : List A) × (down less fuel a i n ≡ some b) × Perm b a
  unfolding down
  down_total zero a i n f hi hn = absurd (omega arith)
  down_total (suc fuel) a i n f hi hn = elim (Bool-cases (leb n (2 * i + 1))) [
    | inl e ↦ (a, rw e, Perm.refl a)
    | inr e ↦
        let (j, ej, lo, hj) = smaller_child_total a i n (ground arith) (omega arith) in
        let (c, ec) = less_at_total a j i (omega arith) (omega arith) in
        elim (Bool-cases c) [
          | inl below ↦
              let (b, s) = swap_total a i j (omega arith) (omega arith) in
              let (d, ed, p) = down_total fuel b j n (omega arith) (omega arith) (rw s.size hn) in
              (d, rw (e, ej, ec, below, s.done) ed, Perm.trans p s.same)
          | inr stays ↦ (a, rw (e, ej, ec, stays), Perm.refl a)
        ]
  ]

  take-append-last :
      (n : ℕ) (a : List A) (x : A)
      → length a ≡ suc n
      → get_elem? a n ≡ some x
      → take n a ++ x ∷ [] ≡ a
  take-append-last n [] x h e = absurd (omega arith)
  take-append-last zero (y ∷ []) x h e = ground arith
  take-append-last zero (y ∷ z ∷ a) x h e = absurd (omega arith)
  take-append-last (suc n) (y ∷ a) x h e = ap (◌∷◌ y) (take-append-last n a x (omega arith) e)

  pub push_total : (x : A) (a : List A) → (b : List A) × (push less x a ≡ some b) × Perm b (x ∷ a)
  unfolding push
  push_total x a =
      let long : length (a ++ x ∷ []) ≡ length a + 1 = omega (arith, length-append a (x ∷ [])) in
      let (b, e, p) =
        up_total (length (a ++ x ∷ [])) (a ++ x ∷ []) (length (a ++ x ∷ []) - 1) (omega arith)
          (omega arith) in
      (b, e, Perm.trans p (concat-perm a x))

  pub pop_total :
      (a : List A)
      → 0 < length a
      → (x : A) × (rest : List A) × (pop less a ≡ some (x, rest)) × Perm (x ∷ rest) a
  unfolding pop
  pop_total a h =
      let n = length a - 1 in
      let (b, s) = swap_total a 0 n h (omega arith) in
      let (c, ec, p) =
        down_total (length a) b 0 n (omega arith) (omega arith) (rw s.size (omega arith)) in
      let q = Perm.trans p s.same in
      let long : length c ≡ length a = length-perm q in
      let (x, ex) = get_elem?-some c n (rw long (omega arith)) in
      (
        x,
        take n c,
        rw (s.done, ec, ex),
        Perm.trans (Perm.symm (concat-perm (take n c) x))
            (rw (take-append-last n c x (omega arith) ex) q),
      )
