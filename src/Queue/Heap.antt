-- ===== src/Queue/Heap.antt =====
-- Go's container/heap over a slice and a Less: Push, Pop and the two sift loops. `none` is a panic
-- of the runtime on an index out of range, or the end of the fuel.
pub mod Array
pub mod Total
pub mod Order
pub mod Extract
use flux_forge.Base.{
  ℕ, zero, suc, ◌+◌, ◌-◌, ◌*◌, ◌/◌, ◌<◌, Bool, true, false, ◌&&◌, Option, none, some, List, [], ◌∷◌,
  ◌++◌, ◌==◌, nat_eq, ltb, leb, if◌then◌else◌, length, get_elem?, set, take,
}

infixl 5 ◌>>=◌
abbrev pub ◌>>=◌ {ℓ κ} : {A : Type ℓ} {B : Type κ} → Option A → (A → Option B) → Option B
none >>= f = none
some a >>= f = f a

module _ {ℓ} {A : Type ℓ} where
  -- `pq[i], pq[j] = pq[j], pq[i]`
  unfoldable pub swap : List A → ℕ → ℕ → Option (List A)
  swap a i j = do x ← get_elem? a i; y ← get_elem? a j; some (set (set a i y) j x)

module _ {ℓ} {A : Type ℓ} (less : A → A → Bool) where
  unfoldable pub less_at : List A → ℕ → ℕ → Option Bool
  less_at a i j = do x ← get_elem? a i; y ← get_elem? a j; some (less x y)

  -- up(h, j); the parent of 0 is 0.
  unfoldable pub up : ℕ → List A → ℕ → Option (List A)
  up zero a j = none
  up (suc fuel) a j =
      let i = (j - 1) / 2 in
      let rise = swap a i j >>= λ b. up fuel b i in
      if i == j then some a else (less_at a j i >>= λ below. if below then rise else some a)

  -- The smaller child of i below n: the right one only if it is there and less.
  unfoldable pub smaller_child : List A → ℕ → ℕ → Option ℕ
  smaller_child a i n =
      let left = 2 * i + 1 in
      let right = left + 1 in
      if ltb right n
      then (less_at a right left >>= λ below. some (if below then right else left))
      else some left

  -- down(h, i, n) for 0 ≤ i, so that 2 i + 1 does not overflow below the length of a slice.
  unfoldable pub down : ℕ → List A → ℕ → ℕ → Option (List A)
  down zero a i n = none
  down (suc fuel) a i n =
      let step : Option (List A) = do
        j ← smaller_child a i n
        below ← less_at a j i
        let sink = swap a i j >>= λ b. down fuel b j n
        if below then sink else some a
      in if leb n (2 * i + 1) then some a else step

  -- heap.Push
  unfoldable pub push : A → List A → Option (List A)
  push x a = let grown = a ++ x ∷ [] in up (length grown) grown (length grown - 1)

  -- heap.Pop: the root goes to the end, and h.Pop takes it off.
  unfoldable pub pop : List A → Option (A × List A)
  pop a = do
    let n = length a - 1
    b ← swap a 0 n
    c ← down (length a) b 0 n
    x ← get_elem? c n
    some (x, take n c)
