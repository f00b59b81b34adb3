-- ===== src/Queue/Heap/Array.antt =====
-- What `swap` does to a slice.
use mathlib.Core.Logic.{∥∥₁_elim}
use native.Mathlib.Nat.{ℕ_set}
use mathlib.Core.List.Perm
use mathlib.Core.List.{Permᴰ}
use flux_forge.Base.{
  ℕ, zero, suc, ◌<◌, ◌≡◌, refl, ◌∙◌, some, List, [], ◌∷◌, ◌++◌, Perm, arith, ◌==◌, nat_eq,
  if◌then◌else◌, length, length-set, get_elem?, set,
}
use flux_forge.Queue.Heap.{swap}

module _ {ℓ} {A : Type ℓ} where
  same_size : {front back : List A} → Permᴰ front back → length front ≡ length back
  same_size (Permᴰ.swap y z) = omega arith
  same_size (Permᴰ.trans first second) = omega (arith, same_size first, same_size second)
  same_size (Permᴰ.cons y rest) = omega (arith, same_size rest)
  same_size Permᴰ.nil = omega arith

  pub length-perm : {a b : List A} → Perm a b → length a ≡ length b
  length-perm {a} {b} p = ∥∥₁_elim p (ℕ_set (length a) (length b)) same_size

  pub concat-perm : (a : List A) (x : A) → Perm (a ++ x ∷ []) (x ∷ a)
  concat-perm [] x = Perm.refl _
  concat-perm (y ∷ a) x = Perm.trans (Perm.cons y (concat-perm a x)) (Perm.swap x y a)

  pub get_elem?-some : (a : List A) (i : ℕ) → i < length a → (x : A) × (get_elem? a i ≡ some x)
  get_elem?-some [] i h = absurd (omega arith)
  get_elem?-some (x ∷ a) zero h = (x, refl)
  get_elem?-some (x ∷ a) (suc i) h = get_elem?-some a i (omega arith)

  pub lt_of_get_elem? : (a : List A) (i : ℕ) {x : A} → get_elem? a i ≡ some x → i < length a
  lt_of_get_elem? [] i h = cc
  lt_of_get_elem? (x ∷ a) zero h = omega arith
  lt_of_get_elem? (x ∷ a) (suc i) h = omega (arith, lt_of_get_elem? a i h)

  pub get_elem?-set :
      (a : List A) (i k : ℕ) (v : A)
      → i < length a
      → get_elem? (set a i v) k ≡ (if i == k then some v else get_elem? a k)
  get_elem?-set [] i k v h = absurd (omega arith)
  get_elem?-set (x ∷ a) zero zero v h = refl
  get_elem?-set (x ∷ a) zero (suc k) v h = ground arith
  get_elem?-set (x ∷ a) (suc i) zero v h = ground arith
  get_elem?-set (x ∷ a) (suc i) (suc k) v h = ground (arith, get_elem?-set a i k v)

  -- A write trades the old entry for the new one.
  set-perm : (a : List A) (i : ℕ) (x v : A) → get_elem? a i ≡ some x → Perm (x ∷ set a i v) (v ∷ a)
  set-perm [] i x v h = cc
  set-perm (y ∷ a) zero x v h = rw (some_path h) (Perm.swap v x a)
    where
      some_path : {x y : A} → some y ≡ some x → y ≡ x
      some_path e = cc
  set-perm (y ∷ a) (suc i) x v h =
      Perm.trans (Perm.swap y x _) (Perm.trans (Perm.cons y (set-perm a i x v h)) (Perm.swap v y a))

  pub record IsSwapped (a : List A) (i j : ℕ) (b : List A) : Type ℓ where
    pub done : swap a i j ≡ some b
    pub same : Perm b a
    pub size : length b ≡ length a
    pub at :
        (k : ℕ)
        → get_elem? b k
          ≡ (if j == k then get_elem? a i else if i == k then get_elem? a j else get_elem? a k)

  pub swap_total :
      (a : List A) (i j : ℕ) → i < length a → j < length a → (b : List A) × IsSwapped a i j b
  unfolding swap
  swap_total a i j hi hj =
      let (x, ex) = get_elem?-some a i hi in
      let (y, ey) = get_elem?-some a j hj in
      let b = set a i y in
      let long : length b ≡ length a = length-set a i y in
      let kept : get_elem? b j ≡ some y = ground (arith, get_elem?-set a i j y) in
      (
        set b j x,
        record {
          done = rw (ex, ey);
          same = Perm.cons_inv (Perm.trans (set-perm b j y x kept) (set-perm a i x y ex));
          size = length-set b j x ∙ long;
          at = λ k. ground (arith, get_elem?-set b j k x, get_elem?-set a i k y);
        },
      )
