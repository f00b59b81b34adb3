-- ===== src/Base/Distinct.antt =====
-- Maps without a second binding for a key: how insertion and deletion change their size.
use mathlib.Core.Path.{◌≡◌, refl}
use mathlib.Core.Option.{Option, none, some}
use mathlib.Core.List.{[], ◌∷◌}
use mathlib.Core.Bool.{Bool, true, false}
use Prim.Native.Nat.{suc}
use native.Mathlib.Omega.{arith}
use flux_forge.Base.Tests.{if◌then◌else◌}
use flux_forge.Base.Lists.{length}
use flux_forge.Base.Key.{Comparable}
use flux_forge.Base.Dict.{Dict, lookup, insert, delete, lookup-insert, lookup-delete}

abbrev pub is_some {ℓ} : {A : Type ℓ} → Option A → Bool
is_some none = false
is_some (some _) = true

module _ {ℓ κ} {K : Type ℓ} {V : Type κ} ⦃e : Comparable K⦄ where
  unfoldable pub IsDistinct : Dict K V → Type (ℓ ⊔ κ)
  IsDistinct [] = Unit
  IsDistinct ((k, v) ∷ m) = (lookup k m ≡ none) × IsDistinct m

  pub insert-IsDistinct : (k : K) (v : V) (m : Dict K V) → IsDistinct m → IsDistinct (insert k v m)
  unfolding IsDistinct insert lookup
  insert-IsDistinct k v [] d = ground arith
  insert-IsDistinct k v ((j, w) ∷ m) d =
      ground (
        arith,
        e.equals_iff k j,
        e.equals_iff j k,
        lookup-insert k j v m,
        insert-IsDistinct k v m,
        d,
      )

  pub delete-IsDistinct : (k : K) (m : Dict K V) → IsDistinct m → IsDistinct (delete k m)
  unfolding IsDistinct delete
  delete-IsDistinct k [] d = tt
  delete-IsDistinct k ((j, w) ∷ m) d = ground (arith, lookup-delete k j m, delete-IsDistinct k m, d)

  pub length-insert :
      (k : K) (v : V) (m : Dict K V)
      → length (insert k v m) ≡ (if is_some (lookup k m) then length m else suc (length m))
  unfolding insert lookup
  length-insert k v [] = refl
  length-insert k v ((j, w) ∷ m) = ground (arith, length-insert k v m)

  pub delete_absent : (k : K) (m : Dict K V) → lookup k m ≡ none → delete k m ≡ m
  unfolding lookup delete
  delete_absent k [] h = refl
  delete_absent k ((j, w) ∷ m) h = ground (arith, delete_absent k m)

  pub length-delete :
      (k : K) (m : Dict K V)
      → IsDistinct m
      → length m ≡ (if is_some (lookup k m) then suc (length (delete k m)) else length (delete k m))
  unfolding IsDistinct lookup delete
  length-delete k [] d = refl
  length-delete k ((j, w) ∷ m) d =
      ground (arith, length-delete k m, delete_absent k m, e.equals_iff j k, d)
