-- ===== src/Base/Key.antt =====
-- Go's `==` on the types that serve as keys: numbers and texts.
use mathlib.Core.Bool.{Bool, true, false}
use mathlib.Core.Logic.{◌↔◌, ◌≢◌}
use mathlib.Core.Path.{◌≡◌, refl}
use native.Mathlib.Omega.{arith}
use text.Mathlib.TextEquality
use text.Mathlib.Text.{◌==◌ as same_string}
use Prim.Native.Nat.{ℕ, compare, Ordering}
use Prim.Native.String.{String}

abbrev same_nat : ℕ → ℕ → Bool
same_nat a b = elim (compare a b) [ Ordering.eq ↦ true | _ ↦ false ]

pub same_nat_iff : (a b : ℕ) → (same_nat a b ≡ true) ↔ (a ≡ b)
same_nat_iff a b = ground arith

pub record Comparable {ℓ} (A : Type ℓ) : Type ℓ where
  pub equals : A → A → Bool
  pub equals_iff : (a b : A) → (equals a b ≡ true) ↔ (a ≡ b)

instance abbrev pub nat_eq : Comparable ℕ
nat_eq = record { equals_iff = same_nat_iff; equals = same_nat }

instance abbrev pub string_eq : Comparable String
string_eq = record { equals_iff = TextEquality.eq_iff; equals = same_string }

infix 50 ◌==◌
abbrev pub ◌==◌ {ℓ} : {A : Type ℓ} ⦃e : Comparable A⦄ → A → A → Bool
◌==◌ ⦃e⦄ = e.equals

module _ {ℓ} {A : Type ℓ} ⦃e : Comparable A⦄ where
  pub ==_iff : (a b : A) → ((a == b) ≡ true) ↔ (a ≡ b)
  ==_iff a b = e.equals_iff a b

  pub ==_refl : (a : A) → (a == a) ≡ true
  ==_refl a = (e.equals_iff a a).1 refl

  pub ==_ne : (a b : A) → a ≢ b → (a == b) ≡ false
  ==_ne a b h = ground (arith, e.equals_iff a b)
