-- ===== src/Base/Int.antt =====
-- Signed integers over the native numbers, for differences of times.
use Prim.Native.Nat.{ℕ, ◌-◌}
use flux_forge.Base.Tests.{leb, if◌then◌else◌}

-- `negsuc n` is -(n + 1).
pub data ℤ : Type 0 where
  pos : ℕ → ℤ
  negsuc : ℕ → ℤ

-- a - b, as an integer.
abbrev pub sub_ℕ : ℕ → ℕ → ℤ
sub_ℕ a b = if leb b a then pos (a - b) else negsuc (b - a - 1)

abbrev pub negate_ℕ : ℕ → ℤ
negate_ℕ n = sub_ℕ 0 n
