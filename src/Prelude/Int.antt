-- ===== src/Prelude/Int.antt =====
-- Python's integers: unbounded and signed, over the native numbers.
use Prim.Native.Nat.{ℕ, ◌≤◌}
use mathlib.Core.Path.{◌≡◌}
use mathlib.Core.Bool.{◌&&◌}
use mathlib.Core.Option.{Option, none, some}
use native.Mathlib.Omega.{arith}
use amneziawg_manager.Prelude.Tests.{leb, if◌then◌else◌}

-- `negsuc n` is -(n + 1).
pub data ℤ : Type 0 where
  pos : ℕ → ℤ
  negsuc : ℕ → ℤ

-- `lo <= z <= hi` for bounds that are not negative, and then the number
abbrev pub in_range : ℕ → ℕ → ℤ → Option ℕ
in_range lo hi (pos n) = if leb lo n && leb n hi then some n else none
in_range lo hi (negsuc n) = none

pub in_range_bounds :
    (lo hi : ℕ) (z : ℤ) {n : ℕ} → in_range lo hi z ≡ some n → (lo ≤ n) × (n ≤ hi) × (z ≡ pos n)
in_range_bounds lo hi (pos m) h = ground arith
in_range_bounds lo hi (negsuc m) h = ground arith

pub in_range-pos : (lo hi n : ℕ) → lo ≤ n → n ≤ hi → in_range lo hi (pos n) ≡ some n
in_range-pos lo hi n h k = ground arith
