-- ===== src/Prelude/Int.antt =====
-- C's `int` as a signed number over the native ones.
use Prim.Native.Nat.{ℕ, compare, Ordering}
use mathlib.Core.Path.{◌≡◌}
use mathlib.Core.Bool.{Bool, true, false}
use Prim.Native.Nat.{◌<◌}
use native.Mathlib.Omega.{arith}

-- `negsuc n` is -(n + 1).
pub data ℤ : Type 0 where
  pos : ℕ → ℤ
  negsuc : ℕ → ℤ

abbrev pub is_negative : ℤ → Bool
is_negative (pos n) = false
is_negative (negsuc n) = true

-- The value of a C condition `if (z)`.
abbrev pub is_nonzero : ℤ → Bool
is_nonzero (pos n) = elim (compare n 0) [ Ordering.eq ↦ false | _ ↦ true ]
is_nonzero (negsuc n) = true

-- `z >= k` for a constant `k` that is not negative.
abbrev pub at_least : ℤ → ℕ → Bool
at_least (pos n) k = elim (compare n k) [ Ordering.lt ↦ false | _ ↦ true ]
at_least (negsuc n) k = false

-- Used as an array index: the guards of the callers exclude a negative value.
abbrev pub to_index : ℤ → ℕ
to_index (pos n) = n
to_index (negsuc n) = 0

pub in_range : (z : ℤ) (k : ℕ) → is_negative z ≡ false → at_least z k ≡ false → to_index z < k
in_range (pos n) k p q = ground arith
in_range (negsuc n) k p q = absurd (cc)
