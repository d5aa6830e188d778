-- ===== src/Prelude/Int.antt =====
-- Signed integers over the native numbers: Go's `int`, `int32` and `int64` values.
use Prim.Native.Nat.{ℕ, zero, suc, ◌-◌, ◌%◌, ◌^◌, compare, Ordering}
use mathlib.Core.Bool.{Bool, true, false}

-- `negsuc n` is -(n + 1).
pub data ℤ : Type 0 where
  pos : ℕ → ℤ
  negsuc : ℕ → ℤ

-- x > 0
abbrev pub is_positive : ℤ → Bool
is_positive (pos zero) = false
is_positive (pos (suc n)) = true
is_positive (negsuc n) = false

-- x < 0
abbrev pub is_negative : ℤ → Bool
is_negative (pos n) = false
is_negative (negsuc n) = true

-- int32(x): the low 32 bits, read as a signed number.
abbrev signed32 : ℕ → ℤ
signed32 m = elim (compare m 0x8000_0000) [ Ordering.lt ↦ pos m | _ ↦ negsuc (0xffff_ffff - m) ]

unfoldable pub to_int32 : ℤ → ℤ
to_int32 (pos n) = signed32 (n % 2 ^ 32)
to_int32 (negsuc n) = signed32 (0xffff_ffff - n % 2 ^ 32)
