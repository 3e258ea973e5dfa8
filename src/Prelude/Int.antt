-- ===== src/Prelude/Int.antt =====
-- The signed integers that the program's `int` stands for, where it can be negative.
use Prim.Native.Nat.{ℕ, zero, suc, ◌*◌, ◌/◌}
use mathlib.Core.Bool.{Bool, true, false}
use masque_vpn.Prelude.Tests.{◌==◌, ltb}

-- `negsuc n` is -(n + 1).
pub data ℤ : Type 0 where
  pos : ℕ → ℤ
  negsuc : ℕ → ℤ

abbrev pub pos_part : ℤ → ℕ
pos_part (pos n) = n
pos_part (negsuc n) = 0

abbrev pub is_negative : ℤ → Bool
is_negative (pos n) = false
is_negative (negsuc n) = true

abbrev pub is_zero : ℤ → Bool
is_zero (pos n) = n == 0
is_zero (negsuc n) = false

-- k < z, for a constant k of the source that is not negative.
abbrev pub above : ℕ → ℤ → Bool
above k (pos n) = ltb k n
above k (negsuc n) = false

abbrev pub neg : ℕ → ℤ
neg zero = pos 0
neg (suc n) = negsuc n

-- n * z / d, where the division cuts off towards zero.
abbrev pub scale : ℕ → ℤ → ℕ → ℤ
scale n (pos z) d = pos (n * z / d)
scale n (negsuc z) d = neg (n * suc z / d)
