-- ===== src/Base/Int.antt =====
-- C's signed integers, over the native numbers: conversions between widths as gcc makes them.
use Prim.Native.Nat.{ℕ, ◌+◌, ◌-◌, ◌*◌, ◌%◌, ◌^◌}
use mathlib.Core.Bool.{Bool, true, false}
use longan_chkout.Base.Tests.{ltb, if◌then◌else◌}

pub data ℤ : Type 0 where
  pos : ℕ → ℤ
  negsuc : ℕ → ℤ

-- The `w` low bits of the two's complement, read without and with a sign.
abbrev pub low_bits : ℕ → ℤ → ℕ
low_bits w (pos n) = n % 2 ^ w
low_bits w (negsuc n) = 2 ^ w - 1 - n % 2 ^ w

abbrev pub signed_of : ℕ → ℕ → ℤ
signed_of w n = if ltb n (2 ^ (w - 1)) then pos n else negsuc (2 ^ w - 1 - n)

-- The conversions to `int` and to `unsigned long`.
abbrev pub int_of : ℤ → ℤ
int_of z = signed_of 32 (low_bits 32 z)

abbrev pub ulong_of : ℤ → ℕ
ulong_of z = low_bits 64 z

-- The product with a factor of at least 1.
abbrev pub times : ℤ → ℕ → ℤ
times (pos n) k = pos (n * k)
times (negsuc n) k = negsuc ((n + 1) * k - 1)

abbrev pub is_positive : ℤ → Bool
is_positive (pos n) = ltb 0 n
is_positive (negsuc n) = false

abbrev pub is_negative : ℤ → Bool
is_negative (pos n) = false
is_negative (negsuc n) = true

-- The number that is not negative, and 0 for one that is.
abbrev pub nat_of : ℤ → ℕ
nat_of (pos n) = n
nat_of (negsuc n) = 0
