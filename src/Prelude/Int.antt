-- ===== src/Prelude/Int.antt =====
-- Signed integers over the native numbers, and Go's int64: a value is kept as a ℤ, and `wrap64`
-- brings a result back into the range of int64 as two's complement arithmetic does.
use Prim.Native.Nat.{ℕ, suc, ◌+◌, ◌-◌, ◌*◌, ◌%◌, ◌≤◌, ◌<◌}
use mathlib.Core.Path.{◌≡◌}
use mathlib.Core.Bool.{Bool, ◌&&◌}
use native.Mathlib.Omega.{arith}
use redbus.Prelude.Tests.{ltb, leb, if◌then◌else◌}

-- `negsuc n` is -(n + 1).
pub data ℤ : Type 0 where
  pos : ℕ → ℤ
  negsuc : ℕ → ℤ

abbrev pub pos_part : ℤ → ℕ
pos_part (pos n) = n
pos_part (negsuc n) = 0

abbrev pub neg_part : ℤ → ℕ
neg_part (pos n) = 0
neg_part (negsuc n) = suc n

-- a - b, as an integer.
abbrev pub sub_ℕ : ℕ → ℕ → ℤ
sub_ℕ a b = if leb b a then pos (a - b) else negsuc (b - a - 1)

infixl 65 ◌+ℤ◌ ◌-ℤ◌
infixl 70 ◌*ℤ◌
infix 50 ◌≤ℤ◌
unfoldable pub ◌+ℤ◌ : ℤ → ℤ → ℤ
a +ℤ b = sub_ℕ (pos_part a + pos_part b) (neg_part a + neg_part b)

unfoldable pub ◌-ℤ◌ : ℤ → ℤ → ℤ
a -ℤ b = sub_ℕ (pos_part a + neg_part b) (neg_part a + pos_part b)

unfoldable pub ◌*ℤ◌ : ℤ → ℤ → ℤ
a *ℤ b =
    sub_ℕ (pos_part a * pos_part b + neg_part a * neg_part b)
      (pos_part a * neg_part b + neg_part a * pos_part b)

abbrev pub ◌≤ℤ◌ : ℤ → ℤ → Type 0
a ≤ℤ b = pos_part a + neg_part b ≤ pos_part b + neg_part a

abbrev pub ltb_ℤ : ℤ → ℤ → Bool
ltb_ℤ a b = ltb (pos_part a + neg_part b) (pos_part b + neg_part a)

abbrev pub leb_ℤ : ℤ → ℤ → Bool
leb_ℤ a b = leb (pos_part a + neg_part b) (pos_part b + neg_part a)

abbrev pub int64_mod : ℕ
int64_mod = 18446744073709551616

abbrev pub int64_half : ℕ
int64_half = 9223372036854775808

-- The residue of an integer modulo 2^64, as a uint64.
abbrev pub to_uint64 : ℤ → ℕ
to_uint64 (pos n) = n % int64_mod
to_uint64 (negsuc n) = int64_mod - 1 - n % int64_mod

-- The int64 with the bit pattern of a uint64.
abbrev pub of_uint64 : ℕ → ℤ
of_uint64 n = if ltb n int64_half then pos n else negsuc (int64_mod - 1 - n)

unfoldable pub wrap64 : ℤ → ℤ
wrap64 z = of_uint64 (to_uint64 z)

-- The values of int64.
abbrev pub IsInt64 : ℤ → Type 0
IsInt64 (pos n) = n < int64_half
IsInt64 (negsuc n) = n < int64_half

pub wrap64-IsInt64 : (z : ℤ) → IsInt64 (wrap64 z)
unfolding wrap64
wrap64-IsInt64 (pos n) = ground arith
wrap64-IsInt64 (negsuc n) = ground arith

pub wrap64_of-IsInt64 : (z : ℤ) → IsInt64 z → wrap64 z ≡ z
unfolding wrap64
wrap64_of-IsInt64 (pos n) h = ground arith
wrap64_of-IsInt64 (negsuc n) h = ground arith

pub +ℤ_parts :
    (a b : ℤ)
    → pos_part (a +ℤ b) + neg_part a + neg_part b ≡ neg_part (a +ℤ b) + pos_part a + pos_part b
unfolding ◌+ℤ◌
+ℤ_parts a b = ground arith

pub eq_of_parts : (a b : ℤ) → pos_part a + neg_part b ≡ pos_part b + neg_part a → a ≡ b
eq_of_parts a b h = ground arith

abbrev pub is_zero : ℤ → Bool
is_zero z = leb (pos_part z) 0 && leb (neg_part z) 0

-- `z > 0`
abbrev pub is_positive : ℤ → Bool
is_positive z = ltb 0 (pos_part z)

pub *ℤ-pos : (a b : ℕ) → pos a *ℤ pos b ≡ pos (a * b)
unfolding ◌*ℤ◌
*ℤ-pos a b = ground arith

pub +ℤ-pos : (a b : ℕ) → pos a +ℤ pos b ≡ pos (a + b)
unfolding ◌+ℤ◌
+ℤ-pos a b = ground arith

abbrev pub int32_mod : ℕ
int32_mod = 4294967296

abbrev pub int32_half : ℕ
int32_half = 2147483648

-- The conversion to int32.
abbrev pub to_uint32 : ℤ → ℕ
to_uint32 (pos n) = n % int32_mod
to_uint32 (negsuc n) = int32_mod - 1 - n % int32_mod

abbrev pub of_uint32 : ℕ → ℤ
of_uint32 n = if ltb n int32_half then pos n else negsuc (int32_mod - 1 - n)

unfoldable pub wrap32 : ℤ → ℤ
wrap32 z = of_uint32 (to_uint32 z)

-- The values of int32.
abbrev pub IsInt32 : ℤ → Type 0
IsInt32 (pos n) = n < int32_half
IsInt32 (negsuc n) = n < int32_half

pub wrap32_of-IsInt32 : (z : ℤ) → IsInt32 z → wrap32 z ≡ z
unfolding wrap32
wrap32_of-IsInt32 (pos n) h = ground arith
wrap32_of-IsInt32 (negsuc n) h = ground arith
