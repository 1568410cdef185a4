-- ===== src/Base/Int.antt =====
-- Signed integers over the native numbers, and the C conversions between their widths.
use Prim.Native.Nat.{ℕ, ◌-◌, ◌%◌, ◌^◌, ◌<◌}
use mathlib.Core.Path.{◌≡◌, refl}
use mathlib.Core.Bool.{Bool, true, false}
use native.Mathlib.Omega.{arith}
use native.Mathlib.Decide.{ℕ_discrete}
use mt_hvac.Base.Tests.{ltb, if◌then◌else◌}

-- `negsuc n` is -(n + 1).
pub data ℤ : Type 0 where
  pos : ℕ → ℤ
  negsuc : ℕ → ℤ

abbrev pub minus_one : ℤ
minus_one = negsuc 0

pub ℤ-discrete : Discrete ℤ
ℤ-discrete = hlevel ℕ_discrete

-- x < 0
abbrev pub is_negative : ℤ → Bool
is_negative (pos n) = false
is_negative (negsuc n) = true

-- 0 < x
abbrev pub is_positive : ℤ → Bool
is_positive (pos n) = ltb 0 n
is_positive (negsuc n) = false

-- x mod 2 ^ w, as the conversion to an unsigned type of w bits does.
abbrev pub to_unsigned : ℕ → ℤ → ℕ
to_unsigned w (pos n) = n % 2 ^ w
to_unsigned w (negsuc n) = 2 ^ w - 1 - n % 2 ^ w

-- The signed number that a pattern of 32 bits stands for.
abbrev pub signed32 : ℕ → ℤ
signed32 m = if ltb m (2 ^ 31) then pos m else negsuc (2 ^ 32 - 1 - m)

pub to_uint64 : ℤ → ℕ
to_uint64 x = to_unsigned 64 x

pub to_int32 : ℤ → ℤ
to_int32 x = signed32 (to_unsigned 32 x)

pub to_int32_small : (n : ℕ) → n < 2 ^ 31 → to_int32 (pos n) ≡ pos n
unfolding to_int32
to_int32_small n h = ground arith

pub to_int32-minus_one : to_int32 minus_one ≡ minus_one
unfolding to_int32
to_int32-minus_one = refl

pub to_uint64_small : (n : ℕ) → n < 2 ^ 31 → to_uint64 (pos n) ≡ n
unfolding to_uint64
to_uint64_small n h = omega arith

pub to_uint64-minus_one : to_uint64 minus_one ≡ 2 ^ 64 - 1
unfolding to_uint64
to_uint64-minus_one = refl
