-- ===== src/Prelude/Words.antt =====
-- Go's conversions to signed integers of a fixed width, which keep the low bits. An integer is its
-- two's complement pattern, a number below the modulus.
use Prim.Native.Nat.{ℕ, ◌-◌, ◌*◌, ◌%◌, ◌^◌, ◌<◌}
use mathlib.Core.Path.{◌≡◌}
use native.Mathlib.Omega.{arith}
use bass.Prelude.Tests.{ltb, if◌then◌else◌}
use bass.Prelude.Int.{ℤ, pos, negsuc}

-- The low bits of an integer.
abbrev pub pattern_of : ℕ → ℤ → ℕ
pattern_of modulus (pos n) = n % modulus
pattern_of modulus (negsuc n) = modulus - 1 - n % modulus

-- The integer that a pattern stands for, given half the modulus.
abbrev pub signed : ℕ → ℕ → ℤ
signed half r = if ltb r half then pos r else negsuc (2 * half - r - 1)

unfoldable pub to_int32 : ℤ → ℤ
to_int32 z = signed (2 ^ 31) (pattern_of (2 ^ 32) z)

unfoldable pub to_int64 : ℤ → ℤ
to_int64 z = signed (2 ^ 63) (pattern_of (2 ^ 64) z)

abbrev pub Fits : ℕ → ℤ → Type 0
Fits half (pos n) = n < half
Fits half (negsuc n) = n < half

pub Fits-to_int32 : (z : ℤ) → Fits (2 ^ 31) (to_int32 z)
unfolding to_int32
Fits-to_int32 z = ground arith

pub Fits-to_int64 : (z : ℤ) → Fits (2 ^ 63) (to_int64 z)
unfolding to_int64
Fits-to_int64 z = ground arith

pub to_int32_of_Fits : (z : ℤ) → Fits (2 ^ 31) z → to_int32 z ≡ z
unfolding to_int32
to_int32_of_Fits z h = ground arith

pub to_int64_of_Fits : (z : ℤ) → Fits (2 ^ 63) z → to_int64 z ≡ z
unfolding to_int64
to_int64_of_Fits z h = ground arith
