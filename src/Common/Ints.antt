-- ===== src/Common/Ints.antt =====
-- Go's signed integers, over the native numbers: `int` as ℤ, and the conversion to int32.
use Prim.Native.Nat.{ℕ, ◌-◌, ◌%◌, ◌^◌, ◌<◌}
use mathlib.Core.Path.{◌≡◌}
use mathlib.Core.Bool.{Bool, true, false}
use native.Mathlib.Omega.{arith}
use container_cloudlet.Common.Tests.{ltb, if◌then◌else◌}

-- `negsuc n` is -(n + 1).
pub data ℤ : Type 0 where
  pos : ℕ → ℤ
  negsuc : ℕ → ℤ

-- `0 < z`
abbrev pub is_pos : ℤ → Bool
is_pos (pos n) = ltb 0 n
is_pos (negsuc n) = false

-- `z < 0`
abbrev pub is_neg : ℤ → Bool
is_neg (pos n) = false
is_neg (negsuc n) = true

-- `a < b`
abbrev pub int_ltb : ℤ → ℤ → Bool
int_ltb (pos a) (pos b) = ltb a b
int_ltb (pos a) (negsuc b) = false
int_ltb (negsuc a) (pos b) = true
int_ltb (negsuc a) (negsuc b) = ltb b a

-- The low 32 bits, as an unsigned number.
abbrev pub low32 : ℤ → ℕ
low32 (pos n) = n % 2 ^ 32
low32 (negsuc n) = 2 ^ 32 - 1 - n % 2 ^ 32

abbrev pub signed32 : ℕ → ℤ
signed32 b = if ltb b (2 ^ 31) then pos b else negsuc (2 ^ 32 - 1 - b)

-- `int32(z)` keeps the low 32 bits.
abbrev pub to_int32 : ℤ → ℤ
to_int32 z = signed32 (low32 z)

-- A number that fits is kept.
to_int32_fits : (n : ℕ) → n < 2 ^ 31 → to_int32 (pos n) ≡ pos n
to_int32_fits n h = ground arith

-- An `int` product wraps at 64 bits.
abbrev pub low64 : ℤ → ℕ
low64 (pos n) = n % 2 ^ 64
low64 (negsuc n) = 2 ^ 64 - 1 - n % 2 ^ 64

abbrev pub signed64 : ℕ → ℤ
signed64 b = if ltb b (2 ^ 63) then pos b else negsuc (2 ^ 64 - 1 - b)

abbrev pub to_int64 : ℤ → ℤ
to_int64 z = signed64 (low64 z)
