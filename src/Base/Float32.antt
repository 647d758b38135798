-- ===== src/Base/Float32.antt =====
-- C's comparisons of floating-point numbers, on the bit patterns of IEEE 754's single precision.
use Prim.Native.Nat.{ℕ, ◌+◌, ◌-◌, ◌%◌, ◌^◌}
use mathlib.Core.Bool.{Bool, not, ◌&&◌, ◌||◌}
use volk.Base.Tests.{ltb, ◌==◌, if◌then◌else◌}

abbrev pub is_nan : ℕ → Bool
is_nan x = ltb 0x7F800000 (x % 2 ^ 31)

-- A number that is not a zero and is too small for an exponent of its own.
abbrev pub is_subnormal : ℕ → Bool
is_subnormal x = ltb 0 (x % 2 ^ 31) && ltb (x % 2 ^ 31) (2 ^ 23)

-- `x >= 0`: not a number is not, and a zero is, whatever its sign.
abbrev pub ge_zero : ℕ → Bool
ge_zero x = not (is_nan x) && (ltb x (2 ^ 31) || x % 2 ^ 31 == 0)

-- The place of a number in the order of numbers: zeros of both signs are at `2 ^ 31`.
abbrev pub place : ℕ → ℕ
place x = if ltb x (2 ^ 31) then 2 ^ 31 + x else 2 ^ 32 - x

-- `x > y`, which is false where one of them is not a number.
abbrev pub float_gt : ℕ → ℕ → Bool
float_gt x y = not (is_nan x) && not (is_nan y) && ltb (place y) (place x)

-- `x < y`
abbrev pub float_lt : ℕ → ℕ → Bool
float_lt x y = float_gt y x
