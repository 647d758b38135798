-- ===== src/Base/Float64.antt =====
-- C's comparisons of floating-point numbers, on the bit patterns of IEEE 754's double precision.
use Prim.Native.Nat.{ℕ, ◌+◌, ◌-◌, ◌%◌, ◌^◌}
use mathlib.Core.Bool.{Bool, not, ◌&&◌}
use volk.Base.Tests.{ltb, if◌then◌else◌}

abbrev pub is_nan : ℕ → Bool
is_nan x = ltb 0x7FF0000000000000 (x % 2 ^ 63)

-- The place of a number in the order of numbers: zeros of both signs are at `2 ^ 63`.
abbrev pub place : ℕ → ℕ
place x = if ltb x (2 ^ 63) then 2 ^ 63 + x else 2 ^ 64 - x

-- `x > y`, which is false where one of them is not a number.
abbrev pub double_gt : ℕ → ℕ → Bool
double_gt x y = not (is_nan x) && not (is_nan y) && ltb (place y) (place x)

-- `x < y`
abbrev pub double_lt : ℕ → ℕ → Bool
double_lt x y = double_gt y x
