-- ===== src/Tests/Slicer.antt =====
-- The slicer on an array with both zeros, one, minus one and NaNs.
use volk.Base.{
  ℕ, ◌-◌, ◌/◌, ◌%◌, ◌^◌, ◌≡◌, refl, ap, false, some, arith, bit_and, ◌==◌, if◌then◌else◌,
}
use volk.Memory.{Buf}
use volk.Memory.Fill.{fill}
use volk.Simd.Unary.{Fits1}
use volk.Kernels.Slicer.{Instructions, may_flush, all_bits, sliced, run, neon, generic, rvv}
use volk.Kernels.Slicer.Agree.{slicer_run_lem, rvv_negative_zero}
use volk.Tests.Kernels.{lanewise, lanewise_1, four_lanes, buf, out}

-- A conversion that knows the numbers 0 and 1.
abbrev convert : ℕ → ℕ
convert x = if x == 0 then 0 else if x == 0x3F800000 then 1 else 0x80000000

-- A comparison that takes negative subnormal numbers for zeros.
abbrev flushed : ℕ → ℕ
flushed x = if may_flush x then all_bits 0 else all_bits x

flushed_agrees : (x : ℕ) → may_flush x ≡ false → flushed x ≡ all_bits x
flushed_agrees x e = ap (λ t. if t then all_bits 0 else all_bits x) e

abbrev instructions : Instructions
instructions = record {
  cvt = convert;
  cvt_zero = refl;
  cvt_one = refl;
  cvt_nan = refl;
  cmpge_ps = lanewise_1 4 all_bits;
  cvtps_epi32 = lanewise_1 4 convert;
  srli_epi32_31 = lanewise_1 4 (λ x. x / 2 ^ 31);
  cmp_ps_256 = lanewise_1 8 all_bits;
  and_ps_256 = lanewise 8 bit_and;
  cvtps_epi32_256 = lanewise_1 8 convert;
  vcgeq_value = flushed;
  vcgeq_agrees = flushed_agrees;
  vcgeq = lanewise_1 4 flushed;
  vcgeq_a64 = lanewise_1 4 all_bits;
  vshrq_31 = lanewise_1 4 (λ x. x / 2 ^ 31);
  setvl_e32m8 = four_lanes;
  vnot = λ vl. lanewise_1 vl (λ x. 2 ^ 32 - 1 - x);
  vsrl_31 = λ vl. lanewise_1 vl (λ x. x / 2 ^ 31);
}

-- 1.0, -1.0, then -0.0 and NaN by turns.
abbrev numbers : Buf
numbers = buf 1024 (λ j.
    if j == 0
    then 0x3F800000
    else if j == 1
    then 0xBF800000
    else if j % 2 == 0
    then 2 ^ 31
    else 0x7FC00000)

fits : Fits1 out numbers 37
fits = record { fit_c = omega arith; fit_a = omega arith }

slicer_run_lem_example :
    run instructions neon out numbers 37 ≡ some (fill (λ j. sliced (numbers.cell j)) 37 out)
slicer_run_lem_example =
    slicer_run_lem instructions neon out numbers 37 fits (record { start_c = refl; start_a = refl })
      (λ j h. ground arith)

rvv_negative_zero_example :
    (c' : Buf) × (c'' : Buf) × (run instructions generic out numbers 37 ≡ some c')
    × (run instructions rvv out numbers 37 ≡ some c'')
    × (c'.cell 2 ≡ 1)
    × (c''.cell 2 ≡ 0)
rvv_negative_zero_example = rvv_negative_zero instructions out numbers 37 2 fits (omega arith) refl
