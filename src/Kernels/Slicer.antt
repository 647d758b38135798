-- ===== src/Kernels/Slicer.antt =====
-- kernels/volk/volk_32f_binary_slicer_32i.h: 1 where a number is at least 0, and 0 elsewhere. The cells of
-- the input are the bit patterns of IEEE 754's single precision.
pub mod Agree
use volk.Base.{
  ℕ, ◌+◌, ◌-◌, ◌*◌, ◌/◌, ◌%◌, ◌^◌, ◌≡◌, Bool, false, not, ◌&&◌, ◌||◌, Option, bit_and, ltb, ◌==◌,
  if◌then◌else◌,
}
use volk.Base.Float32.{ge_zero, is_subnormal}
use volk.Memory.{Buf, aligned, unaligned}
use volk.Simd.{LaneOp2, SetVl}
use volk.Simd.Unary.{LaneOp1, chained, with_scalar, points_x1, simd_x1, simd_two_x1, rvv_x1}

-- `if (*aPtr++ >= 0) *cPtr++ = 1; else *cPtr++ = 0;`
abbrev pub sliced : ℕ → ℕ
sliced x = if ge_zero x then 1 else 0

-- A vector comparison with zero: all bits of the lane, or none.
abbrev pub all_bits : ℕ → ℕ
all_bits x = if ge_zero x then 0xFFFFFFFF else 0

-- A negative number that 32-bit NEON may flush to zero.
abbrev pub may_flush : ℕ → Bool
may_flush x = is_subnormal x && not (ltb x (2 ^ 31))

-- The instructions. 32-bit NEON may take a subnormal number for a zero, so that its comparison, `vcgeq`, is
-- that of C for other numbers and for positive ones only; `vcgeq_a64` is the one of AArch64. `cvt` is the conversion of a number to an integer, of which the code needs 0, 1, and
-- that what is not a number gives the integer with only the highest bit.
pub record Instructions : Type 0 where
  pub cvt : ℕ → ℕ
  pub cvt_zero : cvt 0 ≡ 0
  pub cvt_one : cvt 0x3F800000 ≡ 1
  pub cvt_nan : cvt 0xFFFFFFFF ≡ 0x80000000
  pub cmpge_ps : LaneOp1 4 all_bits
  pub cvtps_epi32 : LaneOp1 4 cvt
  pub srli_epi32_31 : LaneOp1 4 (λ x. x / 2 ^ 31)
  pub cmp_ps_256 : LaneOp1 8 all_bits
  pub and_ps_256 : LaneOp2 8 bit_and
  pub cvtps_epi32_256 : LaneOp1 8 cvt
  pub vcgeq_value : ℕ → ℕ
  pub vcgeq_agrees : (x : ℕ) → may_flush x ≡ false → vcgeq_value x ≡ all_bits x
  pub vcgeq : LaneOp1 4 vcgeq_value
  pub vcgeq_a64 : LaneOp1 4 all_bits
  pub vshrq_31 : LaneOp1 4 (λ x. x / 2 ^ 31)
  pub setvl_e32m8 : SetVl
  pub vnot : (vl : ℕ) → LaneOp1 vl (λ x. 2 ^ 32 - 1 - x)
  pub vsrl_31 : (vl : ℕ) → LaneOp1 vl (λ x. x / 2 ^ 31)

pub data Impl : Type 0 where
  generic generic_branchless a_sse2 a_avx u_sse2 u_avx neon neonv8 rvv : Impl

-- The alignment in bytes that an implementation expects of its arguments.
abbrev pub alignment : Impl → ℕ
alignment a_sse2 = 16
alignment a_avx = 32
alignment generic = 1
alignment generic_branchless = 1
alignment u_sse2 = 1
alignment u_avx = 1
alignment neon = 1
alignment neonv8 = 1
alignment rvv = 1

pub volk_32f_binary_slicer_32i_generic : Buf → Buf → ℕ → Option Buf
volk_32f_binary_slicer_32i_generic c a num_points = points_x1 sliced 0 a num_points c

-- `*cPtr++ = (*aPtr++ >= 0);`
pub volk_32f_binary_slicer_32i_generic_branchless : Buf → Buf → ℕ → Option Buf
volk_32f_binary_slicer_32i_generic_branchless c a num_points =
    points_x1 (λ x. if ge_zero x then 1 else 0) 0 a num_points c

module _ (o : Instructions) where
  abbrev pub sse2_value : ℕ → ℕ
  sse2_value x = o.cvt (all_bits x) / 2 ^ 31

  abbrev pub slice_sse2 : LaneOp1 4 sse2_value
  slice_sse2 = chained (chained o.cmpge_ps o.cvtps_epi32) o.srli_epi32_31

  abbrev pub avx_value : ℕ → ℕ
  avx_value x = o.cvt (bit_and (all_bits x) 0x3F800000)

  abbrev pub slice_avx : LaneOp1 8 avx_value
  slice_avx = chained (chained o.cmp_ps_256 (with_scalar o.and_ps_256 0x3F800000)) o.cvtps_epi32_256

  abbrev pub neon_value : ℕ → ℕ
  neon_value x = o.vcgeq_value x / 2 ^ 31

  abbrev pub slice_neon : LaneOp1 4 neon_value
  slice_neon = chained o.vcgeq o.vshrq_31

  abbrev pub neonv8_value : ℕ → ℕ
  neonv8_value x = all_bits x / 2 ^ 31

  abbrev pub slice_neonv8 : LaneOp1 4 neonv8_value
  slice_neonv8 = chained o.vcgeq_a64 o.vshrq_31

  abbrev pub rvv_value : ℕ → ℕ
  rvv_value x = (2 ^ 32 - 1 - x) / 2 ^ 31

  abbrev pub slice_rvv : (vl : ℕ) → LaneOp1 vl rvv_value
  slice_rvv vl = chained (o.vnot vl) (o.vsrl_31 vl)

  pub volk_32f_binary_slicer_32i_a_sse2 : Buf → Buf → ℕ → Option Buf
  volk_32f_binary_slicer_32i_a_sse2 c a num_points =
      simd_x1 aligned 4 4 4 slice_sse2 sliced c a num_points

  pub volk_32f_binary_slicer_32i_a_avx : Buf → Buf → ℕ → Option Buf
  volk_32f_binary_slicer_32i_a_avx c a num_points =
      simd_x1 aligned 4 4 8 slice_avx sliced c a num_points

  pub volk_32f_binary_slicer_32i_u_sse2 : Buf → Buf → ℕ → Option Buf
  volk_32f_binary_slicer_32i_u_sse2 c a num_points =
      simd_x1 unaligned 4 4 4 slice_sse2 sliced c a num_points

  pub volk_32f_binary_slicer_32i_u_avx : Buf → Buf → ℕ → Option Buf
  volk_32f_binary_slicer_32i_u_avx c a num_points =
      simd_x1 unaligned 4 4 8 slice_avx sliced c a num_points

  pub volk_32f_binary_slicer_32i_neon : Buf → Buf → ℕ → Option Buf
  volk_32f_binary_slicer_32i_neon c a num_points =
      simd_x1 unaligned 4 4 4 slice_neon sliced c a num_points

  pub volk_32f_binary_slicer_32i_neonv8 : Buf → Buf → ℕ → Option Buf
  volk_32f_binary_slicer_32i_neonv8 c a num_points =
      simd_two_x1 unaligned 4 4 4 slice_neonv8 sliced c a num_points

  pub volk_32f_binary_slicer_32i_rvv : Buf → Buf → ℕ → Option Buf
  volk_32f_binary_slicer_32i_rvv c a num_points = rvv_x1 4 4 o.setvl_e32m8 slice_rvv c a num_points

  pub run : Impl → Buf → Buf → ℕ → Option Buf
  run generic = volk_32f_binary_slicer_32i_generic
  run generic_branchless = volk_32f_binary_slicer_32i_generic_branchless
  run a_sse2 = volk_32f_binary_slicer_32i_a_sse2
  run a_avx = volk_32f_binary_slicer_32i_a_avx
  run u_sse2 = volk_32f_binary_slicer_32i_u_sse2
  run u_avx = volk_32f_binary_slicer_32i_u_avx
  run neon = volk_32f_binary_slicer_32i_neon
  run neonv8 = volk_32f_binary_slicer_32i_neonv8
  run rvv = volk_32f_binary_slicer_32i_rvv
