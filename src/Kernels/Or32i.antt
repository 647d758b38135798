-- ===== src/Kernels/Or32i.antt =====
-- kernels/volk/volk_32i_x2_or_32i.h: the bitwise disjunction of two arrays of 32-bit integers, by every
-- implementation that the file holds in C. An int32_t is its bit pattern. Not modelled: u_orc, which
-- calls code that the build generates.
use volk.Base.{false, ℕ, ◌≡◌, refl, Option, some, bit_or}
use volk.Base.CString.{CString, c_string, strncmp_zero}
use volk.Kernels.Interface.{aligned_prefix}
use volk.Memory.{Buf, aligned, unaligned}
use volk.Memory.Fill.{fill}
use volk.Simd.{LaneOp2, SetVl, Fits, StartAt, points_x2, simd_x2, simd_two_x2, rvv_x2}
use volk.Simd.Laws.{generic_x2_lem, simd_x2_lem, simd_two_x2_lem, rvv_x2_lem}
use volk.Simd.Laws.{granted_aligned, granted_unaligned}

-- The vector instructions that the file uses, with their documented meaning.
pub record Instructions : Type 0 where
  pub or_si512 : LaneOp2 16 bit_or
  pub or_si256 : LaneOp2 8 bit_or
  pub or_ps : LaneOp2 4 bit_or
  pub vorrq_s32 : LaneOp2 4 bit_or
  pub setvl_e32m8 : SetVl
  pub vor : (vl : ℕ) → LaneOp2 vl bit_or

-- The implementations, as the machine tables list them.
pub data Impl : Type 0 where
  generic a_avx512f a_avx2 a_sse neon neonv8 u_avx512f u_avx2 rvv : Impl

-- The names of the implementations, which are the ends of the functions' names.
abbrev pub impl_name : Impl → CString
impl_name generic = c_string "generic"
impl_name a_avx512f = c_string "a_avx512f"
impl_name a_avx2 = c_string "a_avx2"
impl_name a_sse = c_string "a_sse"
impl_name neon = c_string "neon"
impl_name neonv8 = c_string "neonv8"
impl_name u_avx512f = c_string "u_avx512f"
impl_name u_avx2 = c_string "u_avx2"
impl_name rvv = c_string "rvv"

pub volk_32i_x2_or_32i_generic : Buf → Buf → Buf → ℕ → Option Buf
volk_32i_x2_or_32i_generic c a b num_points = points_x2 bit_or 0 a b num_points c

module _ (o : Instructions) where
  pub volk_32i_x2_or_32i_a_avx512f : Buf → Buf → Buf → ℕ → Option Buf
  volk_32i_x2_or_32i_a_avx512f c a b num_points =
      simd_x2 aligned 4 16 o.or_si512 bit_or c a b num_points

  pub volk_32i_x2_or_32i_a_avx2 : Buf → Buf → Buf → ℕ → Option Buf
  volk_32i_x2_or_32i_a_avx2 c a b num_points =
      simd_x2 aligned 4 8 o.or_si256 bit_or c a b num_points

  pub volk_32i_x2_or_32i_a_sse : Buf → Buf → Buf → ℕ → Option Buf
  volk_32i_x2_or_32i_a_sse c a b num_points = simd_x2 aligned 4 4 o.or_ps bit_or c a b num_points

  pub volk_32i_x2_or_32i_neon : Buf → Buf → Buf → ℕ → Option Buf
  volk_32i_x2_or_32i_neon c a b num_points =
      simd_x2 unaligned 4 4 o.vorrq_s32 bit_or c a b num_points

  pub volk_32i_x2_or_32i_neonv8 : Buf → Buf → Buf → ℕ → Option Buf
  volk_32i_x2_or_32i_neonv8 c a b num_points =
      simd_two_x2 unaligned 4 4 o.vorrq_s32 bit_or c a b num_points

  pub volk_32i_x2_or_32i_u_avx512f : Buf → Buf → Buf → ℕ → Option Buf
  volk_32i_x2_or_32i_u_avx512f c a b num_points =
      simd_x2 unaligned 4 16 o.or_si512 bit_or c a b num_points

  pub volk_32i_x2_or_32i_u_avx2 : Buf → Buf → Buf → ℕ → Option Buf
  volk_32i_x2_or_32i_u_avx2 c a b num_points =
      simd_x2 unaligned 4 8 o.or_si256 bit_or c a b num_points

  pub volk_32i_x2_or_32i_rvv : Buf → Buf → Buf → ℕ → Option Buf
  volk_32i_x2_or_32i_rvv c a b num_points = rvv_x2 4 o.setvl_e32m8 o.vor c a b num_points

  pub run : Impl → Buf → Buf → Buf → ℕ → Option Buf
  unfolding volk_32i_x2_or_32i_generic volk_32i_x2_or_32i_a_avx512f volk_32i_x2_or_32i_a_avx2
      volk_32i_x2_or_32i_a_sse volk_32i_x2_or_32i_neon volk_32i_x2_or_32i_neonv8
      volk_32i_x2_or_32i_u_avx512f volk_32i_x2_or_32i_u_avx2 volk_32i_x2_or_32i_rvv
  run generic = volk_32i_x2_or_32i_generic
  run a_avx512f = volk_32i_x2_or_32i_a_avx512f
  run a_avx2 = volk_32i_x2_or_32i_a_avx2
  run a_sse = volk_32i_x2_or_32i_a_sse
  run neon = volk_32i_x2_or_32i_neon
  run neonv8 = volk_32i_x2_or_32i_neonv8
  run u_avx512f = volk_32i_x2_or_32i_u_avx512f
  run u_avx2 = volk_32i_x2_or_32i_u_avx2
  run rvv = volk_32i_x2_or_32i_rvv

-- The alignment in bytes that an implementation expects of its arguments.
abbrev pub alignment : Impl → ℕ
alignment generic = 1
alignment a_avx512f = 64
alignment a_avx2 = 32
alignment a_sse = 16
alignment neon = 1
alignment neonv8 = 1
alignment u_avx512f = 1
alignment u_avx2 = 1
alignment rvv = 1

-- Every implementation, on arrays of at least `n` points that start at a multiple of its alignment,
-- runs to the end without a fault, writes the disjunction of the inputs to the first `n` points of the
-- output, and leaves the rest of it alone.
pub or_run_lem :
    (o : Instructions) (i : Impl) (c a b : Buf) (n : ℕ)
    → Fits c a b n
    → StartAt (alignment i) c a b
    → run o i c a b n ≡ some (fill (λ j. bit_or (a.cell j) (b.cell j)) n c)
unfolding run
or_run_lem o generic c a b n fits s = generic_x2_lem bit_or c a b n fits bit_or (λ j h. refl)
or_run_lem o a_avx512f c a b n fits s =
    simd_x2_lem bit_or c a b n fits aligned 4 16 o.or_si512 (granted_aligned s) bit_or (λ j h. refl)
or_run_lem o a_avx2 c a b n fits s =
    simd_x2_lem bit_or c a b n fits aligned 4 8 o.or_si256 (granted_aligned s) bit_or (λ j h. refl)
or_run_lem o a_sse c a b n fits s =
    simd_x2_lem bit_or c a b n fits aligned 4 4 o.or_ps (granted_aligned s) bit_or (λ j h. refl)
or_run_lem o neon c a b n fits s =
    simd_x2_lem bit_or c a b n fits unaligned 4 4 o.vorrq_s32 (granted_unaligned 4 4 c a b) bit_or
      (λ j h. refl)
or_run_lem o neonv8 c a b n fits s =
    simd_two_x2_lem bit_or c a b n fits unaligned 4 4 o.vorrq_s32 (granted_unaligned 4 4 c a b)
      bit_or (λ j h. refl)
or_run_lem o u_avx512f c a b n fits s =
    simd_x2_lem bit_or c a b n fits unaligned 4 16 o.or_si512 (granted_unaligned 4 16 c a b) bit_or
      (λ j h. refl)
or_run_lem o u_avx2 c a b n fits s =
    simd_x2_lem bit_or c a b n fits unaligned 4 8 o.or_si256 (granted_unaligned 4 8 c a b) bit_or
      (λ j h. refl)
or_run_lem o rvv c a b n fits s = rvv_x2_lem bit_or c a b n fits 4 o.setvl_e32m8 o.vor

-- An implementation that expects an alignment has a name that says so.
pub impl_name-alignment :
    (i : Impl) → strncmp_zero 2 (impl_name i) aligned_prefix ≡ false → alignment i ≡ 1
unfolding strncmp_zero
impl_name-alignment generic h = refl
impl_name-alignment a_avx512f h = cc h
impl_name-alignment a_avx2 h = cc h
impl_name-alignment a_sse h = cc h
impl_name-alignment neon h = refl
impl_name-alignment neonv8 h = refl
impl_name-alignment u_avx512f h = refl
impl_name-alignment u_avx2 h = refl
impl_name-alignment rvv h = refl
