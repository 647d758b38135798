-- ===== src/Kernels/AddSaturated/U8.antt =====
-- kernels/volk/volk_8u_x2_add_saturated_8u.h: the saturating sum of two arrays of unsigned 8-bit
-- words, by every implementation of the file.
use volk.Base.{refl, false, ℕ, ◌<◌, ◌≡◌, Option, some}
use volk.Base.CString.{CString, c_string, strncmp_zero}
use volk.Kernels.Interface.{aligned_prefix}
use volk.Memory.{Buf, aligned, unaligned}
use volk.Memory.Fill.{fill}
use volk.Simd.{LaneOp2, SetVl, Fits, StartAt, points_x2, simd_x2, simd_two_x2, rvv_x2}
use volk.Simd.Laws.{generic_x2_lem, simd_x2_lem, simd_two_x2_lem, rvv_x2_lem}
use volk.Simd.Laws.{granted_aligned, granted_unaligned}
use volk.Kernels.AddSaturated.Points.{add_sat_u, generic_8u, tail_8u}
use volk.Kernels.AddSaturated.Points.Laws.{generic_8u_lem, tail_8u_lem}

-- The vector instructions that the file uses, with their documented meaning.
pub record Instructions : Type 0 where
  pub mm_adds_epu8 : LaneOp2 16 (add_sat_u 8)
  pub mm256_adds_epu8 : LaneOp2 32 (add_sat_u 8)
  pub mm512_adds_epu8 : LaneOp2 64 (add_sat_u 8)
  pub vqaddq_u8 : LaneOp2 16 (add_sat_u 8)
  pub setvl : SetVl
  pub vsaddu : (vl : ℕ) → LaneOp2 vl (add_sat_u 8)

-- The implementations, as the machine tables list them.
pub data Impl : Type 0 where
  generic u_sse2 u_avx2 u_avx512bw a_sse2 a_avx2 a_avx512bw neon neonv8 rvv : Impl

-- The names of the implementations, which are the ends of the functions' names.
abbrev pub impl_name : Impl → CString
impl_name generic = c_string "generic"
impl_name u_sse2 = c_string "u_sse2"
impl_name u_avx2 = c_string "u_avx2"
impl_name u_avx512bw = c_string "u_avx512bw"
impl_name a_sse2 = c_string "a_sse2"
impl_name a_avx2 = c_string "a_avx2"
impl_name a_avx512bw = c_string "a_avx512bw"
impl_name neon = c_string "neon"
impl_name neonv8 = c_string "neonv8"
impl_name rvv = c_string "rvv"

pub volk_8u_x2_add_saturated_8u_generic : Buf → Buf → Buf → ℕ → Option Buf
volk_8u_x2_add_saturated_8u_generic c a b num_points = points_x2 generic_8u 0 a b num_points c

module _ (o : Instructions) where
  pub volk_8u_x2_add_saturated_8u_u_sse2 : Buf → Buf → Buf → ℕ → Option Buf
  volk_8u_x2_add_saturated_8u_u_sse2 c a b num_points =
      simd_x2 unaligned 1 16 o.mm_adds_epu8 tail_8u c a b num_points

  pub volk_8u_x2_add_saturated_8u_u_avx2 : Buf → Buf → Buf → ℕ → Option Buf
  volk_8u_x2_add_saturated_8u_u_avx2 c a b num_points =
      simd_x2 unaligned 1 32 o.mm256_adds_epu8 tail_8u c a b num_points

  pub volk_8u_x2_add_saturated_8u_u_avx512bw : Buf → Buf → Buf → ℕ → Option Buf
  volk_8u_x2_add_saturated_8u_u_avx512bw c a b num_points =
      simd_x2 unaligned 1 64 o.mm512_adds_epu8 tail_8u c a b num_points

  pub volk_8u_x2_add_saturated_8u_a_sse2 : Buf → Buf → Buf → ℕ → Option Buf
  volk_8u_x2_add_saturated_8u_a_sse2 c a b num_points =
      simd_x2 aligned 1 16 o.mm_adds_epu8 tail_8u c a b num_points

  pub volk_8u_x2_add_saturated_8u_a_avx2 : Buf → Buf → Buf → ℕ → Option Buf
  volk_8u_x2_add_saturated_8u_a_avx2 c a b num_points =
      simd_x2 aligned 1 32 o.mm256_adds_epu8 tail_8u c a b num_points

  pub volk_8u_x2_add_saturated_8u_a_avx512bw : Buf → Buf → Buf → ℕ → Option Buf
  volk_8u_x2_add_saturated_8u_a_avx512bw c a b num_points =
      simd_x2 aligned 1 64 o.mm512_adds_epu8 tail_8u c a b num_points

  pub volk_8u_x2_add_saturated_8u_neon : Buf → Buf → Buf → ℕ → Option Buf
  volk_8u_x2_add_saturated_8u_neon c a b num_points =
      simd_x2 unaligned 1 16 o.vqaddq_u8 tail_8u c a b num_points

  pub volk_8u_x2_add_saturated_8u_neonv8 : Buf → Buf → Buf → ℕ → Option Buf
  volk_8u_x2_add_saturated_8u_neonv8 c a b num_points =
      simd_two_x2 unaligned 1 16 o.vqaddq_u8 tail_8u c a b num_points

  pub volk_8u_x2_add_saturated_8u_rvv : Buf → Buf → Buf → ℕ → Option Buf
  volk_8u_x2_add_saturated_8u_rvv c a b num_points = rvv_x2 1 o.setvl o.vsaddu c a b num_points

  pub run : Impl → Buf → Buf → Buf → ℕ → Option Buf
  unfolding volk_8u_x2_add_saturated_8u_generic volk_8u_x2_add_saturated_8u_u_sse2
      volk_8u_x2_add_saturated_8u_u_avx2 volk_8u_x2_add_saturated_8u_u_avx512bw
      volk_8u_x2_add_saturated_8u_a_sse2 volk_8u_x2_add_saturated_8u_a_avx2
      volk_8u_x2_add_saturated_8u_a_avx512bw volk_8u_x2_add_saturated_8u_neon
      volk_8u_x2_add_saturated_8u_neonv8 volk_8u_x2_add_saturated_8u_rvv
  run generic = volk_8u_x2_add_saturated_8u_generic
  run u_sse2 = volk_8u_x2_add_saturated_8u_u_sse2
  run u_avx2 = volk_8u_x2_add_saturated_8u_u_avx2
  run u_avx512bw = volk_8u_x2_add_saturated_8u_u_avx512bw
  run a_sse2 = volk_8u_x2_add_saturated_8u_a_sse2
  run a_avx2 = volk_8u_x2_add_saturated_8u_a_avx2
  run a_avx512bw = volk_8u_x2_add_saturated_8u_a_avx512bw
  run neon = volk_8u_x2_add_saturated_8u_neon
  run neonv8 = volk_8u_x2_add_saturated_8u_neonv8
  run rvv = volk_8u_x2_add_saturated_8u_rvv

-- The alignment in bytes that an implementation expects of its arguments.
abbrev pub alignment : Impl → ℕ
alignment generic = 1
alignment u_sse2 = 1
alignment u_avx2 = 1
alignment u_avx512bw = 1
alignment a_sse2 = 16
alignment a_avx2 = 32
alignment a_avx512bw = 64
alignment neon = 1
alignment neonv8 = 1
alignment rvv = 1

-- Every implementation, on arrays of at least `n` points that start at a multiple of its alignment and
-- whose inputs hold 8-bit words, runs to the end without a fault, writes the saturated unsigned sums
-- to the first `n` points of the output, and leaves the rest of it alone.
pub u8_run_lem :
    (o : Instructions) (i : Impl) (c a b : Buf) (n : ℕ)
    → Fits c a b n
    → StartAt (alignment i) c a b
    → ((j : ℕ) → j < n → (a.cell j < 256) × (b.cell j < 256))
    → run o i c a b n ≡ some (fill (λ j. (add_sat_u 8) (a.cell j) (b.cell j)) n c)
unfolding run
u8_run_lem o generic c a b n fits s words =
    generic_x2_lem (add_sat_u 8) c a b n fits generic_8u
      (λ j h. generic_8u_lem (a.cell j) (b.cell j) (words j h).0 (words j h).1)
u8_run_lem o u_sse2 c a b n fits s words =
    simd_x2_lem (add_sat_u 8) c a b n fits unaligned 1 16 o.mm_adds_epu8
      (granted_unaligned 1 16 c a b) tail_8u
      (λ j h. tail_8u_lem (a.cell j) (b.cell j) (words j h).0 (words j h).1)
u8_run_lem o u_avx2 c a b n fits s words =
    simd_x2_lem (add_sat_u 8) c a b n fits unaligned 1 32 o.mm256_adds_epu8
      (granted_unaligned 1 32 c a b) tail_8u
      (λ j h. tail_8u_lem (a.cell j) (b.cell j) (words j h).0 (words j h).1)
u8_run_lem o u_avx512bw c a b n fits s words =
    simd_x2_lem (add_sat_u 8) c a b n fits unaligned 1 64 o.mm512_adds_epu8
      (granted_unaligned 1 64 c a b) tail_8u
      (λ j h. tail_8u_lem (a.cell j) (b.cell j) (words j h).0 (words j h).1)
u8_run_lem o a_sse2 c a b n fits s words =
    simd_x2_lem (add_sat_u 8) c a b n fits aligned 1 16 o.mm_adds_epu8 (granted_aligned s) tail_8u
      (λ j h. tail_8u_lem (a.cell j) (b.cell j) (words j h).0 (words j h).1)
u8_run_lem o a_avx2 c a b n fits s words =
    simd_x2_lem (add_sat_u 8) c a b n fits aligned 1 32 o.mm256_adds_epu8 (granted_aligned s)
      tail_8u (λ j h. tail_8u_lem (a.cell j) (b.cell j) (words j h).0 (words j h).1)
u8_run_lem o a_avx512bw c a b n fits s words =
    simd_x2_lem (add_sat_u 8) c a b n fits aligned 1 64 o.mm512_adds_epu8 (granted_aligned s)
      tail_8u (λ j h. tail_8u_lem (a.cell j) (b.cell j) (words j h).0 (words j h).1)
u8_run_lem o neon c a b n fits s words =
    simd_x2_lem (add_sat_u 8) c a b n fits unaligned 1 16 o.vqaddq_u8 (granted_unaligned 1 16 c a b)
      tail_8u (λ j h. tail_8u_lem (a.cell j) (b.cell j) (words j h).0 (words j h).1)
u8_run_lem o neonv8 c a b n fits s words =
    simd_two_x2_lem (add_sat_u 8) c a b n fits unaligned 1 16 o.vqaddq_u8
      (granted_unaligned 1 16 c a b) tail_8u
      (λ j h. tail_8u_lem (a.cell j) (b.cell j) (words j h).0 (words j h).1)
u8_run_lem o rvv c a b n fits s words = rvv_x2_lem (add_sat_u 8) c a b n fits 1 o.setvl o.vsaddu

-- An implementation that expects an alignment has a name that says so.
pub impl_name-alignment :
    (i : Impl) → strncmp_zero 2 (impl_name i) aligned_prefix ≡ false → alignment i ≡ 1
unfolding strncmp_zero
impl_name-alignment generic h = refl
impl_name-alignment u_sse2 h = refl
impl_name-alignment u_avx2 h = refl
impl_name-alignment u_avx512bw h = refl
impl_name-alignment a_sse2 h = cc h
impl_name-alignment a_avx2 h = cc h
impl_name-alignment a_avx512bw h = cc h
impl_name-alignment neon h = refl
impl_name-alignment neonv8 h = refl
impl_name-alignment rvv h = refl
