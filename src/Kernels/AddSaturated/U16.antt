-- ===== src/Kernels/AddSaturated/U16.antt =====
-- kernels/volk/volk_16u_x2_add_saturated_16u.h: the saturating sum of two arrays of unsigned 16-bit
-- words, by every implementation of the file.
use volk.Base.{refl, false, ℕ, ◌<◌, ◌≡◌, Option, some}
use volk.Base.CString.{CString, c_string, strncmp_zero}
use volk.Kernels.Interface.{aligned_prefix}
use volk.Memory.{Buf, aligned, unaligned}
use volk.Memory.Fill.{fill}
use volk.Simd.{LaneOp2, SetVl, Fits, StartAt, points_x2, simd_x2, simd_two_x2, rvv_x2}
use volk.Simd.Laws.{generic_x2_lem, simd_x2_lem, simd_two_x2_lem, rvv_x2_lem}
use volk.Simd.Laws.{granted_aligned, granted_unaligned}
use volk.Kernels.AddSaturated.Points.{add_sat_u, generic_16u, tail_16u}
use volk.Kernels.AddSaturated.Points.Laws.{generic_16u_lem, tail_16u_lem}

-- The vector instructions that the file uses, with their documented meaning.
pub record Instructions : Type 0 where
  pub mm_adds_epu16 : LaneOp2 8 (add_sat_u 16)
  pub mm256_adds_epu16 : LaneOp2 16 (add_sat_u 16)
  pub mm512_adds_epu16 : LaneOp2 32 (add_sat_u 16)
  pub vqaddq_u16 : LaneOp2 8 (add_sat_u 16)
  pub setvl : SetVl
  pub vsaddu : (vl : ℕ) → LaneOp2 vl (add_sat_u 16)

-- The implementations, as the machine tables list them.
pub data Impl : Type 0 where
  generic u_sse2 u_avx2 u_avx512bw a_sse2 a_avx2 a_avx512bw neon neonv8 rvv : Impl

-- The names of the implementations, which are the ends of the functions' names.
abbrev pub impl_name : Impl → CString
impl_name generic = c_string "generic"
impl_name u_sse2 = c_string "u_sse2"
impl_name u_avx2 = c_string "u_avx2"
impl_name u_avx512bw = c_string "u_avx512bw"
impl_name a_sse2 = c_string "a_sse2"
impl_name a_avx2 = c_string "a_avx2"
impl_name a_avx512bw = c_string "a_avx512bw"
impl_name neon = c_string "neon"
impl_name neonv8 = c_string "neonv8"
impl_name rvv = c_string "rvv"

pub volk_16u_x2_add_saturated_16u_generic : Buf → Buf → Buf → ℕ → Option Buf
volk_16u_x2_add_saturated_16u_generic c a b num_points = points_x2 generic_16u 0 a b num_points c

module _ (o : Instructions) where
  pub volk_16u_x2_add_saturated_16u_u_sse2 : Buf → Buf → Buf → ℕ → Option Buf
  volk_16u_x2_add_saturated_16u_u_sse2 c a b num_points =
      simd_x2 unaligned 2 8 o.mm_adds_epu16 tail_16u c a b num_points

  pub volk_16u_x2_add_saturated_16u_u_avx2 : Buf → Buf → Buf → ℕ → Option Buf
  volk_16u_x2_add_saturated_16u_u_avx2 c a b num_points =
      simd_x2 unaligned 2 16 o.mm256_adds_epu16 tail_16u c a b num_points

  pub volk_16u_x2_add_saturated_16u_u_avx512bw : Buf → Buf → Buf → ℕ → Option Buf
  volk_16u_x2_add_saturated_16u_u_avx512bw c a b num_points =
      simd_x2 unaligned 2 32 o.mm512_adds_epu16 tail_16u c a b num_points

  pub volk_16u_x2_add_saturated_16u_a_sse2 : Buf → Buf → Buf → ℕ → Option Buf
  volk_16u_x2_add_saturated_16u_a_sse2 c a b num_points =
      simd_x2 aligned 2 8 o.mm_adds_epu16 tail_16u c a b num_points

  pub volk_16u_x2_add_saturated_16u_a_avx2 : Buf → Buf → Buf → ℕ → Option Buf
  volk_16u_x2_add_saturated_16u_a_avx2 c a b num_points =
      simd_x2 aligned 2 16 o.mm256_adds_epu16 tail_16u c a b num_points

  pub volk_16u_x2_add_saturated_16u_a_avx512bw : Buf → Buf → Buf → ℕ → Option Buf
  volk_16u_x2_add_saturated_16u_a_avx512bw c a b num_points =
      simd_x2 aligned 2 32 o.mm512_adds_epu16 tail_16u c a b num_points

  pub volk_16u_x2_add_saturated_16u_neon : Buf → Buf → Buf → ℕ → Option Buf
  volk_16u_x2_add_saturated_16u_neon c a b num_points =
      simd_x2 unaligned 2 8 o.vqaddq_u16 tail_16u c a b num_points

  pub volk_16u_x2_add_saturated_16u_neonv8 : Buf → Buf → Buf → ℕ → Option Buf
  volk_16u_x2_add_saturated_16u_neonv8 c a b num_points =
      simd_two_x2 unaligned 2 8 o.vqaddq_u16 tail_16u c a b num_points

  pub volk_16u_x2_add_saturated_16u_rvv : Buf → Buf → Buf → ℕ → Option Buf
  volk_16u_x2_add_saturated_16u_rvv c a b num_points = rvv_x2 2 o.setvl o.vsaddu c a b num_points

  pub run : Impl → Buf → Buf → Buf → ℕ → Option Buf
  unfolding volk_16u_x2_add_saturated_16u_generic volk_16u_x2_add_saturated_16u_u_sse2
      volk_16u_x2_add_saturated_16u_u_avx2 volk_16u_x2_add_saturated_16u_u_avx512bw
      volk_16u_x2_add_saturated_16u_a_sse2 volk_16u_x2_add_saturated_16u_a_avx2
      volk_16u_x2_add_saturated_16u_a_avx512bw volk_16u_x2_add_saturated_16u_neon
      volk_16u_x2_add_saturated_16u_neonv8 volk_16u_x2_add_saturated_16u_rvv
  run generic = volk_16u_x2_add_saturated_16u_generic
  run u_sse2 = volk_16u_x2_add_saturated_16u_u_sse2
  run u_avx2 = volk_16u_x2_add_saturated_16u_u_avx2
  run u_avx512bw = volk_16u_x2_add_saturated_16u_u_avx512bw
  run a_sse2 = volk_16u_x2_add_saturated_16u_a_sse2
  run a_avx2 = volk_16u_x2_add_saturated_16u_a_avx2
  run a_avx512bw = volk_16u_x2_add_saturated_16u_a_avx512bw
  run neon = volk_16u_x2_add_saturated_16u_neon
  run neonv8 = volk_16u_x2_add_saturated_16u_neonv8
  run rvv = volk_16u_x2_add_saturated_16u_rvv

-- The alignment in bytes that an implementation expects of its arguments.
abbrev pub alignment : Impl → ℕ
alignment generic = 1
alignment u_sse2 = 1
alignment u_avx2 = 1
alignment u_avx512bw = 1
alignment a_sse2 = 16
alignment a_avx2 = 32
alignment a_avx512bw = 64
alignment neon = 1
alignment neonv8 = 1
alignment rvv = 1

-- Every implementation, on arrays of at least `n` points that start at a multiple of its alignment and
-- whose inputs hold 16-bit words, runs to the end without a fault, writes the saturated unsigned sums
-- to the first `n` points of the output, and leaves the rest of it alone.
pub u16_run_lem :
    (o : Instructions) (i : Impl) (c a b : Buf) (n : ℕ)
    → Fits c a b n
    → StartAt (alignment i) c a b
    → ((j : ℕ) → j < n → (a.cell j < 65536) × (b.cell j < 65536))
    → run o i c a b n ≡ some (fill (λ j. (add_sat_u 16) (a.cell j) (b.cell j)) n c)
unfolding run
u16_run_lem o generic c a b n fits s words =
    generic_x2_lem (add_sat_u 16) c a b n fits generic_16u
      (λ j h. generic_16u_lem (a.cell j) (b.cell j) (words j h).0 (words j h).1)
u16_run_lem o u_sse2 c a b n fits s words =
    simd_x2_lem (add_sat_u 16) c a b n fits unaligned 2 8 o.mm_adds_epu16
      (granted_unaligned 2 8 c a b) tail_16u
      (λ j h. tail_16u_lem (a.cell j) (b.cell j) (words j h).0 (words j h).1)
u16_run_lem o u_avx2 c a b n fits s words =
    simd_x2_lem (add_sat_u 16) c a b n fits unaligned 2 16 o.mm256_adds_epu16
      (granted_unaligned 2 16 c a b) tail_16u
      (λ j h. tail_16u_lem (a.cell j) (b.cell j) (words j h).0 (words j h).1)
u16_run_lem o u_avx512bw c a b n fits s words =
    simd_x2_lem (add_sat_u 16) c a b n fits unaligned 2 32 o.mm512_adds_epu16
      (granted_unaligned 2 32 c a b) tail_16u
      (λ j h. tail_16u_lem (a.cell j) (b.cell j) (words j h).0 (words j h).1)
u16_run_lem o a_sse2 c a b n fits s words =
    simd_x2_lem (add_sat_u 16) c a b n fits aligned 2 8 o.mm_adds_epu16 (granted_aligned s) tail_16u
      (λ j h. tail_16u_lem (a.cell j) (b.cell j) (words j h).0 (words j h).1)
u16_run_lem o a_avx2 c a b n fits s words =
    simd_x2_lem (add_sat_u 16) c a b n fits aligned 2 16 o.mm256_adds_epu16 (granted_aligned s)
      tail_16u (λ j h. tail_16u_lem (a.cell j) (b.cell j) (words j h).0 (words j h).1)
u16_run_lem o a_avx512bw c a b n fits s words =
    simd_x2_lem (add_sat_u 16) c a b n fits aligned 2 32 o.mm512_adds_epu16 (granted_aligned s)
      tail_16u (λ j h. tail_16u_lem (a.cell j) (b.cell j) (words j h).0 (words j h).1)
u16_run_lem o neon c a b n fits s words =
    simd_x2_lem (add_sat_u 16) c a b n fits unaligned 2 8 o.vqaddq_u16 (granted_unaligned 2 8 c a b)
      tail_16u (λ j h. tail_16u_lem (a.cell j) (b.cell j) (words j h).0 (words j h).1)
u16_run_lem o neonv8 c a b n fits s words =
    simd_two_x2_lem (add_sat_u 16) c a b n fits unaligned 2 8 o.vqaddq_u16
      (granted_unaligned 2 8 c a b) tail_16u
      (λ j h. tail_16u_lem (a.cell j) (b.cell j) (words j h).0 (words j h).1)
u16_run_lem o rvv c a b n fits s words = rvv_x2_lem (add_sat_u 16) c a b n fits 2 o.setvl o.vsaddu

-- An implementation that expects an alignment has a name that says so.
pub impl_name-alignment :
    (i : Impl) → strncmp_zero 2 (impl_name i) aligned_prefix ≡ false → alignment i ≡ 1
unfolding strncmp_zero
impl_name-alignment generic h = refl
impl_name-alignment u_sse2 h = refl
impl_name-alignment u_avx2 h = refl
impl_name-alignment u_avx512bw h = refl
impl_name-alignment a_sse2 h = cc h
impl_name-alignment a_avx2 h = cc h
impl_name-alignment a_avx512bw h = cc h
impl_name-alignment neon h = refl
impl_name-alignment neonv8 h = refl
impl_name-alignment rvv h = refl
