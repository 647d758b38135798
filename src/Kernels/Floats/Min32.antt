-- ===== src/Kernels/Floats/Min32.antt =====
-- kernels/volk/volk_32f_x2_min_32f.h, whose elements are the bit patterns of floating-point numbers.
-- Not modelled: u_orc, which calls code that the build generates.
use volk.Base.{false, ℕ, ◌<◌, ◌≡◌, refl, sym, Option, some, if◌then◌else◌}
use volk.Base.Float32.{float_lt}
use volk.Base.CString.{CString, c_string, strncmp_zero}
use volk.Kernels.Interface.{aligned_prefix}
use volk.Memory.{Buf, aligned, unaligned}
use volk.Memory.Fill.{fill}
use volk.Simd.{Fits, StartAt, points_x2, simd_x2, simd_two_x2, rvv_x2}
use volk.Simd.Laws.{generic_x2_lem, simd_x2_lem, simd_two_x2_lem, rvv_x2_lem}
use volk.Simd.Laws.{granted_aligned, granted_unaligned, agreed}
use volk.Kernels.Floats.Instructions.{Instructions}

pub data Impl : Type 0 where
  a_sse neon neonv8 generic a_avx a_avx512f u_avx512f u_avx rvv : Impl

-- The names of the implementations, which are the ends of the functions' names.
abbrev pub impl_name : Impl → CString
impl_name a_sse = c_string "a_sse"
impl_name neon = c_string "neon"
impl_name neonv8 = c_string "neonv8"
impl_name generic = c_string "generic"
impl_name a_avx = c_string "a_avx"
impl_name a_avx512f = c_string "a_avx512f"
impl_name u_avx512f = c_string "u_avx512f"
impl_name u_avx = c_string "u_avx"
impl_name rvv = c_string "rvv"

-- The alignment in bytes that an implementation expects of its arguments.
abbrev pub alignment : Impl → ℕ
alignment a_sse = 16
alignment neon = 1
alignment neonv8 = 1
alignment generic = 1
alignment a_avx = 32
alignment a_avx512f = 64
alignment u_avx512f = 1
alignment u_avx = 1
alignment rvv = 1

-- `(a < b ? a : b)`
abbrev pub smaller : ℕ → ℕ → ℕ
smaller a b = if float_lt a b then a else b

module _ (o : Instructions 4 smaller) where
  pub volk_32f_x2_min_32f_a_sse : Buf → Buf → Buf → ℕ → Option Buf
  volk_32f_x2_min_32f_a_sse c a b num_points = simd_x2 aligned 4 4 o.mm smaller c a b num_points

  pub volk_32f_x2_min_32f_neon : Buf → Buf → Buf → ℕ → Option Buf
  volk_32f_x2_min_32f_neon c a b num_points = simd_x2 unaligned 4 4 o.vq smaller c a b num_points

  pub volk_32f_x2_min_32f_neonv8 : Buf → Buf → Buf → ℕ → Option Buf
  volk_32f_x2_min_32f_neonv8 c a b num_points =
      simd_two_x2 unaligned 4 4 o.vq smaller c a b num_points

  pub volk_32f_x2_min_32f_generic : Buf → Buf → Buf → ℕ → Option Buf
  volk_32f_x2_min_32f_generic c a b num_points = points_x2 smaller 0 a b num_points c

  pub volk_32f_x2_min_32f_a_avx : Buf → Buf → Buf → ℕ → Option Buf
  volk_32f_x2_min_32f_a_avx c a b num_points = simd_x2 aligned 4 8 o.mm256 smaller c a b num_points

  pub volk_32f_x2_min_32f_a_avx512f : Buf → Buf → Buf → ℕ → Option Buf
  volk_32f_x2_min_32f_a_avx512f c a b num_points =
      simd_x2 aligned 4 16 o.mm512 smaller c a b num_points

  pub volk_32f_x2_min_32f_u_avx512f : Buf → Buf → Buf → ℕ → Option Buf
  volk_32f_x2_min_32f_u_avx512f c a b num_points =
      simd_x2 unaligned 4 16 o.mm512 smaller c a b num_points

  pub volk_32f_x2_min_32f_u_avx : Buf → Buf → Buf → ℕ → Option Buf
  volk_32f_x2_min_32f_u_avx c a b num_points =
      simd_x2 unaligned 4 8 o.mm256 smaller c a b num_points

  pub volk_32f_x2_min_32f_rvv : Buf → Buf → Buf → ℕ → Option Buf
  volk_32f_x2_min_32f_rvv c a b num_points = rvv_x2 4 o.setvl o.vf c a b num_points

  pub run : Impl → Buf → Buf → Buf → ℕ → Option Buf
  unfolding volk_32f_x2_min_32f_a_sse volk_32f_x2_min_32f_neon volk_32f_x2_min_32f_neonv8
      volk_32f_x2_min_32f_generic volk_32f_x2_min_32f_a_avx volk_32f_x2_min_32f_a_avx512f
      volk_32f_x2_min_32f_u_avx512f volk_32f_x2_min_32f_u_avx volk_32f_x2_min_32f_rvv
  run a_sse = volk_32f_x2_min_32f_a_sse
  run neon = volk_32f_x2_min_32f_neon
  run neonv8 = volk_32f_x2_min_32f_neonv8
  run generic = volk_32f_x2_min_32f_generic
  run a_avx = volk_32f_x2_min_32f_a_avx
  run a_avx512f = volk_32f_x2_min_32f_a_avx512f
  run u_avx512f = volk_32f_x2_min_32f_u_avx512f
  run u_avx = volk_32f_x2_min_32f_u_avx
  run rvv = volk_32f_x2_min_32f_rvv

  vq_same :
      (a b : Buf) (n : ℕ)
      → ((j : ℕ) → j < n → o.IsOrdinary (a.cell j) × o.IsOrdinary (b.cell j))
      → (j : ℕ) → j < n
      → o.vq_value (a.cell j) (b.cell j) ≡ smaller (a.cell j) (b.cell j)
  vq_same a b n ordinary j h = o.vq_agrees (a.cell j) (b.cell j) (ordinary j h).0 (ordinary j h).1

  -- Every implementation modelled writes what `a < b ? a : b` is to the first `n` points.
  pub min32_run_lem :
      (i : Impl) (c a b : Buf) (n : ℕ)
      → Fits c a b n
      → StartAt (alignment i) c a b
      → ((j : ℕ) → j < n → o.IsOrdinary (a.cell j) × o.IsOrdinary (b.cell j))
      → run i c a b n ≡ some (fill (λ j. smaller (a.cell j) (b.cell j)) n c)
  unfolding run
  min32_run_lem a_sse c a b n fits s ordinary =
      simd_x2_lem smaller c a b n fits aligned 4 4 o.mm (granted_aligned s) smaller (λ j h. refl)
  min32_run_lem neon c a b n fits s ordinary =
      agreed smaller o.vq_value c a b n (vq_same a b n ordinary) (
        simd_x2_lem o.vq_value c a b n fits unaligned 4 4 o.vq (granted_unaligned 4 4 c a b) smaller
          (λ j h. sym (vq_same a b n ordinary j h)))
  min32_run_lem neonv8 c a b n fits s ordinary =
      agreed smaller o.vq_value c a b n (vq_same a b n ordinary) (
        simd_two_x2_lem o.vq_value c a b n fits unaligned 4 4 o.vq (granted_unaligned 4 4 c a b)
          smaller (λ j h. sym (vq_same a b n ordinary j h)))
  min32_run_lem generic c a b n fits s ordinary =
      generic_x2_lem smaller c a b n fits smaller (λ j h. refl)
  min32_run_lem a_avx c a b n fits s ordinary =
      simd_x2_lem smaller c a b n fits aligned 4 8 o.mm256 (granted_aligned s) smaller (λ j h. refl)
  min32_run_lem a_avx512f c a b n fits s ordinary =
      simd_x2_lem smaller c a b n fits aligned 4 16 o.mm512 (granted_aligned s) smaller
        (λ j h. refl)
  min32_run_lem u_avx512f c a b n fits s ordinary =
      simd_x2_lem smaller c a b n fits unaligned 4 16 o.mm512 (granted_unaligned 4 16 c a b) smaller
        (λ j h. refl)
  min32_run_lem u_avx c a b n fits s ordinary =
      simd_x2_lem smaller c a b n fits unaligned 4 8 o.mm256 (granted_unaligned 4 8 c a b) smaller
        (λ j h. refl)
  min32_run_lem rvv c a b n fits s ordinary =
      agreed smaller o.vf_value c a b n
        (λ j h. o.vf_agrees (a.cell j) (b.cell j) (ordinary j h).0 (ordinary j h).1)
        (rvv_x2_lem o.vf_value c a b n fits 4 o.setvl o.vf)

-- An implementation that expects an alignment has a name that says so.
pub impl_name-alignment :
    (i : Impl) → strncmp_zero 2 (impl_name i) aligned_prefix ≡ false → alignment i ≡ 1
unfolding strncmp_zero
impl_name-alignment a_sse h = cc h
impl_name-alignment neon h = refl
impl_name-alignment neonv8 h = refl
impl_name-alignment generic h = refl
impl_name-alignment a_avx h = cc h
impl_name-alignment a_avx512f h = cc h
impl_name-alignment u_avx512f h = refl
impl_name-alignment u_avx h = refl
impl_name-alignment rvv h = refl
