-- ===== src/Kernels/Floats/Multiply32.antt =====
-- kernels/volk/volk_32f_x2_multiply_32f.h, whose elements are the bit patterns of floating-point numbers.
-- Not modelled: u_orc, which calls code that the build generates.
use volk.Base.{false, ℕ, ◌<◌, ◌≡◌, refl, sym, Option, some}
use volk.Base.CString.{CString, c_string, strncmp_zero}
use volk.Kernels.Interface.{aligned_prefix}
use volk.Memory.{Buf, aligned, unaligned}
use volk.Memory.Fill.{fill}
use volk.Simd.{Fits, StartAt, points_x2, simd_x2, simd_stepped_x2, rvv_x2}
use volk.Simd.Laws.{generic_x2_lem, simd_x2_lem, simd_stepped_x2_lem, rvv_x2_lem}
use volk.Simd.Laws.{granted_aligned, granted_unaligned, agreed}
use volk.Kernels.Floats.Instructions.{Instructions}

pub data Impl : Type 0 where
  u_sse u_avx512f u_avx generic a_sse a_avx512f a_avx neon neonv8 rvv : Impl

-- The names of the implementations, which are the ends of the functions' names.
abbrev pub impl_name : Impl → CString
impl_name u_sse = c_string "u_sse"
impl_name u_avx512f = c_string "u_avx512f"
impl_name u_avx = c_string "u_avx"
impl_name generic = c_string "generic"
impl_name a_sse = c_string "a_sse"
impl_name a_avx512f = c_string "a_avx512f"
impl_name a_avx = c_string "a_avx"
impl_name neon = c_string "neon"
impl_name neonv8 = c_string "neonv8"
impl_name rvv = c_string "rvv"

-- The alignment in bytes that an implementation expects of its arguments.
abbrev pub alignment : Impl → ℕ
alignment u_sse = 1
alignment u_avx512f = 1
alignment u_avx = 1
alignment generic = 1
alignment a_sse = 16
alignment a_avx512f = 64
alignment a_avx = 32
alignment neon = 1
alignment neonv8 = 1
alignment rvv = 1

module _ (f : ℕ → ℕ → ℕ) (o : Instructions 4 f) where
  pub volk_32f_x2_multiply_32f_u_sse : Buf → Buf → Buf → ℕ → Option Buf
  volk_32f_x2_multiply_32f_u_sse c a b num_points = simd_x2 unaligned 4 4 o.mm f c a b num_points

  pub volk_32f_x2_multiply_32f_u_avx512f : Buf → Buf → Buf → ℕ → Option Buf
  volk_32f_x2_multiply_32f_u_avx512f c a b num_points =
      simd_x2 unaligned 4 16 o.mm512 f c a b num_points

  pub volk_32f_x2_multiply_32f_u_avx : Buf → Buf → Buf → ℕ → Option Buf
  volk_32f_x2_multiply_32f_u_avx c a b num_points = simd_x2 unaligned 4 8 o.mm256 f c a b num_points

  pub volk_32f_x2_multiply_32f_generic : Buf → Buf → Buf → ℕ → Option Buf
  volk_32f_x2_multiply_32f_generic c a b num_points = points_x2 f 0 a b num_points c

  pub volk_32f_x2_multiply_32f_a_sse : Buf → Buf → Buf → ℕ → Option Buf
  volk_32f_x2_multiply_32f_a_sse c a b num_points = simd_x2 aligned 4 4 o.mm f c a b num_points

  pub volk_32f_x2_multiply_32f_a_avx512f : Buf → Buf → Buf → ℕ → Option Buf
  volk_32f_x2_multiply_32f_a_avx512f c a b num_points =
      simd_x2 aligned 4 16 o.mm512 f c a b num_points

  pub volk_32f_x2_multiply_32f_a_avx : Buf → Buf → Buf → ℕ → Option Buf
  volk_32f_x2_multiply_32f_a_avx c a b num_points = simd_x2 aligned 4 8 o.mm256 f c a b num_points

  pub volk_32f_x2_multiply_32f_neon : Buf → Buf → Buf → ℕ → Option Buf
  volk_32f_x2_multiply_32f_neon c a b num_points = simd_x2 unaligned 4 4 o.vq f c a b num_points

  pub volk_32f_x2_multiply_32f_neonv8 : Buf → Buf → Buf → ℕ → Option Buf
  volk_32f_x2_multiply_32f_neonv8 c a b num_points =
      simd_stepped_x2 unaligned 4 4 o.vq f c a b num_points

  pub volk_32f_x2_multiply_32f_rvv : Buf → Buf → Buf → ℕ → Option Buf
  volk_32f_x2_multiply_32f_rvv c a b num_points = rvv_x2 4 o.setvl o.vf c a b num_points

  pub run : Impl → Buf → Buf → Buf → ℕ → Option Buf
  unfolding volk_32f_x2_multiply_32f_u_sse volk_32f_x2_multiply_32f_u_avx512f
      volk_32f_x2_multiply_32f_u_avx volk_32f_x2_multiply_32f_generic volk_32f_x2_multiply_32f_a_sse
      volk_32f_x2_multiply_32f_a_avx512f volk_32f_x2_multiply_32f_a_avx
      volk_32f_x2_multiply_32f_neon volk_32f_x2_multiply_32f_neonv8 volk_32f_x2_multiply_32f_rvv
  run u_sse = volk_32f_x2_multiply_32f_u_sse
  run u_avx512f = volk_32f_x2_multiply_32f_u_avx512f
  run u_avx = volk_32f_x2_multiply_32f_u_avx
  run generic = volk_32f_x2_multiply_32f_generic
  run a_sse = volk_32f_x2_multiply_32f_a_sse
  run a_avx512f = volk_32f_x2_multiply_32f_a_avx512f
  run a_avx = volk_32f_x2_multiply_32f_a_avx
  run neon = volk_32f_x2_multiply_32f_neon
  run neonv8 = volk_32f_x2_multiply_32f_neonv8
  run rvv = volk_32f_x2_multiply_32f_rvv

  vq_same :
      (a b : Buf) (n : ℕ)
      → ((j : ℕ) → j < n → o.IsOrdinary (a.cell j) × o.IsOrdinary (b.cell j))
      → (j : ℕ) → j < n
      → o.vq_value (a.cell j) (b.cell j) ≡ f (a.cell j) (b.cell j)
  vq_same a b n ordinary j h = o.vq_agrees (a.cell j) (b.cell j) (ordinary j h).0 (ordinary j h).1

  -- Every implementation applies the function to the first `n` points.
  pub multiply32_run_lem :
      (i : Impl) (c a b : Buf) (n : ℕ)
      → Fits c a b n
      → StartAt (alignment i) c a b
      → ((j : ℕ) → j < n → o.IsOrdinary (a.cell j) × o.IsOrdinary (b.cell j))
      → run i c a b n ≡ some (fill (λ j. f (a.cell j) (b.cell j)) n c)
  unfolding run
  multiply32_run_lem u_sse c a b n fits s ordinary =
      simd_x2_lem f c a b n fits unaligned 4 4 o.mm (granted_unaligned 4 4 c a b) f (λ j h. refl)
  multiply32_run_lem u_avx512f c a b n fits s ordinary =
      simd_x2_lem f c a b n fits unaligned 4 16 o.mm512 (granted_unaligned 4 16 c a b) f
        (λ j h. refl)
  multiply32_run_lem u_avx c a b n fits s ordinary =
      simd_x2_lem f c a b n fits unaligned 4 8 o.mm256 (granted_unaligned 4 8 c a b) f (λ j h. refl)
  multiply32_run_lem generic c a b n fits s ordinary = generic_x2_lem f c a b n fits f (λ j h. refl)
  multiply32_run_lem a_sse c a b n fits s ordinary =
      simd_x2_lem f c a b n fits aligned 4 4 o.mm (granted_aligned s) f (λ j h. refl)
  multiply32_run_lem a_avx512f c a b n fits s ordinary =
      simd_x2_lem f c a b n fits aligned 4 16 o.mm512 (granted_aligned s) f (λ j h. refl)
  multiply32_run_lem a_avx c a b n fits s ordinary =
      simd_x2_lem f c a b n fits aligned 4 8 o.mm256 (granted_aligned s) f (λ j h. refl)
  multiply32_run_lem neon c a b n fits s ordinary =
      agreed f o.vq_value c a b n (vq_same a b n ordinary) (
        simd_x2_lem o.vq_value c a b n fits unaligned 4 4 o.vq (granted_unaligned 4 4 c a b) f
          (λ j h. sym (vq_same a b n ordinary j h)))
  multiply32_run_lem neonv8 c a b n fits s ordinary =
      agreed f o.vq_value c a b n (vq_same a b n ordinary) (
        simd_stepped_x2_lem o.vq_value c a b n fits unaligned 4 4 o.vq (granted_unaligned 4 4 c a b)
          f (λ j h. sym (vq_same a b n ordinary j h)))
  multiply32_run_lem rvv c a b n fits s ordinary =
      agreed f o.vf_value c a b n
        (λ j h. o.vf_agrees (a.cell j) (b.cell j) (ordinary j h).0 (ordinary j h).1)
        (rvv_x2_lem o.vf_value c a b n fits 4 o.setvl o.vf)

-- An implementation that expects an alignment has a name that says so.
pub impl_name-alignment :
    (i : Impl) → strncmp_zero 2 (impl_name i) aligned_prefix ≡ false → alignment i ≡ 1
unfolding strncmp_zero
impl_name-alignment u_sse h = refl
impl_name-alignment u_avx512f h = refl
impl_name-alignment u_avx h = refl
impl_name-alignment generic h = refl
impl_name-alignment a_sse h = cc h
impl_name-alignment a_avx512f h = cc h
impl_name-alignment a_avx h = cc h
impl_name-alignment neon h = refl
impl_name-alignment neonv8 h = refl
impl_name-alignment rvv h = refl
