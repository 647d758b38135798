-- ===== src/Kernels/Floats/Add64.antt =====
-- kernels/volk/volk_64f_x2_add_64f.h, whose elements are the bit patterns of floating-point numbers.
use volk.Base.{false, ℕ, ◌<◌, ◌≡◌, refl, sym, Option, some}
use volk.Base.CString.{CString, c_string, strncmp_zero}
use volk.Kernels.Interface.{aligned_prefix}
use volk.Memory.{Buf, aligned, unaligned}
use volk.Memory.Fill.{fill}
use volk.Simd.{Fits, StartAt, points_x2, simd_x2, simd_two_x2, rvv_x2}
use volk.Simd.Laws.{generic_x2_lem, simd_x2_lem, simd_two_x2_lem, rvv_x2_lem}
use volk.Simd.Laws.{granted_aligned, granted_unaligned, agreed}
use volk.Kernels.Floats.Instructions.{Instructions}

pub data Impl : Type 0 where
  generic neonv8 u_sse2 u_avx a_sse2 a_avx rvv : Impl

-- The names of the implementations, which are the ends of the functions' names.
abbrev pub impl_name : Impl → CString
impl_name generic = c_string "generic"
impl_name neonv8 = c_string "neonv8"
impl_name u_sse2 = c_string "u_sse2"
impl_name u_avx = c_string "u_avx"
impl_name a_sse2 = c_string "a_sse2"
impl_name a_avx = c_string "a_avx"
impl_name rvv = c_string "rvv"

-- The alignment in bytes that an implementation expects of its arguments.
abbrev pub alignment : Impl → ℕ
alignment generic = 1
alignment neonv8 = 1
alignment u_sse2 = 1
alignment u_avx = 1
alignment a_sse2 = 16
alignment a_avx = 32
alignment rvv = 1

module _ (f : ℕ → ℕ → ℕ) (o : Instructions 2 f) where
  pub volk_64f_x2_add_64f_generic : Buf → Buf → Buf → ℕ → Option Buf
  volk_64f_x2_add_64f_generic c a b num_points = points_x2 f 0 a b num_points c

  pub volk_64f_x2_add_64f_neonv8 : Buf → Buf → Buf → ℕ → Option Buf
  volk_64f_x2_add_64f_neonv8 c a b num_points = simd_two_x2 unaligned 8 2 o.vq f c a b num_points

  pub volk_64f_x2_add_64f_u_sse2 : Buf → Buf → Buf → ℕ → Option Buf
  volk_64f_x2_add_64f_u_sse2 c a b num_points = simd_x2 unaligned 8 2 o.mm f c a b num_points

  pub volk_64f_x2_add_64f_u_avx : Buf → Buf → Buf → ℕ → Option Buf
  volk_64f_x2_add_64f_u_avx c a b num_points = simd_x2 unaligned 8 4 o.mm256 f c a b num_points

  pub volk_64f_x2_add_64f_a_sse2 : Buf → Buf → Buf → ℕ → Option Buf
  volk_64f_x2_add_64f_a_sse2 c a b num_points = simd_x2 aligned 8 2 o.mm f c a b num_points

  pub volk_64f_x2_add_64f_a_avx : Buf → Buf → Buf → ℕ → Option Buf
  volk_64f_x2_add_64f_a_avx c a b num_points = simd_x2 aligned 8 4 o.mm256 f c a b num_points

  pub volk_64f_x2_add_64f_rvv : Buf → Buf → Buf → ℕ → Option Buf
  volk_64f_x2_add_64f_rvv c a b num_points = rvv_x2 8 o.setvl o.vf c a b num_points

  pub run : Impl → Buf → Buf → Buf → ℕ → Option Buf
  unfolding volk_64f_x2_add_64f_generic volk_64f_x2_add_64f_neonv8 volk_64f_x2_add_64f_u_sse2
      volk_64f_x2_add_64f_u_avx volk_64f_x2_add_64f_a_sse2 volk_64f_x2_add_64f_a_avx
      volk_64f_x2_add_64f_rvv
  run generic = volk_64f_x2_add_64f_generic
  run neonv8 = volk_64f_x2_add_64f_neonv8
  run u_sse2 = volk_64f_x2_add_64f_u_sse2
  run u_avx = volk_64f_x2_add_64f_u_avx
  run a_sse2 = volk_64f_x2_add_64f_a_sse2
  run a_avx = volk_64f_x2_add_64f_a_avx
  run rvv = volk_64f_x2_add_64f_rvv

  vq_same :
      (a b : Buf) (n : ℕ)
      → ((j : ℕ) → j < n → o.IsOrdinary (a.cell j) × o.IsOrdinary (b.cell j))
      → (j : ℕ) → j < n
      → o.vq_value (a.cell j) (b.cell j) ≡ f (a.cell j) (b.cell j)
  vq_same a b n ordinary j h = o.vq_agrees (a.cell j) (b.cell j) (ordinary j h).0 (ordinary j h).1

  -- Every implementation applies the function to the first `n` points.
  pub add64_run_lem :
      (i : Impl) (c a b : Buf) (n : ℕ)
      → Fits c a b n
      → StartAt (alignment i) c a b
      → ((j : ℕ) → j < n → o.IsOrdinary (a.cell j) × o.IsOrdinary (b.cell j))
      → run i c a b n ≡ some (fill (λ j. f (a.cell j) (b.cell j)) n c)
  unfolding run
  add64_run_lem generic c a b n fits s ordinary = generic_x2_lem f c a b n fits f (λ j h. refl)
  add64_run_lem neonv8 c a b n fits s ordinary =
      agreed f o.vq_value c a b n (vq_same a b n ordinary) (
        simd_two_x2_lem o.vq_value c a b n fits unaligned 8 2 o.vq (granted_unaligned 8 2 c a b) f
          (λ j h. sym (vq_same a b n ordinary j h)))
  add64_run_lem u_sse2 c a b n fits s ordinary =
      simd_x2_lem f c a b n fits unaligned 8 2 o.mm (granted_unaligned 8 2 c a b) f (λ j h. refl)
  add64_run_lem u_avx c a b n fits s ordinary =
      simd_x2_lem f c a b n fits unaligned 8 4 o.mm256 (granted_unaligned 8 4 c a b) f (λ j h. refl)
  add64_run_lem a_sse2 c a b n fits s ordinary =
      simd_x2_lem f c a b n fits aligned 8 2 o.mm (granted_aligned s) f (λ j h. refl)
  add64_run_lem a_avx c a b n fits s ordinary =
      simd_x2_lem f c a b n fits aligned 8 4 o.mm256 (granted_aligned s) f (λ j h. refl)
  add64_run_lem rvv c a b n fits s ordinary =
      agreed f o.vf_value c a b n
        (λ j h. o.vf_agrees (a.cell j) (b.cell j) (ordinary j h).0 (ordinary j h).1)
        (rvv_x2_lem o.vf_value c a b n fits 8 o.setvl o.vf)

-- An implementation that expects an alignment has a name that says so.
pub impl_name-alignment :
    (i : Impl) → strncmp_zero 2 (impl_name i) aligned_prefix ≡ false → alignment i ≡ 1
unfolding strncmp_zero
impl_name-alignment generic h = refl
impl_name-alignment neonv8 h = refl
impl_name-alignment u_sse2 h = refl
impl_name-alignment u_avx h = refl
impl_name-alignment a_sse2 h = cc h
impl_name-alignment a_avx h = cc h
impl_name-alignment rvv h = refl
