-- ===== src/Kernels/Unary/MultiplyScalar32.antt =====
-- kernels/volk/volk_32f_s32f_multiply_32f.h, whose elements are the bit patterns of floating-point numbers.
-- Not modelled: u_orc, which calls code that the build generates.
use volk.Base.{ℕ, ◌<◌, ◌≡◌, refl, Option, some}
use volk.Memory.{Buf, aligned, unaligned}
use volk.Memory.Fill.{fill}
use volk.Simd.Unary.{Fits1, StartAt1, with_scalar, points_x1, simd_x1, simd_two_x1, rvv_x1}
use volk.Simd.Unary.Laws.{generic_x1_lem, simd_x1_agreed, simd_two_x1_agreed, rvv_x1_agreed}
use volk.Kernels.Floats.Instructions.{Instructions}

pub data Impl : Type 0 where
  generic u_sse u_avx a_sse a_avx u_neon neonv8 rvv : Impl

-- The alignment in bytes that an implementation expects of its arguments.
abbrev pub alignment : Impl → ℕ
alignment generic = 1
alignment u_sse = 1
alignment u_avx = 1
alignment a_sse = 16
alignment a_avx = 32
alignment u_neon = 1
alignment neonv8 = 1
alignment rvv = 1

module _ (f : ℕ → ℕ → ℕ) (o : Instructions 4 f) where
  pub volk_32f_s32f_multiply_32f_generic : Buf → Buf → ℕ → ℕ → Option Buf
  volk_32f_s32f_multiply_32f_generic c a scalar num_points =
      points_x1 (λ x. f x scalar) 0 a num_points c

  pub volk_32f_s32f_multiply_32f_u_sse : Buf → Buf → ℕ → ℕ → Option Buf
  volk_32f_s32f_multiply_32f_u_sse c a scalar num_points =
      simd_x1 unaligned 4 4 4 (with_scalar o.mm scalar) (λ x. f x scalar) c a num_points

  pub volk_32f_s32f_multiply_32f_u_avx : Buf → Buf → ℕ → ℕ → Option Buf
  volk_32f_s32f_multiply_32f_u_avx c a scalar num_points =
      simd_x1 unaligned 4 4 8 (with_scalar o.mm256 scalar) (λ x. f x scalar) c a num_points

  pub volk_32f_s32f_multiply_32f_a_sse : Buf → Buf → ℕ → ℕ → Option Buf
  volk_32f_s32f_multiply_32f_a_sse c a scalar num_points =
      simd_x1 aligned 4 4 4 (with_scalar o.mm scalar) (λ x. f x scalar) c a num_points

  pub volk_32f_s32f_multiply_32f_a_avx : Buf → Buf → ℕ → ℕ → Option Buf
  volk_32f_s32f_multiply_32f_a_avx c a scalar num_points =
      simd_x1 aligned 4 4 8 (with_scalar o.mm256 scalar) (λ x. f x scalar) c a num_points

  pub volk_32f_s32f_multiply_32f_u_neon : Buf → Buf → ℕ → ℕ → Option Buf
  volk_32f_s32f_multiply_32f_u_neon c a scalar num_points =
      simd_x1 unaligned 4 4 4 (with_scalar o.vq scalar) (λ x. f x scalar) c a num_points

  pub volk_32f_s32f_multiply_32f_neonv8 : Buf → Buf → ℕ → ℕ → Option Buf
  volk_32f_s32f_multiply_32f_neonv8 c a scalar num_points =
      simd_two_x1 unaligned 4 4 4 (with_scalar o.vq scalar) (λ x. f x scalar) c a num_points

  pub volk_32f_s32f_multiply_32f_rvv : Buf → Buf → ℕ → ℕ → Option Buf
  volk_32f_s32f_multiply_32f_rvv c a scalar num_points =
      rvv_x1 4 4 o.setvl (λ vl. with_scalar (o.vf vl) scalar) c a num_points

  pub run : Impl → Buf → Buf → ℕ → ℕ → Option Buf
  unfolding volk_32f_s32f_multiply_32f_generic volk_32f_s32f_multiply_32f_u_sse
      volk_32f_s32f_multiply_32f_u_avx volk_32f_s32f_multiply_32f_a_sse
      volk_32f_s32f_multiply_32f_a_avx volk_32f_s32f_multiply_32f_u_neon
      volk_32f_s32f_multiply_32f_neonv8 volk_32f_s32f_multiply_32f_rvv
  run generic = volk_32f_s32f_multiply_32f_generic
  run u_sse = volk_32f_s32f_multiply_32f_u_sse
  run u_avx = volk_32f_s32f_multiply_32f_u_avx
  run a_sse = volk_32f_s32f_multiply_32f_a_sse
  run a_avx = volk_32f_s32f_multiply_32f_a_avx
  run u_neon = volk_32f_s32f_multiply_32f_u_neon
  run neonv8 = volk_32f_s32f_multiply_32f_neonv8
  run rvv = volk_32f_s32f_multiply_32f_rvv

  -- Every implementation applies the function to the first `n` points.
  pub multiplyscalar32_run_lem :
      (i : Impl) (c a : Buf) (scalar : ℕ) (n : ℕ)
      → Fits1 c a n
      → StartAt1 (alignment i) (alignment i) c a
      → o.IsOrdinary scalar
      → ((j : ℕ) → j < n → o.IsOrdinary (a.cell j))
      → run i c a scalar n ≡ some (fill (λ j. f (a.cell j) scalar) n c)
  unfolding run
  multiplyscalar32_run_lem generic c a scalar n fits s os ordinary =
      generic_x1_lem (λ x. f x scalar) c a n fits (λ x. f x scalar) (λ j h. refl)
  multiplyscalar32_run_lem u_sse c a scalar n fits s os ordinary =
      simd_x1_agreed (λ x. f x scalar) (λ x. f x scalar) c a n fits (λ j h. refl) unaligned 4 4 4
        (with_scalar o.mm scalar) tt tt
  multiplyscalar32_run_lem u_avx c a scalar n fits s os ordinary =
      simd_x1_agreed (λ x. f x scalar) (λ x. f x scalar) c a n fits (λ j h. refl) unaligned 4 4 8
        (with_scalar o.mm256 scalar) tt tt
  multiplyscalar32_run_lem a_sse c a scalar n fits s os ordinary =
      simd_x1_agreed (λ x. f x scalar) (λ x. f x scalar) c a n fits (λ j h. refl) aligned 4 4 4
        (with_scalar o.mm scalar) s.start_c s.start_a
  multiplyscalar32_run_lem a_avx c a scalar n fits s os ordinary =
      simd_x1_agreed (λ x. f x scalar) (λ x. f x scalar) c a n fits (λ j h. refl) aligned 4 4 8
        (with_scalar o.mm256 scalar) s.start_c s.start_a
  multiplyscalar32_run_lem u_neon c a scalar n fits s os ordinary =
      simd_x1_agreed (λ x. f x scalar) (λ x. o.vq_value x scalar) c a n fits
        (λ j h. o.vq_agrees (a.cell j) scalar (ordinary j h) os) unaligned 4 4 4
        (with_scalar o.vq scalar) tt tt
  multiplyscalar32_run_lem neonv8 c a scalar n fits s os ordinary =
      simd_two_x1_agreed (λ x. f x scalar) (λ x. o.vq_value x scalar) c a n fits
        (λ j h. o.vq_agrees (a.cell j) scalar (ordinary j h) os) unaligned 4 4 4
        (with_scalar o.vq scalar) tt tt
  multiplyscalar32_run_lem rvv c a scalar n fits s os ordinary =
      rvv_x1_agreed (λ x. f x scalar) (λ x. o.vf_value x scalar) c a n fits
        (λ j h. o.vf_agrees (a.cell j) scalar (ordinary j h) os) 4 4 o.setvl
        (λ vl. with_scalar (o.vf vl) scalar)
