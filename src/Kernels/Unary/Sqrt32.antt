-- ===== src/Kernels/Unary/Sqrt32.antt =====
-- kernels/volk/volk_32f_sqrt_32f.h, whose elements are the bit patterns of floating-point numbers.
-- Not modelled: neon, which takes the reciprocal of an estimate.
use volk.Base.{ℕ, ◌<◌, ◌≡◌, refl, Option, some}
use volk.Memory.{Buf, aligned, unaligned}
use volk.Memory.Fill.{fill}
use volk.Simd.Unary.{Fits1, StartAt1, points_x1, simd_x1, rvv_x1}
use volk.Simd.Unary.Laws.{generic_x1_lem, simd_x1_agreed, rvv_x1_agreed}
use volk.Kernels.Unary.Instructions.{UnaryInstructions}

pub data Impl : Type 0 where
  generic a_sse a_avx512 a_avx2 a_avx neonv8 u_sse u_avx512 u_avx2 u_avx rvv : Impl

-- The alignment in bytes that an implementation expects of its arguments.
abbrev pub alignment : Impl → ℕ
alignment generic = 1
alignment a_sse = 16
alignment a_avx512 = 64
alignment a_avx2 = 32
alignment a_avx = 32
alignment neonv8 = 1
alignment u_sse = 1
alignment u_avx512 = 1
alignment u_avx2 = 1
alignment u_avx = 1
alignment rvv = 1

module _ (f : ℕ → ℕ) (o : UnaryInstructions 4 f) where
  pub volk_32f_sqrt_32f_generic : Buf → Buf → ℕ → Option Buf
  volk_32f_sqrt_32f_generic c a num_points = points_x1 f 0 a num_points c

  pub volk_32f_sqrt_32f_a_sse : Buf → Buf → ℕ → Option Buf
  volk_32f_sqrt_32f_a_sse c a num_points = simd_x1 aligned 4 4 4 o.mm f c a num_points

  pub volk_32f_sqrt_32f_a_avx512 : Buf → Buf → ℕ → Option Buf
  volk_32f_sqrt_32f_a_avx512 c a num_points = simd_x1 aligned 4 4 16 o.mm512 f c a num_points

  pub volk_32f_sqrt_32f_a_avx2 : Buf → Buf → ℕ → Option Buf
  volk_32f_sqrt_32f_a_avx2 c a num_points = simd_x1 aligned 4 4 8 o.mm256 f c a num_points

  pub volk_32f_sqrt_32f_a_avx : Buf → Buf → ℕ → Option Buf
  volk_32f_sqrt_32f_a_avx c a num_points = simd_x1 aligned 4 4 8 o.mm256 f c a num_points

  pub volk_32f_sqrt_32f_neonv8 : Buf → Buf → ℕ → Option Buf
  volk_32f_sqrt_32f_neonv8 c a num_points = simd_x1 unaligned 4 4 4 o.vq f c a num_points

  pub volk_32f_sqrt_32f_u_sse : Buf → Buf → ℕ → Option Buf
  volk_32f_sqrt_32f_u_sse c a num_points = simd_x1 unaligned 4 4 4 o.mm f c a num_points

  pub volk_32f_sqrt_32f_u_avx512 : Buf → Buf → ℕ → Option Buf
  volk_32f_sqrt_32f_u_avx512 c a num_points = simd_x1 unaligned 4 4 16 o.mm512 f c a num_points

  pub volk_32f_sqrt_32f_u_avx2 : Buf → Buf → ℕ → Option Buf
  volk_32f_sqrt_32f_u_avx2 c a num_points = simd_x1 unaligned 4 4 8 o.mm256 f c a num_points

  pub volk_32f_sqrt_32f_u_avx : Buf → Buf → ℕ → Option Buf
  volk_32f_sqrt_32f_u_avx c a num_points = simd_x1 unaligned 4 4 8 o.mm256 f c a num_points

  pub volk_32f_sqrt_32f_rvv : Buf → Buf → ℕ → Option Buf
  volk_32f_sqrt_32f_rvv c a num_points = rvv_x1 4 4 o.setvl o.vf c a num_points

  pub run : Impl → Buf → Buf → ℕ → Option Buf
  unfolding volk_32f_sqrt_32f_generic volk_32f_sqrt_32f_a_sse volk_32f_sqrt_32f_a_avx512
      volk_32f_sqrt_32f_a_avx2 volk_32f_sqrt_32f_a_avx volk_32f_sqrt_32f_neonv8
      volk_32f_sqrt_32f_u_sse volk_32f_sqrt_32f_u_avx512 volk_32f_sqrt_32f_u_avx2
      volk_32f_sqrt_32f_u_avx volk_32f_sqrt_32f_rvv
  run generic = volk_32f_sqrt_32f_generic
  run a_sse = volk_32f_sqrt_32f_a_sse
  run a_avx512 = volk_32f_sqrt_32f_a_avx512
  run a_avx2 = volk_32f_sqrt_32f_a_avx2
  run a_avx = volk_32f_sqrt_32f_a_avx
  run neonv8 = volk_32f_sqrt_32f_neonv8
  run u_sse = volk_32f_sqrt_32f_u_sse
  run u_avx512 = volk_32f_sqrt_32f_u_avx512
  run u_avx2 = volk_32f_sqrt_32f_u_avx2
  run u_avx = volk_32f_sqrt_32f_u_avx
  run rvv = volk_32f_sqrt_32f_rvv

  -- Every implementation applies the function to the first `n` points.
  pub sqrt32_run_lem :
      (i : Impl) (c a : Buf) (n : ℕ)
      → Fits1 c a n
      → StartAt1 (alignment i) (alignment i) c a
      → ((j : ℕ) → j < n → o.IsOrdinary (a.cell j))
      → run i c a n ≡ some (fill (λ j. f (a.cell j)) n c)
  unfolding run
  sqrt32_run_lem generic c a n fits s ordinary = generic_x1_lem f c a n fits f (λ j h. refl)
  sqrt32_run_lem a_sse c a n fits s ordinary =
      simd_x1_agreed f f c a n fits (λ j h. refl) aligned 4 4 4 o.mm s.start_c s.start_a
  sqrt32_run_lem a_avx512 c a n fits s ordinary =
      simd_x1_agreed f f c a n fits (λ j h. refl) aligned 4 4 16 o.mm512 s.start_c s.start_a
  sqrt32_run_lem a_avx2 c a n fits s ordinary =
      simd_x1_agreed f f c a n fits (λ j h. refl) aligned 4 4 8 o.mm256 s.start_c s.start_a
  sqrt32_run_lem a_avx c a n fits s ordinary =
      simd_x1_agreed f f c a n fits (λ j h. refl) aligned 4 4 8 o.mm256 s.start_c s.start_a
  sqrt32_run_lem neonv8 c a n fits s ordinary =
      simd_x1_agreed f o.vq_value c a n fits (λ j h. o.vq_agrees (a.cell j) (ordinary j h))
        unaligned 4 4 4 o.vq tt tt
  sqrt32_run_lem u_sse c a n fits s ordinary =
      simd_x1_agreed f f c a n fits (λ j h. refl) unaligned 4 4 4 o.mm tt tt
  sqrt32_run_lem u_avx512 c a n fits s ordinary =
      simd_x1_agreed f f c a n fits (λ j h. refl) unaligned 4 4 16 o.mm512 tt tt
  sqrt32_run_lem u_avx2 c a n fits s ordinary =
      simd_x1_agreed f f c a n fits (λ j h. refl) unaligned 4 4 8 o.mm256 tt tt
  sqrt32_run_lem u_avx c a n fits s ordinary =
      simd_x1_agreed f f c a n fits (λ j h. refl) unaligned 4 4 8 o.mm256 tt tt
  sqrt32_run_lem rvv c a n fits s ordinary =
      rvv_x1_agreed f o.vf_value c a n fits (λ j h. o.vf_agrees (a.cell j) (ordinary j h)) 4 4
        o.setvl o.vf
