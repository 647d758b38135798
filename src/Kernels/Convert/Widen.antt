-- ===== src/Kernels/Convert/Widen.antt =====
-- kernels/volk/volk_8i_convert_16i.h: signed bytes to words of 16 bits, multiplied by 256.
-- Not modelled: u_orc, which calls code that the build generates.
use volk.Base.{ℕ, ◌+◌, ◌*◌, ◌<◌, ◌≡◌, refl, ap, ◌∙◌, Option, some, arith}
use volk.Base.{ltb, if◌then◌else◌}
use volk.Base.Bits.{u16, ◌<<<◌}
use volk.Memory.{Buf, Reg, aligned, unaligned}
use volk.Memory.Fill.{fill, fill_cong}
use volk.Simd.{SetVl}
use volk.Simd.Unary.{LaneOp1, chained, Fits1, StartAt1, points_x1, simd_x1, rvv_x1}
use volk.Simd.Unary.Laws.{generic_x1_lem, simd_x1_agreed, rvv_x1_agreed}
use volk.Simd.Reshape.{SplitOp, split_x1}
use volk.Simd.Reshape.Laws.{split_x1_lem}

-- The sign of a byte fills the upper half of a word.
abbrev pub sign_extended : ℕ → ℕ
sign_extended x = if ltb x 128 then x else x + 0xFF00

-- `((int16_t)x) * 256`, cut to 16 bits.
abbrev pub widened : ℕ → ℕ
widened x = u16 (sign_extended x * 256)

-- The instructions: the sign extension `cvtepi8`, the shift `slli` by 8, NEON's for both in one, which take
-- the lower or the upper half of a vector of bytes, and those of RISC-V.
pub record Instructions : Type 0 where
  pub cvtepi8_epi16_256 : LaneOp1 16 sign_extended
  pub slli_epi16_256 : LaneOp1 16 (λ x. u16 (x <<< 8))
  pub cvtepi8_epi16_512 : LaneOp1 32 sign_extended
  pub slli_epi16_512 : LaneOp1 32 (λ x. u16 (x <<< 8))
  pub cvtepi8_epi16 : LaneOp1 8 sign_extended
  pub slli_epi16 : LaneOp1 8 (λ x. u16 (x <<< 8))
  pub srli_si128_8 : Reg → Reg
  pub srli_si128_8_lanes : (x : Reg) (l : ℕ) → l < 8 → srli_si128_8 x l ≡ x (8 + l)
  pub vmovl_s8 : LaneOp1 8 sign_extended
  pub vshlq_n_s16 : LaneOp1 8 (λ x. u16 (x <<< 8))
  pub vshll_n_s8 : SplitOp 8 widened
  pub setvl_e8m4 : SetVl
  pub vsext_vf2 : (vl : ℕ) → LaneOp1 vl sign_extended
  pub vsll_8 : (vl : ℕ) → LaneOp1 vl (λ x. u16 (x <<< 8))

pub data Impl : Type 0 where
  u_avx2 u_avx512bw u_sse4_1 generic a_avx2 a_avx512bw a_sse4_1 neon neonv8 rvv : Impl

-- The alignment in bytes that an implementation expects of its arguments.
abbrev pub alignment : Impl → ℕ
alignment u_avx2 = 1
alignment u_avx512bw = 1
alignment u_sse4_1 = 1
alignment generic = 1
alignment a_avx2 = 32
alignment a_avx512bw = 64
alignment a_sse4_1 = 16
alignment neon = 1
alignment neonv8 = 1
alignment rvv = 1

module _ (o : Instructions) where
  abbrev widen_256 : LaneOp1 16 widened
  widen_256 = chained o.cvtepi8_epi16_256 o.slli_epi16_256

  abbrev widen_512 : LaneOp1 32 widened
  widen_512 = chained o.cvtepi8_epi16_512 o.slli_epi16_512

  -- The lower eight bytes, then the upper eight, which a shift of the vector moves down.
  abbrev widen_128 : SplitOp 8 widened
  widen_128 = record {
    low = λ x. o.slli_epi16.apply (o.cvtepi8_epi16.apply x);
    high = λ x. o.slli_epi16.apply (o.cvtepi8_epi16.apply (o.srli_si128_8 x));
    low_lanes = λ x l h. (chained o.cvtepi8_epi16 o.slli_epi16).lanes x l h;
    high_lanes = λ x l h.
        (chained o.cvtepi8_epi16 o.slli_epi16).lanes (o.srli_si128_8 x) l h
        ∙ ap widened (o.srli_si128_8_lanes x l h);
  }

  abbrev widen_neon : LaneOp1 8 widened
  widen_neon = chained o.vmovl_s8 o.vshlq_n_s16

  abbrev widen_rvv : (vl : ℕ) → LaneOp1 vl widened
  widen_rvv vl = chained (o.vsext_vf2 vl) (o.vsll_8 vl)

  pub volk_8i_convert_16i_u_avx2 : Buf → Buf → ℕ → Option Buf
  volk_8i_convert_16i_u_avx2 c a num_points =
      simd_x1 unaligned 1 2 16 widen_256 widened c a num_points

  pub volk_8i_convert_16i_u_avx512bw : Buf → Buf → ℕ → Option Buf
  volk_8i_convert_16i_u_avx512bw c a num_points =
      simd_x1 unaligned 1 2 32 widen_512 widened c a num_points

  pub volk_8i_convert_16i_u_sse4_1 : Buf → Buf → ℕ → Option Buf
  volk_8i_convert_16i_u_sse4_1 c a num_points =
      split_x1 unaligned 1 2 8 widen_128 widened c a num_points

  pub volk_8i_convert_16i_generic : Buf → Buf → ℕ → Option Buf
  volk_8i_convert_16i_generic c a num_points = points_x1 widened 0 a num_points c

  pub volk_8i_convert_16i_a_avx2 : Buf → Buf → ℕ → Option Buf
  volk_8i_convert_16i_a_avx2 c a num_points =
      simd_x1 aligned 1 2 16 widen_256 widened c a num_points

  pub volk_8i_convert_16i_a_avx512bw : Buf → Buf → ℕ → Option Buf
  volk_8i_convert_16i_a_avx512bw c a num_points =
      simd_x1 aligned 1 2 32 widen_512 widened c a num_points

  pub volk_8i_convert_16i_a_sse4_1 : Buf → Buf → ℕ → Option Buf
  volk_8i_convert_16i_a_sse4_1 c a num_points =
      split_x1 aligned 1 2 8 widen_128 widened c a num_points

  pub volk_8i_convert_16i_neon : Buf → Buf → ℕ → Option Buf
  volk_8i_convert_16i_neon c a num_points =
      simd_x1 unaligned 1 2 8 widen_neon widened c a num_points

  pub volk_8i_convert_16i_neonv8 : Buf → Buf → ℕ → Option Buf
  volk_8i_convert_16i_neonv8 c a num_points =
      split_x1 unaligned 1 2 8 o.vshll_n_s8 widened c a num_points

  pub volk_8i_convert_16i_rvv : Buf → Buf → ℕ → Option Buf
  volk_8i_convert_16i_rvv c a num_points = rvv_x1 1 2 o.setvl_e8m4 widen_rvv c a num_points

  pub run : Impl → Buf → Buf → ℕ → Option Buf
  unfolding volk_8i_convert_16i_u_avx2 volk_8i_convert_16i_u_avx512bw volk_8i_convert_16i_u_sse4_1
      volk_8i_convert_16i_generic volk_8i_convert_16i_a_avx2 volk_8i_convert_16i_a_avx512bw
      volk_8i_convert_16i_a_sse4_1 volk_8i_convert_16i_neon volk_8i_convert_16i_neonv8
      volk_8i_convert_16i_rvv
  run u_avx2 = volk_8i_convert_16i_u_avx2
  run u_avx512bw = volk_8i_convert_16i_u_avx512bw
  run u_sse4_1 = volk_8i_convert_16i_u_sse4_1
  run generic = volk_8i_convert_16i_generic
  run a_avx2 = volk_8i_convert_16i_a_avx2
  run a_avx512bw = volk_8i_convert_16i_a_avx512bw
  run a_sse4_1 = volk_8i_convert_16i_a_sse4_1
  run neon = volk_8i_convert_16i_neon
  run neonv8 = volk_8i_convert_16i_neonv8
  run rvv = volk_8i_convert_16i_rvv

  shifted :
      (c a : Buf) (n : ℕ)
      → ((j : ℕ) → j < n → a.cell j < 256)
      → some (fill (λ j. widened (a.cell j)) n c) ≡ some (fill (λ j. a.cell j * 256) n c)
  shifted c a n small = ap some (
      fill_cong (λ j. widened (a.cell j)) (λ j. a.cell j * 256) n c
        (λ j h. to_high_byte (a.cell j) (small j h)))
    where
      to_high_byte : (x : ℕ) → x < 256 → widened x ≡ x * 256
      to_high_byte x h = ground arith

  -- Every implementation, on arrays of at least `n` points that start at a multiple of its alignment, makes
  -- each of the first `n` bytes of the input the high byte of a word with low byte 0, and leaves the rest of
  -- the output alone.
  pub widen_run_lem :
      (i : Impl) (c a : Buf) (n : ℕ)
      → Fits1 c a n
      → StartAt1 (alignment i) (alignment i) c a
      → ((j : ℕ) → j < n → a.cell j < 256)
      → run i c a n ≡ some (fill (λ j. a.cell j * 256) n c)
  unfolding run
  widen_run_lem u_avx2 c a n fits s small =
      simd_x1_agreed widened widened c a n fits (λ j h. refl) unaligned 1 2 16 widen_256 tt tt
      ∙ shifted c a n small
  widen_run_lem u_avx512bw c a n fits s small =
      simd_x1_agreed widened widened c a n fits (λ j h. refl) unaligned 1 2 32 widen_512 tt tt
      ∙ shifted c a n small
  widen_run_lem u_sse4_1 c a n fits s small =
      split_x1_lem widened widened c a n fits (λ j h. refl) unaligned 1 2 8 widen_128 tt tt
      ∙ shifted c a n small
  widen_run_lem generic c a n fits s small =
      generic_x1_lem widened c a n fits widened (λ j h. refl) ∙ shifted c a n small
  widen_run_lem a_avx2 c a n fits s small =
      simd_x1_agreed widened widened c a n fits (λ j h. refl) aligned 1 2 16 widen_256
        (omega (arith, s.start_c)) (omega (arith, s.start_a))
      ∙ shifted c a n small
  widen_run_lem a_avx512bw c a n fits s small =
      simd_x1_agreed widened widened c a n fits (λ j h. refl) aligned 1 2 32 widen_512
        (omega (arith, s.start_c)) (omega (arith, s.start_a))
      ∙ shifted c a n small
  widen_run_lem a_sse4_1 c a n fits s small =
      split_x1_lem widened widened c a n fits (λ j h. refl) aligned 1 2 8 widen_128
        (omega (arith, s.start_c)) (omega (arith, s.start_a))
      ∙ shifted c a n small
  widen_run_lem neon c a n fits s small =
      simd_x1_agreed widened widened c a n fits (λ j h. refl) unaligned 1 2 8 widen_neon tt tt
      ∙ shifted c a n small
  widen_run_lem neonv8 c a n fits s small =
      split_x1_lem widened widened c a n fits (λ j h. refl) unaligned 1 2 8 o.vshll_n_s8 tt tt
      ∙ shifted c a n small
  widen_run_lem rvv c a n fits s small =
      rvv_x1_agreed widened widened c a n fits (λ j h. refl) 1 2 o.setvl_e8m4 widen_rvv
      ∙ shifted c a n small
