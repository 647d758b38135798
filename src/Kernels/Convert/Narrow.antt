-- ===== src/Kernels/Convert/Narrow.antt =====
-- kernels/volk/volk_16i_convert_8i.h: words of 16 bits to their high bytes.
use volk.Base.{ℕ, ◌+◌, ◌-◌, ◌*◌, ◌/◌, ◌^◌, ◌<◌, ◌≡◌, refl, ap, ◌∙◌, Option, some, arith}
use volk.Base.{ltb, if◌then◌else◌}
use volk.Base.Bits.{u8, promote, asr}
use volk.Memory.{Buf, Reg, aligned, unaligned}
use volk.Memory.Fill.{fill, fill_cong}
use volk.Simd.{SetVl}
use volk.Simd.Unary.{LaneOp1, chained, Fits1, StartAt1, points_x1, simd_two_x1, rvv_x1}
use volk.Simd.Unary.Laws.{generic_x1_lem, simd_two_x1_agreed, rvv_x1_agreed}
use volk.Simd.Reshape.{PackOp, packed_after, packed_x1, two_packed_x1}
use volk.Simd.Reshape.Laws.{packed_x1_lem, two_packed_x1_lem}

-- `(int8_t)(x >> 8)`
abbrev pub narrowed : ℕ → ℕ
narrowed x = u8 (asr (promote 15 x) 8)

-- The arithmetic shift of a word of 16 bits by 8.
abbrev pub srai_8 : ℕ → ℕ
srai_8 x = if ltb x (2 ^ 15) then x / 256 else x / 256 + 0xFF00

-- A signed word of 16 bits, saturated to a byte.
abbrev pub saturated_8 : ℕ → ℕ
saturated_8 x =
    if ltb x 128 then x else if ltb x (2 ^ 15) then 127 else if ltb x 0xFF80 then 128 else u8 x

-- Which lane the instructions of 256 bits take: `packs` works on the halves of its operands, and
-- `permute4x64` with 0b11011000 exchanges the middle quarters.
abbrev pub packs_lane : Reg → Reg → ℕ → ℕ
packs_lane x y l =
    if ltb l 8
    then x l
    else if ltb l 16
    then y (l - 8)
    else if ltb l 24
    then x (l - 8)
    else y (l - 16)

abbrev pub permute_lane : ℕ → ℕ
permute_lane l = if ltb l 8 then l else if ltb l 16 then l + 8 else if ltb l 24 then l - 8 else l

pub record Instructions : Type 0 where
  pub srai_epi16_256 : LaneOp1 16 srai_8
  pub packs_epi16_256 : Reg → Reg → Reg
  pub packs_epi16_256_lanes :
      (x y : Reg) (l : ℕ) → l < 32 → packs_epi16_256 x y l ≡ saturated_8 (packs_lane x y l)
  pub permute4x64 : Reg → Reg
  pub permute4x64_lanes : (x : Reg) (l : ℕ) → l < 32 → permute4x64 x l ≡ x (permute_lane l)
  pub srai_epi16_512 : LaneOp1 32 srai_8
  pub cvtsepi16_epi8 : LaneOp1 32 saturated_8
  pub srai_epi16 : LaneOp1 8 srai_8
  pub packs_epi16 : PackOp 8 saturated_8
  pub vshrn_n_s16 : LaneOp1 8 (λ x. u8 (srai_8 x))
  pub vcombine_s8 : PackOp 8 (λ x. x)
  pub setvl_e16m8 : SetVl
  pub vnsra_8 : (vl : ℕ) → LaneOp1 vl (λ x. u8 (srai_8 x))

pub data Impl : Type 0 where
  u_avx2 u_avx512bw u_sse2 generic a_avx2 a_avx512bw a_sse2 neon neonv8 rvv : Impl

-- The alignment in bytes that an implementation expects of its arguments.
abbrev pub alignment : Impl → ℕ
alignment u_avx2 = 1
alignment u_avx512bw = 1
alignment u_sse2 = 1
alignment generic = 1
alignment a_avx2 = 32
alignment a_avx512bw = 64
alignment a_sse2 = 16
alignment neon = 1
alignment neonv8 = 1
alignment rvv = 1

module _ (o : Instructions) where
  -- After the permutation the lanes stand in order.
  permuted :
      (x y : Reg) (l : ℕ)
      → l < 2 * 16
      → o.permute4x64 (o.packs_epi16_256 x y) l ≡ saturated_8 (if ltb l 16 then x l else y (l - 16))
  permuted x y l h =
      o.permute4x64_lanes (o.packs_epi16_256 x y) l (omega (arith, h))
      ∙ o.packs_epi16_256_lanes x y (permute_lane l) (within l h)
      ∙ ap saturated_8 (ordered x y l h)
    where
      within : (l : ℕ) → l < 2 * 16 → permute_lane l < 32
      within l h = ground arith

      ordered :
          (x y : Reg) (l : ℕ)
          → l < 2 * 16
          → packs_lane x y (permute_lane l) ≡ (if ltb l 16 then x l else y (l - 16))
      ordered x y l h =
          let down : l + 8 - 8 ≡ l = omega arith in
          let twice : l - 8 - 8 ≡ l - 16 = omega arith in ground (arith, ap x down, ap y twice)

  abbrev pack_256 : PackOp 16 (λ x. saturated_8 (srai_8 x))
  pack_256 =
      packed_after {g = saturated_8} o.srai_epi16_256
        (record { apply = λ x y. o.permute4x64 (o.packs_epi16_256 x y); lanes = permuted })

  abbrev pack_128 : PackOp 8 (λ x. saturated_8 (srai_8 x))
  pack_128 = packed_after o.srai_epi16 o.packs_epi16

  abbrev narrow_512 : LaneOp1 32 (λ x. saturated_8 (srai_8 x))
  narrow_512 = chained o.srai_epi16_512 o.cvtsepi16_epi8

  abbrev pack_neon : PackOp 8 (λ x. u8 (srai_8 x))
  pack_neon = packed_after o.vshrn_n_s16 o.vcombine_s8

  pub volk_16i_convert_8i_u_avx2 : Buf → Buf → ℕ → Option Buf
  volk_16i_convert_8i_u_avx2 c a num_points =
      packed_x1 unaligned 2 1 16 pack_256 narrowed c a num_points

  pub volk_16i_convert_8i_u_avx512bw : Buf → Buf → ℕ → Option Buf
  volk_16i_convert_8i_u_avx512bw c a num_points =
      simd_two_x1 unaligned 2 1 32 narrow_512 narrowed c a num_points

  pub volk_16i_convert_8i_u_sse2 : Buf → Buf → ℕ → Option Buf
  volk_16i_convert_8i_u_sse2 c a num_points =
      packed_x1 unaligned 2 1 8 pack_128 narrowed c a num_points

  pub volk_16i_convert_8i_generic : Buf → Buf → ℕ → Option Buf
  volk_16i_convert_8i_generic c a num_points = points_x1 narrowed 0 a num_points c

  pub volk_16i_convert_8i_a_avx2 : Buf → Buf → ℕ → Option Buf
  volk_16i_convert_8i_a_avx2 c a num_points =
      packed_x1 aligned 2 1 16 pack_256 narrowed c a num_points

  pub volk_16i_convert_8i_a_avx512bw : Buf → Buf → ℕ → Option Buf
  volk_16i_convert_8i_a_avx512bw c a num_points =
      simd_two_x1 aligned 2 1 32 narrow_512 narrowed c a num_points

  pub volk_16i_convert_8i_a_sse2 : Buf → Buf → ℕ → Option Buf
  volk_16i_convert_8i_a_sse2 c a num_points =
      packed_x1 aligned 2 1 8 pack_128 narrowed c a num_points

  pub volk_16i_convert_8i_neon : Buf → Buf → ℕ → Option Buf
  volk_16i_convert_8i_neon c a num_points =
      packed_x1 unaligned 2 1 8 pack_neon narrowed c a num_points

  pub volk_16i_convert_8i_neonv8 : Buf → Buf → ℕ → Option Buf
  volk_16i_convert_8i_neonv8 c a num_points =
      two_packed_x1 unaligned 2 1 8 pack_neon narrowed c a num_points

  pub volk_16i_convert_8i_rvv : Buf → Buf → ℕ → Option Buf
  volk_16i_convert_8i_rvv c a num_points = rvv_x1 2 1 o.setvl_e16m8 o.vnsra_8 c a num_points

  pub run : Impl → Buf → Buf → ℕ → Option Buf
  unfolding volk_16i_convert_8i_u_avx2 volk_16i_convert_8i_u_avx512bw volk_16i_convert_8i_u_sse2
      volk_16i_convert_8i_generic volk_16i_convert_8i_a_avx2 volk_16i_convert_8i_a_avx512bw
      volk_16i_convert_8i_a_sse2 volk_16i_convert_8i_neon volk_16i_convert_8i_neonv8
      volk_16i_convert_8i_rvv
  run u_avx2 = volk_16i_convert_8i_u_avx2
  run u_avx512bw = volk_16i_convert_8i_u_avx512bw
  run u_sse2 = volk_16i_convert_8i_u_sse2
  run generic = volk_16i_convert_8i_generic
  run a_avx2 = volk_16i_convert_8i_a_avx2
  run a_avx512bw = volk_16i_convert_8i_a_avx512bw
  run a_sse2 = volk_16i_convert_8i_a_sse2
  run neon = volk_16i_convert_8i_neon
  run neonv8 = volk_16i_convert_8i_neonv8
  run rvv = volk_16i_convert_8i_rvv

  saturating : (x : ℕ) → x < 2 ^ 16 → saturated_8 (srai_8 x) ≡ narrowed x
  saturating x h = ground arith

  truncating : (x : ℕ) → x < 2 ^ 16 → u8 (srai_8 x) ≡ narrowed x
  truncating x h = ground arith

  high_bytes :
      (c a : Buf) (n : ℕ)
      → ((j : ℕ) → j < n → a.cell j < 2 ^ 16)
      → some (fill (λ j. narrowed (a.cell j)) n c) ≡ some (fill (λ j. a.cell j / 256) n c)
  high_bytes c a n small = ap some (
      fill_cong (λ j. narrowed (a.cell j)) (λ j. a.cell j / 256) n c
        (λ j h. high_byte (a.cell j) (small j h)))
    where
      high_byte : (x : ℕ) → x < 2 ^ 16 → narrowed x ≡ x / 256
      high_byte x h = ground arith

  -- Every implementation, on arrays of at least `n` points that start at a multiple of its alignment, writes
  -- the high byte of each of the first `n` words of the input, and leaves the rest of the output alone.
  pub narrow_run_lem :
      (i : Impl) (c a : Buf) (n : ℕ)
      → Fits1 c a n
      → StartAt1 (alignment i) (alignment i) c a
      → ((j : ℕ) → j < n → a.cell j < 2 ^ 16)
      → run i c a n ≡ some (fill (λ j. a.cell j / 256) n c)
  unfolding run
  narrow_run_lem u_avx2 c a n fits s small =
      packed_x1_lem narrowed (λ x. saturated_8 (srai_8 x)) c a n fits
        (λ j h. saturating (a.cell j) (small j h)) unaligned 2 1 16 pack_256 tt tt
      ∙ high_bytes c a n small
  narrow_run_lem u_avx512bw c a n fits s small =
      simd_two_x1_agreed narrowed (λ x. saturated_8 (srai_8 x)) c a n fits
        (λ j h. saturating (a.cell j) (small j h)) unaligned 2 1 32 narrow_512 tt tt
      ∙ high_bytes c a n small
  narrow_run_lem u_sse2 c a n fits s small =
      packed_x1_lem narrowed (λ x. saturated_8 (srai_8 x)) c a n fits
        (λ j h. saturating (a.cell j) (small j h)) unaligned 2 1 8 pack_128 tt tt
      ∙ high_bytes c a n small
  narrow_run_lem generic c a n fits s small =
      generic_x1_lem narrowed c a n fits narrowed (λ j h. refl) ∙ high_bytes c a n small
  narrow_run_lem a_avx2 c a n fits s small =
      packed_x1_lem narrowed (λ x. saturated_8 (srai_8 x)) c a n fits
        (λ j h. saturating (a.cell j) (small j h)) aligned 2 1 16 pack_256
        (omega (arith, s.start_c)) (omega (arith, s.start_a))
      ∙ high_bytes c a n small
  narrow_run_lem a_avx512bw c a n fits s small =
      simd_two_x1_agreed narrowed (λ x. saturated_8 (srai_8 x)) c a n fits
        (λ j h. saturating (a.cell j) (small j h)) aligned 2 1 32 narrow_512
        (omega (arith, s.start_c)) (omega (arith, s.start_a))
      ∙ high_bytes c a n small
  narrow_run_lem a_sse2 c a n fits s small =
      packed_x1_lem narrowed (λ x. saturated_8 (srai_8 x)) c a n fits
        (λ j h. saturating (a.cell j) (small j h)) aligned 2 1 8 pack_128 (omega (arith, s.start_c))
        (omega (arith, s.start_a))
      ∙ high_bytes c a n small
  narrow_run_lem neon c a n fits s small =
      packed_x1_lem narrowed (λ x. u8 (srai_8 x)) c a n fits
        (λ j h. truncating (a.cell j) (small j h)) unaligned 2 1 8 pack_neon tt tt
      ∙ high_bytes c a n small
  narrow_run_lem neonv8 c a n fits s small =
      two_packed_x1_lem narrowed (λ x. u8 (srai_8 x)) c a n fits
        (λ j h. truncating (a.cell j) (small j h)) unaligned 2 1 8 pack_neon tt tt
      ∙ high_bytes c a n small
  narrow_run_lem rvv c a n fits s small =
      rvv_x1_agreed narrowed (λ x. u8 (srai_8 x)) c a n fits
        (λ j h. truncating (a.cell j) (small j h)) 2 1 o.setvl_e16m8 o.vnsra_8
      ∙ high_bytes c a n small
