-- ===== src/Kernels/AddSaturated/Points.antt =====
-- What volk_{8u,16u,8i,16i}_x2_add_saturated_*.h compute at one point: the branch-free expressions of the
-- generic loops, and the tests of the loops that finish the vector implementations. A signed word is
-- its two's complement pattern.
pub mod Laws
pub mod Signed8
pub mod Signed16
use volk.Base.{ℕ, suc, ◌+◌, ◌-◌, ◌^◌, ◌≡◌, refl, min, Bool}
use volk.Base.{bit_and, bit_or, bit_xor, ltb, if◌then◌else◌}
use volk.Base.Bits.{promote, asr, u8, u16, u32, ◌>>>◌}
use volk.Base.Int.{ℤ, pos, negsuc, ◌+ℤ◌, ltb_ℤ, signed, pattern_of}

-- The sum, or the largest unsigned word of `w` bits.
abbrev pub add_sat_u : ℕ → ℕ → ℕ → ℕ
add_sat_u w a b = min (a + b) (2 ^ w - 1)

-- The signed sum, cut to the range of `suc k` bits.
abbrev pub clamp : ℕ → ℤ → ℤ
clamp k s =
    if ltb_ℤ (pos (2 ^ k - 1)) s
    then pos (2 ^ k - 1)
    else if ltb_ℤ s (negsuc (2 ^ k - 1))
    then negsuc (2 ^ k - 1)
    else s

abbrev pub add_sat_i : ℕ → ℕ → ℕ → ℕ
add_sat_i k a b = pattern_of k (clamp k (signed k a +ℤ signed k b))

-- The pattern of `-flag` as a 32-bit int, for the value of a comparison.
abbrev minus : Bool → ℕ
minus flag = if flag then 2 ^ 32 - 1 else 0

-- `uint8_t sum = a + b; out = sum | -(uint8_t)(sum < a);`
unfoldable pub generic_8u : ℕ → ℕ → ℕ
generic_8u a b = let sum = u8 (a + b) in u8 (bit_or sum (minus (ltb sum a)))

-- `uint16_t sum = a + b; if (sum > 255) sum = 255; out = (uint8_t)sum;`
unfoldable pub tail_8u : ℕ → ℕ → ℕ
tail_8u a b = let sum = u16 (a + b) in u8 (if ltb 255 sum then 255 else sum)

unfoldable pub generic_16u : ℕ → ℕ → ℕ
generic_16u a b = let sum = u16 (a + b) in u16 (bit_or sum (minus (ltb sum a)))

unfoldable pub tail_16u : ℕ → ℕ → ℕ
tail_16u a b = let sum = u32 (a + b) in u16 (if ltb 65535 sum then 65535 else sum)

-- The complement of an int.
abbrev pub complement : ℕ → ℕ
complement x = 2 ^ 32 - 1 - x

-- int8_t a, b, sum = a + b;
-- int8_t overflow = ((a ^ sum) & (b ^ sum)) >> 7, sat_val = (a >> 7) ^ 0x7F;
-- out = (overflow & sat_val) | (~overflow & sum);
unfoldable pub generic_8i : ℕ → ℕ → ℕ
generic_8i a b =
    let sum = u8 (promote 7 a + promote 7 b) in
    let overflow = u8 (
      asr (bit_and (bit_xor (promote 7 a) (promote 7 sum)) (bit_xor (promote 7 b) (promote 7 sum)))
        7) in
    let sat_val = u8 (bit_xor (asr (promote 7 a) 7) 0x7f) in
    u8 (
      bit_or (bit_and (promote 7 overflow) (promote 7 sat_val))
        (bit_and (complement (promote 7 overflow)) (promote 7 sum)))

-- The same with 15 for 7 and 0x7FFF for 0x7F.
unfoldable pub generic_16i : ℕ → ℕ → ℕ
generic_16i a b =
    let sum = u16 (promote 15 a + promote 15 b) in
    let overflow = u16 (
      asr
        (bit_and (bit_xor (promote 15 a) (promote 15 sum))
          (bit_xor (promote 15 b) (promote 15 sum)))
        15) in
    let sat_val = u16 (bit_xor (asr (promote 15 a) 15) 0x7fff) in
    u16 (
      bit_or (bit_and (promote 15 overflow) (promote 15 sat_val))
        (bit_and (complement (promote 15 overflow)) (promote 15 sum)))

-- `int16_t sum = a + b; if (sum > 127) sum = 127; else if (sum < -128) sum = -128; out = (int8_t)sum;`
unfoldable pub tail_8i : ℕ → ℕ → ℕ
tail_8i a b =
    let sum = signed 7 a +ℤ signed 7 b in
    pattern_of 7
      (if ltb_ℤ (pos 127) sum then pos 127 else if ltb_ℤ sum (negsuc 127) then negsuc 127 else sum)

unfoldable pub tail_16i : ℕ → ℕ → ℕ
tail_16i a b =
    let sum = signed 15 a +ℤ signed 15 b in
    pattern_of 15 (
      if ltb_ℤ (pos 32767) sum
      then pos 32767
      else if ltb_ℤ sum (negsuc 32767)
      then negsuc 32767
      else sum)
