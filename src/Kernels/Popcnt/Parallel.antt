-- ===== src/Kernels/Popcnt/Parallel.antt =====
-- The parallel count, byte by byte.
use volk.Base.{ℕ, ◌+◌, ◌*◌, ◌/◌, ◌%◌, ◌^◌, ◌≤◌, ◌<◌, ◌≡◌, refl, sym, ap, ◌∙◌, arith, bit_and}
use volk.Base.{for_all_under, for_all_under_lem, byte_table, ltb, ltb→lt}
use mathlib.Core.Path.{ap₂}
use volk.Base.Bits.{u32, u64, ◌>>>◌}
use volk.Base.Bits.Masks.{bit_and_mask, bit_and_field}
use volk.Base.Bits.Bytes.{word, word_cong, bytes_and, masked_down}
use volk.Kernels.Popcnt.{count_32, volk_32u_popcnt_generic, volk_64u_popcnt_generic}
use volk.Kernels.Popcnt.Count.{bits_set, bits_set-le, bits_set_split, bits_set-word}

-- One step on one byte, and the first two.
abbrev pair_byte : ℕ → ℕ
pair_byte b = bit_and b 0x55 + bit_and (b >>> 1) 0x55

abbrev nibble_byte : ℕ → ℕ
nibble_byte b = bit_and b 0x33 + bit_and (b >>> 2) 0x33

-- What the first two steps leave of a byte: two digits of at most 4, which count its bits.
abbrev digits : ℕ → ℕ
digits b = nibble_byte (pair_byte b)

-- By a run on all 256 bytes.
pair_byte-lt : (b : ℕ) → b < 256 → pair_byte b < 256
unfolding for_all_under
pair_byte-lt b h =
    ltb→lt (pair_byte b) 256 (for_all_under_lem (λ b. ltb (pair_byte b) 256) 256 b h refl)

high_digit : (b : ℕ) → b < 256 → digits b / 16 < 5
unfolding for_all_under
high_digit b h =
    ltb→lt (digits b / 16) 5 (for_all_under_lem (λ b. ltb (digits b / 16) 5) 256 b h refl)

low_digit : (b : ℕ) → b < 256 → digits b % 16 < 5
unfolding for_all_under
low_digit b h =
    ltb→lt (digits b % 16) 5 (for_all_under_lem (λ b. ltb (digits b % 16) 5) 256 b h refl)

digits_count : (b : ℕ) → b < 256 → digits b / 16 + digits b % 16 ≡ bits_set 8 b
unfolding for_all_under bits_set
digits_count = byte_table (λ b. digits b / 16 + digits b % 16) (bits_set 8) refl

module _ (b3 b2 b1 b0 : ℕ) (h3 : b3 < 256) (h2 : b2 < 256) (h1 : b1 < 256) (h0 : b0 < 256) where
  pairs_word :
      u32 (bit_and (word b3 b2 b1 b0) 0x55555555 + bit_and (word b3 b2 b1 b0 >>> 1) 0x55555555)
      ≡ word (pair_byte b3) (pair_byte b2) (pair_byte b1) (pair_byte b0)
  pairs_word =
      ap₂ (λ x y. u32 (x + y))
        (bytes_and b3 b2 b1 b0 0x55 0x55 0x55 0x55 h2 h1 h0 (omega arith) (omega arith)
          (omega arith))
        (masked_down 1 7 0x55 (omega arith) (omega arith) (λ b3 b2 b1 b0 h2 h1 h0. omega arith)
          (λ a b h. (omega arith, omega arith)) b3 b2 b1 b0 h2 h1 h0)
      ∙ omega
          (arith, pair_byte-lt b3 h3, pair_byte-lt b2 h2, pair_byte-lt b1 h1, pair_byte-lt b0 h0)

  nibbles_word :
      ((b : ℕ) → b < 256 → nibble_byte b < 256)
      → u32 (bit_and (word b3 b2 b1 b0) 0x33333333 + bit_and (word b3 b2 b1 b0 >>> 2) 0x33333333)
        ≡ word (nibble_byte b3) (nibble_byte b2) (nibble_byte b1) (nibble_byte b0)
  nibbles_word lt =
      ap₂ (λ x y. u32 (x + y))
        (bytes_and b3 b2 b1 b0 0x33 0x33 0x33 0x33 h2 h1 h0 (omega arith) (omega arith)
          (omega arith))
        (masked_down 2 6 0x33 (omega arith) (omega arith) (λ b3 b2 b1 b0 h2 h1 h0. omega arith)
          (λ a b h. (omega arith, omega arith)) b3 b2 b1 b0 h2 h1 h0)
      ∙ omega (arith, lt b3 h3, lt b2 h2, lt b1 h1, lt b0 h0)

-- Two digits of at most 4 in every byte: their sums.
bytes_word :
    (d3 d2 d1 d0 : ℕ)
    → d3 / 16 < 5
    → d2 / 16 < 5
    → d1 / 16 < 5
    → d0 / 16 < 5
    → d3 % 16 < 5
    → d2 % 16 < 5
    → d1 % 16 < 5
    → d0 % 16 < 5
    → bit_and (u32 (word d3 d2 d1 d0 + word d3 d2 d1 d0 >>> 4)) 0x0F0F0F0F
      ≡ word (d3 / 16 + d3 % 16) (d2 / 16 + d2 % 16) (d1 / 16 + d1 % 16) (d0 / 16 + d0 % 16)
bytes_word d3 d2 d1 d0 a3 a2 a1 a0 c3 c2 c1 c0 =
    ap (λ x. bit_and x 0x0F0F0F0F) sums
    ∙ bytes_and _ _ _ _ 15 15 15 15 (omega arith) (omega arith) (omega arith) (omega arith)
        (omega arith) (omega arith)
    ∙ word_cong (bit_and_mask 4 (d3 + d3 / 16) ∙ omega arith)
        (bit_and_mask 4 (d2 + (d3 % 16 * 16 + d2 / 16)) ∙ omega arith)
        (bit_and_mask 4 (d1 + (d2 % 16 * 16 + d1 / 16)) ∙ omega arith)
        (bit_and_mask 4 (d0 + (d1 % 16 * 16 + d0 / 16)) ∙ omega arith)
  where
    sums :
        u32 (word d3 d2 d1 d0 + word d3 d2 d1 d0 >>> 4)
        ≡ word
            (d3 + d3 / 16)
            (d2 + (d3 % 16 * 16 + d2 / 16))
            (d1 + (d2 % 16 * 16 + d1 / 16))
            (d0 + (d1 % 16 * 16 + d0 / 16))
    sums = omega arith

-- The sum of four counts.
total :
    (c3 c2 c1 c0 : ℕ)
    → c3 ≤ 8
    → c2 ≤ 8
    → c1 ≤ 8
    → c0 ≤ 8
    → (let halves = u32 (word c3 c2 c1 c0 + word c3 c2 c1 c0 >>> 8) in
        bit_and (u32 (halves + halves >>> 16)) 0x0000003F)
      ≡ c0 + (c1 + (c2 + c3))
total c3 c2 c1 c0 h3 h2 h1 h0 =
    bit_and_mask 6 _ ∙ ap (λ y. u32 (y + y / 65536) % 64) halved ∙ omega arith
  where
    halved : u32 (word c3 c2 c1 c0 + word c3 c2 c1 c0 / 256) ≡ word c3 (c3 + c2) (c2 + c1) (c1 + c0)
    halved = omega arith

nibble_byte-lt : (b : ℕ) → b < 256 → nibble_byte b < 256
unfolding for_all_under
nibble_byte-lt b h =
    ltb→lt (nibble_byte b) 256 (for_all_under_lem (λ b. ltb (nibble_byte b) 256) 256 b h refl)

-- The last three steps.
abbrev from_nibbles : ℕ → ℕ
from_nibbles nibbles =
    let bytes = bit_and (u32 (nibbles + nibbles >>> 4)) 0x0F0F0F0F in
    let halves = u32 (bytes + bytes >>> 8) in bit_and (u32 (halves + halves >>> 16)) 0x0000003F

count_word :
    (b3 b2 b1 b0 : ℕ)
    → b3 < 256
    → b2 < 256
    → b1 < 256
    → b0 < 256
    → count_32 (word b3 b2 b1 b0) ≡ bits_set 32 (word b3 b2 b1 b0)
unfolding count_32
count_word b3 b2 b1 b0 h3 h2 h1 h0 =
    ap (λ pairs. from_nibbles (u32 (bit_and pairs 0x33333333 + bit_and (pairs >>> 2) 0x33333333)))
      (pairs_word b3 b2 b1 b0 h3 h2 h1 h0)
    ∙ ap from_nibbles (
        nibbles_word _ _ _ _ (pair_byte-lt b3 h3) (pair_byte-lt b2 h2) (pair_byte-lt b1 h1)
          (pair_byte-lt b0 h0) nibble_byte-lt)
    ∙ ap
        (λ bytes.
          let halves = u32 (bytes + bytes >>> 8) in
          bit_and (u32 (halves + halves >>> 16)) 0x0000003F)
        (bytes_word (digits b3) (digits b2) (digits b1) (digits b0) (high_digit b3 h3)
            (high_digit b2 h2) (high_digit b1 h1) (high_digit b0 h0) (low_digit b3 h3)
            (low_digit b2 h2) (low_digit b1 h1) (low_digit b0 h0)
          ∙ word_cong (digits_count b3 h3) (digits_count b2 h2) (digits_count b1 h1)
              (digits_count b0 h0))
    ∙ total _ _ _ _ (bits_set-le 8 b3) (bits_set-le 8 b2) (bits_set-le 8 b1) (bits_set-le 8 b0)
    ∙ sym (bits_set-word b3 b2 b1 b0 h2 h1 h0)

count_32_lem : (x : ℕ) → x < 2 ^ 32 → count_32 x ≡ bits_set 32 x
count_32_lem x h =
    ap count_32 bytes
    ∙ count_word _ _ _ _ (omega arith) (omega arith) (omega arith) (omega arith)
    ∙ ap (bits_set 32) (sym bytes)
  where
    bytes : x ≡ word (x / 16777216) (x / 65536 % 256) (x / 256 % 256) (x % 256)
    bytes = omega arith

-- The generic kernels give the number of bits that are set, of a word of 32 bits and of one of 64.
pub popcnt_generic_lem :
    (x y : ℕ)
    → x < 2 ^ 32
    → y < 2 ^ 64
    → (volk_32u_popcnt_generic x ≡ bits_set 32 x) × (volk_64u_popcnt_generic y ≡ bits_set 64 y)
unfolding volk_32u_popcnt_generic volk_64u_popcnt_generic
popcnt_generic_lem x y hx hy = (count_32_lem x hx, both)
  where
    low : u32 (bit_and y 0x00000000FFFFFFFF) ≡ y % 2 ^ 32
    low = ap u32 (bit_and_mask 32 y) ∙ omega arith

    high : u32 (bit_and y 0xFFFFFFFF00000000 >>> 32) ≡ y / 2 ^ 32
    high = ap (λ d. u32 (d >>> 32)) (bit_and_field 32 32 y) ∙ omega arith

    no_wrap :
        u64 (bits_set 32 (y % 2 ^ 32) + bits_set 32 (y / 2 ^ 32))
        ≡ bits_set 32 (y % 2 ^ 32) + bits_set 32 (y / 2 ^ 32)
    no_wrap = omega (arith, bits_set-le 32 (y % 2 ^ 32), bits_set-le 32 (y / 2 ^ 32))

    parts : y / 2 ^ 32 * 2 ^ 32 + y % 2 ^ 32 ≡ y
    parts = omega arith

    both :
        u64 (
          count_32 (u32 (bit_and y 0x00000000FFFFFFFF))
          + count_32 (u32 (bit_and y 0xFFFFFFFF00000000 >>> 32)))
        ≡ bits_set 64 y
    both =
        ap₂ (λ a b. u64 (count_32 a + count_32 b)) low high
        ∙ ap₂ (λ a b. u64 (a + b)) (count_32_lem (y % 2 ^ 32) (omega arith))
            (count_32_lem (y / 2 ^ 32) (omega arith))
        ∙ no_wrap
        ∙ sym (bits_set_split 32 32 (y / 2 ^ 32) (y % 2 ^ 32) (omega arith))
        ∙ ap (bits_set 64) parts
