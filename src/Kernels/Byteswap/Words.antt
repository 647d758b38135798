-- ===== src/Kernels/Byteswap/Words.antt =====
-- What the shifts and masks make of one word.
use volk.Base.{ℕ, ◌+◌, ◌*◌, ◌/◌, ◌%◌, ◌^◌, ◌<◌, ◌≡◌, ap, ◌∙◌, bit_and, bit_or, arith}
use volk.Base.Bits.{u16, u32, ◌<<<◌, ◌>>>◌}
use volk.Base.Bits.Masks.{bit_and_mask, bit_and_field, bit_or-low_high}
use mathlib.Core.Path.{ap₂}
use volk.Kernels.Byteswap.{swapped_16, swapped_32}

-- The bytes of a word in the opposite order.
abbrev pub reversed_16 : ℕ → ℕ
reversed_16 x = x % 256 * 256 + x / 256 % 256

abbrev pub reversed_32 : ℕ → ℕ
reversed_32 x =
    x % 256 * 16777216 + (x / 256 % 256 * 65536 + (x / 65536 % 256 * 256 + x / 16777216 % 256))

pub swapped_16_lem : (x : ℕ) → x < 2 ^ 16 → swapped_16 x ≡ reversed_16 x
unfolding swapped_16
swapped_16_lem x h =
    let low = x / 256 % 256 in
    let high = x % 256 in
    let p1 : bit_and (x >>> 8) 0xff ≡ low = bit_and_mask 8 (x >>> 8) in
    let p2 : bit_and (x <<< 8) 0xff00 ≡ high <<< 8 = bit_and_field 8 8 (x <<< 8) ∙ omega arith in
    ap₂ (λ m n. u16 (bit_or m n)) p1 p2
    ∙ ap u16 (bit_or-low_high 8 high low (omega arith))
    ∙ omega arith

pub swapped_32_lem : (x : ℕ) → x < 2 ^ 32 → swapped_32 x ≡ reversed_32 x
unfolding swapped_32
swapped_32_lem x h =
    let b0 = x / 16777216 % 256 in
    let b1 = x / 65536 % 256 in
    let b2 = x / 256 % 256 in
    let b3 = x % 256 in
    let p0 : bit_and (x >>> 24) 0xff ≡ b0 = bit_and_mask 8 (x >>> 24) in
    let p1 : bit_and (x >>> 8) 0xff00 ≡ b1 <<< 8 = bit_and_field 8 8 (x >>> 8) ∙ omega arith in
    let p2 : bit_and (u32 (x <<< 8)) 0xff0000 ≡ b2 <<< 16 =
      bit_and_field 16 8 (u32 (x <<< 8)) ∙ omega arith in
    let p3 : bit_and (u32 (x <<< 24)) 0xff000000 ≡ b3 <<< 24 =
      bit_and_field 24 8 (u32 (x <<< 24)) ∙ omega arith in
    ap₂ bit_or
      (ap₂ bit_or (ap₂ bit_or p0 p1 ∙ bit_or-low_high 8 b1 b0 (omega arith)) p2
        ∙ bit_or-low_high 16 b2 (b1 * 2 ^ 8 + b0) (omega arith))
      p3
    ∙ bit_or-low_high 24 b3 (b2 * 2 ^ 16 + (b1 * 2 ^ 8 + b0)) (omega arith)
    ∙ omega arith

pub reversed_16-reversed_16 :
    (x : ℕ) → x < 2 ^ 16 → (reversed_16 x < 2 ^ 16) × (reversed_16 (reversed_16 x) ≡ x)
reversed_16-reversed_16 x h = (omega arith, omega arith)

pub reversed_32-reversed_32 :
    (x : ℕ) → x < 2 ^ 32 → (reversed_32 x < 2 ^ 32) × (reversed_32 (reversed_32 x) ≡ x)
reversed_32-reversed_32 x h = (omega arith, omega arith)
