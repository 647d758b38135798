-- ===== src/Base/Bits/Bytes.antt =====
-- Words of 32 bits by their bytes.
use Prim.Native.Nat.{ℕ, ◌+◌, ◌*◌, ◌%◌, ◌^◌, ◌<◌, bit_and, bit_or}
use mathlib.Core.Path.{◌≡◌, refl, ap, ap₂, ◌∙◌}
use native.Mathlib.Omega.{arith}
use volk.Base.Bits.{◌>>>◌, bit_and-fields, bit_or-fields}
use volk.Base.Bits.Masks.{bit_and-zero}

-- A word of four bytes, from the highest down, and a number for each.
abbrev pub word : ℕ → ℕ → ℕ → ℕ → ℕ
word b3 b2 b1 b0 = ((b3 * 2 ^ 8 + b2) * 2 ^ 8 + b1) * 2 ^ 8 + b0

-- Both operations work byte by byte.
pub bytes_and :
    (b3 b2 b1 b0 m3 m2 m1 m0 : ℕ)
    → b2 < 256
    → b1 < 256
    → b0 < 256
    → m2 < 256
    → m1 < 256
    → m0 < 256
    → bit_and (word b3 b2 b1 b0) (word m3 m2 m1 m0)
      ≡ word (bit_and b3 m3) (bit_and b2 m2) (bit_and b1 m1) (bit_and b0 m0)
bytes_and b3 b2 b1 b0 m3 m2 m1 m0 h2 h1 h0 k2 k1 k0 =
    bit_and-fields 8 ((b3 * 2 ^ 8 + b2) * 2 ^ 8 + b1) b0 ((m3 * 2 ^ 8 + m2) * 2 ^ 8 + m1) m0 h0 k0
    ∙ ap (λ d. d * 2 ^ 8 + bit_and b0 m0)
        (bit_and-fields 8 (b3 * 2 ^ 8 + b2) b1 (m3 * 2 ^ 8 + m2) m1 h1 k1
          ∙ ap (λ d. d * 2 ^ 8 + bit_and b1 m1) (bit_and-fields 8 b3 b2 m3 m2 h2 k2))

pub bytes_or :
    (b3 b2 b1 b0 m3 m2 m1 m0 : ℕ)
    → b2 < 256
    → b1 < 256
    → b0 < 256
    → m2 < 256
    → m1 < 256
    → m0 < 256
    → bit_or (word b3 b2 b1 b0) (word m3 m2 m1 m0)
      ≡ word (bit_or b3 m3) (bit_or b2 m2) (bit_or b1 m1) (bit_or b0 m0)
bytes_or b3 b2 b1 b0 m3 m2 m1 m0 h2 h1 h0 k2 k1 k0 =
    bit_or-fields 8 ((b3 * 2 ^ 8 + b2) * 2 ^ 8 + b1) b0 ((m3 * 2 ^ 8 + m2) * 2 ^ 8 + m1) m0 h0 k0
    ∙ ap (λ d. d * 2 ^ 8 + bit_or b0 m0)
        (bit_or-fields 8 (b3 * 2 ^ 8 + b2) b1 (m3 * 2 ^ 8 + m2) m1 h1 k1
          ∙ ap (λ d. d * 2 ^ 8 + bit_or b1 m1) (bit_or-fields 8 b3 b2 m3 m2 h2 k2))

pub word_cong :
    {b3 b2 b1 b0 c3 c2 c1 c0 : ℕ}
    → b3 ≡ c3
    → b2 ≡ c2
    → b1 ≡ c1
    → b0 ≡ c0
    → word b3 b2 b1 b0 ≡ word c3 c2 c1 c0
word_cong e3 e2 e1 e0 =
    ap₂ (λ d b. d * 2 ^ 8 + b) (ap₂ (λ d b. d * 2 ^ 8 + b) (ap₂ (λ d b. d * 2 ^ 8 + b) e3 e2) e1) e0

-- A mask of `p` bits does not see what stands above them.
mask_below : (p m c d : ℕ) → m < 2 ^ p → d < 2 ^ p → bit_and (c * 2 ^ p + d) m ≡ bit_and d m
mask_below p m c d hm hd =
    ap (bit_and (c * 2 ^ p + d)) (omega arith)
    ∙ bit_and-fields p c d 0 m hd hm
    ∙ rw (bit_and-zero c) (omega arith)

-- A shift by `k` moves the lowest bits of a byte to the top of the next: the shape of a shifted word, and
-- the bytes that it has, where `p` is `8 - k`.
abbrev pub ShiftsBytes : ℕ → ℕ → Type 0
ShiftsBytes k p =
    (b3 b2 b1 b0 : ℕ)
    → b2 < 256
    → b1 < 256
    → b0 < 256
    → word b3 b2 b1 b0 >>> k
      ≡ word (b3 >>> k) (b3 % 2 ^ k * 2 ^ p + b2 >>> k) (b2 % 2 ^ k * 2 ^ p + b1 >>> k)
          (b1 % 2 ^ k * 2 ^ p + b0 >>> k)

abbrev pub FitsByte : ℕ → ℕ → Type 0
FitsByte k p = (a b : ℕ) → b < 256 → (a % 2 ^ k * 2 ^ p + b >>> k < 256) × (b >>> k < 2 ^ p)

-- `(x >> k) & mask`, where each byte of the mask has `p` bits.
pub masked_down :
    (k p m : ℕ)
    → m < 2 ^ p
    → m < 256
    → ShiftsBytes k p
    → FitsByte k p
    → (b3 b2 b1 b0 : ℕ) → b2 < 256
    → b1 < 256
    → b0 < 256
    → bit_and (word b3 b2 b1 b0 >>> k) (word m m m m)
      ≡ word
          (bit_and (b3 >>> k) m)
          (bit_and (b2 >>> k) m)
          (bit_and (b1 >>> k) m)
          (bit_and (b0 >>> k) m)
masked_down k p m m_lt m_byte shifted fits b3 b2 b1 b0 h2 h1 h0 =
    ap (λ x. bit_and x (word m m m m)) (shifted b3 b2 b1 b0 h2 h1 h0)
    ∙ bytes_and _ _ _ _ m m m m (fits b3 b2 h2).0 (fits b2 b1 h1).0 (fits b1 b0 h0).0 m_byte m_byte
        m_byte
    ∙ word_cong refl (one b3 b2 h2) (one b2 b1 h1) (one b1 b0 h0)
  where
    one : (c b : ℕ) → b < 256 → bit_and (c % 2 ^ k * 2 ^ p + b >>> k) m ≡ bit_and (b >>> k) m
    one c b h = mask_below p m (c % 2 ^ k) (b >>> k) m_lt (fits c b h).1
