-- ===== src/Kernels/Reverse/Exchange.antt =====
-- What an exchange of neighbouring fields makes of the four bytes of a word.
use volk.Base.{ℕ, ◌^◌, ◌<◌, ◌≡◌, ap, ◌∙◌, arith, bit_and, bit_or}
use mathlib.Core.Path.{ap₂}
use native.Mathlib.Nat.{mod-eq_of_lt}
use volk.Base.Bits.{u32, ◌<<<◌, ◌>>>◌}
use volk.Base.Bits.Masks.{bit_and-zero, bit_and-lt_mask, bit_and-ones, bit_or-zero, zero-bit_or}
use volk.Base.Bits.Bytes.{word, word_cong, bytes_and, bytes_or, masked_down, ShiftsBytes, FitsByte}
use volk.Kernels.Reverse.{exchange, exchange_16}

-- What the exchange makes of one byte.
abbrev pub exchange_byte : ℕ → ℕ → ℕ → ℕ
exchange_byte m k b = bit_or (bit_and b m <<< k) (bit_and (b >>> k) m)

module _ (k p m : ℕ) (m_lt : m < 2 ^ p) (m_byte : m < 256) (shifted : ShiftsBytes k p)
    (fits : FitsByte k p) (room : (d : ℕ) → d < 2 ^ p → d <<< k < 256) where
  exchange_bytes :
      (b3 b2 b1 b0 : ℕ)
      → b3 < 256
      → b2 < 256
      → b1 < 256
      → b0 < 256
      → exchange (word m m m m) k (word b3 b2 b1 b0)
        ≡ word
            (exchange_byte m k b3)
            (exchange_byte m k b2)
            (exchange_byte m k b1)
            (exchange_byte m k b0)
  exchange_bytes b3 b2 b1 b0 h3 h2 h1 h0 =
      ap₂ (λ x y. bit_or (u32 x) y)
        (ap (λ x. x <<< k) (bytes_and b3 b2 b1 b0 m m m m h2 h1 h0 m_byte m_byte m_byte) ∙ moved)
        (masked_down k p m m_lt m_byte shifted fits b3 b2 b1 b0 h2 h1 h0)
      ∙ ap
          (λ x. bit_or x (
            word (bit_and (b3 >>> k) m) (bit_and (b2 >>> k) m) (bit_and (b1 >>> k) m)
              (bit_and (b0 >>> k) m)))
          (mod-eq_of_lt (omega (arith, up b3, up b2, up b1, up b0)))
      ∙ bytes_or _ _ _ _ _ _ _ _ (up b2) (up b1) (up b0) (down b2) (down b1) (down b0)
    where
      moved :
          word (bit_and b3 m) (bit_and b2 m) (bit_and b1 m) (bit_and b0 m) <<< k
          ≡ word (bit_and b3 m <<< k) (bit_and b2 m <<< k) (bit_and b1 m <<< k) (bit_and b0 m <<< k)
      moved = omega arith

      up : (b : ℕ) → bit_and b m <<< k < 256
      up b = room (bit_and b m) (bit_and-lt_mask p b m m_lt)

      down : (b : ℕ) → bit_and (b >>> k) m < 256
      down b = bit_and-lt_mask 8 (b >>> k) m m_byte

-- The three exchanges inside the bytes.
pub exchange_4 :
    (b3 b2 b1 b0 : ℕ)
    → b3 < 256
    → b2 < 256
    → b1 < 256
    → b0 < 256
    → exchange 0x0F0F0F0F 4 (word b3 b2 b1 b0)
      ≡ word
          (exchange_byte 0x0F 4 b3)
          (exchange_byte 0x0F 4 b2)
          (exchange_byte 0x0F 4 b1)
          (exchange_byte 0x0F 4 b0)
exchange_4 =
    exchange_bytes 4 4 0x0F (omega arith) (omega arith) (λ b3 b2 b1 b0 h2 h1 h0. omega arith)
      (λ a b h. (omega arith, omega arith)) (λ d h. omega arith)

pub exchange_2 :
    (b3 b2 b1 b0 : ℕ)
    → b3 < 256
    → b2 < 256
    → b1 < 256
    → b0 < 256
    → exchange 0x33333333 2 (word b3 b2 b1 b0)
      ≡ word
          (exchange_byte 0x33 2 b3)
          (exchange_byte 0x33 2 b2)
          (exchange_byte 0x33 2 b1)
          (exchange_byte 0x33 2 b0)
exchange_2 =
    exchange_bytes 2 6 0x33 (omega arith) (omega arith) (λ b3 b2 b1 b0 h2 h1 h0. omega arith)
      (λ a b h. (omega arith, omega arith)) (λ d h. omega arith)

pub exchange_1 :
    (b3 b2 b1 b0 : ℕ)
    → b3 < 256
    → b2 < 256
    → b1 < 256
    → b0 < 256
    → exchange 0x55555555 1 (word b3 b2 b1 b0)
      ≡ word
          (exchange_byte 0x55 1 b3)
          (exchange_byte 0x55 1 b2)
          (exchange_byte 0x55 1 b1)
          (exchange_byte 0x55 1 b0)
exchange_1 =
    exchange_bytes 1 7 0x55 (omega arith) (omega arith) (λ b3 b2 b1 b0 h2 h1 h0. omega arith)
      (λ a b h. (omega arith, omega arith)) (λ d h. omega arith)

-- The exchanges of whole bytes.
pub exchange_8 :
    (b3 b2 b1 b0 : ℕ)
    → b3 < 256
    → b2 < 256
    → b1 < 256
    → b0 < 256
    → exchange 0x00FF00FF 8 (word b3 b2 b1 b0) ≡ word b2 b3 b0 b1
exchange_8 b3 b2 b1 b0 h3 h2 h1 h0 =
    ap₂ (λ x y. bit_or (u32 (x <<< 8)) y) (masked b3 b2 b1 b0 h2 h1 h0)
      (ap (λ x. bit_and x 0x00FF00FF) down ∙ masked 0 b3 b2 b1 h3 h2 h1)
    ∙ ap (λ x. bit_or x (word 0 b3 0 b1)) up
    ∙ bytes_or b2 0 b0 0 0 b3 0 b1 (omega arith) h0 (omega arith) h3 (omega arith) h1
    ∙ word_cong (bit_or-zero b2) (zero-bit_or b3) (bit_or-zero b0) (zero-bit_or b1)
  where
    masked :
        (b3 b2 b1 b0 : ℕ)
        → b2 < 256
        → b1 < 256
        → b0 < 256
        → bit_and (word b3 b2 b1 b0) 0x00FF00FF ≡ word 0 b2 0 b0
    masked b3 b2 b1 b0 h2 h1 h0 =
        bytes_and b3 b2 b1 b0 0 255 0 255 h2 h1 h0 (omega arith) (omega arith) (omega arith)
        ∙ word_cong (bit_and-zero b3) (bit_and-ones 8 b2 h2) (bit_and-zero b1)
            (bit_and-ones 8 b0 h0)

    down : word b3 b2 b1 b0 >>> 8 ≡ word 0 b3 b2 b1
    down = omega arith

    up : u32 (word 0 b2 0 b0 <<< 8) ≡ word b2 0 b0 0
    up = omega arith

pub exchange_16_lem :
    (b3 b2 b1 b0 : ℕ)
    → b3 < 256
    → b2 < 256
    → b1 < 256
    → b0 < 256
    → exchange_16 (word b3 b2 b1 b0) ≡ word b1 b0 b3 b2
exchange_16_lem b3 b2 b1 b0 h3 h2 h1 h0 =
    ap₂ bit_or up down
    ∙ bytes_or b1 b0 0 0 0 0 b3 b2 h0 (omega arith) (omega arith) (omega arith) h3 h2
    ∙ word_cong (bit_or-zero b1) (bit_or-zero b0) (zero-bit_or b3) (zero-bit_or b2)
  where
    down : word b3 b2 b1 b0 >>> 16 ≡ word 0 0 b3 b2
    down = omega arith

    up : u32 (word b3 b2 b1 b0 <<< 16) ≡ word b1 b0 0 0
    up = omega arith
