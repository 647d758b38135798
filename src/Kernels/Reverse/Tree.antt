-- ===== src/Kernels/Reverse/Tree.antt =====
-- The methods that exchange neighbouring fields, of 16 bits, 8, 4, 2 and 1, in either order.
use volk.Base.{ℕ, ◌/◌, ◌%◌, ◌^◌, ◌<◌, ◌≡◌, refl, ap, ◌∙◌, arith}
use volk.Base.{for_all_under, for_all_under_lem, byte_table, ltb, ltb→lt, true}
use volk.Base.Bits.Bytes.{word, word_cong}
use volk.Kernels.Reverse.{exchange, exchange_16, top_down, bottom_up}
use volk.Kernels.Reverse.Words.{reflected, reflected-lt, reflected_bytes}
use volk.Kernels.Reverse.Exchange.{
  exchange_byte, exchange_4, exchange_2, exchange_1, exchange_8, exchange_16_lem,
}

-- One byte, by a run on all 256: it stays a byte, and the three exchanges reverse it in either order.
stays_byte :
    (m k : ℕ)
    → for_all_under (λ b. ltb (exchange_byte m k b) 256) 256 ≡ true
    → (b : ℕ) → b < 256
    → exchange_byte m k b < 256
stays_byte m k e b h =
    ltb→lt (exchange_byte m k b) 256
      (for_all_under_lem (λ b. ltb (exchange_byte m k b) 256) 256 b h e)

byte_4 : (b : ℕ) → b < 256 → exchange_byte 0x0F 4 b < 256
unfolding for_all_under
byte_4 = stays_byte 0x0F 4 refl

byte_2 : (b : ℕ) → b < 256 → exchange_byte 0x33 2 b < 256
unfolding for_all_under
byte_2 = stays_byte 0x33 2 refl

byte_1 : (b : ℕ) → b < 256 → exchange_byte 0x55 1 b < 256
unfolding for_all_under
byte_1 = stays_byte 0x55 1 refl

bytes_down :
    (b : ℕ)
    → b < 256
    → exchange_byte 0x55 1 (exchange_byte 0x33 2 (exchange_byte 0x0F 4 b)) ≡ reflected 8 b
unfolding for_all_under reflected
bytes_down =
    byte_table (λ b. exchange_byte 0x55 1 (exchange_byte 0x33 2 (exchange_byte 0x0F 4 b)))
      (reflected 8) refl

bytes_up :
    (b : ℕ)
    → b < 256
    → exchange_byte 0x0F 4 (exchange_byte 0x33 2 (exchange_byte 0x55 1 b)) ≡ reflected 8 b
unfolding for_all_under reflected
bytes_up =
    byte_table (λ b. exchange_byte 0x0F 4 (exchange_byte 0x33 2 (exchange_byte 0x55 1 b)))
      (reflected 8) refl

module _ (b3 b2 b1 b0 : ℕ) (h3 : b3 < 256) (h2 : b2 < 256) (h1 : b1 < 256) (h0 : b0 < 256) where
  reversed : ℕ
  reversed = word (reflected 8 b0) (reflected 8 b1) (reflected 8 b2) (reflected 8 b3)

  top_down-word : top_down (word b3 b2 b1 b0) ≡ reversed
  unfolding reversed
  top_down-word =
      ap (λ w. exchange 0x55555555 1 (exchange 0x33333333 2 (exchange 0x0F0F0F0F 4 w)))
        (ap (exchange 0x00FF00FF 8) (exchange_16_lem b3 b2 b1 b0 h3 h2 h1 h0)
          ∙ exchange_8 b1 b0 b3 b2 h1 h0 h3 h2)
      ∙ ap (λ w. exchange 0x55555555 1 (exchange 0x33333333 2 w))
          (exchange_4 b0 b1 b2 b3 h0 h1 h2 h3)
      ∙ ap (exchange 0x55555555 1)
          (exchange_2 _ _ _ _ (byte_4 b0 h0) (byte_4 b1 h1) (byte_4 b2 h2) (byte_4 b3 h3))
      ∙ exchange_1 _ _ _ _ (byte_2 _ (byte_4 b0 h0)) (byte_2 _ (byte_4 b1 h1))
          (byte_2 _ (byte_4 b2 h2)) (byte_2 _ (byte_4 b3 h3))
      ∙ word_cong (bytes_down b0 h0) (bytes_down b1 h1) (bytes_down b2 h2) (bytes_down b3 h3)

  bottom_up-word : bottom_up (word b3 b2 b1 b0) ≡ reversed
  unfolding reversed
  bottom_up-word =
      ap (λ w. exchange_16 (exchange 0x00FF00FF 8 w))
        (ap (λ w. exchange 0x0F0F0F0F 4 (exchange 0x33333333 2 w))
            (exchange_1 b3 b2 b1 b0 h3 h2 h1 h0)
          ∙ ap (exchange 0x0F0F0F0F 4)
              (exchange_2 _ _ _ _ (byte_1 b3 h3) (byte_1 b2 h2) (byte_1 b1 h1) (byte_1 b0 h0))
          ∙ exchange_4 _ _ _ _ (byte_2 _ (byte_1 b3 h3)) (byte_2 _ (byte_1 b2 h2))
              (byte_2 _ (byte_1 b1 h1)) (byte_2 _ (byte_1 b0 h0))
          ∙ word_cong (bytes_up b3 h3) (bytes_up b2 h2) (bytes_up b1 h1) (bytes_up b0 h0))
      ∙ ap exchange_16 (
          exchange_8 _ _ _ _ (reflected-lt 8 b3) (reflected-lt 8 b2) (reflected-lt 8 b1)
            (reflected-lt 8 b0))
      ∙ exchange_16_lem _ _ _ _ (reflected-lt 8 b2) (reflected-lt 8 b3) (reflected-lt 8 b0)
          (reflected-lt 8 b1)

module _ (x : ℕ) (h : x < 2 ^ 32) where
  bytes_of : x ≡ word (x / 16777216) (x / 65536 % 256) (x / 256 % 256) (x % 256)
  bytes_of = omega arith

  as_reflected :
      reversed
        (x / 16777216)
        (x / 65536 % 256)
        (x / 256 % 256)
        (x % 256)
        (omega arith)
        (omega arith)
        (omega arith)
        (omega arith)
      ≡ reflected 32 x
  unfolding reversed
  as_reflected = omega (arith, reflected_bytes x)

  pub top_down-reflected : top_down x ≡ reflected 32 x
  top_down-reflected =
      ap top_down bytes_of
      ∙ top_down-word _ _ _ _ (omega arith) (omega arith) (omega arith) (omega arith)
      ∙ as_reflected

  pub bottom_up-reflected : bottom_up x ≡ reflected 32 x
  bottom_up-reflected =
      ap bottom_up bytes_of
      ∙ bottom_up-word _ _ _ _ (omega arith) (omega arith) (omega arith) (omega arith)
      ∙ as_reflected
