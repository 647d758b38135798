-- ===== src/Kernels/Popcnt/Count.antt =====
-- The number of bits that are set.
use volk.Base.{ℕ, zero, suc, ◌+◌, ◌*◌, ◌/◌, ◌%◌, ◌^◌, ◌≤◌, ◌<◌, ◌≡◌, ap, ◌∙◌, arith}
use native.Mathlib.Nat.{pow-suc}
use mathlib.Core.Path.{ap₂}
use volk.Base.Bits.{next_power}
use volk.Base.Bits.Bytes.{word}

-- Of the lowest `k` bits of `x`.
unfoldable pub bits_set : ℕ → ℕ → ℕ
bits_set zero x = 0
bits_set (suc k) x = x % 2 + bits_set k (x / 2)

pub bits_set-le : (k x : ℕ) → bits_set k x ≤ k
unfolding bits_set
bits_set-le zero x = omega arith
bits_set-le (suc k) x = omega (arith, bits_set-le k (x / 2))

-- Of the lowest `j` bits and of those above.
pub bits_set_split :
    (j k q r : ℕ) → r < 2 ^ j → bits_set (j + k) (q * 2 ^ j + r) ≡ bits_set j r + bits_set k q
unfolding bits_set
bits_set_split zero k q r h =
    let e : zero + k ≡ k = omega arith in
    let all : q * 1 + r ≡ q = omega arith in
    ap (λ n. bits_set n (q * 1 + r)) e ∙ ap (bits_set k) all ∙ omega arith
bits_set_split (suc j) k q r h =
    let e : suc j + k ≡ suc (j + k) = omega arith in
    ap (λ n. bits_set n (q * 2 ^ suc j + r)) e
    ∙ ap₂ (λ b d. b + bits_set (j + k) d) low rest
    ∙ ap (λ d. r % 2 + d) (bits_set_split j k q (r / 2) (omega (arith, pow-suc 2 j)))
    ∙ omega arith
  where
    low : (q * 2 ^ suc j + r) % 2 ≡ r % 2
    low = omega (arith, next_power q j)

    rest : (q * 2 ^ suc j + r) / 2 ≡ q * 2 ^ j + r / 2
    rest = omega (arith, next_power q j)

pub bits_set-word :
    (b3 b2 b1 b0 : ℕ)
    → b2 < 256
    → b1 < 256
    → b0 < 256
    → bits_set 32 (word b3 b2 b1 b0)
      ≡ bits_set 8 b0 + (bits_set 8 b1 + (bits_set 8 b2 + bits_set 8 b3))
bits_set-word b3 b2 b1 b0 h2 h1 h0 =
    bits_set_split 8 24 ((b3 * 2 ^ 8 + b2) * 2 ^ 8 + b1) b0 h0
    ∙ ap (λ d. bits_set 8 b0 + d)
        (bits_set_split 8 16 (b3 * 2 ^ 8 + b2) b1 h1
          ∙ ap (λ d. bits_set 8 b1 + d) (bits_set_split 8 8 b3 b2 h2))
