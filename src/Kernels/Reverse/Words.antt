-- ===== src/Kernels/Reverse/Words.antt =====
-- The reversal of a word's bits, bit by bit and byte by byte.
use volk.Base.{
  ℕ, zero, suc, ◌+◌, ◌-◌, ◌*◌, ◌/◌, ◌%◌, ◌^◌, ◌≤◌, ◌<◌, ◌≡◌, sym, ap, ◌∙◌, arith, bit_or,
}
use volk.Base.{Bool-cases, ltb, ltb→lt, inl, inr}
use native.Mathlib.Nat.{pow-suc, div-div-eq-div-mul, mod-lt}
use mathlib.Core.Path.{ap₂}
use volk.Base.Bits.{◌<<<◌, next_power}
use volk.Base.Bits.Masks.{bit_and_mask, bit_or-low_high}
use volk.Kernels.Reverse.{mirrored_bits}

-- The lowest `k` bits of `x` in the opposite order.
unfoldable pub reflected : ℕ → ℕ → ℕ
reflected zero x = 0
reflected (suc k) x = x % 2 * 2 ^ k + reflected k (x / 2)

pub reflected-lt : (k x : ℕ) → reflected k x < 2 ^ k
unfolding reflected
reflected-lt zero x = omega arith
reflected-lt (suc k) x =
    omega (arith, pow-suc 2 k, reflected-lt k (x / 2), at_most (x % 2) (mod-lt x (omega arith)))
  where
    at_most : (b : ℕ) → b < 2 → b * 2 ^ k ≤ 2 ^ k
    at_most zero h = omega arith
    at_most (suc zero) h = omega arith
    at_most (suc (suc b)) h = absurd (omega arith)

-- The disjunction collects the bits from the top.
mirrored_bits-reflected :
    (width i x : ℕ)
    → i < width
    → mirrored_bits width i x ≡ reflected (suc i) (x / 2 ^ (width - 1 - i))
unfolding mirrored_bits reflected
mirrored_bits-reflected width zero x h = rw (bit_and_mask 1 (x / 2 ^ (width - 1 - 0))) (omega arith)
mirrored_bits-reflected width (suc i) x h =
    ap₂ bit_or (mirrored_bits-reflected width i x (omega arith) ∙ ap (reflected (suc i)) (next x))
      (ap (λ b. b <<< suc i) (bit_and_mask 1 (x / 2 ^ (width - 1 - suc i))))
    ∙ bit_or-low_high (suc i) (x / 2 ^ (width - 1 - suc i) % 2)
        (reflected (suc i) (x / 2 ^ (width - 1 - suc i) / 2))
        (reflected-lt (suc i) (x / 2 ^ (width - 1 - suc i) / 2))
  where
    next : (x : ℕ) → x / 2 ^ (width - 1 - i) ≡ x / 2 ^ (width - 1 - suc i) / 2
    next x =
        let e : width - 1 - i ≡ suc (width - 1 - suc i) = omega arith in
        ap (λ d. x / 2 ^ d) e
        ∙ ap (λ d. x / d) (pow-suc 2 (width - 1 - suc i))
        ∙ sym (div-div-eq-div-mul x (2 ^ (width - 1 - suc i)) 2)

-- All bits of a word.
pub mirrored_bits_lem : (width x : ℕ) → mirrored_bits (suc width) width x ≡ reflected (suc width) x
mirrored_bits_lem width x =
    mirrored_bits-reflected (suc width) width x (omega arith)
    ∙ ap (reflected (suc width)) (ap (λ d. x / 2 ^ d) none_left ∙ omega arith)
  where
    none_left : suc width - 1 - width ≡ 0
    none_left = omega arith

pow_add : (j k : ℕ) → 2 ^ (j + k) ≡ 2 ^ j * 2 ^ k
pow_add zero k = let e : zero + k ≡ k = omega arith in ap (λ n. 2 ^ n) e ∙ omega arith
pow_add (suc j) k =
    let e : suc j + k ≡ suc (j + k) = omega arith in
    ap (λ n. 2 ^ n) e
    ∙ omega (arith, pow-suc 2 (j + k), pow_add j k, ap (λ p. p * 2 ^ k) (pow-suc 2 j))

-- The lowest `j` bits go to the top, in their own opposite order.
pub reflected_split :
    (j k q r : ℕ)
    → r < 2 ^ j
    → reflected (j + k) (q * 2 ^ j + r) ≡ reflected j r * 2 ^ k + reflected k q
unfolding reflected
reflected_split zero k q r h =
    let e : zero + k ≡ k = omega arith in
    let low : q * 1 + r ≡ q = omega arith in
    ap (λ n. reflected n (q * 1 + r)) e ∙ ap (reflected k) low ∙ omega arith
reflected_split (suc j) k q r h =
    let e : suc j + k ≡ suc (j + k) = omega arith in
    ap (λ n. reflected n (q * 2 ^ suc j + r)) e
    ∙ ap₂ (λ b d. b * 2 ^ (j + k) + reflected (j + k) d) low rest
    ∙ ap₂ (λ p d. r % 2 * p + d) (pow_add j k)
        (reflected_split j k q (r / 2) (omega (arith, pow-suc 2 j)))
    ∙ omega arith
  where
    low : (q * 2 ^ suc j + r) % 2 ≡ r % 2
    low = omega (arith, next_power q j)

    rest : (q * 2 ^ suc j + r) / 2 ≡ q * 2 ^ j + r / 2
    rest = omega (arith, next_power q j)

-- A word of 32 bits, by its four bytes.
pub reflected_bytes :
    (x : ℕ)
    → reflected 32 x
      ≡ reflected 8 (x % 256) * 2 ^ 24
        + (reflected 8 (x / 256 % 256) * 2 ^ 16
            + (reflected 8 (x / 65536 % 256) * 2 ^ 8 + reflected 8 (x / 16777216)))
reflected_bytes x =
    ap (reflected 32) e0
    ∙ reflected_split 8 24 (x / 256) (x % 256) (omega arith)
    ∙ ap (λ d. reflected 8 (x % 256) * 2 ^ 24 + d)
        (ap (reflected 24) e1
          ∙ reflected_split 8 16 (x / 65536) (x / 256 % 256) (omega arith)
          ∙ ap (λ d. reflected 8 (x / 256 % 256) * 2 ^ 16 + d)
              (ap (reflected 16) e2
                ∙ reflected_split 8 8 (x / 16777216) (x / 65536 % 256) (omega arith)))
  where
    e0 : x ≡ x / 256 * 2 ^ 8 + x % 256
    e0 = omega arith

    e1 : x / 256 ≡ x / 65536 * 2 ^ 8 + x / 256 % 256
    e1 = omega arith

    e2 : x / 65536 ≡ x / 16777216 * 2 ^ 8 + x / 65536 % 256
    e2 = omega arith

-- The highest bit becomes the lowest.
highest_bit :
    (k q r : ℕ) → q < 2 → r < 2 ^ k → reflected (suc k) (q * 2 ^ k + r) ≡ reflected k r * 2 + q
unfolding reflected
highest_bit k q r hq hr =
    let e : suc k ≡ k + 1 = omega arith in
    let one : q % 2 ≡ q = omega arith in
    ap (λ n. reflected n (q * 2 ^ k + r)) e
    ∙ reflected_split k 1 q r hr
    ∙ ap (λ b. reflected k r * 2 + (b * 1 + 0)) one
    ∙ omega arith

reflected_twice :
    (k q r : ℕ)
    → q < 2
    → r < 2 ^ k
    → reflected k (reflected k r) ≡ r
    → reflected (suc k) (reflected (suc k) (q * 2 ^ k + r)) ≡ q * 2 ^ k + r
unfolding reflected
reflected_twice k q r hq hr rest_twice =
    ap (reflected (suc k)) (highest_bit k q r hq hr)
    ∙ ap₂ (λ b d. b * 2 ^ k + reflected k d) low rest
    ∙ ap (λ d. q * 2 ^ k + d) rest_twice
  where
    low : (reflected k r * 2 + q) % 2 ≡ q
    low = omega arith

    rest : (reflected k r * 2 + q) / 2 ≡ reflected k r
    rest = omega arith

-- Twice is no change.
pub reflected-reflected : (k x : ℕ) → x < 2 ^ k → reflected k (reflected k x) ≡ x
unfolding reflected
reflected-reflected zero x h = omega arith
reflected-reflected (suc k) x h = elim (Bool-cases (ltb x (2 ^ k))) [
  | inl low ↦
      let e : x ≡ 0 * 2 ^ k + x = omega arith in
      ap (λ y. reflected (suc k) (reflected (suc k) y)) e
      ∙ reflected_twice k 0 x (omega arith) (ltb→lt x (2 ^ k) low)
          (reflected-reflected k x (ltb→lt x (2 ^ k) low))
      ∙ sym e
  | inr high ↦
      let e : x ≡ 1 * 2 ^ k + (x - 2 ^ k) = ground arith in
      let less : x - 2 ^ k < 2 ^ k = omega (arith, e, pow-suc 2 k) in
      ap (λ y. reflected (suc k) (reflected (suc k) y)) e
      ∙ reflected_twice k 1 (x - 2 ^ k) (omega arith) less (reflected-reflected k (x - 2 ^ k) less)
      ∙ sym e
]
