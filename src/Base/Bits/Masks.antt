-- ===== src/Base/Bits/Masks.antt =====
-- Masks of all ones and all zeros, and fields that do not overlap.
use Prim.Native.Nat.{ℕ, zero, suc, ◌+◌, ◌-◌, ◌*◌, ◌/◌, ◌%◌, ◌^◌, ◌≤◌, ◌<◌, bit_and, bit_or}
use Prim.Native.Nat.{bit_or-bitwise, bit_and-bitwise}
use mathlib.Core.Path.{◌≡◌, refl, sym, ap, ap₂, ◌∙◌}
use native.Mathlib.Omega.{arith}
use native.Mathlib.Nat.{pow-suc, one-le-pow, div-add-mod', mod-lt, mod-eq_of_lt}
use native.Mathlib.Nat.{mul-add-mod_self_right}
use volk.Base.Bits.{◌<<<◌, bit_and_step, bit_or_step, bit_and-fields, bit_or-fields}

pub pow_pos : (k : ℕ) → 0 < 2 ^ k
pow_pos k = one-le-pow k 2 (omega arith)

-- `2 ^ k - 1`, a mask of `k` ones.
abbrev pub ones : ℕ → ℕ
ones k = 2 ^ k - 1

bit_or-zero_below : (m a : ℕ) → a ≤ m → bit_or a 0 ≡ a
bit_or-zero_below m zero h = refl
bit_or-zero_below zero (suc a) h = absurd (omega arith)
bit_or-zero_below (suc m) (suc a) h =
    omega (arith, bit_or_step (suc a) 0, bit_or-zero_below m (suc a / 2) (omega arith))

pub bit_or-zero : (a : ℕ) → bit_or a 0 ≡ a
bit_or-zero a = bit_or-zero_below a a (omega arith)

bit_and-zero_below : (m a : ℕ) → a ≤ m → bit_and a 0 ≡ 0
bit_and-zero_below m zero h = refl
bit_and-zero_below zero (suc a) h = absurd (omega arith)
bit_and-zero_below (suc m) (suc a) h =
    omega (arith, bit_and_step (suc a) 0, bit_and-zero_below m (suc a / 2) (omega arith))

pub bit_and-zero : (a : ℕ) → bit_and a 0 ≡ 0
bit_and-zero a = bit_and-zero_below a a (omega arith)

half_ones : (k : ℕ) → ones (suc k) / 2 ≡ ones k
half_ones k = omega (arith, pow-suc 2 k, pow_pos k)

pub bit_or-ones : (k r : ℕ) → r < 2 ^ k → bit_or r (ones k) ≡ ones k
bit_or-ones zero r h = let e : r ≡ 0 = omega arith in rw e refl
bit_or-ones (suc k) r h = omega (
  arith,
  bit_or_step r (ones (suc k)),
  pow-suc 2 k,
  pow_pos k,
  ap (λ m. bit_or (r / 2) m) (half_ones k),
  bit_or-ones k (r / 2) (omega (arith, pow-suc 2 k)),
)

pub bit_and-ones : (k r : ℕ) → r < 2 ^ k → bit_and r (ones k) ≡ r
bit_and-ones zero r h = let e : r ≡ 0 = omega arith in rw e refl
bit_and-ones (suc k) r h = omega (
  arith,
  bit_and_step r (ones (suc k)),
  pow-suc 2 k,
  pow_pos k,
  ap (λ m. bit_and (r / 2) m) (half_ones k),
  bit_and-ones k (r / 2) (omega (arith, pow-suc 2 k)),
)

pub bit_and-lt_mask : (k a b : ℕ) → b < 2 ^ k → bit_and a b < 2 ^ k
bit_and-lt_mask zero a b hb =
    let b_zero : b ≡ 0 = omega arith in rw (b_zero, bit_and-zero a) (omega arith)
bit_and-lt_mask (suc k) a b hb = omega (
  arith,
  bit_and_step a b,
  pow-suc 2 k,
  bit_and-lt_mask k (a / 2) (b / 2) (omega (arith, pow-suc 2 k)),
)

pub zero-bit_or : (r : ℕ) → bit_or 0 r ≡ r
zero-bit_or r = bit_or-bitwise 0 r

pub zero-bit_and : (r : ℕ) → bit_and 0 r ≡ 0
zero-bit_and r = bit_and-bitwise 0 r

pub ones-bit_and : (k r : ℕ) → r < 2 ^ k → bit_and (ones k) r ≡ r
ones-bit_and zero r h = let e : r ≡ 0 = omega arith in rw e refl
ones-bit_and (suc k) r h = omega (
  arith,
  bit_and_step (ones (suc k)) r,
  pow-suc 2 k,
  pow_pos k,
  ap (λ m. bit_and m (r / 2)) (half_ones k),
  ones-bit_and k (r / 2) (omega (arith, pow-suc 2 k)),
)

-- `(q << k) | r` is a sum when `r` fits `k` bits, in either order.
pub bit_or-high_low : (k q r : ℕ) → r < 2 ^ k → bit_or (q <<< k) r ≡ q * 2 ^ k + r
bit_or-high_low k q r h =
    ap₂ bit_or (omega arith) (omega arith)
    ∙ bit_or-fields k q 0 0 r (pow_pos k) h
    ∙ rw (bit_or-zero q, zero-bit_or r)

pub bit_or-low_high : (k q r : ℕ) → r < 2 ^ k → bit_or r (q <<< k) ≡ q * 2 ^ k + r
bit_or-low_high k q r h =
    ap₂ bit_or (omega arith) (omega arith)
    ∙ bit_or-fields k 0 r q 0 h (pow_pos k)
    ∙ rw (zero-bit_or q, bit_or-zero r)

-- The lowest `k` bits.
pub bit_and_mask : (k a : ℕ) → bit_and a (ones k) ≡ a % 2 ^ k
bit_and_mask k a =
    ap₂ bit_and (split a) (omega arith)
    ∙ bit_and-fields k (a / 2 ^ k) (a % 2 ^ k) 0 (ones k) (bound a) (omega (arith, pow_pos k))
    ∙ rw (bit_and-zero (a / 2 ^ k), bit_and-ones k (a % 2 ^ k) (bound a)) (omega arith)
  where
    split : (a : ℕ) → a ≡ a / 2 ^ k * 2 ^ k + a % 2 ^ k
    split a = omega (arith, div-add-mod' a (2 ^ k))

    bound : (a : ℕ) → a % 2 ^ k < 2 ^ k
    bound a = mod-lt a (pow_pos k)

-- A mask of `k` ones that stands `s` bits up.
pub bit_and_field : (s k a : ℕ) → bit_and a (ones k * 2 ^ s + 0) ≡ a / 2 ^ s % 2 ^ k * 2 ^ s
bit_and_field s k a =
    ap (λ n. bit_and n (ones k * 2 ^ s + 0)) (sym (div-add-mod' a (2 ^ s)))
    ∙ bit_and-fields s (a / 2 ^ s) (a % 2 ^ s) (ones k) 0 (mod-lt a (pow_pos s)) (pow_pos s)
    ∙ rw (bit_and_mask k (a / 2 ^ s), bit_and-zero (a % 2 ^ s)) (omega arith)

pub bit_or-lt : (k a b : ℕ) → a < 2 ^ k → b < 2 ^ k → bit_or a b < 2 ^ k
bit_or-lt zero a b ha hb =
    let a_zero : a ≡ 0 = omega arith in
    let b_zero : b ≡ 0 = omega arith in rw (a_zero, b_zero) (omega arith)
bit_or-lt (suc k) a b ha hb = omega (
  arith,
  bit_or_step a b,
  pow-suc 2 k,
  bit_or-lt k (a / 2) (b / 2) (omega (arith, pow-suc 2 k)) (omega (arith, pow-suc 2 k)),
)

-- The lowest `k` bits of a disjunction.
pub bit_or-mod : (k a b : ℕ) → bit_or a b % 2 ^ k ≡ bit_or (a % 2 ^ k) (b % 2 ^ k)
bit_or-mod k a b =
    ap (λ m. m % 2 ^ k)
      (ap₂ bit_or (split a) (split b)
        ∙ bit_or-fields k (a / 2 ^ k) (a % 2 ^ k) (b / 2 ^ k) (b % 2 ^ k) (bound a) (bound b))
    ∙ mul-add-mod_self_right (bit_or (a / 2 ^ k) (b / 2 ^ k)) (2 ^ k)
        (bit_or (a % 2 ^ k) (b % 2 ^ k))
    ∙ mod-eq_of_lt (bit_or-lt k (a % 2 ^ k) (b % 2 ^ k) (bound a) (bound b))
  where
    split : (a : ℕ) → a ≡ a / 2 ^ k * 2 ^ k + a % 2 ^ k
    split a = omega (arith, div-add-mod' a (2 ^ k))

    bound : (a : ℕ) → a % 2 ^ k < 2 ^ k
    bound a = mod-lt a (pow_pos k)

bit_or-eq-zero_below : (m a b : ℕ) → a ≤ m → bit_or a b ≡ 0 → (a ≡ 0) × (b ≡ 0)
bit_or-eq-zero_below m zero b h e = (refl, sym (zero-bit_or b) ∙ e)
bit_or-eq-zero_below zero (suc a) b h e = absurd (omega arith)
bit_or-eq-zero_below (suc m) (suc a) b h e = omega (
  arith,
  bit_or_step (suc a) b,
  bit_or-eq-zero_below m (suc a / 2) (b / 2) (omega arith) (omega (arith, bit_or_step (suc a) b)),
)

pub bit_or-eq-zero : (a b : ℕ) → bit_or a b ≡ 0 → (a ≡ 0) × (b ≡ 0)
bit_or-eq-zero a b e = bit_or-eq-zero_below a a b (omega arith) e
