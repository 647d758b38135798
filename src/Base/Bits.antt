-- ===== src/Base/Bits.antt =====
-- Laws of the native bit operations at variables: the lowest digit, disjoint fields, and masks.
pub mod Bytes
pub mod Masks
pub mod Xor
use Prim.Native.Nat.{ℕ, zero, suc, ◌+◌, ◌-◌, ◌*◌, ◌/◌, ◌%◌, ◌^◌, ◌≤◌, ◌<◌, min, max}
use Prim.Native.Nat.{bit_and, bit_or, bit_xor, digits, bitwise, differ}
use Prim.Native.Nat.{bit_and-bitwise, bit_or-bitwise, bit_xor-bitwise}
use volk.Base.Tests.{ltb, if◌then◌else◌}
use mathlib.Core.Path.{◌≡◌, refl, ap, sym, ◌∙◌}
use native.Mathlib.Omega.{arith}
use native.Mathlib.Nat.{pow-suc}

-- x << k and x >> k of C, before the result is cut to its width.
infixl 75 ◌<<<◌ ◌>>>◌
abbrev pub ◌<<<◌ : ℕ → ℕ → ℕ
x <<< k = x * 2 ^ k

abbrev pub ◌>>>◌ : ℕ → ℕ → ℕ
x >>> k = x / 2 ^ k

abbrev pub u8 : ℕ → ℕ
u8 n = n % 256

abbrev pub u16 : ℕ → ℕ
u16 n = n % 65536

abbrev pub u32 : ℕ → ℕ
u32 n = n % 4294967296

abbrev pub u64 : ℕ → ℕ
u64 n = n % 18446744073709551616

-- A word of `suc k` bits promoted to a 32-bit int: its sign fills the upper bits.
abbrev pub promote : ℕ → ℕ → ℕ
promote k x = if ltb x (2 ^ k) then x else x + (2 ^ 32 - 2 ^ suc k)

-- The arithmetic shift of an int to the right.
abbrev pub asr : ℕ → ℕ → ℕ
asr x s = if ltb x (2 ^ 31) then x >>> s else (x >>> s) + (2 ^ 32 - 2 ^ (32 - s))

-- The native operations are defined by a recursion on binary digits that counts down fuel. One unit
-- more than enough changes nothing, and so no surplus does.
module _ (z : ℕ → ℕ) (f : ℕ → ℕ → ℕ) where
  one_more : (fuel x y : ℕ) → x ≤ fuel → digits z f (suc fuel) x y ≡ digits z f fuel x y
  one_more zero zero y h = refl
  one_more (suc fuel) zero y h = refl
  one_more zero (suc x) y h = absurd (omega arith)
  one_more (suc fuel) (suc x) y h =
      ap (λ d. d * 2 + f (suc x % 2) (y % 2)) (one_more fuel (suc x / 2) (y / 2) (omega arith))

  surplus : (extra fuel x y : ℕ) → x ≤ fuel → digits z f (extra + fuel) x y ≡ digits z f fuel x y
  surplus zero fuel x y h = ap (λ n. digits z f n x y) (omega arith)
  surplus (suc extra) fuel x y h =
      let next : suc extra + fuel ≡ suc (extra + fuel) = omega arith in
      ap (λ n. digits z f n x y) next
      ∙ one_more (extra + fuel) x y (omega arith)
      ∙ surplus extra fuel x y h

  lowest_digit :
      (x y : ℕ)
      → bitwise z f (suc x) y ≡ bitwise z f (suc x / 2) (y / 2) * 2 + f (suc x % 2) (y % 2)
  lowest_digit x y =
      let half = suc x / 2 in
      let whole : x - half + half ≡ x = omega arith in
      ap (λ d. d * 2 + f (suc x % 2) (y % 2))
        (ap (λ n. digits z f n half (y / 2)) (sym whole)
          ∙ surplus (x - half) half half (y / 2) (omega arith))

pub bit_and_step : (x y : ℕ) → bit_and x y ≡ bit_and (x / 2) (y / 2) * 2 + min (x % 2) (y % 2)
bit_and_step zero y = simp bit_and-bitwise (omega arith)
bit_and_step (suc x) y = simp bit_and-bitwise (lowest_digit (λ t. 0) min x y)

pub bit_or_step : (x y : ℕ) → bit_or x y ≡ bit_or (x / 2) (y / 2) * 2 + max (x % 2) (y % 2)
bit_or_step zero y = simp bit_or-bitwise (omega arith)
bit_or_step (suc x) y = simp bit_or-bitwise (lowest_digit (λ t. t) max x y)

pub next_power : (m i : ℕ) → m * 2 ^ suc i ≡ 2 * (m * 2 ^ i)
next_power m i = let doubles = pow-suc 2 i in omega (arith, ap (λ (p : ℕ). m * p) doubles)

times_one_add_zero : (q : ℕ) → q * 1 + 0 ≡ q
times_one_add_zero q = omega arith

-- Both operations work on the fields of a number one by one.
pub bit_and-fields :
    (k q r q' r' : ℕ)
    → r < 2 ^ k
    → r' < 2 ^ k
    → bit_and (q * 2 ^ k + r) (q' * 2 ^ k + r') ≡ bit_and q q' * 2 ^ k + bit_and r r'
bit_and-fields zero q r q' r' h h' =
    let r_zero : r ≡ 0 = omega arith in
    let r'_zero : r' ≡ 0 = omega arith in
    rw (r_zero, r'_zero, times_one_add_zero q, times_one_add_zero q') (omega arith)
bit_and-fields (suc k) q r q' r' h h' = ground (
  arith,
  bit_and_step (q * 2 ^ suc k + r) (q' * 2 ^ suc k + r'),
  bit_and_step r r',
  next_power q k,
  next_power q' k,
  next_power (bit_and q q') k,
  bit_and-fields k q (r / 2) q' (r' / 2) (omega arith) (omega arith),
)

pub bit_or-fields :
    (k q r q' r' : ℕ)
    → r < 2 ^ k
    → r' < 2 ^ k
    → bit_or (q * 2 ^ k + r) (q' * 2 ^ k + r') ≡ bit_or q q' * 2 ^ k + bit_or r r'
bit_or-fields zero q r q' r' h h' =
    let r_zero : r ≡ 0 = omega arith in
    let r'_zero : r' ≡ 0 = omega arith in
    rw (r_zero, r'_zero, times_one_add_zero q, times_one_add_zero q') (omega arith)
bit_or-fields (suc k) q r q' r' h h' = ground (
  arith,
  bit_or_step (q * 2 ^ suc k + r) (q' * 2 ^ suc k + r'),
  bit_or_step r r',
  next_power q k,
  next_power q' k,
  next_power (bit_or q q') k,
  bit_or-fields k q (r / 2) q' (r' / 2) (omega arith) (omega arith),
)

pub bit_xor_step : (a b : ℕ) → bit_xor a b ≡ bit_xor (a / 2) (b / 2) * 2 + differ (a % 2) (b % 2)
bit_xor_step zero b = simp bit_xor-bitwise (xor_digit b)
  where
    xor_digit : (b : ℕ) → b ≡ b / 2 * 2 + b % 2
    xor_digit b = omega arith
bit_xor_step (suc a) b = simp bit_xor-bitwise (lowest_digit (λ y. y) differ a b)

pub bit_xor-fields :
    (k q r q' r' : ℕ)
    → r < 2 ^ k
    → r' < 2 ^ k
    → bit_xor (q * 2 ^ k + r) (q' * 2 ^ k + r') ≡ bit_xor q q' * 2 ^ k + bit_xor r r'
bit_xor-fields zero q r q' r' h h' =
    let r_zero : r ≡ 0 = omega arith in
    let r'_zero : r' ≡ 0 = omega arith in
    rw (r_zero, r'_zero, times_one_add_zero q, times_one_add_zero q') (omega arith)
bit_xor-fields (suc k) q r q' r' h h' = ground (
  arith,
  bit_xor_step (q * 2 ^ suc k + r) (q' * 2 ^ suc k + r'),
  bit_xor_step r r',
  next_power q k,
  next_power q' k,
  next_power (bit_xor q q') k,
  bit_xor-fields k q (r / 2) q' (r' / 2) (omega arith) (omega arith),
)

differ-le-one : (a b : ℕ) → a < 2 → b < 2 → differ a b < 2
differ-le-one zero b ha hb = hb
differ-le-one (suc zero) zero ha hb = ha
differ-le-one (suc zero) (suc zero) ha hb = omega arith
differ-le-one (suc zero) (suc (suc b)) ha hb = absurd (omega arith)
differ-le-one (suc (suc a)) b ha hb = absurd (omega arith)

pub bit_xor-lt : (k a b : ℕ) → a < 2 ^ k → b < 2 ^ k → bit_xor a b < 2 ^ k
bit_xor-lt zero a b ha hb =
    let a_zero : a ≡ 0 = omega arith in
    let b_zero : b ≡ 0 = omega arith in rw (a_zero, b_zero) (omega arith)
bit_xor-lt (suc k) a b ha hb = omega (
  arith,
  bit_xor_step a b,
  pow-suc 2 k,
  differ-le-one (a % 2) (b % 2) (omega arith) (omega arith),
  bit_xor-lt k (a / 2) (b / 2) (omega (arith, pow-suc 2 k)) (omega (arith, pow-suc 2 k)),
)

pub bit_and-lt : (k a b : ℕ) → a < 2 ^ k → bit_and a b < 2 ^ k
bit_and-lt zero a b ha =
    let a_zero : a ≡ 0 = omega arith in rw (a_zero, bit_and-bitwise 0 b) (omega arith)
bit_and-lt (suc k) a b ha = omega (
  arith,
  bit_and_step a b,
  pow-suc 2 k,
  bit_and-lt k (a / 2) (b / 2) (omega (arith, pow-suc 2 k)),
)
