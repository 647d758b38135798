-- ===== src/Kernels/AddSaturated/Points/Signed8.antt =====
-- The generic expression for signed words of 8 bits.
use volk.Base.{ℕ, ◌+◌, ◌*◌, ◌%◌, ◌<◌, ◌≡◌, inl, inr, bit_and, bit_or, bit_xor}
use volk.Base.{arith, ltb, ◌==◌, ◌⊎◌, if◌then◌else◌}
use volk.Base.Bits.{u8, bit_xor-fields, bit_xor-lt, bit_and-fields, bit_and-lt}
use volk.Base.Bits.Masks.{bit_or-zero, zero-bit_or, zero-bit_and, ones-bit_and}
use volk.Kernels.AddSaturated.Points.{add_sat_i}
use volk.Kernels.AddSaturated.Points.{generic_8i, promote, asr, complement}

-- The upper bits of the int that a word is promoted to.
abbrev sign_8 : ℕ → ℕ
sign_8 x = if ltb x 128 then 0 else 33554431

promote_8 : (x : ℕ) → x < 256 → promote 7 x ≡ sign_8 x * 128 + x % 128
promote_8 x h = ground arith

xor_promote_8 :
    (x y : ℕ)
    → x < 256
    → y < 256
    → bit_xor (promote 7 x) (promote 7 y)
      ≡ bit_xor (sign_8 x) (sign_8 y) * 128 + bit_xor (x % 128) (y % 128)
xor_promote_8 x y hx hy =
    rw (promote_8 x hx, promote_8 y hy)
      (bit_xor-fields 7 (sign_8 x) (x % 128) (sign_8 y) (y % 128) (omega arith) (omega arith))

and_xor_8 :
    (a b s : ℕ)
    → a < 256
    → b < 256
    → s < 256
    → (r : ℕ) × (r < 128)
      × (bit_and (bit_xor (promote 7 a) (promote 7 s)) (bit_xor (promote 7 b) (promote 7 s))
          ≡ bit_and (bit_xor (sign_8 a) (sign_8 s)) (bit_xor (sign_8 b) (sign_8 s)) * 128 + r)
and_xor_8 a b s ha hb hs =
    let r = bit_xor (a % 128) (s % 128) in
    let r' = bit_xor (b % 128) (s % 128) in
    let r_lt : r < 128 = bit_xor-lt 7 (a % 128) (s % 128) (omega arith) (omega arith) in
    let r'_lt : r' < 128 = bit_xor-lt 7 (b % 128) (s % 128) (omega arith) (omega arith) in
    (
      bit_and r r',
      bit_and-lt 7 r r' r_lt,
      rw (xor_promote_8 a s ha hs, xor_promote_8 b s hb hs)
          (bit_and-fields 7 (bit_xor (sign_8 a) (sign_8 s)) r (bit_xor (sign_8 b) (sign_8 s)) r'
            r_lt r'_lt),
    )

-- The overflow word: all ones if `a` and `b` have one sign and `s` the other, else zero.
overflow_8 :
    (a b s : ℕ)
    → a < 256
    → b < 256
    → s < 256
    → u8 (
        asr (bit_and (bit_xor (promote 7 a) (promote 7 s)) (bit_xor (promote 7 b) (promote 7 s))) 7)
      ≡ (if ltb a 128
          then (if ltb b 128 then (if ltb s 128 then 0 else 255) else 0)
          else if ltb b 128
          then 0
          else if ltb s 128
          then 255
          else 0)
overflow_8 a b s ha hb hs = let (r, r_lt, e) = and_xor_8 a b s ha hb hs in rw e (ground arith)

sat_val_8 :
    (a : ℕ) → a < 256 → u8 (bit_xor (asr (promote 7 a) 7) 127) ≡ (if ltb a 128 then 127 else 128)
sat_val_8 a h = ground arith

-- `(overflow & sat_val) | (~overflow & sum)` selects by an overflow word of all ones or zeros.
select_8 :
    (o sat sum : ℕ)
    → (o ≡ 0) ⊎ (o ≡ 255)
    → sat < 256
    → sum < 256
    → u8 (
        bit_or
          (bit_and (promote 7 o) (promote 7 sat))
          (bit_and (complement (promote 7 o)) (promote 7 sum)))
      ≡ (if o == 0 then sum else sat)
select_8 o sat sum (inl e) h h' =
    rw
      (
        e,
        zero-bit_and (promote 7 sat),
        ones-bit_and 32 (promote 7 sum) (ground arith),
        zero-bit_or (promote 7 sum),
      )
      (ground arith)
select_8 o sat sum (inr e) h h' =
    rw
      (
        e,
        zero-bit_and (promote 7 sum),
        ones-bit_and 32 (promote 7 sat) (ground arith),
        bit_or-zero (promote 7 sat),
      )
      (ground arith)

pub generic_8i_lem : (a b : ℕ) → a < 256 → b < 256 → generic_8i a b ≡ add_sat_i 7 a b
unfolding generic_8i
generic_8i_lem a b ha hb =
    let sum = u8 (promote 7 a + promote 7 b) in
    let overflow = u8 (
      asr (bit_and (bit_xor (promote 7 a) (promote 7 sum)) (bit_xor (promote 7 b) (promote 7 sum)))
        7) in
    let sat = u8 (bit_xor (asr (promote 7 a) 7) 127) in
    let o_eq = overflow_8 a b sum ha hb (omega arith) in
    rw
      (
        select_8 overflow sat sum (rw o_eq (ground arith)) (omega arith) (omega arith),
        o_eq,
        sat_val_8 a ha,
      )
      (ground arith)
