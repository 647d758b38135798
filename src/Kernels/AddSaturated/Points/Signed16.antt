-- ===== src/Kernels/AddSaturated/Points/Signed16.antt =====
-- The generic expression for signed words of 16 bits.
use volk.Base.{ℕ, ◌+◌, ◌*◌, ◌%◌, ◌<◌, ◌≡◌, inl, inr, bit_and, bit_or, bit_xor}
use volk.Base.{arith, ltb, ◌==◌, ◌⊎◌, if◌then◌else◌}
use volk.Base.Bits.{u16, bit_xor-fields, bit_xor-lt, bit_and-fields, bit_and-lt}
use volk.Base.Bits.Masks.{bit_or-zero, zero-bit_or, zero-bit_and, ones-bit_and}
use volk.Kernels.AddSaturated.Points.{add_sat_i}
use volk.Kernels.AddSaturated.Points.{generic_16i, promote, asr, complement}

-- The upper bits of the int that a word is promoted to.
abbrev sign_16 : ℕ → ℕ
sign_16 x = if ltb x 32768 then 0 else 131071

promote_16 : (x : ℕ) → x < 65536 → promote 15 x ≡ sign_16 x * 32768 + x % 32768
promote_16 x h = ground arith

xor_promote_16 :
    (x y : ℕ)
    → x < 65536
    → y < 65536
    → bit_xor (promote 15 x) (promote 15 y)
      ≡ bit_xor (sign_16 x) (sign_16 y) * 32768 + bit_xor (x % 32768) (y % 32768)
xor_promote_16 x y hx hy =
    rw (promote_16 x hx, promote_16 y hy)
      (bit_xor-fields 15 (sign_16 x) (x % 32768) (sign_16 y) (y % 32768) (omega arith)
        (omega arith))

and_xor_16 :
    (a b s : ℕ)
    → a < 65536
    → b < 65536
    → s < 65536
    → (r : ℕ) × (r < 32768)
      × (bit_and (bit_xor (promote 15 a) (promote 15 s)) (bit_xor (promote 15 b) (promote 15 s))
          ≡ bit_and (bit_xor (sign_16 a) (sign_16 s)) (bit_xor (sign_16 b) (sign_16 s)) * 32768 + r)
and_xor_16 a b s ha hb hs =
    let r = bit_xor (a % 32768) (s % 32768) in
    let r' = bit_xor (b % 32768) (s % 32768) in
    let r_lt : r < 32768 = bit_xor-lt 15 (a % 32768) (s % 32768) (omega arith) (omega arith) in
    let r'_lt : r' < 32768 = bit_xor-lt 15 (b % 32768) (s % 32768) (omega arith) (omega arith) in
    (
      bit_and r r',
      bit_and-lt 15 r r' r_lt,
      rw (xor_promote_16 a s ha hs, xor_promote_16 b s hb hs)
          (bit_and-fields 15 (bit_xor (sign_16 a) (sign_16 s)) r (bit_xor (sign_16 b) (sign_16 s))
            r' r_lt r'_lt),
    )

-- The overflow word: all ones if `a` and `b` have one sign and `s` the other, else zero.
overflow_16 :
    (a b s : ℕ)
    → a < 65536
    → b < 65536
    → s < 65536
    → u16 (
        asr
          (bit_and (bit_xor (promote 15 a) (promote 15 s)) (bit_xor (promote 15 b) (promote 15 s)))
          15)
      ≡ (if ltb a 32768
          then (if ltb b 32768 then (if ltb s 32768 then 0 else 65535) else 0)
          else if ltb b 32768
          then 0
          else if ltb s 32768
          then 65535
          else 0)
overflow_16 a b s ha hb hs = let (r, r_lt, e) = and_xor_16 a b s ha hb hs in rw e (ground arith)

sat_val_16 :
    (a : ℕ)
    → a < 65536
    → u16 (bit_xor (asr (promote 15 a) 15) 32767) ≡ (if ltb a 32768 then 32767 else 32768)
sat_val_16 a h = ground arith

-- `(overflow & sat_val) | (~overflow & sum)` selects by an overflow word of all ones or zeros.
select_16 :
    (o sat sum : ℕ)
    → (o ≡ 0) ⊎ (o ≡ 65535)
    → sat < 65536
    → sum < 65536
    → u16 (
        bit_or
          (bit_and (promote 15 o) (promote 15 sat))
          (bit_and (complement (promote 15 o)) (promote 15 sum)))
      ≡ (if o == 0 then sum else sat)
select_16 o sat sum (inl e) h h' =
    rw
      (
        e,
        zero-bit_and (promote 15 sat),
        ones-bit_and 32 (promote 15 sum) (ground arith),
        zero-bit_or (promote 15 sum),
      )
      (ground arith)
select_16 o sat sum (inr e) h h' =
    rw
      (
        e,
        zero-bit_and (promote 15 sum),
        ones-bit_and 32 (promote 15 sat) (ground arith),
        bit_or-zero (promote 15 sat),
      )
      (ground arith)

pub generic_16i_lem : (a b : ℕ) → a < 65536 → b < 65536 → generic_16i a b ≡ add_sat_i 15 a b
unfolding generic_16i
generic_16i_lem a b ha hb =
    let sum = u16 (promote 15 a + promote 15 b) in
    let overflow = u16 (
      asr
        (bit_and (bit_xor (promote 15 a) (promote 15 sum))
          (bit_xor (promote 15 b) (promote 15 sum)))
        15) in
    let sat = u16 (bit_xor (asr (promote 15 a) 15) 32767) in
    let o_eq = overflow_16 a b sum ha hb (omega arith) in
    rw
      (
        select_16 overflow sat sum (rw o_eq (ground arith)) (omega arith) (omega arith),
        o_eq,
        sat_val_16 a ha,
      )
      (ground arith)
