-- ===== src/Kernels/AddSaturated/Points/Laws.antt =====
-- The expressions of the generic loops on unsigned words, and of the tails, are the saturated sum.
use volk.Base.{ℕ, ◌+◌, ◌%◌, ◌<◌, ◌≡◌, refl}
use volk.Base.{arith}
use volk.Base.Bits.Masks.{bit_or-zero, bit_or-ones}
use volk.Kernels.AddSaturated.Points.{
  add_sat_u, add_sat_i, generic_8u, generic_16u, tail_8u, tail_16u,
}
use volk.Kernels.AddSaturated.Points.{tail_8i, tail_16i}

pub tail_8u_lem : (a b : ℕ) → a < 256 → b < 256 → tail_8u a b ≡ add_sat_u 8 a b
unfolding tail_8u
tail_8u_lem a b ha hb = ground arith

pub tail_16u_lem : (a b : ℕ) → a < 65536 → b < 65536 → tail_16u a b ≡ add_sat_u 16 a b
unfolding tail_16u
tail_16u_lem a b ha hb = ground arith

pub generic_8u_lem : (a b : ℕ) → a < 256 → b < 256 → generic_8u a b ≡ add_sat_u 8 a b
unfolding generic_8u
generic_8u_lem a b ha hb =
    ground (arith, bit_or-zero ((a + b) % 256), bit_or-ones 32 ((a + b) % 256))

pub generic_16u_lem : (a b : ℕ) → a < 65536 → b < 65536 → generic_16u a b ≡ add_sat_u 16 a b
unfolding generic_16u
generic_16u_lem a b ha hb =
    ground (arith, bit_or-zero ((a + b) % 65536), bit_or-ones 32 ((a + b) % 65536))

pub tail_8i_lem : (a b : ℕ) → tail_8i a b ≡ add_sat_i 7 a b
unfolding tail_8i
tail_8i_lem a b = refl

pub tail_16i_lem : (a b : ℕ) → tail_16i a b ≡ add_sat_i 15 a b
unfolding tail_16i
tail_16i_lem a b = refl
