-- ===== src/Kernels/Floats/Instructions.antt =====
-- The vector instructions of an operation on floating-point numbers. C's own operation, `f`, is a
-- parameter. Those of x86 do the same in every lane. Those of NEON and RISC-V may differ from it at
-- operands that are not ordinary, as NaNs, zeros of opposite signs in a maximum, or subnormal numbers,
-- which NEON may flush to zero; which these are is for the processor to say.
use volk.Base.{ℕ, ◌*◌, ◌≡◌}
use volk.Simd.{LaneOp2, SetVl}

pub record Instructions (lanes : ℕ) (f : ℕ → ℕ → ℕ) : Type 1 where
  pub mm : LaneOp2 lanes f
  pub mm256 : LaneOp2 (2 * lanes) f
  pub mm512 : LaneOp2 (4 * lanes) f
  pub vq_value : ℕ → ℕ → ℕ
  pub vq : LaneOp2 lanes vq_value
  pub setvl : SetVl
  pub vf_value : ℕ → ℕ → ℕ
  pub vf : (vl : ℕ) → LaneOp2 vl vf_value
  pub IsOrdinary : ℕ → Type 0
  pub vq_agrees : (x y : ℕ) → IsOrdinary x → IsOrdinary y → vq_value x y ≡ f x y
  pub vf_agrees : (x y : ℕ) → IsOrdinary x → IsOrdinary y → vf_value x y ≡ f x y
