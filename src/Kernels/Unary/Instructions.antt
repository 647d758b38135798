-- ===== src/Kernels/Unary/Instructions.antt =====
-- The vector instructions of an operation on one floating-point number, under the same assumptions as
-- those with two operands (Kernels/Floats/Instructions).
use volk.Base.{ℕ, ◌*◌, ◌≡◌}
use volk.Simd.{SetVl}
use volk.Simd.Unary.{LaneOp1}

pub record UnaryInstructions (lanes : ℕ) (f : ℕ → ℕ) : Type 1 where
  pub mm : LaneOp1 lanes f
  pub mm256 : LaneOp1 (2 * lanes) f
  pub mm512 : LaneOp1 (4 * lanes) f
  pub vq_value : ℕ → ℕ
  pub vq : LaneOp1 lanes vq_value
  pub setvl : SetVl
  pub vf_value : ℕ → ℕ
  pub vf : (vl : ℕ) → LaneOp1 vl vf_value
  pub IsOrdinary : ℕ → Type 0
  pub vq_agrees : (x : ℕ) → IsOrdinary x → vq_value x ≡ f x
  pub vf_agrees : (x : ℕ) → IsOrdinary x → vf_value x ≡ f x
