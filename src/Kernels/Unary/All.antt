-- ===== src/Kernels/Unary/All.antt =====
-- The three kernels together. The square root has no second operand; it is given one and ignores it.
use volk.Base.{ℕ, Option}
use volk.Memory.{Buf}
use volk.Kernels.Floats.Instructions.{Instructions}
use volk.Kernels.Unary.Instructions.{UnaryInstructions}
use volk.Kernels.Unary.MultiplyScalar32
use volk.Kernels.Unary.AddScalar32
use volk.Kernels.Unary.Sqrt32

pub data Op : Type 0 where
  s32f_multiply_32f s32f_add_32f sqrt_32f : Op

abbrev pub Impl : Op → Type 0
Impl s32f_multiply_32f = MultiplyScalar32.Impl
Impl s32f_add_32f = AddScalar32.Impl
Impl sqrt_32f = Sqrt32.Impl

abbrev pub alignment : (op : Op) → Impl op → ℕ
alignment s32f_multiply_32f = MultiplyScalar32.alignment
alignment s32f_add_32f = AddScalar32.alignment
alignment sqrt_32f = Sqrt32.alignment

-- What C's operations on floating-point numbers give, and the vector instructions for them.
pub record Processor : Type 1 where
  pub multiply : ℕ → ℕ → ℕ
  pub add : ℕ → ℕ → ℕ
  pub sqrt : ℕ → ℕ
  pub multiplies : Instructions 4 multiply
  pub adds : Instructions 4 add
  pub square_roots : UnaryInstructions 4 sqrt

module _ (p : Processor) where
  abbrev pub value : Op → ℕ → ℕ → ℕ
  value s32f_multiply_32f x scalar = p.multiply x scalar
  value s32f_add_32f x scalar = p.add x scalar
  value sqrt_32f x scalar = p.sqrt x

  -- The numbers on which all of the processor's instructions for an operation agree with C.
  abbrev pub IsOrdinary : Op → ℕ → Type 0
  IsOrdinary s32f_multiply_32f = p.multiplies.IsOrdinary
  IsOrdinary s32f_add_32f = p.adds.IsOrdinary
  IsOrdinary sqrt_32f = p.square_roots.IsOrdinary

  pub run : (op : Op) → Impl op → Buf → Buf → ℕ → ℕ → Option Buf
  run s32f_multiply_32f = MultiplyScalar32.run p.multiply p.multiplies
  run s32f_add_32f = AddScalar32.run p.add p.adds
  run sqrt_32f = λ i c a scalar n. Sqrt32.run p.sqrt p.square_roots i c a n
