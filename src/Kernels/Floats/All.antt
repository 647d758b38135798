-- ===== src/Kernels/Floats/All.antt =====
-- The ten kernels together: a kernel is an operation at a precision.
use volk.Base.{false, ℕ, ◌<◌, ◌≡◌, Option, some}
use volk.Memory.{Buf}
use volk.Memory.Fill.{fill}
use volk.Simd.{Fits, StartAt}
use volk.Kernels.Interface.{X2Kernel, aligned_prefix}
use volk.Base.CString.{CString, strncmp_zero}
use volk.Kernels.Floats.Instructions.{Instructions}
use volk.Kernels.Floats.Add32
use volk.Kernels.Floats.Subtract32
use volk.Kernels.Floats.Multiply32
use volk.Kernels.Floats.Divide32
use volk.Kernels.Floats.Max32
use volk.Kernels.Floats.Min32
use volk.Kernels.Floats.Add64
use volk.Kernels.Floats.Multiply64
use volk.Kernels.Floats.Max64
use volk.Kernels.Floats.Min64

pub data Op : Type 0 where
  add_32f subtract_32f multiply_32f divide_32f max_32f min_32f add_64f multiply_64f max_64f
        min_64f :
      Op

-- The elements of a vector of 16 bytes.
abbrev pub lanes : Op → ℕ
lanes add_32f = 4
lanes subtract_32f = 4
lanes multiply_32f = 4
lanes divide_32f = 4
lanes max_32f = 4
lanes min_32f = 4
lanes add_64f = 2
lanes multiply_64f = 2
lanes max_64f = 2
lanes min_64f = 2

abbrev pub Impl : Op → Type 0
Impl add_32f = Add32.Impl
Impl subtract_32f = Subtract32.Impl
Impl multiply_32f = Multiply32.Impl
Impl divide_32f = Divide32.Impl
Impl max_32f = Max32.Impl
Impl min_32f = Min32.Impl
Impl add_64f = Add64.Impl
Impl multiply_64f = Multiply64.Impl
Impl max_64f = Max64.Impl
Impl min_64f = Min64.Impl

abbrev pub alignment : (op : Op) → Impl op → ℕ
alignment add_32f = Add32.alignment
alignment subtract_32f = Subtract32.alignment
alignment multiply_32f = Multiply32.alignment
alignment divide_32f = Divide32.alignment
alignment max_32f = Max32.alignment
alignment min_32f = Min32.alignment
alignment add_64f = Add64.alignment
alignment multiply_64f = Multiply64.alignment
alignment max_64f = Max64.alignment
alignment min_64f = Min64.alignment

abbrev pub impl_name : (op : Op) → Impl op → CString
impl_name add_32f = Add32.impl_name
impl_name subtract_32f = Subtract32.impl_name
impl_name multiply_32f = Multiply32.impl_name
impl_name divide_32f = Divide32.impl_name
impl_name max_32f = Max32.impl_name
impl_name min_32f = Min32.impl_name
impl_name add_64f = Add64.impl_name
impl_name multiply_64f = Multiply64.impl_name
impl_name max_64f = Max64.impl_name
impl_name min_64f = Min64.impl_name

pub impl_name-alignment :
    (op : Op) (i : Impl op)
    → strncmp_zero 2 (impl_name op i) aligned_prefix ≡ false
    → alignment op i ≡ 1
impl_name-alignment add_32f = Add32.impl_name-alignment
impl_name-alignment subtract_32f = Subtract32.impl_name-alignment
impl_name-alignment multiply_32f = Multiply32.impl_name-alignment
impl_name-alignment divide_32f = Divide32.impl_name-alignment
impl_name-alignment max_32f = Max32.impl_name-alignment
impl_name-alignment min_32f = Min32.impl_name-alignment
impl_name-alignment add_64f = Add64.impl_name-alignment
impl_name-alignment multiply_64f = Multiply64.impl_name-alignment
impl_name-alignment max_64f = Max64.impl_name-alignment
impl_name-alignment min_64f = Min64.impl_name-alignment

-- What C's arithmetic on floating-point numbers gives, with its rounding.
pub record Arithmetic : Type 0 where
  pub add_float : ℕ → ℕ → ℕ
  pub subtract_float : ℕ → ℕ → ℕ
  pub multiply_float : ℕ → ℕ → ℕ
  pub divide_float : ℕ → ℕ → ℕ
  pub add_double : ℕ → ℕ → ℕ
  pub multiply_double : ℕ → ℕ → ℕ

-- C's operation for a point of a kernel; the maximum and the minimum are comparisons.
abbrev pub value : Arithmetic → Op → ℕ → ℕ → ℕ
value c add_32f = c.add_float
value c subtract_32f = c.subtract_float
value c multiply_32f = c.multiply_float
value c divide_32f = c.divide_float
value c max_32f = Max32.larger
value c min_32f = Min32.smaller
value c add_64f = c.add_double
value c multiply_64f = c.multiply_double
value c max_64f = Max64.larger
value c min_64f = Min64.smaller

-- The arithmetic, and the vector instructions for the kernels' operations.
pub record Processor : Type 1 where
  pub arithmetic : Arithmetic
  pub instructions : (op : Op) → Instructions (lanes op) (value arithmetic op)

module _ (p : Processor) where
  pub run : (op : Op) → Impl op → Buf → Buf → Buf → ℕ → Option Buf
  run add_32f = Add32.run p.arithmetic.add_float (p.instructions add_32f)
  run subtract_32f = Subtract32.run p.arithmetic.subtract_float (p.instructions subtract_32f)
  run multiply_32f = Multiply32.run p.arithmetic.multiply_float (p.instructions multiply_32f)
  run divide_32f = Divide32.run p.arithmetic.divide_float (p.instructions divide_32f)
  run max_32f = Max32.run (p.instructions max_32f)
  run min_32f = Min32.run (p.instructions min_32f)
  run add_64f = Add64.run p.arithmetic.add_double (p.instructions add_64f)
  run multiply_64f = Multiply64.run p.arithmetic.multiply_double (p.instructions multiply_64f)
  run max_64f = Max64.run (p.instructions max_64f)
  run min_64f = Min64.run (p.instructions min_64f)

  pub floats_run_lem :
      (op : Op) (i : Impl op) (c a b : Buf) (n : ℕ)
      → Fits c a b n
      → StartAt (alignment op i) c a b
      → ((j : ℕ)
          → j < n
          → (p.instructions op).IsOrdinary (a.cell j) × (p.instructions op).IsOrdinary (b.cell j))
      → run op i c a b n ≡ some (fill (λ j. value p.arithmetic op (a.cell j) (b.cell j)) n c)
  unfolding run
  floats_run_lem add_32f = Add32.add32_run_lem p.arithmetic.add_float (p.instructions add_32f)
  floats_run_lem subtract_32f =
      Subtract32.subtract32_run_lem p.arithmetic.subtract_float (p.instructions subtract_32f)
  floats_run_lem multiply_32f =
      Multiply32.multiply32_run_lem p.arithmetic.multiply_float (p.instructions multiply_32f)
  floats_run_lem divide_32f =
      Divide32.divide32_run_lem p.arithmetic.divide_float (p.instructions divide_32f)
  floats_run_lem max_32f = Max32.max32_run_lem (p.instructions max_32f)
  floats_run_lem min_32f = Min32.min32_run_lem (p.instructions min_32f)
  floats_run_lem add_64f = Add64.add64_run_lem p.arithmetic.add_double (p.instructions add_64f)
  floats_run_lem multiply_64f =
      Multiply64.multiply64_run_lem p.arithmetic.multiply_double (p.instructions multiply_64f)
  floats_run_lem max_64f = Max64.max64_run_lem (p.instructions max_64f)
  floats_run_lem min_64f = Min64.min64_run_lem (p.instructions min_64f)

abbrev pub float_kernel : Processor → Op → X2Kernel
float_kernel p op = record {
  Impl = Impl op;
  run = run p op;
  alignment = alignment op;
  impl_name = impl_name op;
  unprefixed = impl_name-alignment op;
  value = value p.arithmetic op;
  InRange = (p.instructions op).IsOrdinary;
  correct = floats_run_lem p op;
}
