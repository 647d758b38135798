-- ===== src/Tests/Floats.antt =====
-- The floating-point kernels on a made-up processor, whose numbers are natural numbers.
use volk.Base.{ℕ, ◌+◌, ◌-◌, ◌*◌, ◌/◌, ◌≡◌, refl}
use volk.Kernels.Floats.Instructions.{Instructions}
use volk.Kernels.Floats.Max32
use volk.Kernels.Floats.All.{lanes, Arithmetic, value, Processor}
use volk.Kernels.Unary.All
use volk.Kernels.Unary.MultiplyScalar32
use volk.Kernels.Unary.Instructions.{UnaryInstructions}
use volk.Tests.Kernels.{lanewise, lanewise_1, four_lanes}

abbrev instructions : (k : ℕ) (f : ℕ → ℕ → ℕ) → Instructions k f
instructions k f = record {
  mm = lanewise k f;
  mm256 = lanewise (2 * k) f;
  mm512 = lanewise (4 * k) f;
  vq_value = f;
  vq = lanewise k f;
  setvl = four_lanes;
  vf_value = f;
  vf = λ vl. lanewise vl f;
  IsOrdinary = λ x. x ≡ x;
  vq_agrees = λ x y hx hy. refl;
  vf_agrees = λ x y hx hy. refl;
}

abbrev made_up : Arithmetic
made_up = record {
  add_float = λ x y. x + y;
  subtract_float = λ x y. x - y;
  multiply_float = λ x y. x * y;
  divide_float = λ x y. x / y;
  add_double = λ x y. x + y;
  multiply_double = λ x y. x * y;
}

abbrev processor : Processor
processor = record {
  arithmetic = made_up;
  instructions = λ op. instructions (lanes op) (value made_up op);
}

abbrev square_roots : UnaryInstructions 4 (λ x. x / 2)
square_roots = record {
  mm = lanewise_1 4 (λ x. x / 2);
  mm256 = lanewise_1 8 (λ x. x / 2);
  mm512 = lanewise_1 16 (λ x. x / 2);
  vq_value = λ x. x / 2;
  vq = lanewise_1 4 (λ x. x / 2);
  setvl = four_lanes;
  vf_value = λ x. x / 2;
  vf = λ vl. lanewise_1 vl (λ x. x / 2);
  IsOrdinary = λ x. x ≡ x;
  vq_agrees = λ x h. refl;
  vf_agrees = λ x h. refl;
}

abbrev scalar_processor : All.Processor
scalar_processor = record {
  multiply = λ x y. x * y;
  add = λ x y. x + y;
  sqrt = λ x. x / 2;
  multiplies = instructions 4 (λ x y. x * y);
  adds = instructions 4 (λ x y. x + y);
  square_roots = square_roots;
}
