-- ===== src/Kernels/Unary.antt =====
-- Kernels with one input of floating-point numbers, some with a number as a second operand.
pub mod Instructions
pub mod MultiplyScalar32
pub mod AddScalar32
pub mod Sqrt32
pub mod All
