-- ===== src/Kernels/Floats.antt =====
-- The kernels on floating-point numbers with two inputs.
pub mod Instructions
pub mod Add32
pub mod Subtract32
pub mod Multiply32
pub mod Divide32
pub mod Max32
pub mod Min32
pub mod Add64
pub mod Multiply64
pub mod Max64
pub mod Min64
pub mod All
