-- ===== src/Kernels/AddSaturated.antt =====
-- The four saturating additions of kernels/volk.
pub mod Points
pub mod U8
pub mod U16
pub mod I8
pub mod I16
