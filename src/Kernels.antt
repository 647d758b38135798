-- ===== src/Kernels.antt =====
-- The kernels of kernels/volk, each with all of its modelled implementations.
pub mod Interface
pub mod And32i
pub mod Or32i
pub mod AddSaturated
pub mod Instances
pub mod Byteswap
pub mod Convert
pub mod Floats
pub mod IndexBest
pub mod Polar
pub mod Popcnt
pub mod Reverse
pub mod Slicer
pub mod Unary
