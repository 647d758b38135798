-- ===== src/Dispatch.antt =====
-- How a call of a kernel reaches an implementation.
pub mod RankArchs
pub mod Cpu
pub mod Machine
pub mod Kernel
pub mod X2
