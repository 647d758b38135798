-- ===== src/Tests.antt =====
-- Runs of the model at concrete inputs, and the theorems at inputs that meet their hypotheses.
mod Kernels
mod Dispatch
mod Malloc
mod Prefs
mod Cpu
mod Byteswap
mod Floats
mod Polar
mod Bits
mod Slicer
mod IndexBest
mod Convert
