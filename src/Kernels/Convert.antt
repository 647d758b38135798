-- ===== src/Kernels/Convert.antt =====
-- kernels/volk/volk_8i_convert_16i.h and volk_16i_convert_8i.h: between bytes and words of 16 bits, whose
-- high byte is the byte. The cells are the bit patterns.
pub mod Widen
pub mod Narrow
pub mod Inverse
