-- ===== src/Kernels/Popcnt.antt =====
-- kernels/volk/volk_32u_popcnt.h and volk_64u_popcnt.h: the generic implementations, which count the bits
-- of a word in parallel.
-- Not modelled: those that are one instruction of the processor, or NEON's.
pub mod Count
pub mod Parallel
use volk.Base.{ℕ, ◌+◌, ◌*◌, ◌/◌, ◌%◌, ◌^◌, bit_and}
use volk.Base.Bits.{u32, u64, ◌>>>◌}

-- The five steps that both kernels take on a word of 32 bits.
unfoldable pub count_32 : ℕ → ℕ
count_32 retVal =
    let pairs = u32 (bit_and retVal 0x55555555 + bit_and (retVal >>> 1) 0x55555555) in
    let nibbles = u32 (bit_and pairs 0x33333333 + bit_and (pairs >>> 2) 0x33333333) in
    let bytes = bit_and (u32 (nibbles + nibbles >>> 4)) 0x0F0F0F0F in
    let halves = u32 (bytes + bytes >>> 8) in bit_and (u32 (halves + halves >>> 16)) 0x0000003F

unfoldable pub volk_32u_popcnt_generic : ℕ → ℕ
volk_32u_popcnt_generic value = count_32 value

unfoldable pub volk_64u_popcnt_generic : ℕ → ℕ
volk_64u_popcnt_generic value =
    let retVal64 = count_32 (u32 (bit_and value 0x00000000FFFFFFFF)) in
    u64 (retVal64 + count_32 (u32 (bit_and value 0xFFFFFFFF00000000 >>> 32)))
