-- ===== src/Tests/Byteswap.antt =====
-- The byte swaps on an array of forty words, of which 37 are swapped.
use volk.Base.{◌≡◌, some, arith, ◌>>=◌}
use volk.Memory.Fill.{fill}
use volk.Kernels.Byteswap.{volk_16u_byteswap_generic, volk_32u_byteswap_generic}
use volk.Kernels.Byteswap.Words.{reversed_16, reversed_32}
use volk.Kernels.Byteswap.InPlace.{byteswap_16_lem, byteswap_32_lem}
use volk.Tests.Kernels.{in_a}

byteswap_16_lem_example :
    (volk_16u_byteswap_generic in_a 37 ≡ some (fill (λ j. reversed_16 (in_a.cell j)) 37 in_a))
    × ((volk_16u_byteswap_generic in_a 37 >>= λ s. volk_16u_byteswap_generic s 37) ≡ some in_a)
byteswap_16_lem_example = byteswap_16_lem in_a 37 (omega arith) (λ j h. omega arith)

byteswap_32_lem_example :
    (volk_32u_byteswap_generic in_a 37 ≡ some (fill (λ j. reversed_32 (in_a.cell j)) 37 in_a))
    × ((volk_32u_byteswap_generic in_a 37 >>= λ s. volk_32u_byteswap_generic s 37) ≡ some in_a)
byteswap_32_lem_example = byteswap_32_lem in_a 37 (omega arith) (λ j h. omega arith)
