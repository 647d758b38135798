-- ===== src/Tests/Bits.antt =====
-- The kernels that work on the bits of words.
use volk.Base.{◌≡◌, refl, some, Option, arith, ◌>>=◌}
use volk.Memory.{Buf}
use volk.Memory.Fill.{fill}
use volk.Kernels.Popcnt.{count_32, volk_32u_popcnt_generic, volk_64u_popcnt_generic}
use volk.Kernels.Popcnt.Count.{bits_set}
use volk.Kernels.Popcnt.Parallel.{popcnt_generic_lem}
use volk.Kernels.Reverse.{
  volk_32u_reverse_32u_generic, volk_32u_reverse_32u_byte_shuffle, volk_32u_reverse_32u_lut,
  volk_32u_reverse_32u_2001magic, volk_32u_reverse_32u_1972magic,
  volk_32u_reverse_32u_bintree_permute_top_down, volk_32u_reverse_32u_bintree_permute_bottom_up,
}
use volk.Kernels.Reverse.Words.{reflected}
use volk.Kernels.Reverse.Agree.{reverse_agree, lut-bintree}
use volk.Tests.Kernels.{buf, out, in_a}

test_popcnt : volk_32u_popcnt_generic 0xF0F0A001 ≡ 11
unfolding volk_32u_popcnt_generic count_32
test_popcnt = refl

popcnt_generic_lem_example :
    (volk_32u_popcnt_generic 0xF0F0A001 ≡ bits_set 32 0xF0F0A001)
    × (volk_64u_popcnt_generic 0xF0F0A00100000003 ≡ bits_set 64 0xF0F0A00100000003)
popcnt_generic_lem_example =
    popcnt_generic_lem 0xF0F0A001 0xF0F0A00100000003 (omega arith) (omega arith)

abbrev reversed : Option Buf
reversed = some (fill (λ j. reflected 32 (in_a.cell j)) 37 out)

reverse_agree_example :
    (volk_32u_reverse_32u_generic out in_a 37 ≡ reversed)
    × (volk_32u_reverse_32u_byte_shuffle out in_a 37 ≡ reversed)
    × (volk_32u_reverse_32u_lut out in_a 37 ≡ reversed)
    × (volk_32u_reverse_32u_2001magic out in_a 37 ≡ reversed)
    × (volk_32u_reverse_32u_1972magic out in_a 37 ≡ reversed)
    × (volk_32u_reverse_32u_bintree_permute_top_down out in_a 37 ≡ reversed)
    × (volk_32u_reverse_32u_bintree_permute_bottom_up out in_a 37 ≡ reversed)
reverse_agree_example = reverse_agree out in_a 37 (omega arith) (omega arith) (λ j h. omega arith)

abbrev other : Buf
other = buf 4096 (λ j. 9)

lut-bintree_example :
    (volk_32u_reverse_32u_bintree_permute_top_down out in_a 37 >>= λ out'.
    volk_32u_reverse_32u_lut other out' 37)
    ≡ some (fill in_a.cell 37 other)
lut-bintree_example =
    lut-bintree other out in_a 37 (omega arith) (omega arith) (omega arith) (λ j h. omega arith)
