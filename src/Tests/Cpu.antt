-- ===== src/Tests/Cpu.antt =====
-- A processor with the first and the third of three architectures.
use volk.Base.{◌/◌, ◌%◌, ◌^◌, ◌≡◌, refl, List, [], ◌∷◌, arith}
use volk.Dispatch.Cpu.{Arch, i_can_has, volk_get_lvarch}
use volk.Dispatch.Cpu.Bits.{get_lvarch-bit}

abbrev archs : List Arch
archs =
    record { lv = 0; features = [] }
    ∷ record { lv = 1; features = 1 ∷ 0 ∷ [] }
    ∷ record { lv = 2; features = 1 ∷ 1 ∷ [] }
    ∷ []

get_lvarch-bit_example : volk_get_lvarch archs / 2 ^ 2 % 2 ≡ i_can_has (1 ∷ 1 ∷ [])
get_lvarch-bit_example =
    get_lvarch-bit archs 2 (record { lv = 2; features = 1 ∷ 1 ∷ [] }) (refl, (refl, (refl, tt)))
      (omega arith) refl
