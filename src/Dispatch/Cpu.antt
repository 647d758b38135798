-- ===== src/Dispatch/Cpu.antt =====
-- tmpl/volk_cpu.tmpl.c: the mask of the architectures that the processor has. What the cpu_features
-- library finds is a parameter: for each architecture, the values of the features that its checks ask
-- for, and its position LV_* in the masks.
pub mod Bits
use volk.Base.{ℕ, ◌+◌, List, [], ◌∷◌}
use volk.Base.{◌==◌, if◌then◌else◌}
use volk.Base.Bits.{u32, ◌<<<◌}

-- An architecture of gen/archs.xml: the features that its checks read, as the library reports them.
pub record Arch : Type 0 where
  pub lv : ℕ
  pub features : List ℕ

-- `if (features.check == 0) return 0;` for each check, then `return 1;`
pub i_can_has : List ℕ → ℕ
i_can_has [] = 1
i_can_has (f ∷ fs) = let rest = i_can_has fs in if f == 0 then 0 else rest

-- `retval += has_arch() << LV_ARCH;` for each architecture
pub lvarch_from : ℕ → List Arch → ℕ
lvarch_from retval [] = retval
lvarch_from retval (a ∷ archs) =
    lvarch_from (u32 (retval + u32 (i_can_has a.features <<< a.lv))) archs

pub volk_get_lvarch : List Arch → ℕ
volk_get_lvarch archs = lvarch_from 0 archs
