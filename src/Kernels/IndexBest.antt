-- ===== src/Kernels/IndexBest.antt =====
-- kernels/volk/volk_32f_index_max_32u.h, volk_32f_index_max_16u.h, volk_32f_index_min_32u.h and
-- volk_32f_index_min_16u.h: the generic implementations, which search an array for its first maximum or
-- minimum. The elements are the bit patterns of IEEE 754's single precision.
-- Not modelled: the implementations with vectors, which keep a maximum for each lane.
pub mod First
pub mod Result
use volk.Base.{
  ℕ, ◌+◌, ◌-◌, ◌*◌, ◌/◌, ◌%◌, ◌^◌, ◌≡◌, Bool, true, false, not, ◌&&◌, Option, none, some, ltb, ◌==◌,
  if◌then◌else◌, min, ◌>>=◌,
}
use volk.Base.Bits.{u16, u32}
use volk.Base.Float32.{float_gt, float_lt}
use volk.Memory.{Buf, read, write}
use volk.Memory.Loop.{for_loop}

-- The best value so far, `max` or `min`, and its index.
pub record Found : Type 0 where
  pub value : ℕ
  pub index : ℕ

-- `if (src0[i] > max) { index = i; max = src0[i]; }`, where `cut` is what the type of `index` keeps of `i`.
unfoldable pub index_step : (ℕ → ℕ → Bool) → (ℕ → ℕ) → Buf → ℕ → Found → Option Found
index_step better cut source i s = read source i >>= λ v. elim (better v s.value) [
  | true ↦ some (record { value = v; index = cut i })
  | false ↦ some s
]

-- From `max = src0[0]` to `target[0] = index`.
unfoldable pub index_search : (ℕ → ℕ → Bool) → (ℕ → ℕ) → Buf → Buf → ℕ → Option Buf
index_search better cut target source num_points = do
  first ← read source 0
  s ←
      for_loop (num_points - 1) 1 (index_step better cut source)
        (record { value = first; index = 0 })
  write target 0 s.index

unfoldable pub volk_32f_index_max_32u_generic : Buf → Buf → ℕ → Option Buf
volk_32f_index_max_32u_generic target src0 num_points = elim (ltb 0 num_points) [
  | true ↦ index_search float_gt u32 target src0 num_points
  | false ↦ some target
]

unfoldable pub volk_32f_index_max_16u_generic : Buf → Buf → ℕ → Option Buf
volk_32f_index_max_16u_generic target src0 num_points =
    index_search float_gt u16 target src0 (if ltb 65535 num_points then 65535 else num_points)

unfoldable pub volk_32f_index_min_32u_generic : Buf → Buf → ℕ → Option Buf
volk_32f_index_min_32u_generic target source num_points =
    index_search float_lt u32 target source num_points

unfoldable pub volk_32f_index_min_16u_generic : Buf → Buf → ℕ → Option Buf
volk_32f_index_min_16u_generic target source num_points =
    index_search float_lt u16 target source (if ltb 65535 num_points then 65535 else num_points)

pub data Kernel : Type 0 where
  max_32u max_16u min_32u min_16u : Kernel

unfoldable pub run : Kernel → Buf → Buf → ℕ → Option Buf
run max_32u = volk_32f_index_max_32u_generic
run max_16u = volk_32f_index_max_16u_generic
run min_32u = volk_32f_index_min_32u_generic
run min_16u = volk_32f_index_min_16u_generic
