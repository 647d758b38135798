-- ===== src/Kernels/Polar.antt =====
-- kernels/volk/volk_8u_x2_encodeframepolar_8u.h and volk_8u_x3_encodepolar_8u_x2.h: the encoder of polar
-- codes, in its generic implementation. A byte holds one bit of the frame, though nothing depends on it.
-- Not modelled: the implementations for SSSE3, AVX2 and RISC-V.
pub mod Transform
pub mod Stage
pub mod Pending
pub mod Frame
pub mod Encode
pub mod Interleave
use volk.Base.{
  ℕ, zero, suc, ◌+◌, ◌*◌, ◌/◌, ◌%◌, true, false, Option, none, some, bit_and, bit_or, bit_xor,
}
use volk.Base.{◌==◌, ◌>>=◌, if◌then◌else◌}
use volk.Base.Bits.{u32, ◌<<<◌}
use volk.Memory.{Buf, read, write, memcpy}
use volk.Memory.Loop.{for_loop}

-- `(val & mask) != 0`
abbrev pub has_bits : ℕ → ℕ → ℕ
has_bits val mask = if bit_and val mask == 0 then 0 else 1

unfoldable pub log2_of_power_of_2 : ℕ → ℕ
log2_of_power_of_2 val =
    let res = has_bits val 0xAAAAAAAA in
    let res4 = bit_or res (has_bits val 0xFFFF0000 <<< 4) in
    let res3 = bit_or res4 (has_bits val 0xFF00FF00 <<< 3) in
    let res2 = bit_or res3 (has_bits val 0xF0F0F0F0 <<< 2) in
    bit_or res2 (has_bits val 0xCCCCCCCC <<< 1)

-- One bit of one branch: `frame_ptr` stands at `2 * frame_half * branch + bit`, and `temp_ptr` at
-- `2 * (frame_half * branch + bit)`.
unfoldable pub polar_point : Buf → ℕ → ℕ → ℕ → Buf → Option Buf
polar_point temp frame_half branch bit frame = do
  x ← read temp (2 * (frame_half * branch + bit))
  y ← read temp (2 * (frame_half * branch + bit) + 1)
  frame' ← write frame (2 * frame_half * branch + bit) (bit_xor x y)
  write frame' (2 * frame_half * branch + frame_half + bit) y

unfoldable pub encodepolar_single_stage : Buf → Buf → ℕ → ℕ → Option Buf
encodepolar_single_stage frame temp num_branches frame_half =
    for_loop num_branches 0 (λ branch. for_loop frame_half 0 (polar_point temp frame_half branch))
      frame

-- `while (stage)`: a stage, the copy of the frame to `temp`, and the update of the parameters.
unfoldable pub polar_stages : ℕ → ℕ → ℕ → ℕ → Buf → Buf → Option (Buf × Buf)
polar_stages zero frame_size num_branches frame_half frame temp = some (frame, temp)
polar_stages (suc stage) frame_size num_branches frame_half frame temp = do
  frame' ← encodepolar_single_stage frame temp num_branches frame_half
  temp' ← memcpy temp frame' frame_size
  polar_stages stage frame_size (u32 (num_branches * 2)) (frame_half / 2) frame' temp'

-- The two arrays after the call.
unfoldable pub volk_8u_x2_encodeframepolar_8u_generic : Buf → Buf → ℕ → Option (Buf × Buf)
volk_8u_x2_encodeframepolar_8u_generic frame temp frame_size =
    polar_stages (log2_of_power_of_2 frame_size) frame_size 1 (frame_size / 2) frame temp

-- The state of the loop that interleaves: the target, and how many frozen and information bits it has
-- taken.
pub record Taken : Type 0 where
  pub target : Buf
  pub frozen : ℕ
  pub info : ℕ

-- `*target++ = *frozen_bit_mask++ ? *frozen_bits++ : *info_bits++;`
unfoldable pub interleave_bit : Buf → Buf → Buf → ℕ → Taken → Option Taken
interleave_bit frozen_bit_mask frozen_bits info_bits bit s = read frozen_bit_mask bit >>= λ mask.
    elim (mask == 0) [
      | true ↦ do
        x ← read info_bits s.info
        target ← write s.target bit x
        some (record s { target = target; info = s.info + 1 })
      | false ↦ do
        x ← read frozen_bits s.frozen
        target ← write s.target bit x
        some (record s { target = target; frozen = s.frozen + 1 })
    ]

unfoldable pub interleave_frozen_and_info_bits : Buf → Buf → Buf → Buf → ℕ → Option Taken
interleave_frozen_and_info_bits target frozen_bit_mask frozen_bits info_bits frame_size =
    for_loop frame_size 0 (interleave_bit frozen_bit_mask frozen_bits info_bits)
      (record { target = target; frozen = 0; info = 0 })

unfoldable pub volk_8u_x3_encodepolar_8u_x2_generic :
    Buf → Buf → Buf → Buf → Buf → ℕ → Option (Buf × Buf)
volk_8u_x3_encodepolar_8u_x2_generic frame temp frozen_bit_mask frozen_bits info_bits frame_size =
    interleave_frozen_and_info_bits temp frozen_bit_mask frozen_bits info_bits frame_size >>= λ s.
    volk_8u_x2_encodeframepolar_8u_generic frame s.target frame_size
