-- ===== src/Kernels/Byteswap.antt =====
-- kernels/volk/volk_16u_byteswap.h and volk_32u_byteswap.h: the generic implementations, which swap the
-- bytes of an array's words in place.
-- Not modelled: the implementations that swap vectors.
pub mod Words
pub mod InPlace
use volk.Base.{ℕ, ◌*◌, ◌/◌, ◌%◌, ◌^◌, Option, bit_and, bit_or, ◌>>=◌}
use volk.Base.Bits.{u16, u32, ◌<<<◌, ◌>>>◌}
use volk.Memory.{Buf, read, write}
use volk.Memory.Loop.{for_loop}

-- `((x >> 8) & 0xff) | ((x << 8) & 0xff00)`
pub swapped_16 : ℕ → ℕ
swapped_16 x = u16 (bit_or (bit_and (x >>> 8) 0xff) (bit_and (x <<< 8) 0xff00))

-- `((x >> 24) & 0xff) | ((x >> 8) & 0x0000ff00) | ((x << 8) & 0x00ff0000) | ((x << 24) & 0xff000000)`
pub swapped_32 : ℕ → ℕ
swapped_32 x =
    bit_or
      (bit_or (bit_or (bit_and (x >>> 24) 0xff) (bit_and (x >>> 8) 0xff00))
        (bit_and (u32 (x <<< 8)) 0xff0000))
      (bit_and (u32 (x <<< 24)) 0xff000000)

-- `output = *inputPtr; output = f(output); *inputPtr = output;`
unfoldable pub point_in_place : (ℕ → ℕ) → ℕ → Buf → Option Buf
point_in_place f point b = read b point >>= λ x. write b point (f x)

pub volk_16u_byteswap_generic : Buf → ℕ → Option Buf
volk_16u_byteswap_generic ints num_points = for_loop num_points 0 (point_in_place swapped_16) ints

pub volk_32u_byteswap_generic : Buf → ℕ → Option Buf
volk_32u_byteswap_generic ints num_points = for_loop num_points 0 (point_in_place swapped_32) ints
