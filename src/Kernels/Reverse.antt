-- ===== src/Kernels/Reverse.antt =====
-- kernels/volk/volk_32u_reverse_32u.h: the implementations in plain C, which reverse the bits of words of
-- 32 bits by seven methods. `in8` and `out8` are a word's bytes from the lowest on, as on a machine with
-- the lowest byte first; on the others both orders are reversed, which gives the same words.
-- Not modelled: neonv8 and arm, whose instructions reverse the bits.
pub mod Words
pub mod Bytes
pub mod Exchange
pub mod Tree
pub mod Agree
use volk.Base.{
  ℕ, zero, suc, ◌+◌, ◌-◌, ◌*◌, ◌/◌, ◌%◌, ◌^◌, Option, List, [], ◌∷◌, bit_and, bit_or, ◌>>=◌,
  get_elem?, some,
}
use volk.Base.Bits.{u8, u32, u64, ◌<<<◌, ◌>>>◌}
use volk.Memory.{Buf, read, write}
use volk.Memory.Loop.{for_loop}

-- `(((x >> (width - 1 - i)) & 1) << i)`
abbrev pub mirrored_bit : ℕ → ℕ → ℕ → ℕ
mirrored_bit width i x = bit_and (x >>> (width - 1 - i)) 1 <<< i

-- The disjunction of the terms from 0 to `i`, from left to right.
unfoldable pub mirrored_bits : ℕ → ℕ → ℕ → ℕ
mirrored_bits width zero x = mirrored_bit width 0 x
mirrored_bits width (suc i) x = bit_or (mirrored_bits width i x) (mirrored_bit width (suc i) x)

-- `in8[i]`
abbrev pub in8 : ℕ → ℕ → ℕ
in8 x i = x / 2 ^ (8 * i) % 256

-- The word with `out8[3] = f(in8[0])` and so on. A store to a byte cuts the value.
abbrev pub bytewise : (ℕ → ℕ) → ℕ → ℕ
bytewise f x =
    u8 (f (in8 x 0)) * 2 ^ 24
    + (u8 (f (in8 x 1)) * 2 ^ 16 + (u8 (f (in8 x 2)) * 2 ^ 8 + u8 (f (in8 x 3))))

abbrev pub bit_reverse_table256 : List ℕ
bit_reverse_table256 =
    0x00 ∷ 0x80 ∷ 0x40 ∷ 0xC0 ∷ 0x20 ∷ 0xA0 ∷ 0x60 ∷ 0xE0 ∷ 0x10 ∷ 0x90 ∷ 0x50 ∷ 0xD0 ∷ 0x30 ∷ 0xB0
    ∷ 0x70 ∷ 0xF0 ∷ 0x08 ∷ 0x88 ∷ 0x48 ∷ 0xC8 ∷ 0x28 ∷ 0xA8 ∷ 0x68 ∷ 0xE8 ∷ 0x18 ∷ 0x98 ∷ 0x58
    ∷ 0xD8 ∷ 0x38 ∷ 0xB8 ∷ 0x78 ∷ 0xF8 ∷ 0x04 ∷ 0x84 ∷ 0x44 ∷ 0xC4 ∷ 0x24 ∷ 0xA4 ∷ 0x64 ∷ 0xE4
    ∷ 0x14 ∷ 0x94 ∷ 0x54 ∷ 0xD4 ∷ 0x34 ∷ 0xB4 ∷ 0x74 ∷ 0xF4 ∷ 0x0C ∷ 0x8C ∷ 0x4C ∷ 0xCC ∷ 0x2C
    ∷ 0xAC ∷ 0x6C ∷ 0xEC ∷ 0x1C ∷ 0x9C ∷ 0x5C ∷ 0xDC ∷ 0x3C ∷ 0xBC ∷ 0x7C ∷ 0xFC ∷ 0x02 ∷ 0x82
    ∷ 0x42 ∷ 0xC2 ∷ 0x22 ∷ 0xA2 ∷ 0x62 ∷ 0xE2 ∷ 0x12 ∷ 0x92 ∷ 0x52 ∷ 0xD2 ∷ 0x32 ∷ 0xB2 ∷ 0x72
    ∷ 0xF2 ∷ 0x0A ∷ 0x8A ∷ 0x4A ∷ 0xCA ∷ 0x2A ∷ 0xAA ∷ 0x6A ∷ 0xEA ∷ 0x1A ∷ 0x9A ∷ 0x5A ∷ 0xDA
    ∷ 0x3A ∷ 0xBA ∷ 0x7A ∷ 0xFA ∷ 0x06 ∷ 0x86 ∷ 0x46 ∷ 0xC6 ∷ 0x26 ∷ 0xA6 ∷ 0x66 ∷ 0xE6 ∷ 0x16
    ∷ 0x96 ∷ 0x56 ∷ 0xD6 ∷ 0x36 ∷ 0xB6 ∷ 0x76 ∷ 0xF6 ∷ 0x0E ∷ 0x8E ∷ 0x4E ∷ 0xCE ∷ 0x2E ∷ 0xAE
    ∷ 0x6E ∷ 0xEE ∷ 0x1E ∷ 0x9E ∷ 0x5E ∷ 0xDE ∷ 0x3E ∷ 0xBE ∷ 0x7E ∷ 0xFE ∷ 0x01 ∷ 0x81 ∷ 0x41
    ∷ 0xC1 ∷ 0x21 ∷ 0xA1 ∷ 0x61 ∷ 0xE1 ∷ 0x11 ∷ 0x91 ∷ 0x51 ∷ 0xD1 ∷ 0x31 ∷ 0xB1 ∷ 0x71 ∷ 0xF1
    ∷ 0x09 ∷ 0x89 ∷ 0x49 ∷ 0xC9 ∷ 0x29 ∷ 0xA9 ∷ 0x69 ∷ 0xE9 ∷ 0x19 ∷ 0x99 ∷ 0x59 ∷ 0xD9 ∷ 0x39
    ∷ 0xB9 ∷ 0x79 ∷ 0xF9 ∷ 0x05 ∷ 0x85 ∷ 0x45 ∷ 0xC5 ∷ 0x25 ∷ 0xA5 ∷ 0x65 ∷ 0xE5 ∷ 0x15 ∷ 0x95
    ∷ 0x55 ∷ 0xD5 ∷ 0x35 ∷ 0xB5 ∷ 0x75 ∷ 0xF5 ∷ 0x0D ∷ 0x8D ∷ 0x4D ∷ 0xCD ∷ 0x2D ∷ 0xAD ∷ 0x6D
    ∷ 0xED ∷ 0x1D ∷ 0x9D ∷ 0x5D ∷ 0xDD ∷ 0x3D ∷ 0xBD ∷ 0x7D ∷ 0xFD ∷ 0x03 ∷ 0x83 ∷ 0x43 ∷ 0xC3
    ∷ 0x23 ∷ 0xA3 ∷ 0x63 ∷ 0xE3 ∷ 0x13 ∷ 0x93 ∷ 0x53 ∷ 0xD3 ∷ 0x33 ∷ 0xB3 ∷ 0x73 ∷ 0xF3 ∷ 0x0B
    ∷ 0x8B ∷ 0x4B ∷ 0xCB ∷ 0x2B ∷ 0xAB ∷ 0x6B ∷ 0xEB ∷ 0x1B ∷ 0x9B ∷ 0x5B ∷ 0xDB ∷ 0x3B ∷ 0xBB
    ∷ 0x7B ∷ 0xFB ∷ 0x07 ∷ 0x87 ∷ 0x47 ∷ 0xC7 ∷ 0x27 ∷ 0xA7 ∷ 0x67 ∷ 0xE7 ∷ 0x17 ∷ 0x97 ∷ 0x57
    ∷ 0xD7 ∷ 0x37 ∷ 0xB7 ∷ 0x77 ∷ 0xF7 ∷ 0x0F ∷ 0x8F ∷ 0x4F ∷ 0xCF ∷ 0x2F ∷ 0xAF ∷ 0x6F ∷ 0xEF
    ∷ 0x1F ∷ 0x9F ∷ 0x5F ∷ 0xDF ∷ 0x3F ∷ 0xBF ∷ 0x7F ∷ 0xFF ∷ []

-- `((in8 * 0x80200802ULL) & 0x0884422110ULL) * 0x0101010101ULL >> 32`
abbrev pub magic_2001 : ℕ → ℕ
magic_2001 x = u64 (bit_and (x * 0x80200802) 0x0884422110 * 0x0101010101) >>> 32

-- `(in8 * 0x0202020202ULL & 0x010884422010ULL) % 1023`
abbrev pub magic_1972 : ℕ → ℕ
magic_1972 x = bit_and (x * 0x0202020202) 0x010884422010 % 1023

-- The word that the table gives.
unfoldable pub by_table : ℕ → Option ℕ
by_table x = do
  t0 ← get_elem? bit_reverse_table256 (bit_and x 0xff)
  t1 ← get_elem? bit_reverse_table256 (bit_and (x >>> 8) 0xff)
  t2 ← get_elem? bit_reverse_table256 (bit_and (x >>> 16) 0xff)
  t3 ← get_elem? bit_reverse_table256 (bit_and (x >>> 24) 0xff)
  some (bit_or (bit_or (bit_or (t0 <<< 24) (t1 <<< 16)) (t2 <<< 8)) t3)

-- `((tmp & mask) << k) | ((tmp >> k) & mask)`
abbrev pub exchange : ℕ → ℕ → ℕ → ℕ
exchange mask k tmp = bit_or (u32 (bit_and tmp mask <<< k)) (bit_and (tmp >>> k) mask)

-- `(tmp << 16) | (tmp >> 16)`
abbrev pub exchange_16 : ℕ → ℕ
exchange_16 tmp = bit_or (u32 (tmp <<< 16)) (tmp >>> 16)

abbrev pub top_down : ℕ → ℕ
top_down x =
    exchange 0x55555555 1
      (exchange 0x33333333 2 (exchange 0x0F0F0F0F 4 (exchange 0x00FF00FF 8 (exchange_16 x))))

abbrev pub bottom_up : ℕ → ℕ
bottom_up x = exchange_16 (
    exchange 0x00FF00FF 8 (exchange 0x0F0F0F0F 4 (exchange 0x33333333 2 (exchange 0x55555555 1 x))))

-- `*out_ptr = f(*in_ptr); ++in_ptr; ++out_ptr;`
unfoldable pub reverse_point : (ℕ → Option ℕ) → Buf → ℕ → Buf → Option Buf
reverse_point f input number out = do x ← read input number; y ← f x; write out number y

pub reverse_points : (ℕ → Option ℕ) → Buf → Buf → ℕ → Option Buf
reverse_points f out input num_points = for_loop num_points 0 (reverse_point f input) out

pub volk_32u_reverse_32u_generic : Buf → Buf → ℕ → Option Buf
volk_32u_reverse_32u_generic = reverse_points (λ x. some (mirrored_bits 32 31 x))

pub volk_32u_reverse_32u_byte_shuffle : Buf → Buf → ℕ → Option Buf
volk_32u_reverse_32u_byte_shuffle = reverse_points (λ x. some (bytewise (mirrored_bits 8 7) x))

pub volk_32u_reverse_32u_lut : Buf → Buf → ℕ → Option Buf
volk_32u_reverse_32u_lut = reverse_points by_table

pub volk_32u_reverse_32u_2001magic : Buf → Buf → ℕ → Option Buf
volk_32u_reverse_32u_2001magic = reverse_points (λ x. some (bytewise magic_2001 x))

pub volk_32u_reverse_32u_1972magic : Buf → Buf → ℕ → Option Buf
volk_32u_reverse_32u_1972magic = reverse_points (λ x. some (bytewise magic_1972 x))

pub volk_32u_reverse_32u_bintree_permute_top_down : Buf → Buf → ℕ → Option Buf
volk_32u_reverse_32u_bintree_permute_top_down = reverse_points (λ x. some (top_down x))

pub volk_32u_reverse_32u_bintree_permute_bottom_up : Buf → Buf → ℕ → Option Buf
volk_32u_reverse_32u_bintree_permute_bottom_up = reverse_points (λ x. some (bottom_up x))
