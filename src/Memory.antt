-- ===== src/Memory.antt =====
-- Arrays of machine words as C sees them through a pointer: a byte address, a number of elements
-- and the elements. Scalar accesses fault out of bounds; vector accesses of `k` elements of `w`
-- bytes fault if any element is out of bounds, and the aligned forms also if the address is no
-- multiple of the vector's width in bytes.
pub mod Loop
pub mod Fill
pub mod Halves
use volk.Base.{ℕ, ◌+◌, ◌-◌, ◌*◌, ◌%◌, Bool, true, ◌&&◌, Option, none, some}
use volk.Base.{ltb, leb, ◌==◌, if◌then◌else◌}

pub record Buf : Type 0 where
  pub base : ℕ
  pub size : ℕ
  pub cell : ℕ → ℕ

-- The lanes of a vector register; only the first `k` of them mean anything.
abbrev pub Reg : Type 0
Reg = ℕ → ℕ

pub data Access : Type 0 where
  aligned unaligned : Access

-- `b[i]`
unfoldable pub read : Buf → ℕ → Option ℕ
read b i = if ltb i b.size then some (b.cell i) else none

-- `b[i] = v`
unfoldable pub write : Buf → ℕ → ℕ → Option Buf
write b i v =
    if ltb i b.size then some (record b { cell = λ j. if j == i then v else b.cell j }) else none

-- Whether a vector of `k` elements of `w` bytes may be accessed at element `i`.
unfoldable pub may_access : Access → ℕ → ℕ → Buf → ℕ → Bool
may_access unaligned w k b i = leb (i + k) b.size
may_access aligned w k b i = leb (i + k) b.size && (b.base + w * i) % (w * k) == 0

-- A vector load, as `_mm_load_si128` (aligned) and `_mm_loadu_si128` (unaligned).
unfoldable pub load : Access → ℕ → ℕ → Buf → ℕ → Option Reg
load m w k b i = if may_access m w k b i then some (λ l. b.cell (i + l)) else none

-- A vector store, as `_mm_store_si128` and `_mm_storeu_si128`.
unfoldable pub store : Access → ℕ → ℕ → Buf → ℕ → Reg → Option Buf
store m w k b i r =
    if may_access m w k b i
    then some (record b { cell = λ j. if leb i j && ltb j (i + k) then r (j - i) else b.cell j })
    else none

-- `memcpy(dst, src, n)` of `n` elements
unfoldable pub memcpy : Buf → Buf → ℕ → Option Buf
memcpy dst src n =
    if leb n dst.size && leb n src.size
    then some (record dst { cell = λ j. if ltb j n then src.cell j else dst.cell j })
    else none
