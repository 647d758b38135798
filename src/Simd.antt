-- ===== src/Simd.antt =====
-- The loop skeletons that the kernels of kernels/volk share. A kernel works through its arrays in
-- blocks of one vector and finishes the points that fill no vector one by one.
pub mod Blocks
pub mod Laws
pub mod Unary
pub mod Reshape
use volk.Base.{ℕ, zero, suc, ◌+◌, ◌-◌, ◌*◌, ◌/◌, ◌%◌, ◌≤◌, ◌<◌, ◌≡◌, Bool, true, false}
use volk.Base.{Option, none, some, ◌>>=◌, ◌==◌, leb}
use volk.Memory.{Buf, Reg, Access, unaligned, read, write, load, store}
use volk.Memory.Loop.{for_loop}

-- An instruction on two vectors of `k` lanes, which the compiler's headers provide: its documented
-- meaning is that lane `l` of the result is `f` of the lanes `l` of its operands.
pub record LaneOp2 (k : ℕ) (f : ℕ → ℕ → ℕ) : Type 0 where
  pub apply : Reg → Reg → Reg
  pub lanes : (x y : Reg) (l : ℕ) → l < k → apply x y l ≡ f (x l) (y l)

-- The RISC-V instruction that fixes how many elements the next vector instructions work on, as the
-- vector specification states it: some of those left, and none only if none is left.
pub record SetVl : Type 0 where
  pub vl : ℕ → ℕ
  pub vl_pos : (n : ℕ) → 0 < n → 0 < vl n
  pub vl_le : (n : ℕ) → vl n ≤ n

-- Both inputs and the output have `n` points.
pub record Fits (c a b : Buf) (n : ℕ) : Type 0 where
  pub fit_c : n ≤ c.size
  pub fit_a : n ≤ a.size
  pub fit_b : n ≤ b.size

-- All three arrays start at a multiple of `bytes`.
pub record StartAt (bytes : ℕ) (c a b : Buf) : Type 0 where
  pub start_c : c.base % bytes ≡ 0
  pub start_a : a.base % bytes ≡ 0
  pub start_b : b.base % bytes ≡ 0

-- `c[number] = f(a[number], b[number])`
unfoldable pub point_x2 : (ℕ → ℕ → ℕ) → Buf → Buf → ℕ → Buf → Option Buf
point_x2 f a b number c = do x ← read a number; y ← read b number; write c number (f x y)

-- `for (number = from; number < num_points; number++) c[number] = f(a[number], b[number]);`
unfoldable pub points_x2 : (ℕ → ℕ → ℕ) → ℕ → Buf → Buf → ℕ → Buf → Option Buf
points_x2 f from a b num_points c = for_loop (num_points - from) from (point_x2 f a b) c

module _ (m : Access) (w k : ℕ) {g : ℕ → ℕ → ℕ} (op : LaneOp2 k g) where
  -- Loads block `number` of both inputs, applies the instruction, and stores the result.
  unfoldable pub block_x2 : Buf → Buf → ℕ → Buf → Option Buf
  block_x2 a b number c = do
    x ← load m w k a (k * number)
    y ← load m w k b (k * number)
    store m w k c (k * number) (op.apply x y)

  -- The loop over the `num_points / k` whole vectors, then the points that are left.
  unfoldable pub simd_x2 : (ℕ → ℕ → ℕ) → Buf → Buf → Buf → ℕ → Option Buf
  simd_x2 f c a b num_points = do
    c' ← for_loop (num_points / k) 0 (block_x2 a b) c
    points_x2 f (num_points / k * k) a b num_points c'

  -- A round that takes two vectors: all four loads, then both stores.
  unfoldable pub two_blocks_x2 : Buf → Buf → ℕ → Buf → Option Buf
  two_blocks_x2 a b number c = do
    a0 ← load m w k a (k * (2 * number))
    a1 ← load m w k a (k * (2 * number + 1))
    b0 ← load m w k b (k * (2 * number))
    b1 ← load m w k b (k * (2 * number + 1))
    c' ← store m w k c (k * (2 * number)) (op.apply a0 b0)
    store m w k c' (k * (2 * number + 1)) (op.apply a1 b1)

  unfoldable pub simd_two_x2 : (ℕ → ℕ → ℕ) → Buf → Buf → Buf → ℕ → Option Buf
  simd_two_x2 f c a b num_points = do
    c' ← for_loop (num_points / (2 * k)) 0 (two_blocks_x2 a b) c
    points_x2 f (num_points / (2 * k) * (2 * k)) a b num_points c'

  -- `while (n >= 2 * k)` with two vectors a round, `if (n >= k)` with one, then the points that are left.
  unfoldable pub simd_stepped_x2 : (ℕ → ℕ → ℕ) → Buf → Buf → Buf → ℕ → Option Buf
  simd_stepped_x2 f c a b num_points =
      let pairs = num_points / (2 * k) in
      for_loop pairs 0 (two_blocks_x2 a b) c >>= λ c'. elim (leb k (num_points - pairs * (2 * k))) [
        | true ↦ block_x2 a b (2 * pairs) c' >>= λ c''.
            points_x2 f (k * (2 * pairs + 1)) a b num_points c''
        | false ↦ points_x2 f (pairs * (2 * k)) a b num_points c'
      ]

module _ (w : ℕ) {g : ℕ → ℕ → ℕ} (set : SetVl) (op : (vl : ℕ) → LaneOp2 vl g) where
  -- `for (size_t vl; n > 0; n -= vl, a += vl, b += vl, c += vl)` with `off` elements done; `none`
  -- also where the fuel is used up before `n` is 0.
  unfoldable pub rvv_loop_x2 : ℕ → Buf → Buf → ℕ → ℕ → Buf → Option Buf
  rvv_loop_x2 zero a b n off c = elim (n == 0) [ true ↦ some c | false ↦ none ]
  rvv_loop_x2 (suc fuel) a b n off c = elim (n == 0) [
    | true ↦ some c
    | false ↦ do
      x ← load unaligned w (set.vl n) a off
      y ← load unaligned w (set.vl n) b off
      c' ← store unaligned w (set.vl n) c off ((op (set.vl n)).apply x y)
      rvv_loop_x2 fuel a b (n - set.vl n) (off + set.vl n) c'
  ]

  -- A round takes at least one point, so `num_points` rounds are enough.
  unfoldable pub rvv_x2 : Buf → Buf → Buf → ℕ → Option Buf
  rvv_x2 c a b num_points = rvv_loop_x2 num_points a b num_points 0 c
