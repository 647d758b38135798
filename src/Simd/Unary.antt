-- ===== src/Simd/Unary.antt =====
-- The loop skeletons of the kernels with one input. The elements of the input take `wa` bytes and those of
-- the output `wc`.
pub mod Laws
use volk.Base.{
  ℕ, zero, suc, ◌+◌, ◌-◌, ◌*◌, ◌/◌, ◌≤◌, ◌<◌, ◌≡◌, ap, ◌∙◌, ◌%◌, true, false, Option, none, some,
}
use volk.Base.{◌>>=◌, ◌==◌}
use volk.Memory.{Buf, Reg, Access, unaligned, read, write, load, store}
use volk.Memory.Loop.{for_loop}
use volk.Simd.{SetVl, LaneOp2}

-- An instruction, or a sequence of them, on a vector of `k` lanes: lane `l` of the result is `f` of lane
-- `l` of the operand.
pub record LaneOp1 (k : ℕ) (f : ℕ → ℕ) : Type 0 where
  pub apply : Reg → Reg
  pub lanes : (x : Reg) (l : ℕ) → l < k → apply x l ≡ f (x l)

-- One instruction after another, and one with the same number in every lane of its second operand.
abbrev pub chained : {k : ℕ} {f g : ℕ → ℕ} → LaneOp1 k f → LaneOp1 k g → LaneOp1 k (λ x. g (f x))
chained {g = g} a b = record {
  apply = λ x. b.apply (a.apply x);
  lanes = λ x l h. b.lanes (a.apply x) l h ∙ ap g (a.lanes x l h);
}

abbrev pub with_scalar : {k : ℕ} {f : ℕ → ℕ → ℕ} → LaneOp2 k f → (y : ℕ) → LaneOp1 k (λ x. f x y)
with_scalar op y = record {
  apply = λ x. op.apply x (λ l. y);
  lanes = λ x l h. op.lanes x (λ l. y) l h;
}

-- Both arrays have `n` points.
pub record Fits1 (c a : Buf) (n : ℕ) : Type 0 where
  pub fit_c : n ≤ c.size
  pub fit_a : n ≤ a.size

-- The output starts at a multiple of `bytes_c`, and the input at one of `bytes_a`.
pub record StartAt1 (bytes_c bytes_a : ℕ) (c a : Buf) : Type 0 where
  pub start_c : c.base % bytes_c ≡ 0
  pub start_a : a.base % bytes_a ≡ 0

-- `c[number] = f(a[number])`
unfoldable pub point_x1 : (ℕ → ℕ) → Buf → ℕ → Buf → Option Buf
point_x1 f a number c = do x ← read a number; write c number (f x)

-- `for (number = from; number < num_points; number++) c[number] = f(a[number]);`
unfoldable pub points_x1 : (ℕ → ℕ) → ℕ → Buf → ℕ → Buf → Option Buf
points_x1 f from a num_points c = for_loop (num_points - from) from (point_x1 f a) c

module _ (m : Access) (wa wc k : ℕ) {g : ℕ → ℕ} (op : LaneOp1 k g) where
  -- Loads block `number` of the input, applies the instruction, and stores the result.
  unfoldable pub block_x1 : Buf → ℕ → Buf → Option Buf
  block_x1 a number c = do x ← load m wa k a (k * number); store m wc k c (k * number) (op.apply x)

  -- The loop over the `num_points / k` whole vectors, then the points that are left.
  unfoldable pub simd_x1 : (ℕ → ℕ) → Buf → Buf → ℕ → Option Buf
  simd_x1 f c a num_points = do
    c' ← for_loop (num_points / k) 0 (block_x1 a) c
    points_x1 f (num_points / k * k) a num_points c'

  -- A round that takes two vectors: both loads, then both stores.
  unfoldable pub two_blocks_x1 : Buf → ℕ → Buf → Option Buf
  two_blocks_x1 a number c = do
    a0 ← load m wa k a (k * (2 * number))
    a1 ← load m wa k a (k * (2 * number + 1))
    c' ← store m wc k c (k * (2 * number)) (op.apply a0)
    store m wc k c' (k * (2 * number + 1)) (op.apply a1)

  unfoldable pub simd_two_x1 : (ℕ → ℕ) → Buf → Buf → ℕ → Option Buf
  simd_two_x1 f c a num_points = do
    c' ← for_loop (num_points / (2 * k)) 0 (two_blocks_x1 a) c
    points_x1 f (num_points / (2 * k) * (2 * k)) a num_points c'

module _ (wa wc : ℕ) {g : ℕ → ℕ} (set : SetVl) (op : (vl : ℕ) → LaneOp1 vl g) where
  -- `for (size_t vl; n > 0; n -= vl, a += vl, c += vl)` with `off` elements done; `none` also where the
  -- fuel is used up before `n` is 0.
  unfoldable pub rvv_loop_x1 : ℕ → Buf → ℕ → ℕ → Buf → Option Buf
  rvv_loop_x1 zero a n off c = elim (n == 0) [ true ↦ some c | false ↦ none ]
  rvv_loop_x1 (suc fuel) a n off c = elim (n == 0) [
    | true ↦ some c
    | false ↦ do
      x ← load unaligned wa (set.vl n) a off
      c' ← store unaligned wc (set.vl n) c off ((op (set.vl n)).apply x)
      rvv_loop_x1 fuel a (n - set.vl n) (off + set.vl n) c'
  ]

  unfoldable pub rvv_x1 : Buf → Buf → ℕ → Option Buf
  rvv_x1 c a num_points = rvv_loop_x1 num_points a num_points 0 c
