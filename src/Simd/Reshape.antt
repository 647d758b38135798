-- ===== src/Simd/Reshape.antt =====
-- The loop skeletons of the kernels whose output elements are half or twice as wide as those of the input:
-- two vectors are packed into one, or one is split into two.
pub mod Laws
use volk.Base.{
  arith, ap, ◌∙◌, inl, inr, Bool-cases, ltb→lt, ℕ, ◌+◌, ◌-◌, ◌*◌, ◌/◌, ◌<◌, ◌≡◌, Option, some,
  ◌>>=◌, ltb, if◌then◌else◌, true, false,
}
use volk.Memory.{Buf, Reg, Access, read, write, load, store}
use volk.Memory.Loop.{for_loop}
use volk.Simd.Unary.{LaneOp1, points_x1}

-- Two vectors of `k` lanes to one of `2 * k`: first the lanes of the one, then those of the other.
pub record PackOp (k : ℕ) (g : ℕ → ℕ) : Type 0 where
  pub apply : Reg → Reg → Reg
  pub lanes : (x y : Reg) (l : ℕ) → l < 2 * k → apply x y l ≡ g (if ltb l k then x l else y (l - k))

pub packed_operands :
    (k : ℕ) (f : ℕ → ℕ) (op : LaneOp1 k f) (x y : Reg) (l : ℕ)
    → l < 2 * k
    → (if ltb l k then op.apply x l else op.apply y (l - k))
      ≡ f (if ltb l k then x l else y (l - k))
packed_operands k f op x y l h = elim (Bool-cases (ltb l k)) [
  | inl e ↦ rw e (op.lanes x l (ltb→lt l k e))
  | inr e ↦ let below : l - k < k = ground arith in rw e (op.lanes y (l - k) below)
]

-- An instruction on each operand before the packing.
abbrev pub packed_after : {k : ℕ} {f g : ℕ → ℕ} → LaneOp1 k f → PackOp k g → PackOp k (λ x. g (f x))
packed_after {k = k} {f = f} {g = g} op pack = record {
  apply = λ x y. pack.apply (op.apply x) (op.apply y);
  lanes =
      λ x y l h. pack.lanes (op.apply x) (op.apply y) l h ∙ ap g (packed_operands k f op x y l h);
}

-- One vector of `2 * k` lanes to two of `k`.
pub record SplitOp (k : ℕ) (g : ℕ → ℕ) : Type 0 where
  pub low : Reg → Reg
  pub high : Reg → Reg
  pub low_lanes : (x : Reg) (l : ℕ) → l < k → low x l ≡ g (x l)
  pub high_lanes : (x : Reg) (l : ℕ) → l < k → high x l ≡ g (x (k + l))

module _ (m : Access) (wa wc k : ℕ) {g : ℕ → ℕ} where
  unfoldable pub packed_block : PackOp k g → Buf → ℕ → Buf → Option Buf
  packed_block op a number c = do
    x ← load m wa k a (k * (2 * number))
    y ← load m wa k a (k * (2 * number + 1))
    store m wc (2 * k) c (2 * k * number) (op.apply x y)

  unfoldable pub packed_x1 : PackOp k g → (ℕ → ℕ) → Buf → Buf → ℕ → Option Buf
  packed_x1 op f c a num_points = do
    c' ← for_loop (num_points / (2 * k)) 0 (packed_block op a) c
    points_x1 f (num_points / (2 * k) * (2 * k)) a num_points c'

  -- A round that packs twice: all four loads, then packed_operands stores.
  unfoldable pub two_packed_blocks : PackOp k g → Buf → ℕ → Buf → Option Buf
  two_packed_blocks op a number c = do
    x0 ← load m wa k a (k * (4 * number))
    x1 ← load m wa k a (k * (4 * number + 1))
    x2 ← load m wa k a (k * (4 * number + 2))
    x3 ← load m wa k a (k * (4 * number + 3))
    c' ← store m wc (2 * k) c (2 * k * (2 * number)) (op.apply x0 x1)
    store m wc (2 * k) c' (2 * k * (2 * number + 1)) (op.apply x2 x3)

  unfoldable pub two_packed_x1 : PackOp k g → (ℕ → ℕ) → Buf → Buf → ℕ → Option Buf
  two_packed_x1 op f c a num_points = do
    c' ← for_loop (num_points / (4 * k)) 0 (two_packed_blocks op a) c
    points_x1 f (num_points / (4 * k) * (4 * k)) a num_points c'

  unfoldable pub split_block : SplitOp k g → Buf → ℕ → Buf → Option Buf
  split_block op a number c = do
    x ← load m wa (2 * k) a (2 * k * number)
    c' ← store m wc k c (k * (2 * number)) (op.low x)
    store m wc k c' (k * (2 * number + 1)) (op.high x)

  unfoldable pub split_x1 : SplitOp k g → (ℕ → ℕ) → Buf → Buf → ℕ → Option Buf
  split_x1 op f c a num_points = do
    c' ← for_loop (num_points / (2 * k)) 0 (split_block op a) c
    points_x1 f (num_points / (2 * k) * (2 * k)) a num_points c'
