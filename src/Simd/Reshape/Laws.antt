-- ===== src/Simd/Reshape/Laws.antt =====
-- Packing and splitting compute the function at each point.
use native.Mathlib.Nat.{div-mul-le_self}
use volk.Base.{ℕ, ◌+◌, ◌*◌, ◌/◌, ◌≤◌, ◌<◌, ◌≡◌, ◌∙◌, sym, ap, inl, inr, some, arith}
use volk.Base.{Bool-cases, ltb}
use volk.Memory.{Buf, Access}
use volk.Memory.Fill.{fill, Granted, may_access_block, load_lem, store-fill}
use volk.Simd.Blocks.{blocks_lem, fill_at}
use volk.Simd.Unary.{Fits1}
use volk.Simd.Unary.Laws.{points_x1_lem, agreed}
use mathlib.Core.Path.{ap₂}
use volk.Simd.Reshape.{
  PackOp, SplitOp, packed_block, packed_x1, two_packed_blocks, two_packed_x1, split_block, split_x1,
}

module _ (f g : ℕ → ℕ) (c a : Buf) (n : ℕ) (fits : Fits1 c a n)
    (same : (j : ℕ) → j < n → g (a.cell j) ≡ f (a.cell j)) (m : Access) (wa wc k : ℕ) where
  open fits use {fit_c, fit_a}

  abbrev value : ℕ → ℕ
  value j = g (a.cell j)

  abbrev done : ℕ → Buf
  done r = fill value r c

  same_index : {x y : ℕ} → x ≡ y → g (a.cell x) ≡ g (a.cell y)
  same_index e = ap (λ x. g (a.cell x)) e

  module _ (op : PackOp k g) (granted_c : Granted m wc (2 * k) c)
      (granted_a : Granted m wa k a) where
    packed_lanes :
        (i l : ℕ)
        → l < 2 * k
        → op.apply (λ l. a.cell (k * (2 * i) + l)) (λ l. a.cell (k * (2 * i + 1) + l)) l
          ≡ g (a.cell (2 * k * i + l))
    packed_lanes i l h =
        op.lanes (λ l. a.cell (k * (2 * i) + l)) (λ l. a.cell (k * (2 * i + 1) + l)) l h
        ∙ elim (Bool-cases (ltb l k)) [
          | inl e ↦ rw e (same_index (omega arith))
          | inr e ↦ let above : k ≤ l = ground arith in rw e (same_index (omega (arith, above)))
        ]

    packed_block_lem :
        (i : ℕ)
        → 2 * k * i + 2 * k ≤ n
        → packed_block m wa wc k op a i (done (2 * k * i)) ≡ some (done (2 * k * (i + 1)))
    unfolding packed_block
    packed_block_lem i h =
        rw
          (
            load_lem m wa k a (k * (2 * i))
                (may_access_block m wa k a (2 * i) granted_a (omega arith)),
            load_lem m wa k a (k * (2 * i + 1))
                (may_access_block m wa k a (2 * i + 1) granted_a (omega arith)),
          )
          (store-fill m wc (2 * k) value
              (op.apply (λ l. a.cell (k * (2 * i) + l)) (λ l. a.cell (k * (2 * i + 1) + l))) c
              (2 * k * i) (may_access_block m wc (2 * k) c i granted_c (omega arith))
              (packed_lanes i)
            ∙ fill_at value c (omega arith))

    two_packed_blocks_lem :
        (i : ℕ)
        → 4 * k * i + 4 * k ≤ n
        → two_packed_blocks m wa wc k op a i (done (4 * k * i)) ≡ some (done (4 * k * (i + 1)))
    unfolding two_packed_blocks
    two_packed_blocks_lem i h =
        rw
          (
            load_lem m wa k a (k * (4 * i))
                (may_access_block m wa k a (4 * i) granted_a (omega arith)),
            load_lem m wa k a (k * (4 * i + 1))
                (may_access_block m wa k a (4 * i + 1) granted_a (omega arith)),
            load_lem m wa k a (k * (4 * i + 2))
                (may_access_block m wa k a (4 * i + 2) granted_a (omega arith)),
            load_lem m wa k a (k * (4 * i + 3))
                (may_access_block m wa k a (4 * i + 3) granted_a (omega arith)),
            double,
            store-fill m wc (2 * k) value
                (op.apply (λ l. a.cell (k * (4 * i) + l)) (λ l. a.cell (k * (4 * i + 1) + l))) c
                (2 * k * (2 * i)) (may_access_block m wc (2 * k) c (2 * i) granted_c (omega arith))
                (λ l lt.
                  ap (λ t. op.apply (λ l. a.cell (k * t + l)) (λ l. a.cell (k * (t + 1) + l)) l)
                    four
                  ∙ packed_lanes (2 * i) l lt),
            next,
          )
          (store-fill m wc (2 * k) value
              (op.apply (λ l. a.cell (k * (4 * i + 2) + l)) (λ l. a.cell (k * (4 * i + 3) + l))) c
              (2 * k * (2 * i + 1))
              (may_access_block m wc (2 * k) c (2 * i + 1) granted_c (omega arith))
              (λ l lt.
                ap₂ (λ t u. op.apply (λ l. a.cell (k * t + l)) (λ l. a.cell (k * u + l)) l) six
                  seven
                ∙ packed_lanes (2 * i + 1) l lt)
            ∙ fill_at value c (omega arith))
      where
        double : 4 * k * i ≡ 2 * k * (2 * i)
        double = omega arith

        next : 2 * k * (2 * i) + 2 * k ≡ 2 * k * (2 * i + 1)
        next = omega arith

        four : 4 * i ≡ 2 * (2 * i)
        four = omega arith

        six : 4 * i + 2 ≡ 2 * (2 * i + 1)
        six = omega arith

        seven : 4 * i + 3 ≡ 2 * (2 * i + 1) + 1
        seven = omega arith

    pub two_packed_x1_lem : two_packed_x1 m wa wc k op f c a n ≡ some (fill (λ j. f (a.cell j)) n c)
    unfolding two_packed_x1
    two_packed_x1_lem = agreed f g c a n fits same (
        rw (blocks_lem value c n (4 * k) (two_packed_blocks m wa wc k op a) two_packed_blocks_lem) (
          points_x1_lem g c a n fits f (λ j h. sym (same j h)) (n / (4 * k) * (4 * k))
            (div-mul-le_self n (4 * k))))

    pub packed_x1_lem : packed_x1 m wa wc k op f c a n ≡ some (fill (λ j. f (a.cell j)) n c)
    unfolding packed_x1
    packed_x1_lem = agreed f g c a n fits same (
        rw (blocks_lem value c n (2 * k) (packed_block m wa wc k op a) packed_block_lem) (
          points_x1_lem g c a n fits f (λ j h. sym (same j h)) (n / (2 * k) * (2 * k))
            (div-mul-le_self n (2 * k))))

  module _ (op : SplitOp k g) (granted_c : Granted m wc k c)
      (granted_a : Granted m wa (2 * k) a) where
    split_block_lem :
        (i : ℕ)
        → 2 * k * i + 2 * k ≤ n
        → split_block m wa wc k op a i (done (2 * k * i)) ≡ some (done (2 * k * (i + 1)))
    unfolding split_block
    split_block_lem i h =
        rw
          (load_lem m wa (2 * k) a (2 * k * i)
            (may_access_block m wa (2 * k) a i granted_a (omega arith)))
          (rw
            (
              double,
              store-fill m wc k value (op.low (λ l. a.cell (k * (2 * i) + l))) c (k * (2 * i))
                  (may_access_block m wc k c (2 * i) granted_c (omega arith))
                  (op.low_lanes (λ l. a.cell (k * (2 * i) + l))),
              next,
            )
            (store-fill m wc k value (op.high (λ l. a.cell (k * (2 * i) + l))) c (k * (2 * i + 1))
                (may_access_block m wc k c (2 * i + 1) granted_c (omega arith))
                (λ l lt.
                  op.high_lanes (λ l. a.cell (k * (2 * i) + l)) l lt ∙ same_index (omega arith))
              ∙ fill_at value c (omega arith)))
      where
        double : 2 * k * i ≡ k * (2 * i)
        double = omega arith

        next : k * (2 * i) + k ≡ k * (2 * i + 1)
        next = omega arith

    pub split_x1_lem : split_x1 m wa wc k op f c a n ≡ some (fill (λ j. f (a.cell j)) n c)
    unfolding split_x1
    split_x1_lem = agreed f g c a n fits same (
        rw (blocks_lem value c n (2 * k) (split_block m wa wc k op a) split_block_lem) (
          points_x1_lem g c a n fits f (λ j h. sym (same j h)) (n / (2 * k) * (2 * k))
            (div-mul-le_self n (2 * k))))
