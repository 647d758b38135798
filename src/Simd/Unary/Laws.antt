-- ===== src/Simd/Unary/Laws.antt =====
-- Every loop skeleton with one input computes the function at each point, and nothing else changes.
use native.Mathlib.Nat.{div-mul-le_self}
use volk.Base.{
  ℕ, zero, suc, ◌+◌, ◌-◌, ◌*◌, ◌/◌, ◌≤◌, ◌<◌, ◌≡◌, ◌∙◌, sym, ap, inl, inr, true, false, Option,
  some, arith,
}
use volk.Base.{◌==◌, Bool-cases, ==→eq}
use volk.Memory.{Buf, Access, unaligned, store, may_access}
use volk.Memory.Loop.{for_loop_chain}
use volk.Memory.Fill.{
  fill, fill-zero, fill_cong, read_lem, write-fill, Granted, may_access_block, load_lem,
}
use volk.Memory.Fill.{may_access_unaligned, store-fill}
use volk.Simd.{SetVl}
use volk.Simd.Blocks.{blocks_lem, fill_at}
use volk.Simd.Unary.{
  LaneOp1, Fits1, point_x1, points_x1, block_x1, simd_x1, two_blocks_x1, simd_two_x1, rvv_loop_x1,
  rvv_x1,
}

pos_of_ne_zero : (n : ℕ) → (n == 0) ≡ false → 0 < n
pos_of_ne_zero n h = ground arith

module _ (spec : ℕ → ℕ) (c a : Buf) (n : ℕ) (fits : Fits1 c a n) where
  open fits use {fit_c, fit_a}

  abbrev pub value : ℕ → ℕ
  value j = spec (a.cell j)

  abbrev pub done : ℕ → Buf
  done k = fill value k c

  module _ (f : ℕ → ℕ) (same : (j : ℕ) → j < n → f (a.cell j) ≡ spec (a.cell j)) where
    point_x1_lem : (j : ℕ) → j < n → point_x1 f a j (done j) ≡ some (done (j + 1))
    unfolding point_x1
    point_x1_lem j h =
        rw (read_lem a j (omega arith))
          (write-fill value j c (f (a.cell j)) (omega arith) (same j h))

    pub points_x1_lem : (from : ℕ) → from ≤ n → points_x1 f from a n (done from) ≡ some (done n)
    unfolding points_x1
    points_x1_lem from h =
        for_loop_chain done (point_x1 f a) (n - from) from n (omega arith)
          (λ r lo hi. point_x1_lem r hi)

    pub generic_x1_lem : points_x1 f 0 a n c ≡ some (fill (λ j. spec (a.cell j)) n c)
    generic_x1_lem = rw (fill-zero value c) at (points_x1_lem 0 (omega arith))

  -- Storing the instruction's result for the points from `o` on does them.
  store-done :
      (m : Access) (w k : ℕ) (op : LaneOp1 k spec) (o : ℕ)
      → may_access m w k c o ≡ true
      → store m w k (done o) o (op.apply (λ l. a.cell (o + l))) ≡ some (done (o + k))
  store-done m w k op o g =
      store-fill m w k value (op.apply (λ l. a.cell (o + l))) c o g (op.lanes (λ l. a.cell (o + l)))

  module _ (m : Access) (wa wc k : ℕ) (op : LaneOp1 k spec) (granted_c : Granted m wc k c)
      (granted_a : Granted m wa k a) where
    block_x1_lem :
        (i : ℕ)
        → k * i + k ≤ n
        → block_x1 m wa wc k op a i (done (k * i)) ≡ some (done (k * (i + 1)))
    unfolding block_x1
    block_x1_lem i h =
        rw (load_lem m wa k a (k * i) (may_access_block m wa k a i granted_a (omega arith))) (
          store-done m wc k op (k * i) (may_access_block m wc k c i granted_c (omega arith))
          ∙ fill_at value c (omega arith))

    two_blocks_x1_lem :
        (i : ℕ)
        → 2 * k * i + 2 * k ≤ n
        → two_blocks_x1 m wa wc k op a i (done (2 * k * i)) ≡ some (done (2 * k * (i + 1)))
    unfolding two_blocks_x1
    two_blocks_x1_lem i h =
        rw
          (
            load_lem m wa k a (k * (2 * i))
                (may_access_block m wa k a (2 * i) granted_a (omega arith)),
            load_lem m wa k a (k * (2 * i + 1))
                (may_access_block m wa k a (2 * i + 1) granted_a (omega arith)),
          )
          (rw
            (
              double,
              store-done m wc k op (k * (2 * i))
                  (may_access_block m wc k c (2 * i) granted_c (omega arith)),
              next,
            )
            (store-done m wc k op (k * (2 * i + 1))
                (may_access_block m wc k c (2 * i + 1) granted_c (omega arith))
              ∙ fill_at value c (omega arith)))
      where
        double : 2 * k * i ≡ k * (2 * i)
        double = omega arith

        next : k * (2 * i) + k ≡ k * (2 * i + 1)
        next = omega arith

    module _ (f : ℕ → ℕ) (same : (j : ℕ) → j < n → f (a.cell j) ≡ spec (a.cell j)) where
      pub simd_x1_lem : simd_x1 m wa wc k op f c a n ≡ some (fill (λ j. spec (a.cell j)) n c)
      unfolding simd_x1
      simd_x1_lem =
          rw (blocks_lem value c n k (block_x1 m wa wc k op a) block_x1_lem)
            (points_x1_lem f same (n / k * k) (div-mul-le_self n k))

      pub simd_two_x1_lem :
          simd_two_x1 m wa wc k op f c a n ≡ some (fill (λ j. spec (a.cell j)) n c)
      unfolding simd_two_x1
      simd_two_x1_lem =
          rw (blocks_lem value c n (2 * k) (two_blocks_x1 m wa wc k op a) two_blocks_x1_lem)
            (points_x1_lem f same (n / (2 * k) * (2 * k)) (div-mul-le_self n (2 * k)))

  module _ (wa wc : ℕ) (set : SetVl) (op : (vl : ℕ) → LaneOp1 vl spec) where
    rvv_loop_x1_lem :
        (fuel left off : ℕ)
        → off + left ≡ n
        → left ≤ fuel
        → rvv_loop_x1 wa wc set op fuel a left off (done off) ≡ some (done n)
    unfolding rvv_loop_x1
    rvv_loop_x1_lem zero left off e enough = ground (arith, fill_at value c {i = off} {j = n})
    rvv_loop_x1_lem (suc fuel) left off e enough = elim (Bool-cases (left == 0)) [
      | inl z ↦ rw (z, rvv_loop_x1) (fill_at value c (omega (arith, ==→eq left 0 z)))
      | inr nz ↦
          let le = set.vl_le left in
          rw (nz, rvv_loop_x1)
            (rw
              (
                load_lem unaligned wa (set.vl left) a off
                    (may_access_unaligned wa (set.vl left) a off (omega (arith, le))),
                store-done unaligned wc (set.vl left) (op (set.vl left)) off
                    (may_access_unaligned wc (set.vl left) c off (omega (arith, le))),
              )
              (rvv_loop_x1_lem fuel (left - set.vl left) (off + set.vl left) (omega (arith, le))
                (omega (arith, set.vl_pos left (pos_of_ne_zero left nz)))))
    ]

    pub rvv_x1_lem : rvv_x1 wa wc set op c a n ≡ some (fill (λ j. spec (a.cell j)) n c)
    unfolding rvv_x1
    rvv_x1_lem = rw (fill-zero value c) at (rvv_loop_x1_lem n n 0 (omega arith) (omega arith))

-- With an instruction that agrees with the operation at these points, a kernel computes the operation.
module _ (f g : ℕ → ℕ) (c a : Buf) (n : ℕ) (fits : Fits1 c a n)
    (same : (j : ℕ) → j < n → g (a.cell j) ≡ f (a.cell j)) where
  pub agreed :
      {r : Option Buf}
      → r ≡ some (fill (λ j. g (a.cell j)) n c)
      → r ≡ some (fill (λ j. f (a.cell j)) n c)
  agreed e = e ∙ ap some (fill_cong (λ j. g (a.cell j)) (λ j. f (a.cell j)) n c same)

  module _ (m : Access) (wa wc k : ℕ) (op : LaneOp1 k g) (granted_c : Granted m wc k c)
      (granted_a : Granted m wa k a) where
    pub simd_x1_agreed : simd_x1 m wa wc k op f c a n ≡ some (fill (λ j. f (a.cell j)) n c)
    simd_x1_agreed =
        agreed (simd_x1_lem g c a n fits m wa wc k op granted_c granted_a f (λ j h. sym (same j h)))

    pub simd_two_x1_agreed : simd_two_x1 m wa wc k op f c a n ≡ some (fill (λ j. f (a.cell j)) n c)
    simd_two_x1_agreed =
        agreed
          (simd_two_x1_lem g c a n fits m wa wc k op granted_c granted_a f (λ j h. sym (same j h)))

  pub rvv_x1_agreed :
      (wa wc : ℕ) (set : SetVl) (op : (vl : ℕ) → LaneOp1 vl g)
      → rvv_x1 wa wc set op c a n ≡ some (fill (λ j. f (a.cell j)) n c)
  rvv_x1_agreed wa wc set op = agreed (rvv_x1_lem g c a n fits wa wc set op)
