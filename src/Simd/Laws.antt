-- ===== src/Simd/Laws.antt =====
-- Every loop skeleton computes the same: the function at each point, and nothing else changes.
use native.Mathlib.Nat.{div-mul-le_self}
use volk.Base.{ℕ, zero, suc, ◌+◌, ◌-◌, ◌*◌, ◌/◌, ◌≤◌, ◌<◌, ◌≡◌, ◌∙◌, ap, inl, inr}
use volk.Base.{true, Option, some, arith, ◌>>=◌, ◌==◌, Bool-cases, ==→eq, false}
use volk.Memory.{Buf, Access, aligned, unaligned, load, store, may_access}
use volk.Memory.Loop.{for_loop_chain}
use volk.Memory.Fill.{
  fill, fill-zero, fill_cong, read_lem, write-fill, Granted, may_access_block, load_lem,
}
use volk.Memory.Fill.{may_access_unaligned}
use volk.Memory.Fill.{store-fill}
use volk.Simd.{
  LaneOp2, SetVl, Fits, StartAt, point_x2, points_x2, block_x2, simd_x2, two_blocks_x2, simd_two_x2,
}
use volk.Simd.Blocks.{blocks_lem, fill_at}
use volk.Simd.{rvv_loop_x2, rvv_x2, simd_stepped_x2}
use volk.Base.{leb, leb→le}

-- All three arrays may be accessed by vectors of `k` elements of `w` bytes.
pub record AllGranted (m : Access) (w k : ℕ) (c a b : Buf) : Type 0 where
  pub granted_c : Granted m w k c
  pub granted_a : Granted m w k a
  pub granted_b : Granted m w k b

-- The aligned forms want all three arrays aligned to the vector.
pub granted_aligned : {w k : ℕ} {c a b : Buf} → StartAt (w * k) c a b → AllGranted aligned w k c a b
granted_aligned s = record { granted_c = s.start_c; granted_a = s.start_a; granted_b = s.start_b }

-- The unaligned forms want nothing.
pub granted_unaligned : (w k : ℕ) (c a b : Buf) → AllGranted unaligned w k c a b
granted_unaligned w k c a b = record { granted_c = tt; granted_a = tt; granted_b = tt }

pos_of_ne_zero : (n : ℕ) → (n == 0) ≡ false → 0 < n
pos_of_ne_zero n h = ground arith

-- An instruction that agrees with the operation at these points leaves what the operation would.
pub agreed :
    (f g : ℕ → ℕ → ℕ) (c a b : Buf) (n : ℕ) {r : Option Buf}
    → ((j : ℕ) → j < n → g (a.cell j) (b.cell j) ≡ f (a.cell j) (b.cell j))
    → r ≡ some (fill (λ j. g (a.cell j) (b.cell j)) n c)
    → r ≡ some (fill (λ j. f (a.cell j) (b.cell j)) n c)
agreed f g c a b n same e =
    e ∙ ap some (fill_cong (λ j. g (a.cell j) (b.cell j)) (λ j. f (a.cell j) (b.cell j)) n c same)

module _ (spec : ℕ → ℕ → ℕ) (c a b : Buf) (n : ℕ) where
  -- The value of point `j`, and the output with the first `k` points done.
  abbrev pub point_value : ℕ → ℕ
  point_value j = spec (a.cell j) (b.cell j)

  abbrev pub done : ℕ → Buf
  done k = fill point_value k c

  -- Storing the instruction's result for the points from `o` on does them.
  store-done :
      (m : Access) (w k : ℕ) (op : LaneOp2 k spec) (o : ℕ)
      → may_access m w k c o ≡ true
      → store m w k (done o) o (op.apply (λ l. a.cell (o + l)) (λ l. b.cell (o + l)))
        ≡ some (done (o + k))
  store-done m w k op o g =
      store-fill m w k point_value (op.apply (λ l. a.cell (o + l)) (λ l. b.cell (o + l))) c o g
        (op.lanes (λ l. a.cell (o + l)) (λ l. b.cell (o + l)))

  done_at : {i j : ℕ} → i ≡ j → some (done i) ≡ some (done j)
  done_at e = fill_at point_value c e

  module _ (fits : Fits c a b n) where
    open fits use {fit_c, fit_a, fit_b}

    module _ (f : ℕ → ℕ → ℕ)
        (same : (j : ℕ) → j < n → f (a.cell j) (b.cell j) ≡ spec (a.cell j) (b.cell j)) where
      point_x2_lem : (j : ℕ) → j < n → point_x2 f a b j (done j) ≡ some (done (j + 1))
      unfolding point_x2
      point_x2_lem j h =
          rw (read_lem a j (omega arith), read_lem b j (omega arith))
            (write-fill point_value j c (f (a.cell j) (b.cell j)) (omega arith) (same j h))

      pub points_x2_lem : (from : ℕ) → from ≤ n → points_x2 f from a b n (done from) ≡ some (done n)
      unfolding points_x2
      points_x2_lem from h =
          for_loop_chain done (point_x2 f a b) (n - from) from n (omega arith)
            (λ r lo hi. point_x2_lem r hi)

      -- The scalar loop over all points.
      pub generic_x2_lem : points_x2 f 0 a b n c ≡ some (done n)
      generic_x2_lem = rw (fill-zero point_value c) at (points_x2_lem 0 (omega arith))

    module _ (m : Access) (w k : ℕ) (op : LaneOp2 k spec) (granted : AllGranted m w k c a b) where
      open granted use {granted_c, granted_a, granted_b}

      block_x2_lem :
          (i : ℕ)
          → k * i + k ≤ n
          → block_x2 m w k op a b i (done (k * i)) ≡ some (done (k * (i + 1)))
      unfolding block_x2
      block_x2_lem i h =
          rw
            (
              load_lem m w k a (k * i) (may_access_block m w k a i granted_a (omega arith)),
              load_lem m w k b (k * i) (may_access_block m w k b i granted_b (omega arith)),
            )
            (store-done m w k op (k * i) (may_access_block m w k c i granted_c (omega arith))
              ∙ done_at (omega arith))

      two_blocks_x2_lem :
          (i : ℕ)
          → 2 * k * i + 2 * k ≤ n
          → two_blocks_x2 m w k op a b i (done (2 * k * i)) ≡ some (done (2 * k * (i + 1)))
      unfolding two_blocks_x2
      two_blocks_x2_lem i h =
          rw
            (
              load_lem m w k a (k * (2 * i))
                  (may_access_block m w k a (2 * i) granted_a (omega arith)),
              load_lem m w k a (k * (2 * i + 1))
                  (may_access_block m w k a (2 * i + 1) granted_a (omega arith)),
              load_lem m w k b (k * (2 * i))
                  (may_access_block m w k b (2 * i) granted_b (omega arith)),
              load_lem m w k b (k * (2 * i + 1))
                  (may_access_block m w k b (2 * i + 1) granted_b (omega arith)),
            )
            (rw
              (
                double,
                store-done m w k op (k * (2 * i))
                    (may_access_block m w k c (2 * i) granted_c (omega arith)),
                next,
              )
              (store-done m w k op (k * (2 * i + 1))
                  (may_access_block m w k c (2 * i + 1) granted_c (omega arith))
                ∙ done_at (omega arith)))
        where
          double : 2 * k * i ≡ k * (2 * i)
          double = omega arith

          next : k * (2 * i) + k ≡ k * (2 * i + 1)
          next = omega arith

      -- Whole vectors, then the rest point by point.
      pub simd_x2_lem :
          (f : ℕ → ℕ → ℕ)
          → ((j : ℕ) → j < n → f (a.cell j) (b.cell j) ≡ spec (a.cell j) (b.cell j))
          → simd_x2 m w k op f c a b n ≡ some (done n)
      unfolding simd_x2
      simd_x2_lem f same =
          rw (blocks_lem point_value c n k (block_x2 m w k op a b) block_x2_lem)
            (points_x2_lem f same (n / k * k) (omega arith))

      pub simd_two_x2_lem :
          (f : ℕ → ℕ → ℕ)
          → ((j : ℕ) → j < n → f (a.cell j) (b.cell j) ≡ spec (a.cell j) (b.cell j))
          → simd_two_x2 m w k op f c a b n ≡ some (done n)
      unfolding simd_two_x2
      simd_two_x2_lem f same =
          rw (blocks_lem point_value c n (2 * k) (two_blocks_x2 m w k op a b) two_blocks_x2_lem)
            (points_x2_lem f same (n / (2 * k) * (2 * k)) (div-mul-le_self n (2 * k)))

      pub simd_stepped_x2_lem :
          (f : ℕ → ℕ → ℕ)
          → ((j : ℕ) → j < n → f (a.cell j) (b.cell j) ≡ spec (a.cell j) (b.cell j))
          → simd_stepped_x2 m w k op f c a b n ≡ some (done n)
      unfolding simd_stepped_x2
      simd_stepped_x2_lem f same =
          rw (blocks_lem point_value c n (2 * k) (two_blocks_x2 m w k op a b) two_blocks_x2_lem)
            (elim (Bool-cases (leb k (n - pairs * (2 * k)))) [
              | inl more ↦
                  rw (more, simd_stepped_x2)
                    (rw (twice, block_x2_lem (2 * pairs) (one_more more))
                      (points_x2_lem f same (k * (2 * pairs + 1)) (omega (arith, one_more more))))
              | inr less ↦
                  rw (less, simd_stepped_x2)
                    (points_x2_lem f same (pairs * (2 * k)) (div-mul-le_self n (2 * k)))
            ])
        where
          pairs : ℕ
          pairs = n / (2 * k)

          twice : pairs * (2 * k) ≡ k * (2 * pairs)
          twice = omega arith

          one_more : leb k (n - pairs * (2 * k)) ≡ true → k * (2 * pairs) + k ≤ n
          one_more h = omega (arith, leb→le k (n - pairs * (2 * k)) h, div-mul-le_self n (2 * k))

    module _ (w : ℕ) (set : SetVl) (op : (vl : ℕ) → LaneOp2 vl spec) where
      -- A round that works on `v` of the points left does them.
      rvv_round :
          (fuel left off v : ℕ)
          → off + v ≤ n
          → rvv_loop_x2 w set op fuel a b (left - v) (off + v) (done (off + v)) ≡ some (done n)
          → (load unaligned w v a off >>= λ x. load unaligned w v b off >>= λ y.
              store unaligned w v (done off) off ((op v).apply x y) >>= λ c'.
              rvv_loop_x2 w set op fuel a b (left - v) (off + v) c')
            ≡ some (done n)
      rvv_round fuel left off v h rest =
          rw
            (
              load_lem unaligned w v a off (may_access_unaligned w v a off (omega arith)),
              load_lem unaligned w v b off (may_access_unaligned w v b off (omega arith)),
              store-done unaligned w v (op v) off (may_access_unaligned w v c off (omega arith)),
            )
            rest

      rvv_loop_x2_lem :
          (fuel left off : ℕ)
          → off + left ≡ n
          → left ≤ fuel
          → rvv_loop_x2 w set op fuel a b left off (done off) ≡ some (done n)
      unfolding rvv_loop_x2
      rvv_loop_x2_lem zero left off e enough = ground (arith, done_at {i = off} {j = n})
      rvv_loop_x2_lem (suc fuel) left off e enough = elim (Bool-cases (left == 0)) [
        | inl z ↦ rw (z, rvv_loop_x2) (done_at (omega (arith, ==→eq left 0 z)))
        | inr nz ↦
            rw (nz, rvv_loop_x2)
              (rvv_round fuel left off (set.vl left) (omega (arith, set.vl_le left)) (
                rvv_loop_x2_lem fuel (left - set.vl left) (off + set.vl left)
                  (omega (arith, set.vl_le left))
                  (omega (arith, set.vl_pos left (pos_of_ne_zero left nz)))))
      ]

      pub rvv_x2_lem : rvv_x2 w set op c a b n ≡ some (done n)
      unfolding rvv_x2
      rvv_x2_lem =
          rw (fill-zero point_value c) at (rvv_loop_x2_lem n n 0 (omega arith) (omega arith))
