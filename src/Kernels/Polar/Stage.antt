-- ===== src/Kernels/Polar/Stage.antt =====
-- What one stage writes.
use volk.Base.{
  ℕ, ◌+◌, ◌-◌, ◌*◌, ◌/◌, ◌%◌, ◌≤◌, ◌<◌, ◌≡◌, false, refl, sym, ap, ◌∙◌, some, arith, bit_xor,
}
use volk.Base.{ltb, if◌then◌else◌, lt→ltb}
use volk.Memory.{Buf}
use volk.Memory.Loop.{for_loop, for_loop_chain}
use volk.Memory.Fill.{fill, fill-zero, read_lem}
use volk.Memory.Halves.{half_filled, half_filled_start, half_filled_end, write-half_filled}
use volk.Kernels.Polar.{polar_point, encodepolar_single_stage}
use mathlib.Core.Path.{ap₂}
use native.Mathlib.Nat.{
  mul-add-div, mul-add-mod_self_left, div-eq_of_lt, mod-eq_of_lt, mul-le-mul_left,
}

-- Block `b` holds in its first half the sums of the neighbours, and then the second ones.
abbrev pub block_value : ℕ → (ℕ → ℕ) → ℕ → ℕ → ℕ
block_value h t b r =
    if ltb r h
    then bit_xor (t (2 * (h * b + r))) (t (2 * (h * b + r) + 1))
    else t (2 * (h * b + (r - h)) + 1)

abbrev pub stage_value : ℕ → (ℕ → ℕ) → ℕ → ℕ
stage_value h t i = block_value h t (i / (2 * h)) (i % (2 * h))

module _ (h : ℕ) (t : ℕ → ℕ) where
  at_block : (b r : ℕ) → r < 2 * h → stage_value h t (2 * h * b + r) ≡ block_value h t b r
  at_block b r lt =
      ap₂ (block_value h t)
        (mul-add-div {m = 2 * h} (omega arith) b r
          ∙ ap (λ q. b + q) (div-eq_of_lt lt)
          ∙ omega arith)
        (mul-add-mod_self_left (2 * h) b r ∙ mod-eq_of_lt lt)

  pub stage_value_low :
      (b k : ℕ)
      → k < h
      → stage_value h t (2 * h * b + k) ≡ bit_xor (t (2 * (h * b + k))) (t (2 * (h * b + k) + 1))
  stage_value_low b k lt = at_block b k (omega arith) ∙ rw (lt→ltb k h lt) refl

  pub stage_value_high :
      (b k : ℕ) → k < h → stage_value h t (2 * h * b + h + k) ≡ t (2 * (h * b + k) + 1)
  stage_value_high b k lt =
      ap (stage_value h t) (omega arith)
      ∙ at_block b (h + k) (omega arith)
      ∙ rw (not_below, same) refl
    where
      not_below : ltb (h + k) h ≡ false
      not_below = ground arith

      same : h + k - h ≡ k
      same = omega arith

-- A block of a stage, and all of them.
module _ (frame temp : Buf) (h branches : ℕ) (fits_frame : 2 * h * branches ≤ frame.size)
    (fits_temp : 2 * h * branches ≤ temp.size) where
  value : ℕ → ℕ
  value = stage_value h temp.cell

  block_within : (b : ℕ) → b < branches → 2 * h * b + 2 * h ≤ 2 * h * branches
  block_within b lt = omega (arith, mul-le-mul_left (2 * h) lt)

  polar_point_lem :
      (b k : ℕ)
      → b < branches
      → k < h
      → polar_point temp h b k (half_filled value (2 * h * b) h k frame)
        ≡ some (half_filled value (2 * h * b) h (k + 1) frame)
  unfolding polar_point value
  polar_point_lem b k lb lk =
      let w = block_within b lb in
      rw
        (
          read_lem temp (2 * (h * b + k)) (omega arith),
          read_lem temp (2 * (h * b + k) + 1) (omega arith),
        )
        (write-half_filled value (2 * h * b) h k
          (bit_xor (temp.cell (2 * (h * b + k))) (temp.cell (2 * (h * b + k) + 1)))
          (temp.cell (2 * (h * b + k) + 1)) frame lk (omega arith)
          (sym (stage_value_low h temp.cell b k lk)) (sym (stage_value_high h temp.cell b k lk)))

  block_lem :
      (b : ℕ)
      → b < branches
      → for_loop h 0 (polar_point temp h b) (fill value (2 * h * b) frame)
        ≡ some (fill value (2 * h * (b + 1)) frame)
  block_lem b lt =
      ap (for_loop h 0 (polar_point temp h b)) (sym (half_filled_start value (2 * h * b) h frame))
      ∙ for_loop_chain (λ k. half_filled value (2 * h * b) h k frame) (polar_point temp h b) h 0 h
          (omega arith) (λ k lo hi. polar_point_lem b k lt hi)
      ∙ ap some
          (half_filled_end value (2 * h * b) h frame ∙ ap (λ n. fill value n frame) (omega arith))

  pub single_stage_lem :
      encodepolar_single_stage frame temp branches h
      ≡ some (fill (stage_value h temp.cell) (2 * h * branches) frame)
  unfolding encodepolar_single_stage value
  single_stage_lem =
      ap (for_loop branches 0 (λ b. for_loop h 0 (polar_point temp h b)))
        (sym (fill-zero value frame) ∙ ap (λ n. fill value n frame) (omega arith))
      ∙ for_loop_chain (λ b. fill value (2 * h * b) frame)
          (λ b. for_loop h 0 (polar_point temp h b)) branches 0 branches (omega arith)
          (λ b lo hi. block_lem b hi)
