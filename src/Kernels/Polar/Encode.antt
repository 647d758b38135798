-- ===== src/Kernels/Polar/Encode.antt =====
-- The encoder of a frame.
use volk.Base.{
  ℕ, zero, suc, ◌+◌, ◌*◌, ◌/◌, ◌^◌, ◌≤◌, ◌<◌, ◌≡◌, refl, sym, fun_ext, ap, ◌∙◌, some, arith,
}
use volk.Base.{◌==◌, ==→eq, for_all_under, for_all_under_lem, ◌>>=◌, ltb, if◌then◌else◌}
use mathlib.Core.Path.{ap₂, subst}
use native.Mathlib.Nat.{pow-suc, pow-le-pow_right}
use volk.Memory.{Buf}
use volk.Memory.Fill.{fill, fill_cong, cell_ext}
use volk.Kernels.Polar.{log2_of_power_of_2, polar_stages, volk_8u_x2_encodeframepolar_8u_generic}
use volk.Kernels.Polar.Transform.{transform, transform_cong, transform-transform}
use volk.Kernels.Polar.Frame.{Ready, stages_lem, fill_twice, fill_below}

-- The logarithm is exact on the powers of two of 32 bits.
pub log2_lem : (k : ℕ) → k < 32 → log2_of_power_of_2 (2 ^ k) ≡ k
unfolding log2_of_power_of_2 for_all_under
log2_lem k h =
    ==→eq (log2_of_power_of_2 (2 ^ k)) k
      (for_all_under_lem (λ k. log2_of_power_of_2 (2 ^ k) == k) 32 k h refl)

pub start_Ready :
    (k : ℕ) (frame temp : Buf)
    → (small : 2 ^ suc k < 2 ^ 32) → 2 ^ suc k ≤ frame.size
    → 2 ^ suc k ≤ temp.size
    → Ready (transform (suc k) temp.cell) (2 ^ suc k) small k 1 (2 ^ suc k / 2) frame temp
start_Ready k frame temp small hf ht = record {
  whole = omega arith;
  halved = omega (arith, pow-suc 2 k);
  fits_frame = hf;
  fits_temp = ht;
  pending = λ b j lb lj.
      let only : b ≡ 0 = omega arith in
      subst
        (λ b.
          transform (suc k) (λ i. temp.cell (2 ^ suc k * b + i)) j
          ≡ transform (suc k) temp.cell (2 ^ suc k * b + j))
        (sym only)
        (ap₂ (transform (suc k)) (fun_ext (λ i. ap temp.cell (omega arith))) (omega arith));
}

-- On arrays of at least `2 ^ k` elements, for `k` from 1 to 31, the encoder runs to the end without a
-- fault and leaves the polar transform of the first `2 ^ k` elements of `temp` in the first `2 ^ k`
-- elements of both arrays, and the rest alone.
pub encodeframe_lem :
    (k : ℕ) (frame temp : Buf)
    → 0 < k
    → k < 32
    → 2 ^ k ≤ frame.size
    → 2 ^ k ≤ temp.size
    → volk_8u_x2_encodeframepolar_8u_generic frame temp (2 ^ k)
      ≡ some (fill (transform k temp.cell) (2 ^ k) frame, fill (transform k temp.cell) (2 ^ k) temp)
unfolding volk_8u_x2_encodeframepolar_8u_generic
encodeframe_lem zero frame temp pos small hf ht = absurd (omega arith)
encodeframe_lem (suc k) frame temp pos small hf ht =
    ap (λ stage. polar_stages stage (2 ^ suc k) 1 (2 ^ suc k / 2) frame temp)
      (log2_lem (suc k) small)
    ∙ stages_lem (transform (suc k) temp.cell) (2 ^ suc k) below k 1 (2 ^ suc k / 2) frame temp
        (start_Ready k frame temp below hf ht)
  where
    below : 2 ^ suc k < 2 ^ 32
    below = omega (arith, pow-le-pow_right {n = 2} (omega arith) {i = suc k} {j = 31} (omega arith))

fill-own : (n : ℕ) (b : Buf) → fill b.cell n b ≡ b
fill-own n b = cell_ext b (λ j. if ltb j n then b.cell j else b.cell j) b.cell (λ j. ground arith)

-- Encoding twice decodes: from the arrays that the first call leaves, the second restores `temp`, and
-- leaves its first `2 ^ k` elements in `frame` too.
pub encodeframe-encodeframe :
    (k : ℕ) (frame temp : Buf)
    → 0 < k
    → k < 32
    → 2 ^ k ≤ frame.size
    → 2 ^ k ≤ temp.size
    → (volk_8u_x2_encodeframepolar_8u_generic frame temp (2 ^ k) >>= λ (frame', temp').
        volk_8u_x2_encodeframepolar_8u_generic frame' temp' (2 ^ k))
      ≡ some (fill temp.cell (2 ^ k) frame, temp)
encodeframe-encodeframe k frame temp pos small hf ht =
    rw (encodeframe_lem k frame temp pos small hf ht) (
      encodeframe_lem k (fill word (2 ^ k) frame) (fill word (2 ^ k) temp) pos small hf ht
      ∙ ap₂ (λ x y. some (x, y)) (restored frame) (restored temp ∙ fill-own (2 ^ k) temp))
  where
    word : ℕ → ℕ
    word = transform k temp.cell

    restored :
        (b : Buf)
        → fill (transform k (fill word (2 ^ k) temp).cell) (2 ^ k) (fill word (2 ^ k) b)
          ≡ fill temp.cell (2 ^ k) b
    restored b =
        fill_twice (transform k (fill word (2 ^ k) temp).cell) word (2 ^ k) b
        ∙ fill_cong (transform k (fill word (2 ^ k) temp).cell) temp.cell (2 ^ k) b (λ j lt.
          transform_cong k (fill word (2 ^ k) temp).cell word j
            (λ i li. fill_below word (2 ^ k) temp i li) lt
          ∙ transform-transform k temp.cell j lt)
