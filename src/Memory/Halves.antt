-- ===== src/Memory/Halves.antt =====
-- Arrays that are written at two places at once: the two halves of a block.
use volk.Base.{ℕ, ◌+◌, ◌*◌, ◌≤◌, ◌<◌, ◌≡◌, ap, Bool, ◌&&◌, ◌||◌, some, arith}
use volk.Base.{ltb, leb, ◌==◌, if◌then◌else◌, lt→ltb, ◌>>=◌}
use volk.Memory.{Buf, write}
use volk.Memory.Fill.{fill, cell_ext}

-- Done: all below `o`, and the first `k` of both halves of the block of `2 * h` elements at `o`.
abbrev pub reached : ℕ → ℕ → ℕ → ℕ → Bool
reached o h k j = ltb j (o + k) || (leb (o + h) j && ltb j (o + h + k))

abbrev pub half_filled : (ℕ → ℕ) → ℕ → ℕ → ℕ → Buf → Buf
half_filled f o h k b = record b { cell = λ j. if reached o h k j then f j else b.cell j }

pub half_filled_start : (f : ℕ → ℕ) (o h : ℕ) (b : Buf) → half_filled f o h 0 b ≡ fill f o b
half_filled_start f o h b =
    cell_ext b (λ j. if reached o h 0 j then f j else b.cell j)
      (λ j. if ltb j o then f j else b.cell j) (λ j. ground arith)

pub half_filled_end : (f : ℕ → ℕ) (o h : ℕ) (b : Buf) → half_filled f o h h b ≡ fill f (o + 2 * h) b
half_filled_end f o h b =
    cell_ext b (λ j. if reached o h h j then f j else b.cell j)
      (λ j. if ltb j (o + 2 * h) then f j else b.cell j) (λ j. ground arith)

-- One element of each half.
pub write-half_filled :
    (f : ℕ → ℕ) (o h k v w : ℕ) (b : Buf)
    → k < h
    → o + 2 * h ≤ b.size
    → v ≡ f (o + k)
    → w ≡ f (o + h + k)
    → (write (half_filled f o h k b) (o + k) v >>= λ b'. write b' (o + h + k) w)
      ≡ some (half_filled f o h (k + 1) b)
unfolding write
write-half_filled f o h k v w b lt fits ev ew =
    rw (lt→ltb (o + k) b.size (omega arith), lt→ltb (o + h + k) b.size (omega arith))
      (ap some (
        cell_ext b
          (λ j.
            if j == o + h + k
            then w
            else if j == o + k
            then v
            else if reached o h k j
            then f j
            else b.cell j)
          (λ j. if reached o h (k + 1) j then f j else b.cell j) (λ j. ground arith)))
