-- ===== src/Kernels/Convert/Inverse.antt =====
-- The conversions one after the other.
use volk.Base.{ℕ, ◌*◌, ◌/◌, ◌^◌, ◌<◌, ◌≡◌, ap, ◌∙◌, some, arith, ◌>>=◌, lt→ltb}
use volk.Memory.{Buf}
use volk.Memory.Fill.{fill, fill_cong}
use volk.Simd.Unary.{Fits1, StartAt1}
use volk.Kernels.Convert.Widen
use volk.Kernels.Convert.Narrow

-- Any implementation of the one kernel makes the first `n` bytes of the input the high bytes of words, and
-- leaves the rest of the output alone; and from these words any implementation of the other restores the
-- bytes. The arrays have at least `n` points and start at a multiple of the alignment of the implementation
-- that works on them.
pub narrow-widen :
    (wide : Widen.Instructions) (slim : Narrow.Instructions) (i : Widen.Impl) (j : Narrow.Impl)
    (restored c a : Buf) (n : ℕ)
    → Fits1 c a n
    → StartAt1 (Widen.alignment i) (Widen.alignment i) c a
    → Fits1 restored c n
    → StartAt1 (Narrow.alignment j) (Narrow.alignment j) restored c
    → ((k : ℕ) → k < n → a.cell k < 256)
    → (Widen.run wide i c a n ≡ some (fill (λ k. a.cell k * 256) n c))
      × ((Widen.run wide i c a n >>= λ c'. Narrow.run slim j restored c' n)
          ≡ some (fill a.cell n restored))
narrow-widen wide slim i j restored c a n fits starts fits' starts' small = (
  Widen.widen_run_lem wide i c a n fits starts small,
  rw (Widen.widen_run_lem wide i c a n fits starts small) (
      Narrow.narrow_run_lem slim j restored words n
        (record { fit_c = fits'.fit_c; fit_a = fits'.fit_a })
        (record { start_c = starts'.start_c; start_a = starts'.start_a }) below
      ∙ ap some (fill_cong (λ k. words.cell k / 256) a.cell n restored back)),
)
  where
    words : Buf
    words = fill (λ k. a.cell k * 256) n c

    below : (k : ℕ) → k < n → words.cell k < 2 ^ 16
    below k h = rw (lt→ltb k n h) (omega (arith, small k h))

    back : (k : ℕ) → k < n → words.cell k / 256 ≡ a.cell k
    back k h = rw (lt→ltb k n h) (omega arith)
