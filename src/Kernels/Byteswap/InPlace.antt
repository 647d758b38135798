-- ===== src/Kernels/Byteswap/InPlace.antt =====
-- The loops over an array of words.
use volk.Base.{ℕ, ◌^◌, ◌≤◌, ◌<◌, ◌≡◌, sym, ap, ◌∙◌, some, arith, ◌>>=◌, lt→ltb}
use volk.Memory.{Buf}
use volk.Memory.Loop.{for_loop, for_loop_chain}
use volk.Memory.Fill.{fill, fill-zero, fill-fill, read-fill, write-fill}
use volk.Kernels.Byteswap.{
  point_in_place, swapped_16, swapped_32, volk_16u_byteswap_generic, volk_32u_byteswap_generic,
}
use volk.Kernels.Byteswap.Words.{reversed_16, reversed_32, swapped_16_lem, swapped_32_lem}
use volk.Kernels.Byteswap.Words.{reversed_16-reversed_16, reversed_32-reversed_32}

-- The array's first `n` words are below `limit`.
abbrev pub WordsBelow : ℕ → Buf → ℕ → Type 0
WordsBelow limit b n = (j : ℕ) → j < n → b.cell j < limit

module _ (f g : ℕ → ℕ) (limit : ℕ) (same : (x : ℕ) → x < limit → f x ≡ g x) where
  -- The loop applies `g` to every word.
  in_place_lem :
      (b : Buf) (n : ℕ)
      → n ≤ b.size
      → WordsBelow limit b n
      → for_loop n 0 (point_in_place f) b ≡ some (fill (λ j. g (b.cell j)) n b)
  unfolding point_in_place
  in_place_lem b n fits words =
      ap (λ s. for_loop n 0 (point_in_place f) s) (sym (fill-zero (λ j. g (b.cell j)) b))
      ∙ for_loop_chain (λ r. fill (λ j. g (b.cell j)) r b) (point_in_place f) n 0 n (omega arith)
          (λ r lo hi. rw (read-fill (λ j. g (b.cell j)) r b r (omega arith) (omega arith)) (
            write-fill (λ j. g (b.cell j)) r b (f (b.cell r)) (omega arith)
              (same (b.cell r) (words r hi))))

  -- Twice, where `g` is its own inverse on words, is no change.
  twice_lem :
      ((x : ℕ) → x < limit → (g x < limit) × (g (g x) ≡ x))
      → (b : Buf) (n : ℕ) → n ≤ b.size
      → WordsBelow limit b n
      → (for_loop n 0 (point_in_place f) b >>= λ s. for_loop n 0 (point_in_place f) s) ≡ some b
  twice_lem inverse b n fits words = rw (in_place_lem b n fits words) (
      in_place_lem (fill (λ j. g (b.cell j)) n b) n fits still_words
      ∙ ap some (fill-fill g n b (λ j lt. (inverse (b.cell j) (words j lt)).1)))
    where
      still_words : WordsBelow limit (fill (λ j. g (b.cell j)) n b) n
      still_words j lt = rw (lt→ltb j n lt) (inverse (b.cell j) (words j lt)).0

-- An array of at least `n` words of 16 bits comes back with the two bytes of each of the first `n`
-- exchanged; and the same again restores it.
pub byteswap_16_lem :
    (b : Buf) (n : ℕ)
    → n ≤ b.size
    → WordsBelow (2 ^ 16) b n
    → (volk_16u_byteswap_generic b n ≡ some (fill (λ j. reversed_16 (b.cell j)) n b))
      × ((volk_16u_byteswap_generic b n >>= λ s. volk_16u_byteswap_generic s n) ≡ some b)
unfolding volk_16u_byteswap_generic
byteswap_16_lem b n fits words = (
  in_place_lem swapped_16 reversed_16 (2 ^ 16) swapped_16_lem b n fits words,
  twice_lem swapped_16 reversed_16 (2 ^ 16) swapped_16_lem reversed_16-reversed_16 b n fits words,
)

-- An array of at least `n` words of 32 bits comes back with the four bytes of each of the first `n` in
-- the opposite order; and the same again restores it.
pub byteswap_32_lem :
    (b : Buf) (n : ℕ)
    → n ≤ b.size
    → WordsBelow (2 ^ 32) b n
    → (volk_32u_byteswap_generic b n ≡ some (fill (λ j. reversed_32 (b.cell j)) n b))
      × ((volk_32u_byteswap_generic b n >>= λ s. volk_32u_byteswap_generic s n) ≡ some b)
unfolding volk_32u_byteswap_generic
byteswap_32_lem b n fits words = (
  in_place_lem swapped_32 reversed_32 (2 ^ 32) swapped_32_lem b n fits words,
  twice_lem swapped_32 reversed_32 (2 ^ 32) swapped_32_lem reversed_32-reversed_32 b n fits words,
)
