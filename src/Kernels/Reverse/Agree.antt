-- ===== src/Kernels/Reverse/Agree.antt =====
-- The seven kernels compute the same.
use volk.Base.{ℕ, ◌^◌, ◌≤◌, ◌<◌, ◌≡◌, refl, sym, ap, ◌∙◌, arith, some, Option, ◌>>=◌, lt→ltb}
use volk.Memory.{Buf}
use volk.Memory.Loop.{for_loop, for_loop_chain}
use volk.Memory.Fill.{fill, fill-zero, fill_cong, read_lem, write-fill}
use volk.Kernels.Byteswap.InPlace.{WordsBelow}
use volk.Kernels.Reverse.{
  reverse_point, reverse_points, volk_32u_reverse_32u_generic, volk_32u_reverse_32u_byte_shuffle,
  volk_32u_reverse_32u_lut, volk_32u_reverse_32u_2001magic, volk_32u_reverse_32u_1972magic,
  volk_32u_reverse_32u_bintree_permute_top_down, volk_32u_reverse_32u_bintree_permute_bottom_up,
}
use volk.Kernels.Reverse.Words.{reflected, reflected-lt, reflected-reflected, mirrored_bits_lem}
use volk.Kernels.Reverse.Bytes.{
  shuffle-reflected, by_table-reflected, magic_2001-reflected, magic_1972-reflected,
}
use volk.Kernels.Reverse.Tree.{top_down-reflected, bottom_up-reflected}

module _ (out input : Buf) (n : ℕ) (fits_out : n ≤ out.size) (fits_input : n ≤ input.size)
    (words : WordsBelow (2 ^ 32) input n) where
  abbrev done : Option Buf
  done = some (fill (λ j. reflected 32 (input.cell j)) n out)

  reverse_points_lem :
      (f : ℕ → Option ℕ)
      → ((x : ℕ) → x < 2 ^ 32 → f x ≡ some (reflected 32 x))
      → reverse_points f out input n ≡ done
  unfolding reverse_points reverse_point
  reverse_points_lem f same =
      ap (for_loop n 0 (reverse_point f input))
        (sym (fill-zero (λ j. reflected 32 (input.cell j)) out))
      ∙ for_loop_chain (λ r. fill (λ j. reflected 32 (input.cell j)) r out) (reverse_point f input)
          n 0 n (omega arith)
          (λ r lo hi.
            rw (read_lem input r (omega arith), same (input.cell r) (words r hi))
              (write-fill (λ j. reflected 32 (input.cell j)) r out (reflected 32 (input.cell r))
                (omega arith) refl))

  -- The seven implementations, on arrays of at least `n` words of 32 bits, leave the same: each of the
  -- first `n` words of the input with its 32 bits in the opposite order, and the rest of the output as it
  -- was.
  pub reverse_agree :
      (volk_32u_reverse_32u_generic out input n ≡ done)
      × (volk_32u_reverse_32u_byte_shuffle out input n ≡ done)
      × (volk_32u_reverse_32u_lut out input n ≡ done)
      × (volk_32u_reverse_32u_2001magic out input n ≡ done)
      × (volk_32u_reverse_32u_1972magic out input n ≡ done)
      × (volk_32u_reverse_32u_bintree_permute_top_down out input n ≡ done)
      × (volk_32u_reverse_32u_bintree_permute_bottom_up out input n ≡ done)
  unfolding volk_32u_reverse_32u_generic volk_32u_reverse_32u_byte_shuffle volk_32u_reverse_32u_lut
      volk_32u_reverse_32u_2001magic volk_32u_reverse_32u_1972magic
      volk_32u_reverse_32u_bintree_permute_top_down volk_32u_reverse_32u_bintree_permute_bottom_up
  reverse_agree = (
    reverse_points_lem _ (λ x h. ap some (mirrored_bits_lem 31 x)),
    reverse_points_lem _ (λ x h. ap some (shuffle-reflected x h)),
    reverse_points_lem _ by_table-reflected,
    reverse_points_lem _ (λ x h. ap some (magic_2001-reflected x h)),
    reverse_points_lem _ (λ x h. ap some (magic_1972-reflected x h)),
    reverse_points_lem _ (λ x h. ap some (top_down-reflected x h)),
    reverse_points_lem _ (λ x h. ap some (bottom_up-reflected x h)),
  )

-- The reversal undone: from the output of one implementation another one makes the words again, here the
-- table from what the exchange of fields has left.
pub lut-bintree :
    (restored out input : Buf) (n : ℕ)
    → n ≤ restored.size
    → n ≤ out.size
    → n ≤ input.size
    → WordsBelow (2 ^ 32) input n
    → (volk_32u_reverse_32u_bintree_permute_top_down out input n >>= λ out'.
        volk_32u_reverse_32u_lut restored out' n)
      ≡ some (fill input.cell n restored)
lut-bintree restored out input n fits_restored fits_out fits_input words =
    rw ((reverse_agree out input n fits_out fits_input words).5) (
      (reverse_agree restored reversed n fits_restored fits_out below).2
      ∙ ap some (fill_cong (λ j. reflected 32 (reversed.cell j)) input.cell n restored back))
  where
    reversed : Buf
    reversed = fill (λ j. reflected 32 (input.cell j)) n out

    below : WordsBelow (2 ^ 32) reversed n
    below j lt = rw (lt→ltb j n lt) (reflected-lt 32 (input.cell j))

    back : (j : ℕ) → j < n → reflected 32 (reversed.cell j) ≡ input.cell j
    back j lt = rw (lt→ltb j n lt) (reflected-reflected 32 (input.cell j) (words j lt))
