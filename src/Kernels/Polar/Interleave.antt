-- ===== src/Kernels/Polar/Interleave.antt =====
-- The frozen and the information bits, and the encoder that takes both.
use volk.Base.{
  ℕ, zero, suc, ◌+◌, ◌^◌, ◌≤◌, ◌<◌, ◌≡◌, refl, sym, ap, ◌∙◌, Bool, not, ==→eq, true, false, some,
  arith,
}
use volk.Base.{◌==◌, ◌>>=◌, if◌then◌else◌, Bool-cases, inl, inr}
use mathlib.Core.Path.{ap₂, subst}
use volk.Memory.{Buf, read, write}
use volk.Memory.Loop.{for_loop, for_loop_chain}
use volk.Memory.Fill.{fill, fill-zero, fill_cong, read_lem, write-fill}
use volk.Kernels.Polar.{Taken, interleave_bit, interleave_frozen_and_info_bits}
use volk.Kernels.Polar.{volk_8u_x3_encodepolar_8u_x2_generic}
use volk.Kernels.Polar.Transform.{transform, transform_cong}
use volk.Kernels.Polar.Frame.{fill_below}
use volk.Kernels.Polar.Encode.{encodeframe_lem}

-- How many of the first `n` places pass the test.
abbrev pub count_if : (ℕ → Bool) → ℕ → ℕ
count_if test zero = 0
count_if test (suc n) = if test n then suc (count_if test n) else count_if test n

count_if-suc : (test : ℕ → Bool) (n : ℕ) → count_if test n ≤ count_if test (suc n)
count_if-suc test n = ground arith

count_if_step :
    (test : ℕ → Bool) (r n : ℕ) → r < n → test r ≡ true → count_if test r < count_if test n
count_if_step test r zero lt passes = absurd (omega arith)
count_if_step test r (suc n) lt passes = elim (Bool-cases (r == n)) [
  | inl last ↦
      subst (λ m. count_if test r < count_if test (suc m)) (==→eq r n last)
        (rw passes (omega arith))
  | inr before ↦ omega (arith, count_if_step test r n (ground arith) passes, count_if-suc test n)
]

-- The frozen places of the mask, and the others.
abbrev pub is_frozen : (ℕ → ℕ) → ℕ → Bool
is_frozen mask j = not (mask j == 0)

abbrev pub is_info : (ℕ → ℕ) → ℕ → Bool
is_info mask j = mask j == 0

-- Bit `j`: the next one of its kind.
abbrev pub interleaved : (mask frozen info : ℕ → ℕ) → ℕ → ℕ
interleaved mask frozen info j =
    if mask j == 0 then info (count_if (is_info mask) j) else frozen (count_if (is_frozen mask) j)

module _ (mask frozen info : Buf) (s : Taken) (bit m x : ℕ) (b : Buf)
    (mask_read : read mask bit ≡ some m) where
  takes_info :
      (m == 0) ≡ true
      → read info s.info ≡ some x
      → write s.target bit x ≡ some b
      → interleave_bit mask frozen info bit s ≡ some (record s { target = b; info = s.info + 1 })
  unfolding interleave_bit
  takes_info z got put = rw (mask_read, interleave_bit) (rw (z, ◌>>=◌) (rw got (rw put refl)))

  takes_frozen :
      (m == 0) ≡ false
      → read frozen s.frozen ≡ some x
      → write s.target bit x ≡ some b
      → interleave_bit mask frozen info bit s
        ≡ some (record s { target = b; frozen = s.frozen + 1 })
  unfolding interleave_bit
  takes_frozen nz got put = rw (mask_read, interleave_bit) (rw (nz, ◌>>=◌) (rw got (rw put refl)))

module _ (target mask frozen info : Buf) (n : ℕ) (fits_target : n ≤ target.size)
    (fits_mask : n ≤ mask.size) (fits_frozen : count_if (is_frozen mask.cell) n ≤ frozen.size)
    (fits_info : count_if (is_info mask.cell) n ≤ info.size) where
  value : ℕ → ℕ
  value = interleaved mask.cell frozen.cell info.cell

  taken : ℕ → Taken
  taken r = record {
    target = fill value r target;
    frozen = count_if (is_frozen mask.cell) r;
    info = count_if (is_info mask.cell) r;
  }

  next_taken :
      (r f i : ℕ)
      → f ≡ count_if (is_frozen mask.cell) (suc r)
      → i ≡ count_if (is_info mask.cell) (suc r)
      → ◌≡◌ {A = Taken}
          (record { target = fill value (r + 1) target; frozen = f; info = i })
          (taken (r + 1))
  unfolding taken value
  next_taken r f i ef ei =
      let next : suc r ≡ r + 1 = omega arith in
      ap₂
        (λ (f i : ℕ). record {
          target = fill (interleaved mask.cell frozen.cell info.cell) (r + 1) target;
          frozen = f;
          info = i;
        })
        (ef ∙ ap (count_if (is_frozen mask.cell)) next)
        (ei ∙ ap (count_if (is_info mask.cell)) next)

  info_left :
      (r : ℕ) → r < n → (mask.cell r == 0) ≡ true → count_if (is_info mask.cell) r < info.size
  info_left r lt z = omega (arith, count_if_step (is_info mask.cell) r n lt z)

  frozen_left :
      (r : ℕ) → r < n → (mask.cell r == 0) ≡ false → count_if (is_frozen mask.cell) r < frozen.size
  frozen_left r lt nz = omega (arith, count_if_step (is_frozen mask.cell) r n lt (ap not nz))

  interleave_bit_lem :
      (r : ℕ) → r < n → interleave_bit mask frozen info r (taken r) ≡ some (taken (r + 1))
  unfolding interleave_bit taken value
  interleave_bit_lem r lt = elim (Bool-cases (mask.cell r == 0)) [
    | inl z ↦
        takes_info mask frozen info (taken r) r (mask.cell r)
          (info.cell (count_if (is_info mask.cell) r)) (fill value (r + 1) target)
          (read_lem mask r (omega arith)) z
          (read_lem info (count_if (is_info mask.cell) r) (info_left r lt z))
          (write-fill value r target (info.cell (count_if (is_info mask.cell) r)) (omega arith)
            (rw z refl))
        ∙ ap some (
            next_taken r (count_if (is_frozen mask.cell) r) (count_if (is_info mask.cell) r + 1)
              (rw z refl) (rw z (omega arith)))
    | inr nz ↦
        takes_frozen mask frozen info (taken r) r (mask.cell r)
          (frozen.cell (count_if (is_frozen mask.cell) r)) (fill value (r + 1) target)
          (read_lem mask r (omega arith)) nz
          (read_lem frozen (count_if (is_frozen mask.cell) r) (frozen_left r lt nz))
          (write-fill value r target (frozen.cell (count_if (is_frozen mask.cell) r)) (omega arith)
            (rw nz refl))
        ∙ ap some (
            next_taken r (count_if (is_frozen mask.cell) r + 1) (count_if (is_info mask.cell) r)
              (rw nz (omega arith)) (rw nz refl))
  ]

  pub interleave_lem :
      interleave_frozen_and_info_bits target mask frozen info n
      ≡ some (record {
        target = fill (interleaved mask.cell frozen.cell info.cell) n target;
        frozen = count_if (is_frozen mask.cell) n;
        info = count_if (is_info mask.cell) n;
      })
  unfolding interleave_frozen_and_info_bits taken value
  interleave_lem =
      ap
        (λ b.
          for_loop n 0 (interleave_bit mask frozen info)
            (record { target = b; frozen = 0; info = 0 }))
        (sym (fill-zero (interleaved mask.cell frozen.cell info.cell) target))
      ∙ for_loop_chain taken (interleave_bit mask frozen info) n 0 n (omega arith)
          (λ r lo hi. interleave_bit_lem r hi)

-- The encoder with frozen bits, for frames of `2 ^ k` bits with `k` from 1 to 31: if there are as many
-- frozen and information bits as the mask asks for, it runs without a fault and leaves the polar transform
-- of the interleaved bits in `frame`.
pub encodepolar_lem :
    (k : ℕ) (frame temp mask frozen info : Buf)
    → 0 < k
    → k < 32
    → 2 ^ k ≤ frame.size
    → 2 ^ k ≤ temp.size
    → 2 ^ k ≤ mask.size
    → count_if (is_frozen mask.cell) (2 ^ k) ≤ frozen.size
    → count_if (is_info mask.cell) (2 ^ k) ≤ info.size
    → (temp' : Buf) × (volk_8u_x3_encodepolar_8u_x2_generic frame temp mask frozen info (2 ^ k)
        ≡ some
            (fill (transform k (interleaved mask.cell frozen.cell info.cell)) (2 ^ k) frame, temp'))
unfolding volk_8u_x3_encodepolar_8u_x2_generic
encodepolar_lem k frame temp mask frozen info pos small hf ht hm hz hi = (
  fill (transform k bits.cell) (2 ^ k) bits,
  rw (interleave_lem temp mask frozen info (2 ^ k) ht hm hz hi) (
      encodeframe_lem k frame bits pos small hf ht
      ∙ ap (λ b. some (b, fill (transform k bits.cell) (2 ^ k) bits))
          (fill_cong (transform k bits.cell) (transform k word) (2 ^ k) frame (λ j lt.
            transform_cong k bits.cell word j (λ i li. fill_below word (2 ^ k) temp i li) lt))),
)
  where
    word : ℕ → ℕ
    word = interleaved mask.cell frozen.cell info.cell

    bits : Buf
    bits = fill word (2 ^ k) temp
