-- ===== src/Kernels/Slicer/Agree.antt =====
-- Where the implementations agree, and where the one for RISC-V does not.
use volk.Base.{ℕ, ◌-◌, ◌/◌, ◌^◌, ◌<◌, ◌≡◌, refl, sym, ap, ◌∙◌, Bool, false, inl, inr, arith}
use volk.Base.{some, bit_and, Bool-cases, if◌then◌else◌, ◌==◌, lt→ltb}
use volk.Base.Float32.{is_nan, ge_zero}
use volk.Memory.{Buf, aligned, unaligned}
use volk.Memory.Fill.{fill}
use volk.Simd.Unary.{Fits1, StartAt1}
use volk.Simd.Unary.Laws.{
  generic_x1_lem, simd_x1_agreed, simd_two_x1_agreed, rvv_x1_lem, rvv_x1_agreed,
}
use volk.Kernels.Slicer.{
  sliced, Instructions, Impl, generic, generic_branchless, a_sse2, a_avx, u_sse2, u_avx, neon,
  neonv8, rvv, alignment, run, may_flush, sse2_value, avx_value, neon_value, neonv8_value,
  slice_neonv8, rvv_value, slice_sse2, slice_avx, slice_neon, slice_rvv,
  volk_32f_binary_slicer_32i_generic, volk_32f_binary_slicer_32i_generic_branchless,
  volk_32f_binary_slicer_32i_a_sse2, volk_32f_binary_slicer_32i_a_avx,
  volk_32f_binary_slicer_32i_u_sse2, volk_32f_binary_slicer_32i_u_avx,
  volk_32f_binary_slicer_32i_neon, volk_32f_binary_slicer_32i_neonv8,
  volk_32f_binary_slicer_32i_rvv,
}

-- A number that RISC-V's implementation classifies as C does: neither NaN nor the negative zero.
abbrev pub IsPlain : ℕ → Type 0
IsPlain x = (x < 2 ^ 32) × (is_nan x ≡ false) × ((x == 2 ^ 31) ≡ false)

-- What the inputs must be like for an implementation.
abbrev pub Inputs : Impl → ℕ → Type 0
Inputs rvv x = IsPlain x
Inputs generic x = Unit {0}
Inputs generic_branchless x = Unit {0}
Inputs a_sse2 x = Unit {0}
Inputs a_avx x = Unit {0}
Inputs u_sse2 x = Unit {0}
Inputs u_avx x = Unit {0}
Inputs neon x = may_flush x ≡ false
Inputs neonv8 x = Unit {0}

sign_sliced : (x : ℕ) → IsPlain x → (2 ^ 32 - 1 - x) / 2 ^ 31 ≡ sliced x
sign_sliced x (small, num, nz) = ground arith

module _ (o : Instructions) where
  sse2_sliced : (x : ℕ) → sse2_value o x ≡ sliced x
  sse2_sliced x = elim (Bool-cases (ge_zero x)) [
    | inl e ↦ rw e (ap (λ y. y / 2 ^ 31) o.cvt_nan)
    | inr e ↦ rw e (ap (λ y. y / 2 ^ 31) o.cvt_zero)
  ]

  avx_sliced : (x : ℕ) → avx_value o x ≡ sliced x
  avx_sliced x = elim (Bool-cases (ge_zero x)) [
    | inl e ↦ when e ∙ o.cvt_one ∙ sym (ap (λ t. if t then 1 else 0) e)
    | inr e ↦ when e ∙ o.cvt_zero ∙ sym (ap (λ t. if t then 1 else 0) e)
  ]
    where
      when :
          {t : Bool}
          → ge_zero x ≡ t
          → avx_value o x ≡ o.cvt (bit_and (if t then 0xFFFFFFFF else 0) 0x3F800000)
      when e = ap (λ t. o.cvt (bit_and (if t then 0xFFFFFFFF else 0) 0x3F800000)) e

  neonv8_sliced : (x : ℕ) → neonv8_value o x ≡ sliced x
  neonv8_sliced x = elim (Bool-cases (ge_zero x)) [ inl e ↦ rw e refl | inr e ↦ rw e refl ]

  neon_sliced : (x : ℕ) → may_flush x ≡ false → neon_value o x ≡ sliced x
  neon_sliced x ordinary = ap (λ y. y / 2 ^ 31) (o.vcgeq_agrees x ordinary) ∙ neonv8_sliced x

  -- All implementations but RISC-V's and that of 32-bit NEON write 1 where a number is at least 0 and 0
  -- elsewhere, also for NaNs and zeros of both signs, to the first `n` points of the output, and leave the
  -- rest of it alone; and so does RISC-V's if the first `n` points of the input, as bit patterns of 32 bits,
  -- have no NaN and no negative zero, and NEON's if they have no negative subnormal number. The arrays have at least `n` points and
  -- start at a multiple of the implementation's alignment.
  pub slicer_run_lem :
      (i : Impl) (c a : Buf) (n : ℕ)
      → Fits1 c a n
      → StartAt1 (alignment i) (alignment i) c a
      → ((j : ℕ) → j < n → Inputs i (a.cell j))
      → run o i c a n ≡ some (fill (λ j. sliced (a.cell j)) n c)
  unfolding run volk_32f_binary_slicer_32i_generic volk_32f_binary_slicer_32i_generic_branchless
      volk_32f_binary_slicer_32i_a_sse2 volk_32f_binary_slicer_32i_a_avx
      volk_32f_binary_slicer_32i_u_sse2 volk_32f_binary_slicer_32i_u_avx
      volk_32f_binary_slicer_32i_neon volk_32f_binary_slicer_32i_neonv8
      volk_32f_binary_slicer_32i_rvv
  slicer_run_lem generic c a n fits s plain = generic_x1_lem sliced c a n fits sliced (λ j h. refl)
  slicer_run_lem generic_branchless c a n fits s plain =
      generic_x1_lem sliced c a n fits sliced (λ j h. refl)
  slicer_run_lem a_sse2 c a n fits s plain =
      simd_x1_agreed sliced (sse2_value o) c a n fits (λ j h. sse2_sliced (a.cell j)) aligned 4 4 4
        (slice_sse2 o) s.start_c s.start_a
  slicer_run_lem a_avx c a n fits s plain =
      simd_x1_agreed sliced (avx_value o) c a n fits (λ j h. avx_sliced (a.cell j)) aligned 4 4 8
        (slice_avx o) s.start_c s.start_a
  slicer_run_lem u_sse2 c a n fits s plain =
      simd_x1_agreed sliced (sse2_value o) c a n fits (λ j h. sse2_sliced (a.cell j)) unaligned 4 4
        4 (slice_sse2 o) tt tt
  slicer_run_lem u_avx c a n fits s plain =
      simd_x1_agreed sliced (avx_value o) c a n fits (λ j h. avx_sliced (a.cell j)) unaligned 4 4 8
        (slice_avx o) tt tt
  slicer_run_lem neon c a n fits s plain =
      simd_x1_agreed sliced (neon_value o) c a n fits (λ j h. neon_sliced (a.cell j) (plain j h))
        unaligned 4 4 4 (slice_neon o) tt tt
  slicer_run_lem neonv8 c a n fits s plain =
      simd_two_x1_agreed sliced (neonv8_value o) c a n fits (λ j h. neonv8_sliced (a.cell j))
        unaligned 4 4 4 (slice_neonv8 o) tt tt
  slicer_run_lem rvv c a n fits s plain =
      rvv_x1_agreed sliced (rvv_value o) c a n fits (λ j h. sign_sliced (a.cell j) (plain j h)) 4 4
        o.setvl_e32m8 (slice_rvv o)

  -- A negative zero among the first `n` points: the generic implementation writes 1 there, and RISC-V's 0.
  pub rvv_negative_zero :
      (c a : Buf) (n j : ℕ)
      → Fits1 c a n
      → j < n
      → a.cell j ≡ 2 ^ 31
      → (c' : Buf) × (c'' : Buf) × (run o generic c a n ≡ some c')
        × (run o rvv c a n ≡ some c'')
        × (c'.cell j ≡ 1)
        × (c''.cell j ≡ 0)
  unfolding run volk_32f_binary_slicer_32i_generic volk_32f_binary_slicer_32i_rvv
  rvv_negative_zero c a n j fits lt z = (
    fill (λ j. sliced (a.cell j)) n c,
    fill (λ j. (2 ^ 32 - 1 - a.cell j) / 2 ^ 31) n c,
    generic_x1_lem sliced c a n fits sliced (λ j h. refl),
    rvv_x1_lem (rvv_value o) c a n fits 4 4 o.setvl_e32m8 (slice_rvv o),
    rw (lt→ltb j n lt, z) refl,
    rw (lt→ltb j n lt, z) refl,
  )
