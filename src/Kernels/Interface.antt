-- ===== src/Kernels/Interface.antt =====
-- What a kernel with two inputs and one output promises, and what the dispatcher needs of it.
use volk.Base.{ℕ, ◌<◌, ◌≡◌, false, Option, some}
use volk.Base.CString.{CString, c_string, strncmp_zero}
use volk.Memory.{Buf}
use volk.Memory.Fill.{fill}
use volk.Simd.{Fits, StartAt}

-- "a_", with which the name of an implementation begins that expects aligned arguments.
abbrev pub aligned_prefix : CString
aligned_prefix = c_string "a_"

pub record X2Kernel : Type 1 where
  pub Impl : Type 0
  pub run : Impl → Buf → Buf → Buf → ℕ → Option Buf
  -- The alignment in bytes that an implementation expects; 1 if it expects none.
  pub alignment : Impl → ℕ
  -- Its name, which says whether it expects any.
  pub impl_name : Impl → CString
  pub unprefixed :
      (i : Impl) → strncmp_zero 2 (impl_name i) aligned_prefix ≡ false → alignment i ≡ 1
  -- The value of a point, for elements that are in range.
  pub value : ℕ → ℕ → ℕ
  pub InRange : ℕ → Type 0
  pub correct :
      (i : Impl) (c a b : Buf) (n : ℕ)
      → Fits c a b n
      → StartAt (alignment i) c a b
      → ((j : ℕ) → j < n → InRange (a.cell j) × InRange (b.cell j))
      → run i c a b n ≡ some (fill (λ j. value (a.cell j) (b.cell j)) n c)
