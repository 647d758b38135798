-- ===== src/Simd/Blocks.antt =====
-- A loop over blocks that fills an array, whatever its rounds read.
use native.Mathlib.Nat.{mul_comm, mul-div-le, mul-le-mul_left}
use volk.Base.{ℕ, ◌+◌, ◌*◌, ◌/◌, ◌≤◌, ◌<◌, ◌≡◌, ◌∙◌, ap, Option, some, arith}
use volk.Memory.{Buf}
use volk.Memory.Loop.{for_loop, for_loop_chain}
use volk.Memory.Fill.{fill, fill-zero}

module _ (value : ℕ → ℕ) (c : Buf) where
  pub fill_at : {i j : ℕ} → i ≡ j → some (fill value i c) ≡ some (fill value j c)
  fill_at e = ap (λ i. some (fill value i c)) e

  -- A loop over the whole blocks of `k` points fills all of those blocks, if each round fills one.
  pub blocks_lem :
      (n k : ℕ) (body : ℕ → Buf → Option Buf)
      → ((i : ℕ)
          → k * i + k ≤ n
          → body i (fill value (k * i) c) ≡ some (fill value (k * (i + 1)) c))
      → for_loop (n / k) 0 body c ≡ some (fill value (n / k * k) c)
  blocks_lem n k body step = rw start at (
      for_loop_chain (λ r. fill value (k * r) c) body (n / k) 0 (n / k) (omega arith)
        (λ r lo hi. step r (block_within r hi))
      ∙ fill_at (mul_comm k (n / k)))
    where
      start : fill value (k * 0) c ≡ c
      start = ap (λ m. fill value m c) (omega arith) ∙ fill-zero value c

      block_within : (r : ℕ) → r < n / k → k * r + k ≤ n
      block_within r hi = omega (arith, mul-le-mul_left k hi, mul-div-le n k)
