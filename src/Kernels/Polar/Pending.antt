-- ===== src/Kernels/Polar/Pending.antt =====
-- What is left to do between two stages: a transform of every block.
use volk.Base.{ℕ, suc, ◌+◌, ◌*◌, ◌/◌, ◌%◌, ◌^◌, ◌<◌, ◌≡◌, sym, ap, ◌∙◌, arith, bit_xor}
use volk.Base.{false, ◌==◌, ==→eq, Bool-cases, ◌⊎◌, inl, inr}
use mathlib.Core.Path.{ap₂, subst}
use native.Mathlib.Nat.{pow-suc, mul-le-mul_left}
use volk.Base.Bits.{next_power}
use volk.Kernels.Polar.Transform.{
  sums, seconds, transform, transform_low, transform_high, transform_cong,
}
use volk.Kernels.Polar.Stage.{stage_value, stage_value_low, stage_value_high}

-- The transforms of the blocks of `2 ^ m` that are left, one after the other, are the target.
abbrev pub Pending : ℕ → ℕ → (ℕ → ℕ) → (ℕ → ℕ) → Type 0
Pending m branches t target =
    (b j : ℕ)
    → b < branches
    → j < 2 ^ m
    → transform m (λ k. t (2 ^ m * b + k)) j ≡ target (2 ^ m * b + j)

pub Pending-cong :
    (m branches : ℕ) (t t' target : ℕ → ℕ)
    → ((i : ℕ) → i < 2 ^ m * branches → t i ≡ t' i)
    → Pending m branches t' target
    → Pending m branches t target
Pending-cong m branches t t' target same p b j lb lj =
    transform_cong m (λ k. t (2 ^ m * b + k)) (λ k. t' (2 ^ m * b + k)) j
      (λ k lk. same (2 ^ m * b + k) (omega (arith, mul-le-mul_left (2 ^ m) lb))) lj
    ∙ p b j lb lj

even_or_odd : (n : ℕ) → ((q : ℕ) × (n ≡ 2 * q)) ⊎ ((q : ℕ) × (n ≡ 2 * q + 1))
even_or_odd n = elim (Bool-cases (n % 2 == 0)) [
  | inl z ↦ inl (n / 2, omega (arith, ==→eq (n % 2) 0 z))
  | inr nz ↦ inr (n / 2, omega (arith, odd nz))
]
  where
    odd : (n % 2 == 0) ≡ false → n % 2 ≡ 1
    odd nz = ground arith

module _ (m branches : ℕ) (t target : ℕ → ℕ) (p : Pending (suc m) branches t target) where
  abbrev block : ℕ → ℕ → ℕ
  block b k = t (2 ^ suc m * b + k)

  first_half :
      (b j : ℕ)
      → b < branches
      → j < 2 ^ m
      → transform m (λ k. stage_value (2 ^ m) t (2 ^ m * (2 * b) + k)) j
        ≡ target (2 ^ m * (2 * b) + j)
  first_half b j lb lj =
      transform_cong m (λ k. stage_value (2 ^ m) t (2 ^ m * (2 * b) + k)) (sums (block b)) j
        (λ k lk.
          ap (stage_value (2 ^ m) t) (omega arith)
          ∙ stage_value_low (2 ^ m) t b k lk
          ∙ ap₂ (λ x y. bit_xor (t x) (t y)) (omega (arith, next_power b m))
              (omega (arith, next_power b m)))
        lj
      ∙ sym (transform_low m (block b) j lj)
      ∙ p b j lb (omega (arith, pow-suc 2 m))
      ∙ ap target (omega (arith, next_power b m))

  second_half :
      (b j : ℕ)
      → b < branches
      → j < 2 ^ m
      → transform m (λ k. stage_value (2 ^ m) t (2 ^ m * (2 * b + 1) + k)) j
        ≡ target (2 ^ m * (2 * b + 1) + j)
  second_half b j lb lj =
      transform_cong m (λ k. stage_value (2 ^ m) t (2 ^ m * (2 * b + 1) + k)) (seconds (block b)) j
        (λ k lk.
          ap (stage_value (2 ^ m) t) (omega arith)
          ∙ stage_value_high (2 ^ m) t b k lk
          ∙ ap t (omega (arith, next_power b m)))
        lj
      ∙ sym (transform_high m (block b) j)
      ∙ p b (2 ^ m + j) lb (omega (arith, pow-suc 2 m))
      ∙ ap target (omega (arith, next_power b m))

  -- A stage halves the blocks.
  pub stage_Pending : Pending m (branches * 2) (stage_value (2 ^ m) t) target
  stage_Pending b j lb lj = elim (even_or_odd b) [
    | inl (q, e) ↦
        subst
          (λ b. transform m (λ k. stage_value (2 ^ m) t (2 ^ m * b + k)) j ≡ target (2 ^ m * b + j))
          (sym e) (first_half q j (omega arith) lj)
    | inr (q, e) ↦
        subst
          (λ b. transform m (λ k. stage_value (2 ^ m) t (2 ^ m * b + k)) j ≡ target (2 ^ m * b + j))
          (sym e) (second_half q j (omega arith) lj)
  ]
