-- ===== src/Kernels/Polar/Transform.antt =====
-- The polar transform over GF(2), by Arıkan's recursion: from the sums of neighbours the first half of
-- the code word, and from the second ones of each pair the second half.
use volk.Base.{ℕ, zero, suc, ◌+◌, ◌-◌, ◌*◌, ◌^◌, ◌≤◌, ◌<◌, ◌≡◌, refl, sym, ap, ◌∙◌, false, arith}
use volk.Base.{bit_xor, fun_ext, ◌⊎◌, ltb, if◌then◌else◌, inl, inr, Bool-cases, lt→ltb, ltb→lt}
use mathlib.Core.Path.{ap₂, subst}
use native.Mathlib.Nat.{pow-suc}
use volk.Base.Bits.Xor.{xor_cancel}

-- Of each pair of neighbours the sum, and the second.
abbrev pub sums : (ℕ → ℕ) → ℕ → ℕ
sums u j = bit_xor (u (2 * j)) (u (2 * j + 1))

abbrev pub seconds : (ℕ → ℕ) → ℕ → ℕ
seconds u j = u (2 * j + 1)

-- The code word of the `2 ^ m` bits `u 0 … u (2 ^ m - 1)`, at index `i`.
unfoldable pub transform : ℕ → (ℕ → ℕ) → ℕ → ℕ
transform zero u i = u i
transform (suc m) u i =
    if ltb i (2 ^ m) then transform m (sums u) i else transform m (seconds u) (i - 2 ^ m)

pub transform_low :
    (m : ℕ) (u : ℕ → ℕ) (i : ℕ) → i < 2 ^ m → transform (suc m) u i ≡ transform m (sums u) i
unfolding transform
transform_low m u i h = rw (lt→ltb i (2 ^ m) h) refl

pub transform_high :
    (m : ℕ) (u : ℕ → ℕ) (i : ℕ) → transform (suc m) u (2 ^ m + i) ≡ transform m (seconds u) i
unfolding transform
transform_high m u i = rw (not_below, same) refl
  where
    not_below : ltb (2 ^ m + i) (2 ^ m) ≡ false
    not_below = ground arith

    same : 2 ^ m + i - 2 ^ m ≡ i
    same = omega arith

-- An index of the code word stands in its first half or in its second.
pub halves : (m i : ℕ) → i < 2 ^ suc m → (i < 2 ^ m) ⊎ ((r : ℕ) × (i ≡ 2 ^ m + r) × (r < 2 ^ m))
halves m i h = elim (Bool-cases (ltb i (2 ^ m))) [
  | inl low ↦ inl (ltb→lt i (2 ^ m) low)
  | inr high ↦
      inr (i - 2 ^ m, omega (arith, not_below high), omega (arith, not_below high, pow-suc 2 m))
]
  where
    not_below : ltb i (2 ^ m) ≡ false → 2 ^ m ≤ i
    not_below high = ground arith

-- Only the first `2 ^ m` bits matter.
pub transform_cong :
    (m : ℕ) (u v : ℕ → ℕ) (i : ℕ)
    → ((j : ℕ) → j < 2 ^ m → u j ≡ v j)
    → i < 2 ^ m
    → transform m u i ≡ transform m v i
unfolding transform
transform_cong zero u v i same h = same i h
transform_cong (suc m) u v i same h = elim (halves m i h) [
  | inl low ↦
      transform_low m u i low
      ∙ transform_cong m (sums u) (sums v) i same_sums low
      ∙ sym (transform_low m v i low)
  | inr (r, e, lt) ↦
      ap (transform (suc m) u) e
      ∙ transform_high m u r
      ∙ transform_cong m (seconds u) (seconds v) r same_seconds lt
      ∙ sym (transform_high m v r)
      ∙ ap (transform (suc m) v) (sym e)
]
  where
    same_seconds : (j : ℕ) → j < 2 ^ m → seconds u j ≡ seconds v j
    same_seconds j lt = same (2 * j + 1) (omega (arith, pow-suc 2 m))

    same_sums : (j : ℕ) → j < 2 ^ m → sums u j ≡ sums v j
    same_sums j lt = ap₂ bit_xor (same (2 * j) (omega (arith, pow-suc 2 m))) (same_seconds j lt)

-- The bits from `2 ^ m` on.
abbrev pub upper : ℕ → (ℕ → ℕ) → ℕ → ℕ
upper m u j = u (2 ^ m + j)

upper-sums : (m : ℕ) (u : ℕ → ℕ) → upper m (sums u) ≡ sums (upper (suc m) u)
upper-sums m u = fun_ext (λ j.
    ap₂ (λ x y. bit_xor (u x) (u y)) (omega (arith, pow-suc 2 m)) (omega (arith, pow-suc 2 m)))

upper-seconds : (m : ℕ) (u : ℕ → ℕ) → upper m (seconds u) ≡ seconds (upper (suc m) u)
upper-seconds m u = fun_ext (λ j. ap u (omega (arith, pow-suc 2 m)))

-- The other way around: neighbours in the code word come from the halves of the input.
abbrev Neighbours : ℕ → (ℕ → ℕ) → ℕ → Type 0
Neighbours m u j =
    (transform (suc m) u (2 * j) ≡ bit_xor (transform m u j) (transform m (upper m u) j))
    × (transform (suc m) u (2 * j + 1) ≡ transform m (upper m u) j)

Neighbours-one : (u : ℕ → ℕ) (j : ℕ) → j < 1 → Neighbours 0 u j
unfolding transform
Neighbours-one u j h = let z : j ≡ 0 = omega arith in subst (Neighbours 0 u) (sym z) (refl, refl)

neighbours : (m : ℕ) (u : ℕ → ℕ) (j : ℕ) → j < 2 ^ m → Neighbours m u j
neighbours zero u j h = Neighbours-one u j h
neighbours (suc m) u j h = elim (halves m j h) [
  | inl low ↦
      let (even, odd) = neighbours m (sums u) j low in
      let rest : transform m (upper m (sums u)) j ≡ transform (suc m) (upper (suc m) u) j =
        ap (λ v. transform m v j) (upper-sums m u)
        ∙ sym (transform_low m (upper (suc m) u) j low) in
      (
        transform_low (suc m) u (2 * j) (omega (arith, pow-suc 2 m))
            ∙ even
            ∙ ap₂ bit_xor (sym (transform_low m u j low)) rest,
        transform_low (suc m) u (2 * j + 1) (omega (arith, pow-suc 2 m)) ∙ odd ∙ rest,
      )
  | inr (r, e, lt) ↦
      let (even, odd) = neighbours m (seconds u) r lt in
      let rest : transform m (upper m (seconds u)) r
          ≡ transform (suc m) (upper (suc m) u) (2 ^ m + r) =
        ap (λ v. transform m v r) (upper-seconds m u)
        ∙ sym (transform_high m (upper (suc m) u) r) in
      subst (Neighbours (suc m) u) (sym e) (
        ap (transform (suc (suc m)) u) (even_index r)
            ∙ transform_high (suc m) u (2 * r)
            ∙ even
            ∙ ap₂ bit_xor (sym (transform_high m u r)) rest,
        ap (transform (suc (suc m)) u) (odd_index r)
            ∙ transform_high (suc m) u (2 * r + 1)
            ∙ odd
            ∙ rest,
      )
]
  where
    even_index : (r : ℕ) → 2 * (2 ^ m + r) ≡ 2 ^ suc m + 2 * r
    even_index r = omega (arith, pow-suc 2 m)

    odd_index : (r : ℕ) → 2 * (2 ^ m + r) + 1 ≡ 2 ^ suc m + (2 * r + 1)
    odd_index r = omega (arith, pow-suc 2 m)

-- The transform undoes itself.
pub transform-transform :
    (m : ℕ) (u : ℕ → ℕ) (i : ℕ) → i < 2 ^ m → transform m (transform m u) i ≡ u i
unfolding transform
transform-transform zero u i h = refl
transform-transform (suc m) u i h = elim (halves m i h) [
  | inl low ↦
      transform_low m (transform (suc m) u) i low
      ∙ transform_cong m (sums (transform (suc m) u)) (transform m u) i
          (λ j lt.
            ap₂ bit_xor (neighbours m u j lt).0 (neighbours m u j lt).1
            ∙ xor_cancel (transform m u j) (transform m (upper m u) j))
          low
      ∙ transform-transform m u i low
  | inr (r, e, lt) ↦
      ap (transform (suc m) (transform (suc m) u)) e
      ∙ transform_high m (transform (suc m) u) r
      ∙ transform_cong m (seconds (transform (suc m) u)) (transform m (upper m u)) r
          (λ j less. (neighbours m u j less).1) lt
      ∙ transform-transform m (upper m u) r lt
      ∙ ap u (sym e)
]
