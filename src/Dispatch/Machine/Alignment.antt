-- ===== src/Dispatch/Machine/Alignment.antt =====
-- What `volk_is_aligned` answers.
use volk.Base.{
  ℕ, ◌^◌, ◌%◌, ◌≡◌, refl, sym, ◌∙◌, true, List, [], ◌∷◌, none, some, ◌⊎◌, inl, inr, Option-cases,
}
use mathlib.Core.Logic.{◌↔◌}
use native.Mathlib.Nat.{zero-mod}
use volk.Base.{arith, ==→eq, eq→==, bit_and, bit_or}
use volk.Base.Bits.Masks.{ones, pow_pos, bit_and_mask, bit_or-mod, bit_or-eq-zero, bit_and-zero}
use volk.Base.CString.{CString}
use volk.Dispatch.Machine.{Machine, Statics, Platform, unset, select, get_machine, volk_get_machine}
use volk.Dispatch.Machine.{mask_of, volk_is_aligned}

-- The mask of a power of two.
pub mask_of-pow : (n k : ℕ) → n ≡ 2 ^ k → mask_of n ≡ ones k
mask_of-pow n k e = ground (arith, pow_pos k)

-- `VOLK_OR_PTR(p, VOLK_OR_PTR(q, …, 0))`: the argument of the dispatcher's test.
abbrev pub or_ptrs : List ℕ → ℕ
or_ptrs [] = 0
or_ptrs (p ∷ ps) = bit_or p (or_ptrs ps)

-- All of the pointers are multiples of `2 ^ k`.
abbrev pub AllMultiples : ℕ → List ℕ → Type 0
AllMultiples k [] = Unit
AllMultiples k (p ∷ ps) = (p % 2 ^ k ≡ 0) × AllMultiples k ps

or_ptrs_sound : (k : ℕ) (ps : List ℕ) → or_ptrs ps % 2 ^ k ≡ 0 → AllMultiples k ps
or_ptrs_sound k [] h = tt
or_ptrs_sound k (p ∷ ps) h =
    let both =
      bit_or-eq-zero (p % 2 ^ k) (or_ptrs ps % 2 ^ k) (sym (bit_or-mod k p (or_ptrs ps)) ∙ h) in
    (both.0, or_ptrs_sound k ps both.1)

or_ptrs_complete : (k : ℕ) (ps : List ℕ) → AllMultiples k ps → or_ptrs ps % 2 ^ k ≡ 0
or_ptrs_complete k [] h = zero-mod (2 ^ k)
or_ptrs_complete k (p ∷ ps) h = rw (bit_or-mod k p (or_ptrs ps), h.0, or_ptrs_complete k ps h.1)

module _ {ℓ} {Tables : Type ℓ} where
  -- With the mask of an alignment `2 ^ k`, the test on the disjunction of pointers passes exactly if every
  -- one of them is a multiple of `2 ^ k`.
  pub is_aligned_iff :
      (s : Statics Tables) (k : ℕ) (ps : List ℕ)
      → s.alignment_mask ≡ ones k
      → (volk_is_aligned (or_ptrs ps) s ≡ true) ↔ AllMultiples k ps
  unfolding volk_is_aligned
  is_aligned_iff s k ps e = (
    λ h. or_ptrs_sound k ps (
        sym (bit_and_mask k (or_ptrs ps))
        ∙ (rw e at (==→eq (bit_and (or_ptrs ps) s.alignment_mask) 0 h))),
    λ h.
        eq→== (bit_and (or_ptrs ps) s.alignment_mask) 0
          (rw e (bit_and_mask k (or_ptrs ps) ∙ or_ptrs_complete k ps h)),
  )

  -- `get_machine` on the unset variables finds the selected machine, and sets the alignment and its mask
  -- to that machine's; a second call finds the same machine and changes nothing. It faults exactly if no
  -- machine is selected.
  pub get_machine_lem :
      (p : Platform Tables)
      → ((m : Machine Tables) × (s : Statics Tables) × (select p.lvarch p.machines ≡ some m)
          × (get_machine p unset ≡ some (m, s))
          × (s.alignment ≡ m.alignment)
          × (s.alignment_mask ≡ mask_of m.alignment)
          × (get_machine p s ≡ some (m, s)))
        ⊎ ((select p.lvarch p.machines ≡ none) × (get_machine p unset ≡ none))
  unfolding get_machine
  get_machine_lem p = elim (Option-cases (select p.lvarch p.machines)) [
    | inl e ↦ inr (e, rw (e, get_machine))
    | inr (m, e) ↦ inl (
      m,
      record unset {
        machine = some m;
        alignment = m.alignment;
        alignment_mask = mask_of m.alignment;
      },
      e,
      rw (e, get_machine),
      refl,
      refl,
      refl,
    )
  ]

  -- `volk_get_machine` answers the name without setting the alignment, so that after it, as before any
  -- call, `volk_is_aligned` says yes of every pointer.
  pub is_aligned-volk_get_machine :
      (p : Platform Tables) (name : CString) (s : Statics Tables) (ptr : ℕ)
      → volk_get_machine p unset ≡ some (name, s)
      → volk_is_aligned ptr s ≡ true
  unfolding volk_get_machine volk_is_aligned
  is_aligned-volk_get_machine p name s ptr e =
      let unset_mask : s.alignment_mask ≡ 0 = ground arith in
      rw unset_mask (eq→== (bit_and ptr 0) 0 (bit_and-zero ptr))
