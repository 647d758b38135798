-- ===== src/Dispatch/Machine/Answers.antt =====
-- How the alignment that `volk_get_alignment` answers and the test of `volk_is_aligned` fit together.
use volk.Base.{ℕ, ◌^◌, ◌≡◌, sym, ◌∙◌, true, ap, List, Option, none, some, ◌>>=◌, ◌⊎◌, inl, inr}
use mathlib.Core.Logic.{◌↔◌}
use volk.Dispatch.Machine.{Machine, Statics, Platform, unset, select, get_machine}
use volk.Dispatch.Machine.{volk_get_alignment, volk_is_aligned}
use volk.Dispatch.Machine.Selection.{IsChosen, NoneAbove, select_lem}
use volk.Dispatch.Machine.Alignment.{
  or_ptrs, AllMultiples, is_aligned_iff, get_machine_lem, mask_of-pow,
}

module _ {ℓ} {Tables : Type ℓ} (p : Platform Tables) (k : ℕ) where
  -- The first call of `volk_get_alignment` answers the alignment of the chosen machine, the first of those
  -- that run on the processor with the highest score; later calls answer the same and change nothing. From
  -- then on `volk_is_aligned` passes a disjunction of pointers exactly if each is a multiple of the answer.
  -- If no machine that runs has a score above 0, the call faults instead. The alignment of the machine that
  -- is selected is a power of two.
  pub volk_get_alignment-volk_is_aligned :
      (ps : List ℕ)
      → ((m : Machine Tables) → select p.lvarch p.machines ≡ some m → m.alignment ≡ 2 ^ k)
      → ((m : Machine Tables) × (s : Statics Tables) × IsChosen p.lvarch p.machines 0 m
          × (volk_get_alignment p unset ≡ some (2 ^ k, s))
          × (volk_get_alignment p s ≡ some (2 ^ k, s))
          × ((volk_is_aligned (or_ptrs ps) s ≡ true) ↔ AllMultiples k ps))
        ⊎ (NoneAbove p.lvarch p.machines 0 × (volk_get_alignment p unset ≡ none))
  unfolding volk_get_alignment
  volk_get_alignment-volk_is_aligned ps pow = elim (select_lem p.lvarch p.machines) [
    | inr (e, above) ↦ elim (get_machine_lem p) [
      | inr (_, fault) ↦ inr (above, answer unset fault)
      | inl (m, s, e', _, _, _, _) ↦ absurd (cc (sym e ∙ e'))
    ]
    | inl (m, e, chosen) ↦ elim (get_machine_lem p) [
      | inr (e', _) ↦ absurd (cc (sym e' ∙ e))
      | inl (m', s, e', found, al, mask, again) ↦ inl (
        m,
        s,
        chosen,
        answer unset found ∙ ap (λ n. some (n, s)) (al ∙ pow m' e'),
        answer s again ∙ ap (λ n. some (n, s)) (al ∙ pow m' e'),
        is_aligned_iff s k ps (mask ∙ mask_of-pow m'.alignment k (pow m' e')),
      )
    ]
  ]
    where
      answer :
          (s : Statics Tables) {r : Option (Machine Tables × Statics Tables)}
          → get_machine p s ≡ r
          → volk_get_alignment p s ≡ (r >>= λ (m, s'). some (s'.alignment, s'))
      answer s found = ap (λ r. r >>= λ (m, s'). some (s'.alignment, s')) found
