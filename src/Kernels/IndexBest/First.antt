-- ===== src/Kernels/IndexBest/First.antt =====
-- The search finds the first best element.
use volk.Base.{ℕ, ◌+◌, ◌-◌, ◌≤◌, ◌<◌, ◌≡◌, refl, ap, ◌∙◌, Bool, arith, some}
use volk.Base.{ltb, inl, inr, Bool-cases, ltb→lt}
use mathlib.Core.Path.{subst}
use volk.Memory.{Buf, write}
use volk.Memory.Loop.{for_loop_keeps}
use volk.Memory.Fill.{read_lem}
use volk.Kernels.IndexBest.{Found, index_step, index_search}

-- Of the first `n` ranks, the one at `index` is the highest, and those before it are lower.
pub record IsFirst (rank : ℕ → ℕ) (n index : ℕ) : Type 0 where
  pub within : index < n
  pub before : (i : ℕ) → i < index → rank i < rank index
  pub all : (i : ℕ) → i < n → rank i ≤ rank index

-- The next element is better, or it is not.
IsFirst-better :
    (rank : ℕ → ℕ) (n index : ℕ)
    → IsFirst rank n index
    → rank index < rank n
    → IsFirst rank (n + 1) n
IsFirst-better rank n index f lt = record {
  within = omega arith;
  before = λ i h. omega (arith, f.all i h);
  all = λ i h. elim (Bool-cases (ltb i n)) [
    | inl e ↦ omega (arith, f.all i (ltb→lt i n e))
    | inr e ↦ let same : i ≡ n = ground arith in omega (arith, ap rank same)
  ];
}

IsFirst-worse :
    (rank : ℕ → ℕ) (n index : ℕ)
    → IsFirst rank n index
    → rank n ≤ rank index
    → IsFirst rank (n + 1) index
IsFirst-worse rank n index f le = record {
  within = omega (arith, f.within);
  before = f.before;
  all = λ i h. elim (Bool-cases (ltb i n)) [
    | inl e ↦ f.all i (ltb→lt i n e)
    | inr e ↦ let same : i ≡ n = ground arith in omega (arith, ap rank same)
  ];
}

module _ (better : ℕ → ℕ → Bool) (rank cut : ℕ → ℕ) (source : Buf) (n : ℕ) (fits : n ≤ source.size)
    (cut_below : (i : ℕ) → i < n → cut i ≡ i)
    (ranked : (i j : ℕ)
      → i < n
      → j < n
      → better (source.cell i) (source.cell j)
        ≡ ltb (rank (source.cell j)) (rank (source.cell i))) where
  ranks : ℕ → ℕ
  ranks i = rank (source.cell i)

  record Searched (r : ℕ) (s : Found) : Type 0 where
    pub value_at : s.value ≡ source.cell s.index
    pub first : IsFirst ranks r s.index

  step_Searched :
      (r : ℕ) (s : Found)
      → r < n
      → Searched r s
      → (s' : Found) × (index_step better cut source r s ≡ some s') × Searched (r + 1) s'
  unfolding index_step ranks
  step_Searched r s lt p =
      let e : better (source.cell r) s.value ≡ ltb (ranks s.index) (ranks r) =
        ap (better (source.cell r)) p.value_at
        ∙ ranked r s.index lt (omega (arith, p.first.within)) in
      elim (Bool-cases (ltb (ranks s.index) (ranks r))) [
        | inl higher ↦ (
          record { value = source.cell r; index = r },
          rw (read_lem source r (omega arith), e ∙ higher, cut_below r lt) refl,
          record {
            value_at = refl;
            first =
                IsFirst-better ranks r s.index p.first (ltb→lt (ranks s.index) (ranks r) higher);
          },
        )
        | inr lower ↦ (
          s,
          rw (read_lem source r (omega arith), e ∙ lower) refl,
          record {
            value_at = p.value_at;
            first = IsFirst-worse ranks r s.index p.first (ground arith);
          },
        )
      ]

  pub index_search_lem :
      (target : Buf)
      → 0 < n
      → (index : ℕ) × (index_search better cut target source n ≡ write target 0 index)
        × IsFirst (λ i. rank (source.cell i)) n index
  unfolding index_search ranks
  index_search_lem target pos =
      let (s, e, p) =
        for_loop_keeps Searched (index_step better cut source) (n - 1) 1
          (record { value = source.cell 0; index = 0 })
          (record {
            value_at = refl;
            first = record {
              within = omega arith;
              before = λ i h. absurd (omega arith);
              all = λ i h. let zeroth : i ≡ 0 = omega arith in omega (arith, ap ranks zeroth);
            };
          })
          (λ r s lo hi p. step_Searched r s (omega arith) p) in
      (
        s.index,
        rw (read_lem source 0 (omega arith), e) refl,
        subst (λ m. IsFirst ranks m s.index) (omega arith) p.first,
      )
