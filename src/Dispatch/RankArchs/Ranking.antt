-- ===== src/Dispatch/RankArchs/Ranking.antt =====
-- The last loop of `volk_rank_archs`: the index with the largest dependency mask, among the rows that
-- want aligned arguments and among those that do not.
use volk.Base.{ℕ, zero, suc, ◌+◌, ◌<◌, ◌≡◌, refl, ◌∙◌, ◌⊎◌, inl, inr, Bool, true, false, List, []}
use volk.Base.{◌∷◌, some, arith, get_elem?, Bool-cases, ◌&&◌, not}
use mathlib.Core.Path.{subst, subst₂}
use mathlib.Core.Option.{some-injective}
use volk.Base.Int.{ℤ, negsuc, ltb_ℤ, ◌≤ℤ◌, ◌<ℤ◌}
use volk.Dispatch.RankArchs.{Row, Best, best_step, best_loop, start, choose, best_index}

-- The two variables that belong to the rows with the flag.
abbrev index_of : Bool → Best → ℕ
index_of true s = s.index_a
index_of false s = s.index_u

abbrev value_of : Bool → Best → ℤ
value_of true s = s.value_a
value_of false s = s.value_u

-- No row with the flag has a mask above `v`.
abbrev pub Below : List Row → Bool → ℤ → Type 0
Below rows flag v =
    (j : ℕ) (r : Row) → get_elem? rows j ≡ some r → r.is_aligned ≡ flag → r.deps ≤ℤ v

-- Row `p` is the first of those with the flag that have the largest mask, which is above `v`.
pub record Leads (rows : List Row) (flag : Bool) (v : ℤ) (p : ℕ) : Type 0 where
  pub row : Row
  pub at_index : get_elem? rows p ≡ some row
  pub flagged : row.is_aligned ≡ flag
  pub above : v <ℤ row.deps
  pub greatest : Below rows flag row.deps
  pub first :
      (j : ℕ) (r : Row)
      → j < p
      → get_elem? rows j ≡ some r
      → r.is_aligned ≡ flag
      → r.deps <ℤ row.deps

-- What the loop over `rows`, from index `k` on, makes of the index `i` and the value `v`.
data Outcome (rows : List Row) (flag : Bool) (k i : ℕ) (v : ℤ) (i' : ℕ) (v' : ℤ) : Type 0 where
  kept : i' ≡ i → v' ≡ v → Below rows flag v → Outcome rows flag k i v i' v'
  improved :
      (p : ℕ) (l : Leads rows flag v p)
      → i' ≡ k + p
      → v' ≡ l.row.deps
      → Outcome rows flag k i v i' v'

module _ (r : Row) (rows : List Row) (flag : Bool) where
  -- What holds of the head holds of the row at index 0.
  at_head : (P : Row → Type 0) (q : Row) → get_elem? (r ∷ rows) 0 ≡ some q → P r → P q
  at_head P q e h = subst P (some-injective r q e) h

  Below-cons :
      (v : ℤ) → (r.is_aligned ≡ flag → r.deps ≤ℤ v) → Below rows flag v → Below (r ∷ rows) flag v
  Below-cons v head tail zero q e f = at_head (λ t. t.is_aligned ≡ flag → t.deps ≤ℤ v) q e head f
  Below-cons v head tail (suc j) q e f = tail j q e f

  lead_head :
      (v : ℤ)
      → r.is_aligned ≡ flag
      → v <ℤ r.deps
      → Below rows flag r.deps
      → Leads (r ∷ rows) flag v 0
  lead_head v f up b = record {
    row = r;
    at_index = refl;
    flagged = f;
    above = up;
    greatest = Below-cons r.deps (λ _. omega arith) b;
    first = λ j q lt e g. absurd (omega arith);
  }

  -- A lead further on stays one behind a row with a smaller mask.
  lead_later :
      (v w : ℤ) (p : ℕ) (l : Leads rows flag w p)
      → v ≤ℤ w
      → (r.is_aligned ≡ flag → r.deps ≤ℤ w)
      → Leads (r ∷ rows) flag v (suc p)
  lead_later v w p l le low = record {
    row = l.row;
    at_index = l.at_index;
    flagged = l.flagged;
    above = omega (arith, l.above);
    greatest = Below-cons l.row.deps (λ f. omega (arith, low f, l.above)) l.greatest;
    first = before;
  }
    where
      before :
          (j : ℕ) (q : Row)
          → j < suc p
          → get_elem? (r ∷ rows) j ≡ some q
          → q.is_aligned ≡ flag
          → q.deps <ℤ l.row.deps
      before zero q lt e f =
          at_head (λ t. t.is_aligned ≡ flag → t.deps <ℤ l.row.deps) q e
            (λ f. omega (arith, low f, l.above)) f
      before (suc j) q lt e f = l.first j q (omega arith) e f

  lead_here :
      (k i : ℕ) (v : ℤ) (i' : ℕ) (v' : ℤ)
      → r.is_aligned ≡ flag
      → v <ℤ r.deps
      → Outcome rows flag (k + 1) k r.deps i' v'
      → Outcome (r ∷ rows) flag k i v i' v'
  unfolding lead_head lead_later
  lead_here k i v i' v' f up (kept ei ev b) = improved 0 (lead_head v f up b) (ei ∙ omega arith) ev
  lead_here k i v i' v' f up (improved p l ei ev) =
      improved (suc p) (lead_later v r.deps p l (omega arith) (λ _. omega arith)) (ei ∙ omega arith)
        ev

  pass_by :
      (k i : ℕ) (v : ℤ) (i' : ℕ) (v' : ℤ)
      → (r.is_aligned ≡ flag → r.deps ≤ℤ v)
      → Outcome rows flag (k + 1) i v i' v'
      → Outcome (r ∷ rows) flag k i v i' v'
  unfolding lead_later
  pass_by k i v i' v' low (kept ei ev b) = kept ei ev (Below-cons v low b)
  pass_by k i v i' v' low (improved p l ei ev) =
      improved (suc p) (lead_later v v p l (omega arith) low) (ei ∙ omega arith) ev

-- One round: the row takes the lead, or the two variables stay.
data Round (r : Row) (flag : Bool) (k : ℕ) (s s' : Best) : Type 0 where
  takes :
      r.is_aligned ≡ flag
      → value_of flag s <ℤ r.deps
      → index_of flag s' ≡ k
      → value_of flag s' ≡ r.deps
      → Round r flag k s s'
  passes :
      (r.is_aligned ≡ flag → r.deps ≤ℤ value_of flag s)
      → index_of flag s' ≡ index_of flag s
      → value_of flag s' ≡ value_of flag s
      → Round r flag k s s'

best_step-Round : (r : Row) (flag : Bool) (k : ℕ) (s : Best) → Round r flag k s (best_step k r s)
unfolding best_step
best_step-Round r true k s = elim (Bool-cases (r.is_aligned && ltb_ℤ s.value_a r.deps)) [
  | inl up ↦ takes (ground arith) (ground arith) (ground arith) (ground arith)
  | inr low ↦ passes (λ f. ground arith) (ground arith) (ground arith)
]
best_step-Round r false k s = elim (Bool-cases (not r.is_aligned && ltb_ℤ s.value_u r.deps)) [
  | inl up ↦ takes (ground arith) (ground arith) (ground arith) (ground arith)
  | inr low ↦ passes (λ f. ground arith) (ground arith) (ground arith)
]

abbrev Looped : List Row → Bool → ℕ → Best → Best → Type 0
Looped rows flag k s s' =
    Outcome rows flag k (index_of flag s) (value_of flag s) (index_of flag s') (value_of flag s')

Round-Outcome :
    (r : Row) (rows : List Row) (flag : Bool) (k : ℕ) (s t s' : Best)
    → Round r flag k s t
    → Looped rows flag (k + 1) t s'
    → Looped (r ∷ rows) flag k s s'
Round-Outcome r rows flag k s t s' (takes f up ei ev) o =
    lead_here r rows flag k (index_of flag s) (value_of flag s) (index_of flag s')
      (value_of flag s') f up
      (subst₂ (λ i v. Outcome rows flag (k + 1) i v (index_of flag s') (value_of flag s')) ei ev o)
Round-Outcome r rows flag k s t s' (passes low ei ev) o =
    pass_by r rows flag k (index_of flag s) (value_of flag s) (index_of flag s') (value_of flag s')
      low
      (subst₂ (λ i v. Outcome rows flag (k + 1) i v (index_of flag s') (value_of flag s')) ei ev o)

best_loop-Looped :
    (rows : List Row) (flag : Bool) (k : ℕ) (s : Best) → Looped rows flag k s (best_loop rows k s)
unfolding best_loop
best_loop-Looped [] flag k s = kept refl refl (λ j r e f. absurd (cc e))
best_loop-Looped (r ∷ rows) flag k s =
    Round-Outcome r rows flag k s (best_step k r s) (best_loop rows (k + 1) (best_step k r s))
      (best_step-Round r flag k s) (best_loop-Looped rows flag (k + 1) (best_step k r s))

-- What index the loop's result is.
pub data Ranked (rows : List Row) (align : Bool) (i : ℕ) : Type 0 where
  aligned_best : align ≡ true → Leads rows true (negsuc 0) i → Ranked rows align i
  unaligned_best :
      (align ≡ false) ⊎ Below rows true (negsuc 0)
      → Leads rows false (negsuc 0) i
      → Ranked rows align i
  none_fits :
      (align ≡ false) ⊎ Below rows true (negsuc 0)
      → Below rows false (negsuc 0)
      → i ≡ 0
      → Ranked rows align i

unaligned_side :
    (rows : List Row) (align : Bool) (s : Best)
    → (align ≡ false) ⊎ Below rows true (negsuc 0)
    → Looped rows false 0 start s
    → Ranked rows align s.index_u
unfolding start
unaligned_side rows align s no_a (kept ei ev b) = none_fits no_a b ei
unaligned_side rows align s no_a (improved p l ei ev) =
    rw ei (unaligned_best no_a (subst (λ i. Leads rows false (negsuc 0) i) (omega arith) l))

choose-Ranked :
    (rows : List Row) (align : Bool) (s : Best)
    → Looped rows true 0 start s
    → Looped rows false 0 start s
    → Ranked rows align (choose align s)
unfolding choose start
choose-Ranked rows false s a u = unaligned_side rows false s (inl refl) u
choose-Ranked rows true s (kept ei ev b) u = rw ev (unaligned_side rows true s (inr b) u)
choose-Ranked rows true s (improved p l ei ev) u =
    let e : p ≡ choose true s = ground arith in
    subst (λ i. Ranked rows true i) e (aligned_best refl l)

-- The index that the ranking picks when neither the environment nor the preferences decide: with
-- `align`, the first of the aligned rows with the largest mask, if one has a mask that is not
-- negative; else the first of the unaligned rows with the largest mask, if one has such a mask; else 0.
pub best_index-Ranked : (rows : List Row) (align : Bool) → Ranked rows align (best_index rows align)
unfolding best_index
best_index-Ranked rows align =
    choose-Ranked rows align (best_loop rows 0 start) (best_loop-Looped rows true 0 start)
      (best_loop-Looped rows false 0 start)
