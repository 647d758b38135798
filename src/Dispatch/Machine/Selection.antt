-- ===== src/Dispatch/Machine/Selection.antt =====
-- Which machine is chosen.
use volk.Base.{ℕ, zero, suc, ◌≤◌, ◌<◌, ◌≡◌, refl, ◌⊎◌, inl, inr, true, List, []}
use volk.Base.{◌∷◌, Option, none, some, arith, get_elem?, Bool-cases, ◌&&◌, ltb}
use mathlib.Core.Path.{subst}
use mathlib.Core.Option.{some-injective}
use volk.Dispatch.Machine.{Machine, fits, select_loop, select}

module _ {ℓ} {Tables : Type ℓ} (lvarch : ℕ) where
  -- No machine that the processor can run scores above `v`.
  abbrev pub NoneAbove : List (Machine Tables) → ℕ → Type ℓ
  NoneAbove machines v =
      (j : ℕ) (m : Machine Tables)
      → get_elem? machines j ≡ some m
      → fits lvarch m.caps ≡ true
      → m.caps ≤ v

  -- `m` is the first of the machines that run on the processor with the highest score, above `v`.
  pub record IsChosen (machines : List (Machine Tables)) (v : ℕ) (m : Machine Tables) : Type ℓ where
    pub place : ℕ
    pub at_place : get_elem? machines place ≡ some m
    pub runs : fits lvarch m.caps ≡ true
    pub above : v < m.caps
    pub highest : NoneAbove machines m.caps
    pub first :
        (j : ℕ) (m' : Machine Tables)
        → j < place
        → get_elem? machines j ≡ some m'
        → fits lvarch m'.caps ≡ true
        → m'.caps < m.caps

  data Selected (machines : List (Machine Tables)) (v : ℕ) (b r : Option (Machine Tables))
      : Type ℓ where
    stays : r ≡ b → NoneAbove machines v → Selected machines v b r
    takes : (m : Machine Tables) → r ≡ some m → IsChosen machines v m → Selected machines v b r

  module _ (m₀ : Machine Tables) (machines : List (Machine Tables)) where
    at_head :
        (P : Machine Tables → Type 0) (m : Machine Tables)
        → get_elem? (m₀ ∷ machines) 0 ≡ some m
        → P m₀
        → P m
    at_head P m e h = subst P (some-injective m₀ m e) h

    NoneAbove-cons :
        (v : ℕ)
        → (fits lvarch m₀.caps ≡ true → m₀.caps ≤ v)
        → NoneAbove machines v
        → NoneAbove (m₀ ∷ machines) v
    NoneAbove-cons v head tail zero m e f =
        at_head (λ t. fits lvarch t.caps ≡ true → t.caps ≤ v) m e head f
    NoneAbove-cons v head tail (suc j) m e f = tail j m e f

    IsChosen-head :
        (v : ℕ)
        → fits lvarch m₀.caps ≡ true
        → v < m₀.caps
        → NoneAbove machines m₀.caps
        → IsChosen (m₀ ∷ machines) v m₀
    IsChosen-head v f up b = record {
      place = 0;
      at_place = refl;
      runs = f;
      above = up;
      highest = NoneAbove-cons m₀.caps (λ _. omega arith) b;
      first = λ j m lt e g. absurd (omega arith);
    }

    IsChosen-later :
        (v w : ℕ) (m : Machine Tables)
        → v ≤ w
        → (fits lvarch m₀.caps ≡ true → m₀.caps ≤ w)
        → IsChosen machines w m
        → IsChosen (m₀ ∷ machines) v m
    IsChosen-later v w m le low c = record {
      place = suc c.place;
      at_place = c.at_place;
      runs = c.runs;
      above = omega (arith, c.above);
      highest = NoneAbove-cons m.caps (λ f. omega (arith, low f, c.above)) c.highest;
      first = before;
    }
      where
        before :
            (j : ℕ) (m' : Machine Tables)
            → j < suc c.place
            → get_elem? (m₀ ∷ machines) j ≡ some m'
            → fits lvarch m'.caps ≡ true
            → m'.caps < m.caps
        before zero m' lt e f =
            at_head (λ t. fits lvarch t.caps ≡ true → t.caps < m.caps) m' e
              (λ f. omega (arith, low f, c.above)) f
        before (suc j) m' lt e f = c.first j m' (omega arith) e f

    Selected-takes :
        (v : ℕ) (b r : Option (Machine Tables))
        → fits lvarch m₀.caps ≡ true
        → v < m₀.caps
        → Selected machines m₀.caps (some m₀) r
        → Selected (m₀ ∷ machines) v b r
    Selected-takes v b r f up (stays e n) = takes m₀ e (IsChosen-head v f up n)
    Selected-takes v b r f up (takes m e c) =
        takes m e (IsChosen-later v m₀.caps m (omega arith) (λ _. omega arith) c)

    Selected-passes :
        (v : ℕ) (b r : Option (Machine Tables))
        → (fits lvarch m₀.caps ≡ true → m₀.caps ≤ v)
        → Selected machines v b r
        → Selected (m₀ ∷ machines) v b r
    Selected-passes v b r low (stays e n) = stays e (NoneAbove-cons v low n)
    Selected-passes v b r low (takes m e c) = takes m e (IsChosen-later v v m (omega arith) low c)

  select_loop-Selected :
      (machines : List (Machine Tables)) (v : ℕ) (b : Option (Machine Tables))
      → Selected machines v b (select_loop lvarch machines v b)
  unfolding select_loop
  select_loop-Selected [] v b = stays refl (λ j m e f. absurd (cc e))
  select_loop-Selected (m₀ ∷ machines) v b =
      elim (Bool-cases (fits lvarch m₀.caps && ltb v m₀.caps)) [
        | inl up ↦ rw up (
            Selected-takes m₀ machines v b (select_loop lvarch machines m₀.caps (some m₀))
              (ground arith) (ground arith) (select_loop-Selected machines m₀.caps (some m₀)))
        | inr low ↦ rw low (
            Selected-passes m₀ machines v b (select_loop lvarch machines v b) (λ f. ground arith)
              (select_loop-Selected machines v b))
      ]

  -- The machine chosen is the first of those that run on the processor with the highest score; no machine
  -- is chosen exactly if none that runs on the processor has a score above 0.
  pub select_lem :
      (machines : List (Machine Tables))
      → ((m : Machine Tables) × (select lvarch machines ≡ some m) × IsChosen machines 0 m)
        ⊎ ((select lvarch machines ≡ none) × NoneAbove machines 0)
  unfolding select
  select_lem machines = split (select_loop-Selected machines 0 none)
    where
      split :
          Selected machines 0 none (select_loop lvarch machines 0 none)
          → ((m : Machine Tables) × (select_loop lvarch machines 0 none ≡ some m)
              × IsChosen machines 0 m)
            ⊎ ((select_loop lvarch machines 0 none ≡ none) × NoneAbove machines 0)
      split (stays e n) = inr (e, n)
      split (takes m e c) = inl (m, e, c)
