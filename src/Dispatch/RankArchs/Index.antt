-- ===== src/Dispatch/RankArchs/Index.antt =====
-- Which index `volk_get_index` returns.
use volk.Base.{ℕ, zero, suc, ◌+◌, ◌<◌, ◌≡◌, refl, sym, ◌∙◌, ap, inl, inr, ◌≢◌}
use volk.Base.{
  true, false, List, [], ◌∷◌, Option, none, some, arith, length, get_elem?, get_elem?-lt,
  Bool-cases,
}
use mathlib.Core.Path.{subst}
use volk.Base.CString.{CString, strncmp_zero, strcmp_zero, strcmp_zero_sound}
use volk.Dispatch.RankArchs.{generic_name, Choice, index, scan, get_index_calls, volk_get_index}

-- No name agrees with `name` in its first 20 characters.
abbrev pub NoMatch : List CString → CString → Type 0
NoMatch names name =
    (j : ℕ) (x : CString) → get_elem? names j ≡ some x → strncmp_zero 20 x name ≡ false

-- `i` is the index of the first name that does.
pub record FirstMatch (names : List CString) (name : CString) (i : ℕ) : Type 0 where
  pub found : CString
  pub at_index : get_elem? names i ≡ some found
  pub agrees : strncmp_zero 20 found name ≡ true
  pub first :
      (j : ℕ) (x : CString) → j < i → get_elem? names j ≡ some x → strncmp_zero 20 x name ≡ false

pub data Scanned (names : List CString) (name : CString) (k : ℕ) (result : Option ℕ) : Type 0 where
  missed : result ≡ none → NoMatch names name → Scanned names name k result
  matched : (i : ℕ) → result ≡ some (k + i) → FirstMatch names name i → Scanned names name k result

NoMatch-cons :
    (x : CString) (xs : List CString) (name : CString)
    → strncmp_zero 20 x name ≡ false
    → NoMatch xs name
    → NoMatch (x ∷ xs) name
NoMatch-cons x xs name no_x m zero y e = ground arith
NoMatch-cons x xs name no_x m (suc j) y e = m j y e

FirstMatch-cons :
    {x : CString} {xs : List CString} {name : CString} {i : ℕ}
    → strncmp_zero 20 x name ≡ false
    → FirstMatch xs name i
    → FirstMatch (x ∷ xs) name (suc i)
FirstMatch-cons {x} {xs} {name} {i} no_x m = record {
  found = m.found;
  at_index = m.at_index;
  agrees = m.agrees;
  first = before;
}
  where
    before :
        (j : ℕ) (y : CString)
        → j < suc i
        → get_elem? (x ∷ xs) j ≡ some y
        → strncmp_zero 20 y name ≡ false
    before zero y lt e = ground arith
    before (suc j) y lt e = m.first j y (omega arith) e

Scanned-cons :
    {x : CString} {xs : List CString} {name : CString} {k : ℕ} {r : Option ℕ}
    → strncmp_zero 20 x name ≡ false
    → Scanned xs name (k + 1) r
    → Scanned (x ∷ xs) name k r
Scanned-cons {x} {xs} {name} no_x (missed e m) = missed e (NoMatch-cons x xs name no_x m)
Scanned-cons no_x (matched i e m) =
    matched (suc i) (e ∙ ap some (omega arith)) (FirstMatch-cons no_x m)

scan-Scanned :
    (names : List CString) (name : CString) (k : ℕ) → Scanned names name k (scan names name k)
unfolding scan
scan-Scanned [] name k = missed refl (λ j x e. ground arith)
scan-Scanned (x ∷ xs) name k = elim (Bool-cases (strncmp_zero 20 x name)) [
  | inl same ↦ matched 0 (rw same (ap some (omega arith))) (record {
    found = x;
    at_index = refl;
    agrees = same;
    first = λ j y lt e. absurd (omega arith);
  })
  | inr differs ↦ rw differs (Scanned-cons differs (scan-Scanned xs name (k + 1)))
]

FirstMatch-lt :
    {names : List CString} {name : CString} {i : ℕ} → FirstMatch names name i → i < length names
FirstMatch-lt {names} m = get_elem?-lt names _ m.at_index

-- What `volk_get_index` returns for a table that is not empty.
pub data Picked (names : List CString) (name : CString) (i : ℕ) : Type 0 where
  by_name : FirstMatch names name i → Picked names name i
  fallback : NoMatch names name → FirstMatch names generic_name i → Picked names name i
  first_row : NoMatch names name → NoMatch names generic_name → i ≡ 0 → Picked names name i

abbrev Indexed : List CString → CString → Choice → Type 0
Indexed names name c = (i : ℕ) × (c ≡ index i) × (i < length names) × Picked names name i

get_index_two_calls :
    (x : CString) (xs : List CString) (name : CString)
    → Scanned (x ∷ xs) name 0 (scan (x ∷ xs) name 0)
    → Scanned (x ∷ xs) generic_name 0 (scan (x ∷ xs) generic_name 0)
    → Indexed (x ∷ xs) name (get_index_calls 2 (x ∷ xs) name)
unfolding get_index_calls strcmp_zero
get_index_two_calls x xs name (matched i e m) g =
    (i, rw (e, get_index_calls) (ap index (omega arith)), FirstMatch-lt m, by_name m)
get_index_two_calls x xs name (missed e m) (matched i e' m') =
    elim (Bool-cases (strcmp_zero generic_name name)) [
      | inl same ↦ absurd (
          cc (
            subst (λ n. NoMatch (x ∷ xs) n) (sym (strcmp_zero_sound generic_name name same)) m i
                m'.found m'.at_index,
            m'.agrees,
          ))
      | inr other ↦ (
        i,
        rw (e, other, e', get_index_calls) (ap index (omega arith)),
        FirstMatch-lt m',
        fallback m m',
      )
    ]
get_index_two_calls x xs name (missed e m) (missed e' m') =
    elim (Bool-cases (strcmp_zero generic_name name)) [
      | inl same ↦ (0, rw (e, same, get_index_calls), omega arith, first_row m m' refl)
      | inr other ↦ (0, rw (e, other, e', get_index_calls), omega arith, first_row m m' refl)
    ]

-- On a table that is not empty `volk_get_index` returns an index into it: that of the first name
-- which agrees with the wanted one in 20 characters; if there is none, that of the first which
-- agrees with "generic"; and 0 if there is none of these either. Two calls of itself are enough.
pub get_index-Picked :
    (names : List CString) (name : CString)
    → names ≢ []
    → (i : ℕ) × (volk_get_index names name ≡ index i) × (i < length names) × Picked names name i
unfolding volk_get_index
get_index-Picked [] name h = absurd (h refl)
get_index-Picked (x ∷ xs) name h =
    get_index_two_calls x xs name (scan-Scanned (x ∷ xs) name 0)
      (scan-Scanned (x ∷ xs) generic_name 0)
