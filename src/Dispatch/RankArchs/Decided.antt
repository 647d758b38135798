-- ===== src/Dispatch/RankArchs/Decided.antt =====
-- What decides a choice of `volk_rank_archs`, and in which order.
use volk.Base.{
  ℕ, zero, suc, ◌<◌, ◌≡◌, refl, ◌≢◌, Bool, true, false, List, [], ◌∷◌, Option, none, some,
}
use volk.Base.{arith, length, get_elem?, if◌then◌else◌, inl, inr, Bool-cases, Option-cases}
use volk.Base.CString.{CString, strncmp_zero}
use volk.Dispatch.RankArchs.{Row, Choice, index, ArchPref, Env, Loaded, find_pref, volk_get_index}
use volk.Dispatch.RankArchs.{best_index, by_preference, load_once, rank_with, volk_rank_archs}
use volk.Dispatch.RankArchs.{generic_name, volk_generic}
use volk.Dispatch.RankArchs.Index.{Picked, get_index-Picked}
use volk.Dispatch.RankArchs.Ranking.{Ranked, best_index-Ranked}
use volk.Dispatch.RankArchs.Total.{names_of, length-names_of, Ranked-lt}

-- The preference is for the kernel: the names agree in the 128 bytes that the field holds.
abbrev pub IsFor : CString → ArchPref → Bool → Type 0
IsFor name pref t = strncmp_zero 128 name pref.name ≡ t

-- No preference is for the kernel.
abbrev pub NoPref : CString → List ArchPref → Type 0
NoPref name prefs = (j : ℕ) (q : ArchPref) → get_elem? prefs j ≡ some q → IsFor name q false

-- The first preference that is for the kernel.
pub record FirstPref (name : CString) (prefs : List ArchPref) (pref : ArchPref) : Type 0 where
  pub place : ℕ
  pub at_place : get_elem? prefs place ≡ some pref
  pub is_for : IsFor name pref true
  pub first : (j : ℕ) (q : ArchPref) → j < place → get_elem? prefs j ≡ some q → IsFor name q false

data Search (name : CString) (prefs : List ArchPref) (r : Option ArchPref) : Type 0 where
  missed : r ≡ none → NoPref name prefs → Search name prefs r
  hit : (p : ArchPref) → r ≡ some p → FirstPref name prefs p → Search name prefs r

module _ (name : CString) where
  NoPref-cons :
      (p : ArchPref) (ps : List ArchPref)
      → IsFor name p false
      → NoPref name ps
      → NoPref name (p ∷ ps)
  NoPref-cons p ps other tail zero q e = cc (other, e)
  NoPref-cons p ps other tail (suc j) q e = tail j q e

  FirstPref-cons :
      (p : ArchPref) (ps : List ArchPref) (r : ArchPref)
      → IsFor name p false
      → FirstPref name ps r
      → FirstPref name (p ∷ ps) r
  FirstPref-cons p ps r other f = record {
    place = suc f.place;
    at_place = f.at_place;
    is_for = f.is_for;
    first = before;
  }
    where
      before :
          (j : ℕ) (q : ArchPref)
          → j < suc f.place
          → get_elem? (p ∷ ps) j ≡ some q
          → IsFor name q false
      before zero q lt e = cc (other, e)
      before (suc j) q lt e = f.first j q (omega arith) e

  Search-cons :
      (p : ArchPref) (ps : List ArchPref)
      → IsFor name p false
      → Search name ps (find_pref name ps)
      → Search name (p ∷ ps) (find_pref name ps)
  Search-cons p ps other (missed e n) = missed e (NoPref-cons p ps other n)
  Search-cons p ps other (hit q e f) = hit q e (FirstPref-cons p ps q other f)

  find_pref-Search : (prefs : List ArchPref) → Search name prefs (find_pref name prefs)
  unfolding find_pref
  find_pref-Search [] = missed refl (λ j q e. cc e)
  find_pref-Search (p ∷ ps) = elim (Bool-cases (strncmp_zero 128 name p.name)) [
    | inr other ↦ rw (other, find_pref) (Search-cons p ps other (find_pref-Search ps))
    | inl agrees ↦
        rw (agrees, find_pref)
          (hit p refl (record {
            place = 0;
            at_place = refl;
            is_for = agrees;
            first = λ j q lt e. absurd (omega arith);
          }))
  ]

-- Why the index `i` is chosen. VOLK_GENERIC decides first, then the variable with the kernel's name, then
-- the first preference for the kernel, each by a name; and then the masks.
pub data Decided (env : Env) (name : CString) (rows : List Row) (align : Bool)
    (prefs : List ArchPref) (i : ℕ) : Type 0 where
  by_volk_generic :
      (v : CString)
      → env.getenv volk_generic ≡ some v
      → Picked (names_of rows) generic_name i
      → Decided env name rows align prefs i
  by_variable :
      (v : CString)
      → env.getenv volk_generic ≡ none
      → env.getenv name ≡ some v
      → Picked (names_of rows) v i
      → Decided env name rows align prefs i
  by_first_pref :
      (p : ArchPref)
      → env.getenv volk_generic ≡ none
      → env.getenv name ≡ none
      → FirstPref name prefs p
      → Picked (names_of rows) (if align then p.impl_a else p.impl_u) i
      → Decided env name rows align prefs i
  by_rank :
      env.getenv volk_generic ≡ none
      → env.getenv name ≡ none
      → NoPref name prefs
      → Ranked rows align i
      → Decided env name rows align prefs i

names_of-some : (rows : List Row) → rows ≢ [] → names_of rows ≢ []
names_of-some [] h = absurd (h refl)
names_of-some (r ∷ rows) h = λ e. cc e

module _ (env : Env) (name : CString) (rows : List Row) (align : Bool) (h : rows ≢ []) where
  -- An index into the table, for the reason given.
  abbrev Chosen : List ArchPref → Choice → Type 0
  Chosen prefs c = (i : ℕ) × (c ≡ index i) × (i < length rows) × Decided env name rows align prefs i

  named :
      (prefs : List ArchPref) (v : CString)
      → ((i : ℕ) → Picked (names_of rows) v i → Decided env name rows align prefs i)
      → Chosen prefs (volk_get_index (names_of rows) v)
  named prefs v why =
      let (i, e, lt, picked) = get_index-Picked (names_of rows) v (names_of-some rows h) in
      (i, e, omega (arith, length-names_of rows), why i picked)

  by_preference-Chosen :
      (prefs : List ArchPref)
      → env.getenv volk_generic ≡ none
      → env.getenv name ≡ none
      → Search name prefs (find_pref name prefs)
      → Chosen prefs (by_preference name rows align prefs)
  unfolding by_preference
  by_preference-Chosen prefs e e' (missed f n) =
      rw (f, by_preference)
        (
          best_index rows align,
          refl,
          Ranked-lt rows align _ h (best_index-Ranked rows align),
          by_rank e e' n (best_index-Ranked rows align),
        )
  by_preference-Chosen prefs e e' (hit p f first) =
      rw (f, by_preference)
        (named prefs (if align then p.impl_a else p.impl_u) (λ i d. by_first_pref p e e' first d))

  rank_with-Chosen : (prefs : List ArchPref) → Chosen prefs (rank_with env name rows align prefs)
  unfolding rank_with
  rank_with-Chosen prefs = elim (Option-cases (env.getenv volk_generic)) [
    | inr (v, e) ↦ rw (e, rank_with) (named prefs generic_name (λ i d. by_volk_generic v e d))
    | inl e ↦ elim (Option-cases (env.getenv name)) [
      | inr (v, e') ↦
          rw (e, rank_with) (rw (e', rank_with) (named prefs v (λ i d. by_variable v e e' d)))
      | inl e' ↦
          rw (e, rank_with)
            (rw (e', rank_with) (by_preference-Chosen prefs e e' (find_pref-Search name prefs)))
    ]
  ]

-- The static variables once these preferences have been read.
abbrev pub loaded_with : List ArchPref → Loaded
loaded_with prefs = record { volk_arch_prefs = prefs; prefs_loaded = true }

-- The choice on a table that is not empty is an index into it that has been decided, in this order, by
-- "generic" if VOLK_GENERIC is set, by the variable with the kernel's name, by the first preference whose
-- name agrees with the kernel's in 128 bytes, or else by the masks. The preferences are those that an
-- earlier call has read, or, in the first, those that can be read now; after the call these stay.
pub rank_archs-Decided :
    (env : Env) (name : CString) (rows : List Row) (align : Bool) (s : Loaded)
    → rows ≢ []
    → let prefs = if s.prefs_loaded then s.volk_arch_prefs else env.load_preferences in
      let (c, s') = volk_rank_archs env name rows align s in
      (i : ℕ) × (c ≡ index i)
      × (i < length rows)
      × Decided env name rows align prefs i
      × (s' ≡ loaded_with prefs)
unfolding volk_rank_archs load_once
rank_archs-Decided env name rows align s h = elim (Bool-cases s.prefs_loaded) [
  | inl e ↦ rw (e, load_once) (with_end s.volk_arch_prefs)
  | inr e ↦ rw (e, load_once) (with_end env.load_preferences)
]
  where
    with_end :
        (prefs : List ArchPref)
        → (i : ℕ) × (rank_with env name rows align prefs ≡ index i)
          × (i < length rows)
          × Decided env name rows align prefs i
          × (loaded_with prefs ≡ loaded_with prefs)
    with_end prefs =
        let (i, e, lt, d) = rank_with-Chosen env name rows align h prefs in (i, e, lt, d, refl)
