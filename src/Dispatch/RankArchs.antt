-- ===== src/Dispatch/RankArchs.antt =====
-- lib/volk_rank_archs.c: the choice of an implementation of a kernel. The parallel arrays that a
-- machine holds for a kernel (names, dependency masks, alignment flags) are one list of rows. What
-- the functions print is left out.
pub mod Index
pub mod Ranking
pub mod Total
pub mod Decided
use volk.Base.{
  ℕ, zero, suc, ◌+◌, Bool, true, false, ◌&&◌, not, List, [], ◌∷◌, Option, none, some, map,
}
use volk.Base.{if◌then◌else◌}
use volk.Base.Int.{ℤ, negsuc, ltb_ℤ, eqb_ℤ}
use volk.Base.CString.{CString, strncmp_zero, strcmp_zero}

-- "generic" and "VOLK_GENERIC"
abbrev pub generic_name : CString
generic_name = b'g' ∷ b'e' ∷ b'n' ∷ b'e' ∷ b'r' ∷ b'i' ∷ b'c' ∷ []

abbrev pub volk_generic : CString
volk_generic =
    b'V' ∷ b'O' ∷ b'L' ∷ b'K' ∷ b'_' ∷ b'G' ∷ b'E' ∷ b'N' ∷ b'E' ∷ b'R' ∷ b'I' ∷ b'C' ∷ []

-- An implementation in a machine's table: its name, the mask of the architectures that it needs,
-- and whether it wants aligned arguments.
pub record Row : Type 0 where
  pub name : CString
  pub deps : ℤ
  pub is_aligned : Bool

-- An index, the -1 for an empty table, or more calls than allowed.
pub data Choice : Type 0 where
  index : ℕ → Choice
  no_impls out_of_calls : Choice

-- The loop over the names, from index `i` on.
pub scan : List CString → CString → ℕ → Option ℕ
scan [] impl_name i = none
scan (x ∷ xs) impl_name i =
    if strncmp_zero 20 x impl_name then some i else scan xs impl_name (i + 1)

-- `volk_get_index` with at most `calls` calls of itself.
pub get_index_calls : ℕ → List CString → CString → Choice
get_index_calls zero impl_names impl_name = out_of_calls
get_index_calls (suc calls) [] impl_name = no_impls
get_index_calls (suc calls) (x ∷ xs) impl_name = elim (scan (x ∷ xs) impl_name 0) [
  | some i ↦ index i
  | none ↦ elim (strcmp_zero generic_name impl_name) [
    | true ↦ index 0
    | false ↦ get_index_calls calls (x ∷ xs) generic_name
  ]
]

-- It calls itself once at most, for "generic".
pub volk_get_index : List CString → CString → Choice
volk_get_index = get_index_calls 2

-- `volk_arch_pref_t`
pub record ArchPref : Type 0 where
  pub name : CString
  pub impl_a : CString
  pub impl_u : CString

-- What the process gives: its environment, and what `volk_load_preferences` reads.
pub record Env : Type 0 where
  pub getenv : CString → Option CString
  pub load_preferences : List ArchPref

-- The static variables of `volk_rank_archs`.
pub record Loaded : Type 0 where
  pub volk_arch_prefs : List ArchPref
  pub prefs_loaded : Bool

-- The search of the preferences; a name's array holds 128 bytes.
unfoldable pub find_pref : CString → List ArchPref → Option ArchPref
find_pref kern_name [] = none
find_pref kern_name (p ∷ ps) =
    if strncmp_zero 128 kern_name p.name then some p else find_pref kern_name ps

-- The four variables of the last loop.
pub record Best : Type 0 where
  pub index_a : ℕ
  pub index_u : ℕ
  pub value_a : ℤ
  pub value_u : ℤ

pub best_step : ℕ → Row → Best → Best
best_step i r s =
    let s' : Best =
      if r.is_aligned && ltb_ℤ s.value_a r.deps
      then record s { index_a = i; value_a = r.deps }
      else s in
    if not r.is_aligned && ltb_ℤ s'.value_u r.deps
    then record s' { index_u = i; value_u = r.deps }
    else s'

pub best_loop : List Row → ℕ → Best → Best
best_loop [] i s = s
best_loop (r ∷ rows) i s = best_loop rows (i + 1) (best_step i r s)

pub start : Best
start = record { index_a = 0; index_u = 0; value_a = negsuc 0; value_u = negsuc 0 }

-- `align && best_value_a != -1`: the -1 says that there is no aligned implementation.
pub choose : Bool → Best → ℕ
choose align s = if align && not (eqb_ℤ s.value_a (negsuc 0)) then s.index_a else s.index_u

pub best_index : List Row → Bool → ℕ
best_index rows align = choose align (best_loop rows 0 start)

-- The statics after a call: the preferences are read by the first call only.
pub load_once : Env → Loaded → Loaded
load_once env s =
    if s.prefs_loaded
    then s
    else record { volk_arch_prefs = env.load_preferences; prefs_loaded = true }

pub by_preference : CString → List Row → Bool → List ArchPref → Choice
by_preference kern_name rows align prefs = elim (find_pref kern_name prefs) [
  | some p ↦ volk_get_index (map (λ (r : Row). r.name) rows) (if align then p.impl_a else p.impl_u)
  | none ↦ index (best_index rows align)
]

-- The choice with the preferences loaded: VOLK_GENERIC first, then the variable named after the kernel.
pub rank_with : Env → CString → List Row → Bool → List ArchPref → Choice
rank_with env kern_name rows align prefs = elim (env.getenv volk_generic) [
  | some _ ↦ volk_get_index (map (λ (r : Row). r.name) rows) generic_name
  | none ↦ elim (env.getenv kern_name) [
    | some override ↦ volk_get_index (map (λ (r : Row). r.name) rows) override
    | none ↦ by_preference kern_name rows align prefs
  ]
]

pub volk_rank_archs : Env → CString → List Row → Bool → Loaded → Choice × Loaded
volk_rank_archs env kern_name rows align s =
    let s' = load_once env s in (rank_with env kern_name rows align s'.volk_arch_prefs, s')
