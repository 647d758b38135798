-- ===== src/Dispatch/RankArchs/Total.antt =====
-- `volk_rank_archs` as its caller uses it: on a table that is not empty it always gives an index into
-- the table, and it reads the preferences once.
use volk.Base.{ℕ, suc, ◌<◌, ◌≡◌, refl, sym, ◌∙◌, ap, ◌≢◌, Bool, true, false, List, [], ◌∷◌}
use volk.Base.{Option, none, some, arith, length, map, get_elem?-lt, if◌then◌else◌}
use volk.Base.CString.{CString}
use volk.Dispatch.RankArchs.{Row, Choice, index, volk_get_index, ArchPref, Env, Loaded, find_pref}
use volk.Dispatch.RankArchs.{best_index, by_preference, load_once, rank_with, volk_rank_archs}
use volk.Dispatch.RankArchs.{generic_name, volk_generic}
use volk.Dispatch.RankArchs.Index.{get_index-Picked}
use volk.Dispatch.RankArchs.Ranking.{Ranked, aligned_best, unaligned_best, none_fits}
use volk.Dispatch.RankArchs.Ranking.{best_index-Ranked}

abbrev pub names_of : List Row → List CString
names_of rows = map (λ (r : Row). r.name) rows

pub length-names_of : (rows : List Row) → length (names_of rows) ≡ length rows
length-names_of [] = refl
length-names_of (r ∷ rows) = ap suc (length-names_of rows)

-- A choice that is an index into the table.
abbrev pub InTable : List Row → Choice → Type 0
InTable rows c = (i : ℕ) × (c ≡ index i) × (i < length rows)

by_name-InTable :
    (rows : List Row) (name : CString)
    → rows ≢ []
    → InTable rows (volk_get_index (names_of rows) name)
by_name-InTable [] name h = absurd (h refl)
by_name-InTable (r ∷ rows) name h =
    let (i, e, lt, p) = get_index-Picked (names_of (r ∷ rows)) name (λ q. cc q) in
    (i, e, omega (arith, length-names_of rows))

pub Ranked-lt :
    (rows : List Row) (align : Bool) (i : ℕ) → rows ≢ [] → Ranked rows align i → i < length rows
Ranked-lt rows align i h (aligned_best a l) = get_elem?-lt rows i l.at_index
Ranked-lt rows align i h (unaligned_best a l) = get_elem?-lt rows i l.at_index
Ranked-lt [] align i h (none_fits a b e) = absurd (h refl)
Ranked-lt (r ∷ rows) align i h (none_fits a b e) = omega arith

by_preference-InTable :
    (name : CString) (rows : List Row) (align : Bool) (prefs : List ArchPref)
    → rows ≢ []
    → InTable rows (by_preference name rows align prefs)
unfolding by_preference
by_preference-InTable name rows align prefs h = go (find_pref name prefs)
  where
    go :
        (found : Option ArchPref)
        → InTable rows (elim found [
          | some p ↦ volk_get_index (names_of rows) (if align then p.impl_a else p.impl_u)
          | none ↦ index (best_index rows align)
        ])
    go (some p) = by_name-InTable rows (if align then p.impl_a else p.impl_u) h
    go none = (best_index rows align, refl, Ranked-lt rows align _ h (best_index-Ranked rows align))

rank_with-InTable :
    (env : Env) (name : CString) (rows : List Row) (align : Bool) (prefs : List ArchPref)
    → rows ≢ []
    → InTable rows (rank_with env name rows align prefs)
unfolding rank_with
rank_with-InTable env name rows align prefs h = go (env.getenv volk_generic) (env.getenv name)
  where
    go :
        (all one : Option CString)
        → InTable rows (elim all [
          | some _ ↦ volk_get_index (names_of rows) generic_name
          | none ↦ elim one [
            | some override ↦ volk_get_index (names_of rows) override
            | none ↦ by_preference name rows align prefs
          ]
        ])
    go (some _) one = by_name-InTable rows generic_name h
    go none (some override) = by_name-InTable rows override h
    go none none = by_preference-InTable name rows align prefs h

load_once_again :
    (later env : Env) (s : Loaded) → load_once later (load_once env s) ≡ load_once env s
unfolding load_once
load_once_again later env s = ground arith

-- Whatever the environment, the preferences and the static variables hold, the choice on a table that is
-- not empty is an index into that table, and so is that of any later call, for whatever kernel, table and
-- flag. The later call leaves the static variables as the first has left them, and what it chooses does
-- not depend on what preferences could be read by then.
pub rank_archs-InTable :
    (env later : Env) (kern_name other : CString) (rows rows' : List Row) (align align' : Bool)
    (s : Loaded)
    → rows ≢ []
    → rows' ≢ []
    → let (c, s') = volk_rank_archs env kern_name rows align s in
      let (c', s'') = volk_rank_archs later other rows' align' s' in
      InTable rows c
      × InTable rows' c'
      × (s'' ≡ s')
      × ((prefs : List ArchPref)
          → (volk_rank_archs (record later { load_preferences = prefs }) other rows' align' s').0
            ≡ c')
unfolding volk_rank_archs load_once rank_with
rank_archs-InTable env later kern_name other rows rows' align align' s h h' = (
  rank_with-InTable env kern_name rows align (load_once env s).volk_arch_prefs h,
  rank_with-InTable later other rows' align' _ h',
  load_once_again later env s,
  λ prefs.
      ap (λ (t : Loaded). rank_with later other rows' align' t.volk_arch_prefs)
        (load_once_again (record later { load_preferences = prefs }) env s
          ∙ sym (load_once_again later env s)),
)

-- Neither an environment variable nor a preference decides for the kernel.
pub record NoOverride (env : Env) (name : CString) : Type 0 where
  pub no_generic : env.getenv volk_generic ≡ none
  pub no_variable : env.getenv name ≡ none
  pub no_preference : find_pref name env.load_preferences ≡ none

rank_with-best_index :
    (env : Env) (name : CString) (rows : List Row) (align : Bool)
    → NoOverride env name
    → rank_with env name rows align env.load_preferences ≡ index (best_index rows align)
unfolding rank_with by_preference
rank_with-best_index env name rows align o =
    rw (o.no_generic, rank_with)
      (rw (o.no_variable, rank_with) (rw (o.no_preference, by_preference) refl))

-- Without them, the ranking decides in the two calls of the initialisation.
pub rank_archs-best_index :
    (env : Env) (name : CString) (rows : List Row) (align other : Bool) (s : Loaded)
    → NoOverride env name
    → s.prefs_loaded ≡ false
    → let (c, s') = volk_rank_archs env name rows align s in
      (c ≡ index (best_index rows align))
      × ((volk_rank_archs env name rows other s').0 ≡ index (best_index rows other))
unfolding volk_rank_archs load_once
rank_archs-best_index env name rows align other s o fresh = (
  ap (λ b. rank_with env name rows align (if b then s else read_now).volk_arch_prefs) fresh
      ∙ rank_with-best_index env name rows align o,
  ap
        (λ b.
          rank_with env name rows other
            (if (if b then s else read_now).prefs_loaded
              then (if b then s else read_now)
              else read_now).volk_arch_prefs)
        fresh
      ∙ rank_with-best_index env name rows other o,
)
  where
    read_now : Loaded
    read_now = record { volk_arch_prefs = env.load_preferences; prefs_loaded = true }
