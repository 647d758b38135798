-- ===== src/Tests/Dispatch.antt =====
-- The dispatcher on a platform with two machines.
use volk.Base.{ℕ, zero, suc, ◌%◌, ◌<◌, ◌^◌, ◌≡◌, refl, true, false, List, [], ◌∷◌, length}
use volk.Base.{none, some, arith, ◌⊎◌, get_elem?}
use mathlib.Core.Option.{some-injective}
use mathlib.Core.Path.{subst}
use mathlib.Core.Logic.{◌↔◌}
use volk.Base.Int.{pos}
use volk.Base.CString.{CString, strncmp_zero}
use volk.Dispatch.RankArchs.{
  Row, index, find_pref, volk_get_index, generic_name, Env, Loaded, ArchPref, best_index,
  volk_rank_archs,
}
use volk.Dispatch.RankArchs.Index.{Picked, get_index-Picked}
use volk.Dispatch.RankArchs.Ranking.{Ranked, best_index-Ranked}
use volk.Dispatch.RankArchs.Total.{InTable, NoOverride, rank_archs-InTable}
use volk.Dispatch.RankArchs.Decided.{Decided, loaded_with, rank_archs-Decided}
use volk.Dispatch.Machine.{
  Machine, Platform, Statics, unset, select, select_loop, volk_get_machine, volk_get_alignment,
  volk_is_aligned,
}
use volk.Dispatch.Machine.Selection.{IsChosen, NoneAbove, select_lem}
use volk.Dispatch.Machine.Alignment.{
  or_ptrs, AllMultiples, is_aligned_iff, is_aligned-volk_get_machine,
}
use volk.Dispatch.Machine.Answers.{volk_get_alignment-volk_is_aligned}
use volk.Dispatch.Kernel.{Table, World, call, call_u, call_a, initial}
use volk.Dispatch.Kernel.Correct.{dispatch_refines}
use volk.Dispatch.X2.{
  X2Args, pointers, Entry, table_of, Accepts, result, IsConsistent, IsConsistent-IsSound,
  x2_dispatch,
}
use volk.Memory.{Buf}
use volk.Kernels.And32i
use volk.Kernels.Instances.{and_kernel}
use volk.Tests.Kernels.{and_instructions, out, in_a, in_b, fit_37}

abbrev avx : CString
avx = b'a' ∷ b'v' ∷ b'x' ∷ []

abbrev names : List CString
names = avx ∷ generic_name ∷ []

get_index-Picked_example :
    (i : ℕ) × (volk_get_index names avx ≡ index i) × (i < length names) × Picked names avx i
get_index-Picked_example = get_index-Picked names avx (λ e. cc)

abbrev rows : List Row
rows =
    record { name = avx; deps = pos 6; is_aligned = true }
    ∷ record { name = generic_name; deps = pos 1; is_aligned = false }
    ∷ []

best_index-Ranked_example : Ranked rows true (best_index rows true)
best_index-Ranked_example = best_index-Ranked rows true

abbrev two_rows : List Row
two_rows =
    record { name = generic_name; deps = pos 1; is_aligned = false }
    ∷ record { name = avx; deps = pos 5; is_aligned = false }
    ∷ []

-- Nothing in the environment, no preference.
abbrev bare : Env
bare = record { getenv = λ v. none; load_preferences = [] }

abbrev kern : CString
kern = b'k' ∷ []

abbrev not_loaded : Loaded
not_loaded = record { volk_arch_prefs = []; prefs_loaded = false }

-- Another environment, in which the first machine's name is asked for.
abbrev override : Env
override = record { getenv = λ v. some avx; load_preferences = [] }

rank_archs-InTable_example :
    let (c, s') = volk_rank_archs bare kern rows true not_loaded in
    let (c', s'') = volk_rank_archs override avx two_rows false s' in
    InTable rows c
    × InTable two_rows c'
    × (s'' ≡ s')
    × ((prefs : List ArchPref)
        → (volk_rank_archs (record override { load_preferences = prefs }) avx two_rows false s').0
          ≡ c')
rank_archs-InTable_example =
    rank_archs-InTable bare override kern avx rows two_rows true false not_loaded (λ e. cc)
      (λ e. cc)

rank_archs-Decided_example :
    let (c, s') = volk_rank_archs override kern rows true not_loaded in
    (i : ℕ) × (c ≡ index i)
    × (i < length rows)
    × Decided override kern rows true [] i
    × (s' ≡ loaded_with [])
rank_archs-Decided_example = rank_archs-Decided override kern rows true not_loaded (λ e. cc)

bare-NoOverride : NoOverride bare kern
unfolding find_pref
bare-NoOverride = record { no_generic = refl; no_variable = refl; no_preference = refl }

abbrev entries : List (Entry (and_kernel and_instructions))
entries =
    record { deps = pos 6; impl = And32i.a_avx2 }
    ∷ record { deps = pos 1; impl = And32i.generic }
    ∷ []

abbrev MachineX2 : Type 0
MachineX2 = Machine (Table X2Args Buf)

-- The machine of the generic implementation alone, and the one of both.
abbrev generic_machine : MachineX2
generic_machine = record {
  caps = 1;
  name = generic_name;
  alignment = 16;
  tables =
      table_of (and_kernel and_instructions) kern
        (record { deps = pos 1; impl = And32i.generic } ∷ []);
}

abbrev avx_machine : MachineX2
avx_machine = record {
  caps = 7;
  name = avx;
  alignment = 2 ^ 5;
  tables = table_of (and_kernel and_instructions) kern entries;
}

abbrev platform : Platform (Table X2Args Buf)
platform = record { lvarch = 15; machines = generic_machine ∷ avx_machine ∷ [] }

select_lem_example :
    ((m : MachineX2) × (select 15 platform.machines ≡ some m) × IsChosen 15 platform.machines 0 m)
    ⊎ ((select 15 platform.machines ≡ none) × NoneAbove 15 platform.machines 0)
select_lem_example = select_lem 15 platform.machines

-- The variables once the machine with the alignment 32 is chosen.
abbrev chosen : Statics (Table X2Args Buf)
chosen = record {
  machine = some avx_machine;
  named_machine = none;
  alignment = 32;
  alignment_mask = 31;
}

is_aligned_iff_example :
    (volk_is_aligned (or_ptrs (64 ∷ 96 ∷ [])) chosen ≡ true) ↔ AllMultiples 5 (64 ∷ 96 ∷ [])
is_aligned_iff_example = is_aligned_iff chosen 5 (64 ∷ 96 ∷ []) refl

alignment_of_chosen :
    (m : MachineX2) → select platform.lvarch platform.machines ≡ some m → m.alignment ≡ 2 ^ 5
unfolding select select_loop
alignment_of_chosen m e =
    subst (λ (t : MachineX2). t.alignment ≡ 2 ^ 5) (some-injective avx_machine m e) refl

volk_get_alignment-volk_is_aligned_example :
    ((m : MachineX2) × (s : Statics (Table X2Args Buf)) × IsChosen 15 platform.machines 0 m
      × (volk_get_alignment platform unset ≡ some (2 ^ 5, s))
      × (volk_get_alignment platform s ≡ some (2 ^ 5, s))
      × ((volk_is_aligned (or_ptrs (64 ∷ 96 ∷ [])) s ≡ true) ↔ AllMultiples 5 (64 ∷ 96 ∷ [])))
    ⊎ (NoneAbove 15 platform.machines 0 × (volk_get_alignment platform unset ≡ none))
volk_get_alignment-volk_is_aligned_example =
    volk_get_alignment-volk_is_aligned platform 5 (64 ∷ 96 ∷ []) alignment_of_chosen

abbrev named : Statics (Table X2Args Buf)
named = record {
  machine = none;
  named_machine = some avx_machine;
  alignment = 0;
  alignment_mask = 0;
}

is_aligned-volk_get_machine_example : volk_is_aligned 12345 named ≡ true
unfolding volk_get_machine select select_loop
is_aligned-volk_get_machine_example = is_aligned-volk_get_machine platform avx named 12345 refl

entries-IsConsistent : IsConsistent (and_kernel and_instructions) 5 entries
unfolding strncmp_zero
entries-IsConsistent = record {
  divides = divides;
  plain = (1, record { deps = pos 1; impl = And32i.generic }, refl, refl, omega arith);
}
  where
    divides :
        (i : ℕ) (e : Entry (and_kernel and_instructions))
        → get_elem? entries i ≡ some e
        → 2 ^ 5 % And32i.alignment e.impl ≡ 0
    divides zero e h =
        subst (λ (t : Entry (and_kernel and_instructions)). 32 % And32i.alignment t.impl ≡ 0)
          (some-injective (record { deps = pos 6; impl = And32i.a_avx2 }) e h) refl
    divides (suc zero) e h =
        subst (λ (t : Entry (and_kernel and_instructions)). 32 % And32i.alignment t.impl ≡ 0)
          (some-injective (record { deps = pos 1; impl = And32i.generic }) e h) refl
    divides (suc (suc i)) e h = cc

abbrev args : X2Args
args = record { c = out; a = in_a; b = in_b; num_points = 37 }

args-Accepts : Accepts (and_kernel and_instructions) args
args-Accepts = record { fits = fit_37; in_range = λ j h. (refl, refl) }

dispatch_refines_example :
    (w : World X2Args Buf) × (call X2Args Buf platform bare pointers (initial X2Args Buf) args
      ≡ some (result (and_kernel and_instructions) args, w))
    × ((later : Env) (y : X2Args)
        → Accepts (and_kernel and_instructions) y
        → (call X2Args Buf platform later pointers w y
            ≡ some (result (and_kernel and_instructions) y, w))
          × (call_u X2Args Buf platform later pointers w y
              ≡ some (result (and_kernel and_instructions) y, w))
          × (AllMultiples 5 (pointers y)
              → call_a X2Args Buf platform later pointers w y
                ≡ some (result (and_kernel and_instructions) y, w)))
unfolding select select_loop
dispatch_refines_example =
    dispatch_refines pointers (Accepts (and_kernel and_instructions))
      (result (and_kernel and_instructions)) platform 5 bare avx_machine refl
      (IsConsistent-IsSound (and_kernel and_instructions) 5 avx_machine kern entries
        entries-IsConsistent refl refl)
      bare-NoOverride args args-Accepts

x2_dispatch_example :
    (w : World X2Args Buf) × (call X2Args Buf platform bare pointers (initial X2Args Buf) args
      ≡ some (result (and_kernel and_instructions) args, w))
unfolding select select_loop
x2_dispatch_example =
    x2_dispatch (and_kernel and_instructions) platform bare 5 avx_machine kern entries refl refl
      refl entries-IsConsistent bare-NoOverride args args-Accepts
