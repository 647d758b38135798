-- ===== src/Dispatch/X2.antt =====
-- A kernel with two inputs and one output behind the dispatcher.
use volk.Base.{ℕ, ◌^◌, ◌%◌, ◌<◌, ◌≡◌, sym, ◌∙◌, ap, true, false, List, [], ◌∷◌}
use volk.Base.{Option, some, map, get_elem?, get_elem?-map, get_elem?-map_inv}
use volk.Base.{Bool-cases, inl, inr}
use native.Mathlib.Nat.{mod-one, mod-mod_of_dvd, dvd_of_mod-eq-zero, zero-mod}
use mathlib.Core.Path.{subst}
use mathlib.Core.Option
use volk.Base.CString.{CString, strncmp_zero}
use volk.Base.Int.{ℤ, negsuc, ◌<ℤ◌}
use volk.Memory.{Buf}
use volk.Memory.Fill.{fill}
use volk.Simd.{Fits, StartAt}
use volk.Kernels.Interface.{X2Kernel, aligned_prefix}
use volk.Dispatch.RankArchs.{Row, Env}
use volk.Dispatch.RankArchs.Total.{NoOverride}
use volk.Dispatch.Machine.{Machine, Platform, select}
use volk.Dispatch.Machine.Alignment.{AllMultiples}
use volk.Dispatch.Kernel.{Table, World, call, initial}
use volk.Dispatch.Kernel.Correct.{IsSound, dispatch_refines}

-- `(cVector, aVector, bVector, num_points)`
pub record X2Args : Type 0 where
  pub c : Buf
  pub a : Buf
  pub b : Buf
  pub num_points : ℕ

-- The pointers among the arguments.
abbrev pub pointers : X2Args → List ℕ
pointers x = x.c.base ∷ x.a.base ∷ x.b.base ∷ []

module _ (kernel : X2Kernel) where
  open kernel use {Impl, run, alignment, impl_name, unprefixed, value, InRange, correct}

  -- A line of tmpl/volk_machine_xxx.tmpl.c: an implementation and its mask.
  pub record Entry : Type 0 where
    pub deps : ℤ
    pub impl : Impl

  -- The flag comes from the name alone: gen/volk_kernel_defs.py has `name.startswith('a_')`.
  abbrev pub row_of : Entry → Row
  row_of e = record {
    name = impl_name e.impl;
    deps = e.deps;
    is_aligned = strncmp_zero 2 (impl_name e.impl) aligned_prefix;
  }

  abbrev pub run_of : Entry → X2Args → Option Buf
  run_of e x = run e.impl x.c x.a x.b x.num_points

  abbrev pub table_of : CString → List Entry → Table X2Args Buf
  table_of name entries = record {
    kernel_name = name;
    rows = map row_of entries;
    impls = map run_of entries;
  }

  pub record Accepts (x : X2Args) : Type 0 where
    pub fits : Fits x.c x.a x.b x.num_points
    pub in_range : (j : ℕ) → j < x.num_points → InRange (x.a.cell j) × InRange (x.b.cell j)

  abbrev pub result : X2Args → Buf
  result x = fill (λ j. value (x.a.cell j) (x.b.cell j)) x.num_points x.c

  -- The alignments that the entries expect divide the machine's, and there is an entry without the prefix
  -- whose mask is above -1.
  pub record IsConsistent (k : ℕ) (entries : List Entry) : Type 0 where
    pub divides : (i : ℕ) (e : Entry) → get_elem? entries i ≡ some e → 2 ^ k % alignment e.impl ≡ 0
    pub plain :
        (i : ℕ) × (e : Entry) × (get_elem? entries i ≡ some e)
        × ((row_of e).is_aligned ≡ false)
        × (negsuc 0 <ℤ e.deps)

  start_at :
      (k n : ℕ) (x : X2Args) → 2 ^ k % n ≡ 0 → AllMultiples k (pointers x) → StartAt n x.c x.a x.b
  start_at k n x d m = record {
    start_c = multiple x.c.base m.0;
    start_a = multiple x.a.base m.1.0;
    start_b = multiple x.b.base m.1.1.0;
  }
    where
      multiple : (p : ℕ) → p % 2 ^ k ≡ 0 → p % n ≡ 0
      multiple p h =
          sym (mod-mod_of_dvd n p (dvd_of_mod-eq-zero n d)) ∙ ap (λ q. q % n) h ∙ zero-mod n

  start_anywhere : (n : ℕ) (x : X2Args) → n ≡ 1 → StartAt n x.c x.a x.b
  start_anywhere n x e =
      subst (λ t. StartAt t x.c x.a x.b) (sym e)
        (record {
          start_c = mod-one x.c.base;
          start_a = mod-one x.a.base;
          start_b = mod-one x.b.base;
        })

  aligned_start :
      (k : ℕ) (e : Entry) (x : X2Args)
      → 2 ^ k % alignment e.impl ≡ 0
      → ((row_of e).is_aligned ≡ true → AllMultiples k (pointers x))
      → StartAt (alignment e.impl) x.c x.a x.b
  aligned_start k e x d al = elim (Bool-cases ((row_of e).is_aligned)) [
    | inl flagged ↦ start_at k (alignment e.impl) x d (al flagged)
    | inr other ↦ start_anywhere (alignment e.impl) x (unprefixed e.impl other)
  ]

  pub IsConsistent-IsSound :
      (k : ℕ) (m : Machine (Table X2Args Buf)) (name : CString) (entries : List Entry)
      → IsConsistent k entries
      → m.alignment ≡ 2 ^ k
      → m.tables ≡ table_of name entries
      → IsSound pointers Accepts result k m
  IsConsistent-IsSound k m name entries ok pow t = record {
    alignment_pow = pow;
    sound =
        λ i r found. each i r (sym (ap (λ (u : Table X2Args Buf). get_elem? u.rows i) t) ∙ found);
    unaligned_row =
        let (i, e, found, one, able) = ok.plain in
        (
          i,
          row_of e,
          ap (λ (u : Table X2Args Buf). get_elem? u.rows i) t
              ∙ get_elem?-map row_of entries i
              ∙ ap (Option.map row_of) found,
          one,
          able,
        );
  }
    where
      each :
          (i : ℕ) (r : Row)
          → get_elem? (map row_of entries) i ≡ some r
          → (f : X2Args → Option Buf) × (get_elem? m.tables.impls i ≡ some f)
            × ((x : X2Args)
                → Accepts x
                → (r.is_aligned ≡ true → AllMultiples k (pointers x))
                → f x ≡ some (result x))
      each i r found =
          let (e, here, same) = get_elem?-map_inv row_of entries i found in
          (
            run_of e,
            ap (λ (u : Table X2Args Buf). get_elem? u.impls i) t
                ∙ get_elem?-map run_of entries i
                ∙ ap (Option.map run_of) here,
            λ x acc al.
                correct e.impl x.c x.a x.b x.num_points acc.fits
                  (aligned_start k e x (ok.divides i e here)
                    (λ flag. al (sym (ap (λ (q : Row). q.is_aligned) same) ∙ flag)))
                  acc.in_range,
          )

  -- On a platform whose chosen machine has the alignment `2 ^ k` and the table of the entries, if the
  -- alignments that these expect divide `2 ^ k` and one whose name does not begin with "a_" has a mask above
  -- -1, and if no variable and no preference is for the kernel, then a
  -- first call of the kernel, on arrays that hold the points and elements in range, does not fault, at
  -- whatever addresses the arrays start, and leaves the kernel's values in the output's first points.
  pub x2_dispatch :
      (p : Platform (Table X2Args Buf)) (env : Env) (k : ℕ) (m : Machine (Table X2Args Buf))
      (name : CString) (entries : List Entry)
      → select p.lvarch p.machines ≡ some m
      → m.alignment ≡ 2 ^ k
      → m.tables ≡ table_of name entries
      → IsConsistent k entries
      → NoOverride env m.tables.kernel_name
      → (x : X2Args) → Accepts x
      → (w : World X2Args Buf) × (call X2Args Buf p env pointers (initial X2Args Buf) x
          ≡ some (result x, w))
  x2_dispatch p env k m name entries chosen pow t ok o x acc =
      let (w, e, _) =
        dispatch_refines pointers Accepts result p k env m chosen
          (IsConsistent-IsSound k m name entries ok pow t) o x acc in
      (w, e)
