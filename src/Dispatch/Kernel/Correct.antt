-- ===== src/Dispatch/Kernel/Correct.antt =====
-- The dispatcher does what its implementations have in common.
use volk.Base.{ℕ, ◌^◌, ◌≡◌, refl, sym, ◌∙◌, ap, inl, inr, Bool, true, false}
use volk.Base.{Option, some, arith, get_elem?, get_elem?-of-lt, Bool-cases, List}
use mathlib.Core.Path.{subst}
use mathlib.Core.Option.{some-injective}
use volk.Base.Bits.Masks.{ones}
use volk.Base.Int.{negsuc, ◌<ℤ◌}
use volk.Dispatch.RankArchs.{Row, Env, best_index}
use volk.Dispatch.RankArchs.{volk_rank_archs}
use volk.Dispatch.RankArchs.Ranking.{
  Ranked, aligned_best, unaligned_best, none_fits, best_index-Ranked,
}
use volk.Dispatch.RankArchs.Total.{Ranked-lt, NoOverride, rank_archs-best_index}
use volk.Dispatch.Machine.{Machine, Statics, Platform, unset, select, get_machine, volk_is_aligned}
use volk.Dispatch.Machine.Alignment.{
  or_ptrs, AllMultiples, is_aligned_iff, get_machine_lem, mask_of-pow,
}
use volk.Dispatch.Machine.{mask_of}
use volk.Dispatch.Kernel.{Table, dispatcher, impl, World, impl_at, init}
use volk.Dispatch.Kernel.{call, call_a, call_u, call_d, initial}

module _ {Args Result : Type 0} (ptrs : Args → List ℕ) (Pre : Args → Type 0)
    (spec : Args → Result) where
  -- The implementation does what the kernel promises, at the arguments that meet `P`.
  abbrev pub Runs : (Args → Option Result) → (Args → Type 0) → Type 0
  Runs f P = (x : Args) → Pre x → P x → f x ≡ some (spec x)

  -- A machine whose implementations all do so: those that want aligned arguments, at arguments that are
  -- multiples of the machine's alignment `2 ^ k`. One row at least does not want them.
  pub record IsSound (k : ℕ) (m : Machine (Table Args Result)) : Type 0 where
    pub alignment_pow : m.alignment ≡ 2 ^ k
    pub sound :
        (i : ℕ) (r : Row)
        → get_elem? m.tables.rows i ≡ some r
        → (f : Args → Option Result) × (get_elem? m.tables.impls i ≡ some f)
          × Runs f (λ x. r.is_aligned ≡ true → AllMultiples k (ptrs x))
    pub unaligned_row :
        (i : ℕ) × (r : Row) × (get_elem? m.tables.rows i ≡ some r)
        × (r.is_aligned ≡ false)
        × (negsuc 0 <ℤ r.deps)

  -- The world once the pointers are initialised.
  pub record IsReady (k : ℕ) (w : World Args Result) : Type 0 where
    pub fa : Args → Option Result
    pub fu : Args → Option Result
    pub kern_dispatches : w.kern ≡ dispatcher
    pub kern_a_set : w.kern_a ≡ impl fa
    pub kern_u_set : w.kern_u ≡ impl fu
    pub mask_set : w.statics.alignment_mask ≡ ones k
    pub a_runs : Runs fa (λ x. AllMultiples k (ptrs x))
    pub u_runs : Runs fu (λ x. Unit {0})

  module _ (p : Platform (Table Args Result)) (k : ℕ) where
    ready_call_d :
        (env : Env) (w : World Args Result) (x : Args)
        → IsReady k w
        → Pre x
        → call_d Args Result p env ptrs w x ≡ some (spec x, w)
    unfolding call_d call_a call_u
    ready_call_d env w x r h = elim (Bool-cases (volk_is_aligned (or_ptrs (ptrs x)) w.statics)) [
      | inl al ↦
          rw
            (al, r.kern_a_set, r.a_runs x h ((is_aligned_iff w.statics k (ptrs x) r.mask_set).0 al))
      | inr un ↦ rw (un, r.kern_u_set, r.u_runs x h tt)
    ]

    ready_call :
        (env : Env) (w : World Args Result) (x : Args)
        → IsReady k w
        → Pre x
        → call Args Result p env ptrs w x ≡ some (spec x, w)
    unfolding call
    ready_call env w x r h = simp (r.kern_dispatches, call) (ready_call_d env w x r h)

    -- The row that is ranked first has an implementation.
    Ranked-row :
        (m : Machine (Table Args Result)) (align : Bool) (i : ℕ)
        → IsSound k m
        → Ranked m.tables.rows align i
        → (r : Row) × (get_elem? m.tables.rows i ≡ some r)
    Ranked-row m align i good ranked = get_elem?-of-lt m.tables.rows i (
        Ranked-lt m.tables.rows align i
          (λ e.
            let (j, r, found, un, able) = good.unaligned_row in
            cc (ap (λ l. get_elem? l j) (sym e) ∙ found))
          ranked)

    -- Without `align` it does not want aligned arguments.
    Ranked-row_unaligned :
        (m : Machine (Table Args Result)) (i : ℕ)
        → IsSound k m
        → Ranked m.tables.rows false i
        → (r : Row) × (get_elem? m.tables.rows i ≡ some r) × (r.is_aligned ≡ false)
    Ranked-row_unaligned m i good (aligned_best e l) = absurd (cc e)
    Ranked-row_unaligned m i good (unaligned_best e l) = (l.row, l.at_index, l.flagged)
    Ranked-row_unaligned m i good (none_fits e b z) =
        let (j, r, found, un, able) = good.unaligned_row in absurd (omega (arith, b j r found un))

    abbrev Initialised : Env → Type 0
    Initialised env =
        (w : World Args Result) × (init Args Result p env ptrs (initial Args Result) ≡ some w)
        × IsReady k w

    init_with :
        (env : Env) (m : Machine (Table Args Result)) (s : Statics (Table Args Result))
        → get_machine p unset ≡ some (m, s)
        → s.alignment_mask ≡ mask_of m.alignment
        → IsSound k m
        → NoOverride env m.tables.kernel_name
        → Initialised env
    unfolding init impl_at
    init_with env m s found mask good o =
        let t = m.tables in
        let a = volk_rank_archs env t.kernel_name t.rows true (initial Args Result).loaded in
        let ranks =
          rank_archs-best_index env t.kernel_name t.rows true false (initial Args Result).loaded o
            refl in
        let ia = best_index t.rows true in
        let iu = best_index t.rows false in
        let (ra, at_a) = Ranked-row m true ia good (best_index-Ranked t.rows true) in
        let (ru, at_u, un) = Ranked-row_unaligned m iu good (best_index-Ranked t.rows false) in
        let (fa, impl_a, runs_a) = good.sound ia ra at_a in
        let (fu, impl_u, runs_u) = good.sound iu ru at_u in
        (
          record {
            statics = s;
            loaded = (volk_rank_archs env t.kernel_name t.rows false a.1).1;
            kern = dispatcher;
            kern_a = impl fa;
            kern_u = impl fu;
          },
          rw (found, init) (rw (ranks.0, ranks.1, impl_a, impl_u) refl),
          record {
            fa = fa;
            fu = fu;
            kern_dispatches = refl;
            kern_a_set = refl;
            kern_u_set = refl;
            mask_set = mask ∙ mask_of-pow m.alignment k good.alignment_pow;
            a_runs = λ x h al. runs_a x h (λ _. al);
            u_runs = λ x h _. runs_u x h (λ al. absurd (cc (sym un ∙ al)));
          },
        )

    -- The initialisation succeeds, and leaves the pointers ready.
    init-IsReady :
        (env : Env) (m : Machine (Table Args Result))
        → select p.lvarch p.machines ≡ some m
        → IsSound k m
        → NoOverride env m.tables.kernel_name
        → Initialised env
    init-IsReady env m chosen good o = elim (get_machine_lem p) [
      | inr (e, _) ↦ absurd (cc (sym e ∙ chosen))
      | inl (m', s, chosen', found, al, mask, again) ↦
          let same : m ≡ m' = some-injective m m' (sym chosen ∙ chosen') in
          init_with env m' s found mask (subst (λ t. IsSound k t) same good) (
            subst (λ (t : Machine (Table Args Result)). NoOverride env t.tables.kernel_name) same o)
    ]

    -- On a platform whose chosen machine is sound, with no variable or preference for the kernel, the first
    -- call of the kernel's pointer, at any arguments that meet the precondition, gives what the kernel
    -- promises; and so do, from then on, all calls of it and of `kern_u`, and those of `kern_a` at aligned
    -- arguments, whatever the environment has become, without changing the pointers again.
    pub dispatch_refines :
        (env : Env) (m : Machine (Table Args Result))
        → select p.lvarch p.machines ≡ some m
        → IsSound k m
        → NoOverride env m.tables.kernel_name
        → (x : Args) → Pre x
        → (w : World Args Result) × (call Args Result p env ptrs (initial Args Result) x
            ≡ some (spec x, w))
          × ((later : Env) (y : Args)
              → Pre y
              → (call Args Result p later ptrs w y ≡ some (spec y, w))
                × (call_u Args Result p later ptrs w y ≡ some (spec y, w))
                × (AllMultiples k (ptrs y)
                    → call_a Args Result p later ptrs w y ≡ some (spec y, w)))
    unfolding call call_a call_u
    dispatch_refines env m chosen good o x h =
        let (w, e, r) = init-IsReady env m chosen good o in
        (
          w,
          rw (e, call) (ready_call_d env w x r h),
          λ later y hy. (
            ready_call later w y r hy,
            simp (r.kern_u_set, r.u_runs y hy tt, call_u),
            λ al. simp (r.kern_a_set, r.a_runs y hy al, call_a),
          ),
        )
