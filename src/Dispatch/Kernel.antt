-- ===== src/Dispatch/Kernel.antt =====
-- tmpl/volk_dynamic_dispatch.tmpl.c, the part that the build repeats for each kernel: the function
-- pointers `kern`, `kern_a` and `kern_u`, which begin as stubs that initialise them, and the dispatcher,
-- which looks at the alignment of the arguments. An implementation is a function of the arguments;
-- `none` is a fault or a failed assertion.
pub mod Correct
use volk.Base.{
  ℕ, zero, Bool, true, false, List, [], Option, none, some, map, get_elem?, ◌>>=◌, if◌then◌else◌,
}
use volk.Base.CString.{CString}
use volk.Dispatch.RankArchs.{
  Row, Choice, index, no_impls, out_of_calls, Env, Loaded, volk_rank_archs,
}
use volk.Dispatch.RankArchs.{volk_get_index}
use volk.Dispatch.Machine.{Statics, Platform, unset, get_machine, volk_is_aligned}
use volk.Dispatch.Machine.Alignment.{or_ptrs}

module _ (Args : Type 0) (Result : Type 0) where
  abbrev pub Impl : Type 0
  Impl = Args → Option Result

  -- A machine's tables for the kernel.
  pub record Table : Type 0 where
    pub kernel_name : CString
    pub rows : List Row
    pub impls : List Impl

  -- What a function pointer points to.
  pub data Pointer : Type 0 where
    stub dispatcher : Pointer
    impl : Impl → Pointer

  pub record World : Type 0 where
    pub statics : Statics Table
    pub loaded : Loaded
    pub kern : Pointer
    pub kern_a : Pointer
    pub kern_u : Pointer

  -- `impls[index]`, after `assert(index >= 0)`
  pub impl_at : List Impl → Choice → Option Impl
  impl_at impls (index i) = get_elem? impls i
  impl_at impls no_impls = none
  impl_at impls out_of_calls = none

  -- A call through a pointer that has been initialised.
  pub through : Pointer → World → Args → Option (Result × World)
  through (impl f) w args = f args >>= λ r. some (r, w)
  through stub w args = none
  through dispatcher w args = none

  module _ (p : Platform Table) (env : Env) (ptrs : Args → List ℕ) where
    -- `__init_kern`
    pub init : World → Option World
    init w = get_machine p w.statics >>= λ (m, statics).
        let a = volk_rank_archs env m.tables.kernel_name m.tables.rows true w.loaded in
        let u = volk_rank_archs env m.tables.kernel_name m.tables.rows false a.1 in
        impl_at m.tables.impls a.0 >>= λ fa. impl_at m.tables.impls u.0 >>= λ fu. some (record {
          statics = statics;
          loaded = u.1;
          kern = dispatcher;
          kern_a = impl fa;
          kern_u = impl fu;
        })

    -- A call of `kern_a`, by its stub `__kern_a` at first.
    pub call_a : World → Args → Option (Result × World)
    call_a w args = elim w.kern_a [
      | stub ↦ init w >>= λ w'. through w'.kern_a w' args
      | dispatcher ↦ none
      | impl f ↦ f args >>= λ r. some (r, w)
    ]

    -- A call of `kern_u`, by its stub `__kern_u` at first.
    pub call_u : World → Args → Option (Result × World)
    call_u w args = elim w.kern_u [
      | stub ↦ init w >>= λ w'. through w'.kern_u w' args
      | dispatcher ↦ none
      | impl f ↦ f args >>= λ r. some (r, w)
    ]

    -- `__kern_d`
    pub call_d : World → Args → Option (Result × World)
    call_d w args =
        if volk_is_aligned (or_ptrs (ptrs args)) w.statics then call_a w args else call_u w args

    -- A call of `kern`, by its stub `__kern` at first.
    pub call : World → Args → Option (Result × World)
    call w args = elim w.kern [
      | stub ↦ init w >>= λ w'. call_d w' args
      | dispatcher ↦ call_d w args
      | impl f ↦ none
    ]

    -- `kern_get_impl(impl_name)(args)`
    pub manual : CString → World → Args → Option (Result × World)
    manual impl_name w args = get_machine p w.statics >>= λ (m, statics).
        impl_at m.tables.impls (volk_get_index (map (λ (r : Row). r.name) m.tables.rows) impl_name)
        >>= λ f. f args >>= λ r. some (r, record w { statics = statics })

-- The world before any call: nothing is known, and all pointers lead to stubs.
abbrev pub initial : (Args Result : Type 0) → World Args Result
initial Args Result = record {
  statics = unset;
  loaded = record { volk_arch_prefs = []; prefs_loaded = false };
  kern = stub;
  kern_a = stub;
  kern_u = stub;
}
