-- ===== src/Dispatch/Machine.antt =====
-- tmpl/volk_dynamic_dispatch.tmpl.c, the machine: `get_machine`, `volk_get_machine`,
-- `volk_get_alignment` and `volk_is_aligned` with the static variables that they share.
pub mod Selection
pub mod Alignment
pub mod Answers
use volk.Base.{
  ℕ, zero, suc, ◌-◌, ◌^◌, Bool, true, false, List, [], ◌∷◌, Option, none, some, bit_and,
}
use volk.Base.{ltb, ◌==◌, if◌then◌else◌, ◌&&◌, ◌>>=◌}
use volk.Base.CString.{CString}

-- What `struct volk_machine` says of the machine itself; its tables for a kernel are the `Tables`.
pub record Machine {ℓ} (Tables : Type ℓ) : Type ℓ where
  pub caps : ℕ
  pub name : CString
  pub alignment : ℕ
  pub tables : Tables

-- `!(caps & (~volk_get_lvarch()))`, on 32-bit unsigned words
abbrev pub fits : ℕ → ℕ → Bool
fits lvarch caps = bit_and caps (2 ^ 32 - 1 - lvarch) == 0

module _ {ℓ} {Tables : Type ℓ} where
  -- The loop over the machines: the best score so far and its machine.
  unfoldable pub select_loop :
      ℕ → List (Machine Tables) → ℕ → Option (Machine Tables) → Option (Machine Tables)
  select_loop lvarch [] max_score max_machine = max_machine
  select_loop lvarch (m ∷ machines) max_score max_machine =
      select_loop lvarch machines
        (if fits lvarch m.caps && ltb max_score m.caps then m.caps else max_score)
        (if fits lvarch m.caps && ltb max_score m.caps then some m else max_machine)

  -- The machine that `get_machine` and `volk_get_machine` both look for.
  unfoldable pub select : ℕ → List (Machine Tables) → Option (Machine Tables)
  select lvarch machines = select_loop lvarch machines 0 none

-- The static variables: `machine` of `get_machine` and of `volk_get_machine`, `__alignment` and
-- `__alignment_mask`.
pub record Statics {ℓ} (Tables : Type ℓ) : Type ℓ where
  pub machine : Option (Machine Tables)
  pub named_machine : Option (Machine Tables)
  pub alignment : ℕ
  pub alignment_mask : ℕ

abbrev pub unset {ℓ} : {Tables : Type ℓ} → Statics Tables
unset = record { machine = none; named_machine = none; alignment = 0; alignment_mask = 0 }

-- `(intptr_t)(__alignment - 1)`, which wraps to all ones at 0
abbrev pub mask_of : ℕ → ℕ
mask_of alignment = if alignment == 0 then 2 ^ 64 - 1 else alignment - 1

-- The processor's mask and the compiled machines, `volk_machines`.
pub record Platform {ℓ} (Tables : Type ℓ) : Type ℓ where
  pub lvarch : ℕ
  pub machines : List (Machine Tables)

module _ {ℓ} {Tables : Type ℓ} (p : Platform Tables) where
  -- `none` is the fault of reading through the null pointer, if no machine was found.
  pub get_machine : Statics Tables → Option (Machine Tables × Statics Tables)
  get_machine s = elim s.machine [
    | some m ↦ some (m, s)
    | none ↦ select p.lvarch p.machines >>= λ m. some (
      m,
      record s { machine = some m; alignment = m.alignment; alignment_mask = mask_of m.alignment },
    )
  ]

  -- The name of the machine; it has its own static variable, and sets no alignment.
  unfoldable pub volk_get_machine : Statics Tables → Option (CString × Statics Tables)
  volk_get_machine s = elim s.named_machine [
    | some m ↦ some (m.name, s)
    | none ↦ select p.lvarch p.machines >>= λ m. some (m.name, record s { named_machine = some m })
  ]

  pub volk_get_alignment : Statics Tables → Option (ℕ × Statics Tables)
  volk_get_alignment s = get_machine s >>= λ (m, s'). some (s'.alignment, s')

-- `(ptr & __alignment_mask) == 0`
pub volk_is_aligned {ℓ} : {Tables : Type ℓ} → ℕ → Statics Tables → Bool
volk_is_aligned ptr s = bit_and ptr s.alignment_mask == 0
