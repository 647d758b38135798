-- ===== src/Tests/Malloc.antt =====
-- A request of 100 bytes, and one that wraps.
use volk.Base.{ℕ, ◌+◌, ◌-◌, ◌%◌, ◌^◌, ◌≤◌, ◌<◌, ◌≡◌, refl, true, false, some, arith}
use native.Mathlib.Nat.{mod_self}
use mathlib.Core.Option.{some-injective}
use mathlib.Core.Path.{subst}
use volk.Malloc.{
  Build, Call, call_of, alignment_of, size_of, tweak, Allocator, volk_malloc, volk_free, release_of,
}
use volk.Malloc.Laws.{volk_malloc_lem, tweak_wraps}

-- An allocator that returns the alignment itself, as the address.
abbrev at_alignment : Allocator
at_alignment = record {
  serve = λ c. some (alignment_of c);
  serve_aligned = λ c ptr e.
      subst (λ n. n % alignment_of c ≡ 0) (some-injective (alignment_of c) ptr e)
        (mod_self (alignment_of c));
}

-- Linux
abbrev posix_build : Build
posix_build = record { have_posix_memalign = true; is_windows = false }

volk_malloc_lem_example :
    (c : Call) × (call_of posix_build 100 64 ≡ some c)
    × (100 ≤ size_of c)
    × (size_of c < 100 + 64)
    × (size_of c % 64 ≡ 0)
    × (release_of c ≡ volk_free posix_build)
    × ((ptr : ℕ) → volk_malloc at_alignment posix_build 100 64 ≡ some ptr → ptr % 64 ≡ 0)
volk_malloc_lem_example =
    volk_malloc_lem at_alignment posix_build 100 64 (omega arith) (omega arith) (omega arith) refl

tweak_wraps_example : tweak (2 ^ 64 - 3) (2 ^ 6) ≡ 0
tweak_wraps_example = tweak_wraps (2 ^ 64 - 3) 6 (omega arith) (omega arith) (omega arith)
