-- ===== src/Malloc.antt =====
-- lib/volk_malloc.c. Which allocator it calls is fixed when the library is built; the allocators are the C
-- library's, a parameter that is bound only by what their manuals say.
pub mod Laws
use volk.Base.{ℕ, ◌+◌, ◌-◌, ◌%◌, ◌≡◌, Bool, ◌||◌, Option, none, some, ◌==◌, ◌>>=◌}
use volk.Base.{if◌then◌else◌}
use volk.Base.Bits.{u64}

-- What the preprocessor tests: `HAVE_POSIX_MEMALIGN`, and `defined(_MSC_VER) || defined(__MINGW32__)`.
pub record Build : Type 0 where
  pub have_posix_memalign : Bool
  pub is_windows : Bool

-- A call of an allocator, with its arguments in the order of the call.
pub data Call : Type 0 where
  malloc : ℕ → Call
  posix_memalign : ℕ → ℕ → Call
  mm_aligned_malloc : ℕ → ℕ → Call
  aligned_alloc : ℕ → ℕ → Call

-- `if (size % alignment) size += alignment - (size % alignment);` on a 64-bit size_t
unfoldable pub tweak : ℕ → ℕ → ℕ
tweak size alignment =
    if size % alignment == 0 then size else u64 (size + (alignment - size % alignment))

-- The call that is made; `none` is the early return of NULL.
pub call_of : Build → ℕ → ℕ → Option Call
call_of build size alignment =
    if size == 0 || alignment == 0
    then none
    else some (
        if build.have_posix_memalign
        then if alignment == 1
          then malloc (tweak size alignment)
          else posix_memalign alignment (tweak size alignment)
        else if build.is_windows
        then mm_aligned_malloc (tweak size alignment) alignment
        else aligned_alloc alignment (tweak size alignment))

-- The alignment and the size that a call asks for.
abbrev pub alignment_of : Call → ℕ
alignment_of (malloc n) = 1
alignment_of (posix_memalign al n) = al
alignment_of (mm_aligned_malloc n al) = al
alignment_of (aligned_alloc al n) = al

abbrev pub size_of : Call → ℕ
size_of (malloc n) = n
size_of (posix_memalign al n) = n
size_of (mm_aligned_malloc n al) = n
size_of (aligned_alloc al n) = n

-- The C library's allocators: `none` is NULL, or an error code of posix_memalign. What they return is
-- a multiple of the alignment that they are asked for.
pub record Allocator : Type 0 where
  pub serve : Call → Option ℕ
  pub serve_aligned : (c : Call) (ptr : ℕ) → serve c ≡ some ptr → ptr % alignment_of c ≡ 0

pub volk_malloc : Allocator → Build → ℕ → ℕ → Option ℕ
volk_malloc allocator build size alignment = call_of build size alignment >>= allocator.serve

pub data Release : Type 0 where
  free mm_aligned_free : Release

-- The function that `volk_free` calls.
pub volk_free : Build → Release
volk_free build = if build.is_windows then mm_aligned_free else free

-- The function that must release what a call gave.
abbrev pub release_of : Call → Release
release_of (malloc n) = free
release_of (posix_memalign al n) = free
release_of (mm_aligned_malloc n al) = mm_aligned_free
release_of (aligned_alloc al n) = free
