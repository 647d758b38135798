-- ===== src/Malloc/Laws.antt =====
-- What `volk_malloc` asks for and returns.
use native.Mathlib.Nat.{
  mod-lt, zero-mod, add-mod, mod-add-mod, div-add-mod, lt_of_mul-lt-mul_left, mod_self, mod-one,
}
use volk.Base.{
  ℕ, zero, suc, ◌+◌, ◌-◌, ◌*◌, ◌%◌, ◌/◌, ◌^◌, ◌≤◌, ◌<◌, ◌≡◌, refl, sym, ◌∙◌, ap, some, arith,
}
use volk.Base.{◌==◌, ◌>>=◌, ◌&&◌, ◌||◌, true, false, inl, inr, Bool-cases, ==→eq}
use volk.Base.Bits.{u64, next_power}
use volk.Base.Bits.Masks.{pow_pos}
use mathlib.Core.Path.{subst}
use volk.Malloc.{
  Build, Call, malloc, posix_memalign, mm_aligned_malloc, aligned_alloc, tweak, call_of, size_of,
  Allocator,
}
use volk.Malloc.{volk_malloc, volk_free, release_of, free}

-- The padding up to the next multiple, as a multiple.
padded :
    (size alignment : ℕ) → 0 < alignment → (size + (alignment - size % alignment)) % alignment ≡ 0
padded size alignment pos =
    sym (mod-add-mod size alignment (alignment - size % alignment))
    ∙ ap (λ n. n % alignment) whole
    ∙ mod_self alignment
  where
    whole : size % alignment + (alignment - size % alignment) ≡ alignment
    whole = let h = mod-lt size pos in omega arith

-- Below the wrap the tweaked size is the least multiple of the alignment that holds the size.
tweak_lem :
    (size alignment : ℕ)
    → 0 < alignment
    → size + alignment ≤ 2 ^ 64
    → (size ≤ tweak size alignment)
      × (tweak size alignment < size + alignment)
      × (tweak size alignment % alignment ≡ 0)
unfolding tweak
tweak_lem size alignment pos h = elim (Bool-cases (size % alignment == 0)) [
  | inl z ↦ rw z (omega arith, omega arith, ==→eq (size % alignment) 0 z)
  | inr nz ↦ rw (nz, below nz) (omega arith, short nz, padded size alignment pos)
]
  where
    short :
        (nz : (size % alignment == 0) ≡ false)
        → size + (alignment - size % alignment) < size + alignment
    short nz = ground arith

    below :
        (nz : (size % alignment == 0) ≡ false)
        → u64 (size + (alignment - size % alignment)) ≡ size + (alignment - size % alignment)
    below nz = ground arith

-- For a size and an alignment that are not 0 and whose sum does not exceed 2^64: the allocator is
-- asked for the least multiple of the alignment that holds the size; a pointer that it returns is a
-- multiple of the alignment; and `volk_free` calls the function that releases it. The build is not for
-- Windows if it has posix_memalign.
pub volk_malloc_lem :
    (allocator : Allocator) (build : Build) (size alignment : ℕ)
    → 0 < size
    → 0 < alignment
    → size + alignment ≤ 2 ^ 64
    → build.have_posix_memalign && build.is_windows ≡ false
    → (c : Call) × (call_of build size alignment ≡ some c)
      × (size ≤ size_of c)
      × (size_of c < size + alignment)
      × (size_of c % alignment ≡ 0)
      × (release_of c ≡ volk_free build)
      × ((ptr : ℕ) → volk_malloc allocator build size alignment ≡ some ptr → ptr % alignment ≡ 0)
unfolding call_of volk_malloc volk_free
volk_malloc_lem allocator build size alignment hs ha h ok =
    elim (Bool-cases build.have_posix_memalign) [
      | inl posix ↦ elim (Bool-cases (alignment == 1)) [
        | inl one ↦
            asked (malloc (tweak size alignment)) (rw (nonzero, posix, one) refl) refl
              (not_windows posix)
              (λ ptr e. subst (λ n. ptr % n ≡ 0) (sym (==→eq alignment 1 one)) (mod-one ptr))
        | inr other ↦
            let c = posix_memalign alignment (tweak size alignment) in
            asked c (rw (nonzero, posix, other) refl) refl (not_windows posix)
              (allocator.serve_aligned c)
      ]
      | inr other ↦ elim (Bool-cases build.is_windows) [
        | inl windows ↦
            let c = mm_aligned_malloc (tweak size alignment) alignment in
            asked c (rw (nonzero, other, windows) refl) refl (rw windows refl)
              (allocator.serve_aligned c)
        | inr c11 ↦
            let c = aligned_alloc alignment (tweak size alignment) in
            asked c (rw (nonzero, other, c11) refl) refl (rw c11 refl) (allocator.serve_aligned c)
      ]
    ]
  where
    t :
        (size ≤ tweak size alignment)
        × (tweak size alignment < size + alignment)
        × (tweak size alignment % alignment ≡ 0)
    t = tweak_lem size alignment ha h

    nonzero : (size == 0 || alignment == 0) ≡ false
    nonzero = ground arith

    not_windows : build.have_posix_memalign ≡ true → free ≡ volk_free build
    not_windows posix = ground arith

    asked :
        (c : Call)
        → call_of build size alignment ≡ some c
        → size_of c ≡ tweak size alignment
        → release_of c ≡ volk_free build
        → ((ptr : ℕ) → allocator.serve c ≡ some ptr → ptr % alignment ≡ 0)
        → (c : Call) × (call_of build size alignment ≡ some c)
          × (size ≤ size_of c)
          × (size_of c < size + alignment)
          × (size_of c % alignment ≡ 0)
          × (release_of c ≡ volk_free build)
          × ((ptr : ℕ)
              → volk_malloc allocator build size alignment ≡ some ptr
              → ptr % alignment ≡ 0)
    asked c made same release aligned = (
      c,
      made,
      rw same t.0,
      rw same t.1,
      rw same t.2,
      release,
      λ ptr e. aligned ptr (sym (ap (λ r. r >>= allocator.serve) made) ∙ e),
    )

-- Two multiples that lie within one step are equal.
same_multiple : (a m n : ℕ) → m % a ≡ 0 → n % a ≡ 0 → m < n + a → n < m + a → m ≡ n
same_multiple a m n hm hn lt gt = em ∙ ap (λ q. a * q) same ∙ sym en
  where
    em : m ≡ a * (m / a)
    em = let h = div-add-mod m a in omega arith

    en : n ≡ a * (n / a)
    en = let h = div-add-mod n a in omega arith

    le : (x y : ℕ) → a * x < a * y + a → x < suc y
    le x y h = lt_of_mul-lt-mul_left a (omega arith)

    same : m / a ≡ n / a
    same =
        let p = le (m / a) (n / a) (omega arith) in
        let q = le (n / a) (m / a) (omega arith) in omega arith

pow_multiple : (d k : ℕ) → 2 ^ (d + k) % 2 ^ k ≡ 0
pow_multiple zero k = subst (λ n. 2 ^ n % 2 ^ k ≡ 0) plus_zero (mod_self (2 ^ k))
  where
    plus_zero : k ≡ 0 + k
    plus_zero = omega arith
pow_multiple (suc d) k =
    ap (λ n. n % 2 ^ k) double
    ∙ add-mod (2 ^ (d + k)) (2 ^ (d + k)) (2 ^ k)
    ∙ ap (λ r. (r + r) % 2 ^ k) (pow_multiple d k)
    ∙ zero-mod (2 ^ k)
  where
    double : 2 ^ (suc d + k) ≡ 2 ^ (d + k) + 2 ^ (d + k)
    double =
        let next : suc d + k ≡ suc (d + k) = omega arith in
        let h = next_power 1 (d + k) in ap (λ n. 2 ^ n) next ∙ omega arith

-- Above it the size wraps: for every alignment that is a power of two, a size in the last, incomplete
-- multiple below 2^64 becomes 0.
pub tweak_wraps :
    (size k : ℕ) → k ≤ 64 → 2 ^ 64 < size + 2 ^ k → size < 2 ^ 64 → tweak size (2 ^ k) ≡ 0
unfolding tweak
tweak_wraps size k hk h lt = elim (Bool-cases (size % 2 ^ k == 0)) [
  | inl z ↦
      let e =
        same_multiple (2 ^ k) size (2 ^ 64) (==→eq (size % 2 ^ k) 0 z) whole (omega arith)
          (omega arith) in
      rw z (omega arith)
  | inr nz ↦
      let ne = nz in
      rw
        (
          nz,
          same_multiple (2 ^ k) (size + (2 ^ k - size % 2 ^ k)) (2 ^ 64)
              (padded size (2 ^ k) (pow_pos k)) whole (ground arith) (ground arith),
        )
        refl
]
  where
    the_rest : 64 - k + k ≡ 64
    the_rest = omega arith

    whole : 2 ^ 64 % 2 ^ k ≡ 0
    whole = subst (λ n. 2 ^ n % 2 ^ k ≡ 0) the_rest (pow_multiple (64 - k) k)
