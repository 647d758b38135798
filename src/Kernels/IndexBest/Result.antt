-- ===== src/Kernels/IndexBest/Result.antt =====
-- The four kernels.
use volk.Base.{ℕ, ◌-◌, ◌^◌, ◌≤◌, ◌<◌, ◌≡◌, refl, ◌∙◌, false, arith, some, none}
use volk.Base.{ltb, if◌then◌else◌, lt→ltb}
use volk.Base.Bits.{u16, u32}
use volk.Base.Float32.{is_nan, place, float_gt, float_lt}
use volk.Memory.{Buf, read, write}
use volk.Kernels.IndexBest.{
  index_search, volk_32f_index_max_32u_generic, volk_32f_index_max_16u_generic,
  volk_32f_index_min_32u_generic, volk_32f_index_min_16u_generic, Kernel, max_32u, max_16u, min_32u,
  min_16u, run,
}
use volk.Kernels.IndexBest.First.{IsFirst, index_search_lem}

-- How many elements a kernel looks at, and what it looks for.
abbrev pub considered : Kernel → ℕ → ℕ
considered max_32u n = n
considered max_16u n = if ltb 65535 n then 65535 else n
considered min_32u n = n
considered min_16u n = if ltb 65535 n then 65535 else n

abbrev pub rank : Kernel → ℕ → ℕ
rank max_32u x = place x
rank max_16u x = place x
rank min_32u x = 2 ^ 32 - place x
rank min_16u x = 2 ^ 32 - place x

gt_ranked : (x y : ℕ) → is_nan x ≡ false → is_nan y ≡ false → float_gt x y ≡ ltb (place y) (place x)
gt_ranked x y hx hy = rw (hx, hy) refl

place-le : (x : ℕ) → x < 2 ^ 32 → place x ≤ 2 ^ 32
place-le x h = ground arith

lt_ranked :
    (x y : ℕ)
    → x < 2 ^ 32
    → y < 2 ^ 32
    → is_nan x ≡ false
    → is_nan y ≡ false
    → float_lt x y ≡ ltb (2 ^ 32 - place y) (2 ^ 32 - place x)
lt_ranked x y bx by hx hy =
    rw (hx, hy) (flipped (place x) (place y) (place-le x bx) (place-le y by))
  where
    flipped : (p q : ℕ) → p ≤ 2 ^ 32 → q ≤ 2 ^ 32 → ltb p q ≡ ltb (2 ^ 32 - q) (2 ^ 32 - p)
    flipped p q hp hq = ground arith

capped : (n i : ℕ) → i < (if ltb 65535 n then 65535 else n) → u16 i ≡ i
capped n i h = ground arith

nonempty :
    (target source : Buf) (n : ℕ)
    → 0 < n
    → volk_32f_index_max_32u_generic target source n ≡ index_search float_gt u32 target source n
unfolding volk_32f_index_max_32u_generic
nonempty target source n pos = rw (lt→ltb 0 n pos, volk_32f_index_max_32u_generic) refl

-- The generic kernels, on arrays of at least one element and as many as they look at (all of `n`, or at
-- most 65535 for those with an index of 16 bits), none of them a NaN, write to the target the index of the
-- first maximum, or minimum, of these elements: all are at most as good, and those before it are worse.
pub index_run_lem :
    (k : Kernel) (target source : Buf) (n : ℕ)
    → 0 < n
    → n < 2 ^ 32
    → considered k n ≤ source.size
    → ((j : ℕ) → j < considered k n → (source.cell j < 2 ^ 32) × (is_nan (source.cell j) ≡ false))
    → (index : ℕ) × (run k target source n ≡ write target 0 index)
      × IsFirst (λ j. rank k (source.cell j)) (considered k n) index
unfolding run volk_32f_index_max_32u_generic volk_32f_index_max_16u_generic
    volk_32f_index_min_32u_generic volk_32f_index_min_16u_generic
index_run_lem max_32u target source n pos small fits numbers =
    let (index, e, first) =
      index_search_lem float_gt place u32 source n fits (λ i h. omega arith)
        (λ i j hi hj. gt_ranked (source.cell i) (source.cell j) (numbers i hi).1 (numbers j hj).1)
        target pos in
    (index, nonempty target source n pos ∙ e, first)
index_run_lem max_16u target source n pos small fits numbers =
    index_search_lem float_gt place u16 source (considered max_16u n) fits (capped n)
      (λ i j hi hj. gt_ranked (source.cell i) (source.cell j) (numbers i hi).1 (numbers j hj).1)
      target (ground arith)
index_run_lem min_32u target source n pos small fits numbers =
    index_search_lem float_lt (λ x. 2 ^ 32 - place x) u32 source n fits (λ i h. omega arith)
      (λ i j hi hj.
        lt_ranked (source.cell i) (source.cell j) (numbers i hi).0 (numbers j hj).0 (numbers i hi).1
          (numbers j hj).1)
      target pos
index_run_lem min_16u target source n pos small fits numbers =
    index_search_lem float_lt (λ x. 2 ^ 32 - place x) u16 source (considered min_16u n) fits
      (capped n)
      (λ i j hi hj.
        lt_ranked (source.cell i) (source.cell j) (numbers i hi).0 (numbers j hj).0 (numbers i hi).1
          (numbers j hj).1)
      target (ground arith)

-- On an empty array, whatever the target: the kernel for the maximum with an index of 32 bits leaves the
-- target alone, and the other three read the first element, out of bounds.
pub index_empty :
    (target source : Buf)
    → source.size ≡ 0
    → (run max_32u target source 0 ≡ some target)
      × (run max_16u target source 0 ≡ none)
      × (run min_32u target source 0 ≡ none)
      × (run min_16u target source 0 ≡ none)
unfolding run volk_32f_index_max_32u_generic volk_32f_index_max_16u_generic
    volk_32f_index_min_32u_generic volk_32f_index_min_16u_generic index_search read
index_empty target source empty = rw empty (refl, refl, refl, refl)
