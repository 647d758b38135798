-- ===== src/Tests/IndexBest.antt =====
-- The searches on small arrays.
use volk.Base.{ℕ, ◌≡◌, refl, some, none, arith}
use volk.Memory.{Buf, write}
use volk.Kernels.IndexBest.{max_32u, max_16u, min_32u, min_16u, run}
use volk.Kernels.IndexBest.First.{IsFirst}
use volk.Kernels.IndexBest.Result.{rank, index_run_lem, index_empty}
use volk.Tests.Kernels.{out, in_a}

index_run_lem_example :
    (index : ℕ) × (run min_16u out in_a 37 ≡ write out 0 index)
    × IsFirst (λ j. rank min_16u (in_a.cell j)) 37 index
index_run_lem_example =
    index_run_lem min_16u out in_a 37 (omega arith) (omega arith) (omega arith)
      (λ j h. (omega arith, ground arith))

abbrev empty : Buf
empty = record { base = 0; size = 0; cell = λ j. 0 }

index_empty_example :
    (run max_32u out empty 0 ≡ some out)
    × (run max_16u out empty 0 ≡ none)
    × (run min_32u out empty 0 ≡ none)
    × (run min_16u out empty 0 ≡ none)
index_empty_example = index_empty out empty refl
