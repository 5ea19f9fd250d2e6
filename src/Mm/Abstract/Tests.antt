-- ===== src/Mm/Abstract/Tests.antt =====
-- The theorems on the blocks that were given out, at the sample heap.
use cs0330_fall2022_7_malloc.Base.{◌+◌, ◌≡◌, refl, [], ◌∷◌, arith, ◌⊎◌}
use cs0330_fall2022_7_malloc.Machine.{State, ok, ◌>>=◌, null}
use cs0330_fall2022_7_malloc.Mm.{mm_malloc, mm_free}
use cs0330_fall2022_7_malloc.Mm.Abstract.{Given, Owns, Keeps}
use cs0330_fall2022_7_malloc.Mm.Abstract.Move.{Becomes}
use cs0330_fall2022_7_malloc.Mm.Abstract.Resize.{realloc-Becomes}
use cs0330_fall2022_7_malloc.Mm.Abstract.RoundTrip.{free-malloc}
use cs0330_fall2022_7_malloc.Mm.Realloc.{mm_realloc}
use cs0330_fall2022_7_malloc.Mm.Sample.{sample, sample_blocks, sample-Inv}

abbrev sample_given : Given
sample_given = (1016, 40) ∷ ((1128, 48) ∷ [])

sample-Owns : Owns sample sample_given
sample-Owns = (sample_blocks, sample-Inv, refl)

-- The first block has no room for 200 bytes, nor have its neighbours.
realloc-Becomes_example :
    Becomes (mm_realloc (1016 + 8) 200 sample) sample [] 1016 40 ((1128, 48) ∷ []) (200 + 16)
    ⊎ (mm_realloc (1016 + 8) 200 sample ≡ ok null sample)
realloc-Becomes_example =
    realloc-Becomes sample 200 (omega arith) (omega arith) [] ((1128, 48) ∷ []) 1016 40 sample-Owns

free-malloc_example :
    (s' : State) × ((mm_malloc 20 >>= mm_free) sample ≡ ok tt s')
    × Owns s' sample_given
    × Keeps sample_given sample.mem s'.mem
free-malloc_example = free-malloc sample sample_given 20 sample-Owns (omega arith) (omega arith)
