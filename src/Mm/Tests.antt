-- ===== src/Mm/Tests.antt =====
-- Runs of the allocator on small heaps, and its theorems at one of them.
use cs0330_fall2022_7_malloc.Base.{
  ◌^◌, inl, inr, ℕ, ◌+◌, ◌-◌, ◌%◌, ◌≤◌, ◌<◌, List, [], ◌∷◌, ◌++◌, ◌≡◌, refl, true, false, Option,
  none, some, arith, ◌⊎◌,
}
use cs0330_fall2022_7_malloc.Machine.{
  fault, load, store, memmove, copied, State, Run, ok, Cmd, pure, ◌>>=◌, ◌>>◌, get, null, read,
  write,
}
use cs0330_fall2022_7_malloc.Memlib.{mem_sbrk, mem_heapsize}
use cs0330_fall2022_7_malloc.Block.{
  block_next, payload_to_block, require_free, block_set_flink, block_allocated, block_blink,
  block_end_tag, block_flink, block_prev, block_prev_size, block_set_blink, block_set_size,
  block_size, block_next_allocated, block_next_size, block_prev_allocated,
  block_set_size_and_allocated,
}
use cs0330_fall2022_7_malloc.Block.{block_set_allocated}
use cs0330_fall2022_7_malloc.Layout.{Blocks, frees}
use cs0330_fall2022_7_malloc.Layout.Payload.{KeepsPayload}
use cs0330_fall2022_7_malloc.Layout.Sound.{Sound}
use cs0330_fall2022_7_malloc.FreeList.Insert.{Inserts, insert_free_block_lem}
use cs0330_fall2022_7_malloc.FreeList.Pull.{Pulls, pull_free_block_lem}
use cs0330_fall2022_7_malloc.FreeList.{
  insert_free_block, link_alone, link_before_first, pull_first, pull_free_block, unlink,
}
use cs0330_fall2022_7_malloc.Mm.{
  absorb, absorb_next, coalesce_next, coalesce_prev, split_block, mm_init, mm_malloc, mm_free,
  align, request_size, take_block, extend_heap, search_free, coalescing, success, failure,
}
use cs0330_fall2022_7_malloc.Mm.Coalesce.Branches.{behind, joined}
use cs0330_fall2022_7_malloc.Mm.Coalesce.Result.{coalescing_ends}
use cs0330_fall2022_7_malloc.Mm.Ends.{Ends}
use cs0330_fall2022_7_malloc.Mm.Free.{Frees, mm_free_lem}
use cs0330_fall2022_7_malloc.Mm.Init.{bare, Empty, mm_init_lem}
use cs0330_fall2022_7_malloc.Mm.Inv.{Inv, allocs}
use cs0330_fall2022_7_malloc.Mm.Malloc.Extend.{extend_heap_lem}
use cs0330_fall2022_7_malloc.Mm.Malloc.Grants.{Grants, GrantsAt}
use cs0330_fall2022_7_malloc.Mm.Malloc.Search.{first_fit, search_free_lem}
use cs0330_fall2022_7_malloc.Mm.Malloc.Take.{take_block_lem}
use cs0330_fall2022_7_malloc.Mm.Malloc.Total.{Refuses, mm_malloc_lem}
use cs0330_fall2022_7_malloc.Mm.Neighbours.{neighbours_seen}
use cs0330_fall2022_7_malloc.Mm.Realloc.{
  mm_realloc, grow, has_room, has_room_both, grow_into_prev, grow_into_next, grow_into_both,
  move_block,
}
use cs0330_fall2022_7_malloc.Mm.Malloc.Truncated.{extend_heap_truncates}
use cs0330_fall2022_7_malloc.Mm.Realloc.Choices.{Chooses, realloc-Chooses}
use cs0330_fall2022_7_malloc.Mm.Realloc.Grow.{TakesIn, realloc_grows}
use cs0330_fall2022_7_malloc.Mm.Realloc.Edges.{Leaks, realloc_at_null, realloc_to_zero}
use cs0330_fall2022_7_malloc.Mm.Request.{align-nearest, request_size_bounds}
use cs0330_fall2022_7_malloc.Mm.Sample.{sample, sample_blocks, sample-Inv}

abbrev blank : State
blank = record {
  mem = λ a. 205;
  mem_start_brk = 1000;
  mem_brk = 1000;
  mem_max_addr = 3000;
  flist_first = 0;
  prologue = 0;
  epilogue = 0;
}

abbrev result : {A : Type 0} → Run A → Option A
result (ok a s) = some a
result _ = none

abbrev script : Cmd (List ℕ)
script = do
  _ ← mm_init
  a ← mm_malloc 10
  b ← mm_malloc 100
  c ← mm_malloc 24
  mm_free b
  d ← mm_malloc 40
  a' ← mm_realloc a 60
  mm_free d
  mm_free c
  mm_free a'
  e ← mm_malloc 200
  s ← get
  pure (a ∷ b ∷ c ∷ d ∷ a' ∷ e ∷ s.mem_brk ∷ s.flist_first ∷ s.epilogue ∷ [])

-- The blocks before and after each block of the sample.
abbrev one_before : Blocks
one_before = (16, true) ∷ []

abbrev two_before : Blocks
two_before = (16, true) ∷ ((40, true) ∷ [])

abbrev three_before : Blocks
three_before = (16, true) ∷ ((40, true) ∷ ((72, false) ∷ []))

abbrev two_after : Blocks
two_after = (72, false) ∷ ((48, true) ∷ ((16, true) ∷ []))

abbrev one_after : Blocks
one_after = (48, true) ∷ ((16, true) ∷ [])

abbrev last_after : Blocks
last_after = (16, true) ∷ []

mm_malloc_example :
    Grants (mm_malloc 40 sample) sample sample_blocks (request_size 40)
    ⊎ Refuses (mm_malloc 40 sample) sample sample_blocks (request_size 40)
mm_malloc_example = mm_malloc_lem sample sample_blocks 40 sample-Inv (omega arith) (omega arith)

mm_free_example : Frees sample three_before 48 last_after
mm_free_example = mm_free_lem sample three_before 48 last_after sample-Inv (omega arith)

blank-Empty : Empty blank
blank-Empty = record {
  empty = refl;
  low = omega arith;
  aligned = refl;
  ordered = omega arith;
  top = omega arith;
}

mm_init_example :
    ((s' : State) × (mm_init blank ≡ ok success s')
      × Inv s' bare
      × (s'.mem_start_brk ≡ 1000)
      × (s'.mem_max_addr ≡ 3000))
    ⊎ ((s' : State) × (mm_init blank ≡ ok failure s') × (3000 < 1000 + 32))
mm_init_example = mm_init_lem blank blank-Empty

coalescing_example :
    Ends
      (coalescing (behind sample one_before + 40) sample)
      sample
      (one_before ++ joined 40 true 72 48 true last_after)
      (frees 1000 (one_before ++ joined 40 true 72 48 true last_after))
coalescing_example =
    coalescing_ends {s = sample} one_before 40 true 72 48 true last_after sample-Inv.sound
      sample-Inv.free

-- The sample with an empty free list.
abbrev unlisted : State
unlisted = record sample { flist_first = null }

unlisted-Sound : Sound unlisted sample_blocks
unlisted-Sound = record { heap = sample-Inv.sound.heap; low = omega arith; top = omega arith }

insert_free_block_example : Inserts {s = unlisted} {bs = sample_blocks} unlisted-Sound 1056 []
insert_free_block_example =
    insert_free_block_lem {s = unlisted} {bs = sample_blocks} unlisted-Sound 1056 []
      (λ x. omega arith) (record { ring = []; is_ring = refl; same = λ x. refl })

pull_free_block_example : Pulls sample sample_blocks 1056 []
pull_free_block_example =
    pull_free_block_lem sample-Inv.sound 1056 [] (λ x. omega arith) sample-Inv.free

search_free_example :
    search_free (mem_heapsize sample) 56 1056 sample
    ≡ ok (first_fit sample.mem 56 sample-Inv.free.ring) sample
search_free_example =
    search_free_lem sample-Inv.sound 56 (omega arith) (omega arith) sample-Inv.free

take_block_example :
    ((72 - 32 < 32)
      × GrantsAt
          (take_block (behind sample two_before) 32 sample)
          sample
          sample_blocks
          two_before
          72
          one_after
          sample.mem_brk)
    ⊎ ((32 ≤ 72 - 32)
        × GrantsAt
            (take_block (behind sample two_before) 32 sample)
            sample
            sample_blocks
            two_before
            32
            ((72 - 32, false) ∷ one_after)
            sample.mem_brk)
take_block_example =
    take_block_lem sample two_before 72 one_after 32 sample-Inv refl (omega arith) (omega arith)

abbrev all_before : Blocks
all_before = (16, true) ∷ ((40, true) ∷ ((72, false) ∷ ((48, true) ∷ [])))

extend_heap_example :
    GrantsAt
      (extend_heap 80 sample)
      sample
      sample_blocks
      all_before
      80
      last_after
      (sample.mem_brk + 80)
extend_heap_example =
    extend_heap_lem sample all_before 80 sample-Inv refl (omega arith) (omega arith) (omega arith)

realloc_at_null_example :
    Leaks sample sample_blocks 40
    ⊎ ((mm_malloc 40 sample ≡ ok null sample) × (mm_realloc null 40 sample ≡ ok null sample))
realloc_at_null_example =
    realloc_at_null sample sample_blocks 40 sample-Inv (omega arith) (omega arith)

realloc_to_zero_example :
    (s' : State) × (bs' : Blocks) × (mm_realloc (behind sample one_before + 8) 0 sample
      ≡ ok null s')
    × Inv s' bs'
    × (allocs 1000 bs' ≡ allocs 1000 one_before ++ allocs (behind sample one_before + 40) two_after)
    × KeepsPayload 1000 bs' sample.mem s'.mem
realloc_to_zero_example = realloc_to_zero sample one_before 40 two_after sample-Inv (omega arith)

align_example : (align 20 % 8 ≡ 0) × (20 ≤ align 20) × (align 20 < 20 + 8)
align_example = align-nearest 20 (omega arith)

request_size_example :
    (request_size 20 % 8 ≡ 0)
    × (32 ≤ request_size 20)
    × (20 + 16 ≤ request_size 20)
    × (request_size 20 < 20 + 32)
request_size_example = request_size_bounds 20 (omega arith) (omega arith)

neighbours_seen_example :
    (block_prev_size (behind sample one_before + 40) sample ≡ ok 40 sample)
    × (block_prev_allocated (behind sample one_before + 40) sample ≡ ok 1 sample)
    × (block_next_size (behind sample one_before + 40) sample ≡ ok 48 sample)
    × (block_next_allocated (behind sample one_before + 40) sample ≡ ok 1 sample)
    × ((false ≡ true) ⊎ ((true ≡ true) × (true ≡ true)))
neighbours_seen_example =
    neighbours_seen sample one_before 40 true 72 false 48 true last_after sample-Inv

extend_heap_truncates_example : extend_heap (2 ^ 32 + 64) sample ≡ fault
extend_heap_truncates_example =
    extend_heap_truncates sample all_before (2 ^ 32 + 64) sample-Inv refl (omega arith)
      (omega arith) (omega arith) (omega arith)

-- The first block of the sample takes in the free block after it.
realloc_grows_example : TakesIn sample [] 16 true 40 72 false one_after 80
unfolding align
realloc_grows_example =
    realloc_grows sample [] 16 true 40 72 false one_after 80 sample-Inv (omega arith) (omega arith)
      (omega arith) (omega arith) (inl (inr (refl, omega arith)))

realloc-Chooses_example : Chooses sample [] 16 true 40 72 false one_after 80
realloc-Chooses_example =
    realloc-Chooses sample [] 16 true 40 72 false one_after 80 sample-Inv (omega arith)
      (omega arith) (omega arith)

-- What a run of all four functions returns, and the globals that it leaves.
script_runs :
    result (script blank) ≡ some (1024 ∷ 1056 ∷ 1176 ∷ 1056 ∷ 1216 ∷ 1024 ∷ 1320 ∷ 1232 ∷ 1304 ∷ [])
unfolding mm_init mem_sbrk block_set_size_and_allocated load store read write mm_malloc mem_heapsize
    extend_heap request_size block_next mm_free payload_to_block insert_free_block require_free
    block_set_flink block_allocated block_blink block_end_tag block_flink block_prev block_prev_size
    block_set_allocated block_set_blink block_set_size block_size link_alone link_before_first
    pull_first pull_free_block unlink absorb absorb_next align coalesce_next coalesce_prev
    coalescing search_free split_block take_block mm_realloc grow has_room has_room_both
    grow_into_prev grow_into_next grow_into_both move_block memmove copied
script_runs = refl
