-- ===== src/AccessorTests/Tests.antt =====
-- The tests of mminline-tests.c at blocks of a small memory.
use cs0330_fall2022_7_malloc.Base.{
  ℕ, ◌+◌, ◌*◌, ◌≡◌, refl, [], ◌∷◌, Bool, true, false, arith, ◌⊎◌, inl, count,
}
use cs0330_fall2022_7_malloc.Machine.{
  State, Run, ok, fault, aborted, out_of_fuel, load, store, read, write, read_long, low_bit,
}
use cs0330_fall2022_7_malloc.AccessorTests.{
  set_size_test, set_allocated_test, set_size_and_allocated_test, end_tag_test, set_flink_test,
  set_blink_test, prev_test, next_test, next_size_allocated_test, prev_size_allocated_test,
}
use cs0330_fall2022_7_malloc.AccessorTests.Choice.{numbers_of, foreach_test_all}
use cs0330_fall2022_7_malloc.AccessorTests.Dispatch.{
  named_end_tag, all_word, number_of, all_tests, foreach_test, by_name,
}
use cs0330_fall2022_7_malloc.AccessorTests.Links.{tests_on_blocks_pass}
use cs0330_fall2022_7_malloc.AccessorTests.Lists.{
  insert_free_block_test, pull_free_block_test, pull_three, pull_four,
}
use cs0330_fall2022_7_malloc.AccessorTests.OnHeap.{tests_on_heap_pass}
use cs0330_fall2022_7_malloc.AccessorTests.Pass.{set_size_test_lem}
use cs0330_fall2022_7_malloc.AccessorTests.Rooms.{Passes}
use cs0330_fall2022_7_malloc.Block.{
  require_free, block_set_flink, block_allocated, block_blink, block_end_tag, block_flink,
  block_set_blink, block_set_size, block_set_allocated, block_set_size_and_allocated,
}
use cs0330_fall2022_7_malloc.FreeList.{
  insert_free_block, link_alone, link_before_first, pull_first, pull_free_block, unlink,
}

-- Every byte is odd.
abbrev memory : State
memory = record {
  mem = λ a. 205;
  mem_start_brk = 1000;
  mem_brk = 3000;
  mem_max_addr = 3000;
  flist_first = 0;
  prologue = 0;
  epilogue = 0;
}

abbrev places : ℕ → ℕ
places i = 1000 + 120 * i

abbrev returned : {A : Type 0} → Run A → Bool
returned (ok a s) = true
returned fault = false
returned aborted = false
returned out_of_fuel = false

set_size_test_example :
    ((low_bit (read_long memory.mem 1240) ≡ 0)
      × (low_bit (read_long memory.mem 1360) ≡ 0)
      × Passes set_size_test memory places)
    ⊎ (((low_bit (read_long memory.mem 1240) ≡ 1) ⊎ (low_bit (read_long memory.mem 1360) ≡ 1))
        × (set_size_test places memory ≡ aborted))
set_size_test_example =
    set_size_test_lem memory places
      (record { lo = omega arith; hi = omega arith; top = omega arith; low = omega arith })
      (record { lo = omega arith; hi = omega arith; top = omega arith; low = omega arith })
      (inl (omega arith))

tests_on_blocks_example :
    Passes set_allocated_test memory places
    × Passes set_size_and_allocated_test memory places
    × Passes end_tag_test memory places
    × Passes set_flink_test memory places
    × Passes set_blink_test memory places
tests_on_blocks_example =
    tests_on_blocks_pass memory places
      (record { lo = omega arith; hi = omega arith; top = omega arith; low = omega arith })
      (record { lo = omega arith; hi = omega arith; top = omega arith; low = omega arith })
      (inl (omega arith))

tests_on_heap_example :
    Passes prev_test memory places
    × Passes next_test memory places
    × Passes next_size_allocated_test memory places
    × Passes prev_size_allocated_test memory places
tests_on_heap_example = tests_on_heap_pass memory places (omega arith) (omega arith)

foreach_test_all_example :
    (foreach_test (λ j. places) (all_word ∷ []) memory
      ≡ foreach_test (λ j. places) (by_name all_tests) memory)
    × (count (number_of named_end_tag) (numbers_of all_tests) ≡ 1)
foreach_test_all_example = foreach_test_all (λ j. places) [] memory named_end_tag

-- The tests of the free list, on separate blocks.
insert_free_block_test_runs : returned (insert_free_block_test places memory) ≡ true
unfolding insert_free_block_test block_set_size_and_allocated load store read write
    insert_free_block require_free block_set_flink block_allocated block_blink block_end_tag
    block_flink block_set_allocated block_set_blink block_set_size link_alone link_before_first
insert_free_block_test_runs = refl

pull_free_block_test_runs : returned (pull_free_block_test places memory) ≡ true
unfolding pull_free_block_test pull_three pull_four block_set_size_and_allocated load store read
    write insert_free_block require_free block_set_flink block_allocated block_blink block_end_tag
    block_flink block_set_allocated block_set_blink block_set_size link_alone link_before_first
    pull_first pull_free_block unlink
pull_free_block_test_runs = refl
