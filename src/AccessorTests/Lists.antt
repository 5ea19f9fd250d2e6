-- ===== src/AccessorTests/Lists.antt =====
-- The two tests of mminline-tests.c for the free list.
use cs0330_fall2022_7_malloc.Base.{ℕ, not, ◌==◌}
use cs0330_fall2022_7_malloc.Machine.{Cmd, ◌>>=◌, ◌>>◌, get, require, load, set_first, null}
use cs0330_fall2022_7_malloc.AccessorTests.{expect, make_ends}
use cs0330_fall2022_7_malloc.Block.{payload, block_set_size_and_allocated}
use cs0330_fall2022_7_malloc.FreeList.{insert_free_block, pull_free_block}

abbrev pub expect_first : ℕ → Cmd (Unit {0})
expect_first b = do s ← get; require (s.flist_first == b)

-- `assert(flist_first != NULL)` and then `assert(flist_first == b)`
abbrev pub expect_some_first : ℕ → Cmd (Unit {0})
expect_some_first b = do
  s ← get
  require (not (s.flist_first == null))
  require (s.flist_first == b)

-- The words `b->payload[0]` and `b->payload[1]`
abbrev pub expect_links : (b flink blink : ℕ) → Cmd (Unit {0})
expect_links b flink blink = expect (load (payload b 0)) flink >> expect (load (payload b 1)) blink

unfoldable pub insert_free_block_test : (addr : ℕ → ℕ) → Cmd (Unit {0})
insert_free_block_test addr = do
  make_ends addr
  let block1 = addr 2
  let block2 = addr 3
  let block3 = addr 4
  set_first null
  block_set_size_and_allocated block1 32 0
  block_set_size_and_allocated block2 64 0
  block_set_size_and_allocated block3 48 0
  insert_free_block block1
  expect_first block1
  expect_links block1 block1 block1
  insert_free_block block2
  expect_first block2
  s ← get
  expect_links s.flist_first block1 block1
  expect_links block1 s.flist_first s.flist_first
  expect_links block2 block1 block1
  insert_free_block block3
  expect_first block3
  expect_links block3 block2 block1
  expect (load (payload block2 1)) block3
  expect (load (payload block1 0)) block3

-- The first half of `pull_free_block_test`: three blocks.
unfoldable pub pull_three : (block_one block_two block_three : ℕ) → Cmd (Unit {0})
pull_three block_one block_two block_three = do
  set_first null
  block_set_size_and_allocated block_one 32 0
  block_set_size_and_allocated block_two 64 0
  block_set_size_and_allocated block_three 48 0
  insert_free_block block_three
  insert_free_block block_two
  insert_free_block block_one
  pull_free_block block_two
  expect_links block_one block_three block_three
  expect_links block_three block_one block_one
  expect_some_first block_one
  pull_free_block block_three
  expect_links block_one block_one block_one
  expect_some_first block_one
  pull_free_block block_one
  expect_first null

-- The second half: four blocks, from the first on.
unfoldable pub pull_four : (block_four block_five block_six block_seven : ℕ) → Cmd (Unit {0})
pull_four block_four block_five block_six block_seven = do
  block_set_size_and_allocated block_four 32 0
  block_set_size_and_allocated block_five 64 0
  block_set_size_and_allocated block_six 48 0
  block_set_size_and_allocated block_seven 96 0
  insert_free_block block_seven
  insert_free_block block_six
  insert_free_block block_five
  insert_free_block block_four
  pull_free_block block_four
  expect_links block_five block_six block_seven
  expect_links block_seven block_five block_six
  expect_some_first block_five
  pull_free_block block_five
  expect (load (payload block_six 1)) block_seven
  expect (load (payload block_six 0)) block_seven
  expect (load (payload block_seven 1)) block_six
  expect (load (payload block_seven 0)) block_six
  expect_some_first block_six
  pull_free_block block_six
  expect (load (payload block_seven 1)) block_seven
  expect (load (payload block_seven 0)) block_seven
  expect_some_first block_seven
  pull_free_block block_seven
  expect_first null

unfoldable pub pull_free_block_test : (addr : ℕ → ℕ) → Cmd (Unit {0})
pull_free_block_test addr = do
  make_ends addr
  pull_three (addr 2) (addr 3) (addr 4)
  pull_four (addr 5) (addr 6) (addr 7) (addr 8)
