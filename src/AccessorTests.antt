-- ===== src/AccessorTests.antt =====
-- mminline-tests.c: the unit tests of the accessors. `addr i` is the address that the test's call
-- number `i` of `malloc` returns, and the bytes between `mem_start_brk` and `mem_brk` stand for the
-- memory that a test may access; in the tests that call `mem_init`, they are the heap. A failed
-- assert is `aborted`. `sleep` and `free` do nothing to the blocks.
pub mod Rooms
pub mod Choice
pub mod Dispatch
pub mod Links
pub mod Lists
pub mod OnHeap
pub mod Pass
mod Tests
use cs0330_fall2022_7_malloc.Base.{ℕ, ◌+◌, not, ◌==◌, Option, none, some}
use cs0330_fall2022_7_malloc.Machine.{
  Cmd, State, Run, ok, aborted, pure, ◌>>=◌, ◌>>◌, require, load, set_prologue, set_epilogue,
  is_set,
}
use cs0330_fall2022_7_malloc.Memlib.{mem_init, mem_sbrk}
use cs0330_fall2022_7_malloc.Block.{
  payload, block_allocated, block_end_allocated, block_set_size, block_size, block_set_allocated,
  block_set_size_and_allocated, block_end_size, block_prev, block_next, block_next_allocated,
  block_next_size, block_prev_allocated, block_prev_size, payload_to_block, block_flink,
  block_set_flink, block_blink, block_set_blink,
}

-- `assert(c == v)` and `assert(!c)` for a call `c`
abbrev pub expect : Cmd ℕ → ℕ → Cmd (Unit {0})
expect c v = do x ← c; require (x == v)

abbrev pub expect_not : Cmd ℕ → Cmd (Unit {0})
expect_not c = do x ← c; require (not (is_set x))

abbrev pub expect_set : Cmd ℕ → Cmd (Unit {0})
expect_set c = do x ← c; require (is_set x)

-- The first two calls of `malloc` in a test.
abbrev pub make_ends : (addr : ℕ → ℕ) → Cmd (Unit {0})
make_ends addr = set_prologue (addr 0) >> set_epilogue (addr 1)

unfoldable pub set_size_test : (addr : ℕ → ℕ) → Cmd (Unit {0})
set_size_test addr = do
  make_ends addr
  block_set_size (addr 2) 32
  block_set_size (addr 3) 64
  expect (load (addr 2)) 32
  expect (load (addr 3)) 64
  expect (block_size (addr 2)) 32
  expect (block_size (addr 3)) 64

unfoldable pub set_allocated_test : (addr : ℕ → ℕ) → Cmd (Unit {0})
set_allocated_test addr = do
  make_ends addr
  block_set_size (addr 2) 32
  block_set_size (addr 3) 64
  block_set_allocated (addr 2) 1
  block_set_allocated (addr 3) 0
  expect_set (block_allocated (addr 2))
  expect_not (block_allocated (addr 3))

unfoldable pub set_size_and_allocated_test : (addr : ℕ → ℕ) → Cmd (Unit {0})
set_size_and_allocated_test addr = do
  make_ends addr
  block_set_size_and_allocated (addr 2) 32 1
  block_set_size_and_allocated (addr 3) 64 0
  expect (block_size (addr 2)) 32
  expect (block_size (addr 3)) 64
  expect_set (block_allocated (addr 2))
  expect_not (block_allocated (addr 3))

-- `assert(block_size(b) == block_end_size(b))`
abbrev pub expect_end_size : ℕ → Cmd (Unit {0})
expect_end_size b = do size ← block_size b; end_size ← block_end_size b; require (size == end_size)

unfoldable pub end_tag_test : (addr : ℕ → ℕ) → Cmd (Unit {0})
end_tag_test addr = do
  make_ends addr
  block_set_size_and_allocated (addr 2) 32 1
  block_set_size_and_allocated (addr 3) 64 0
  expect_end_size (addr 2)
  expect_end_size (addr 3)
  expect (block_end_allocated (addr 2)) 1
  expect (block_end_allocated (addr 3)) 0

unfoldable pub payload_to_block_test : (addr : ℕ → ℕ) → Cmd (Unit {0})
payload_to_block_test addr = do
  make_ends addr
  block_set_size_and_allocated (addr 2) 32 0
  block_set_size_and_allocated (addr 3) 96 1
  require (payload_to_block (payload (addr 2) 0) == addr 2)
  require (payload_to_block (payload (addr 3) 0) == addr 3)

unfoldable pub set_flink_test : (addr : ℕ → ℕ) → Cmd (Unit {0})
set_flink_test addr = do
  make_ends addr
  block_set_size_and_allocated (addr 2) 32 0
  block_set_size_and_allocated (addr 3) 64 0
  block_set_flink (addr 2) (addr 3)
  expect (block_flink (addr 2)) (addr 3)
  expect (block_size (addr 2)) 32
  expect (block_size (addr 3)) 64
  expect_not (block_allocated (addr 2))
  expect_not (block_allocated (addr 3))

unfoldable pub set_blink_test : (addr : ℕ → ℕ) → Cmd (Unit {0})
set_blink_test addr = do
  make_ends addr
  block_set_size_and_allocated (addr 2) 32 0
  block_set_size_and_allocated (addr 3) 64 0
  block_set_blink (addr 2) (addr 3)
  expect (block_blink (addr 2)) (addr 3)
  expect (block_size (addr 2)) 32
  expect (block_size (addr 3)) 64
  expect_not (block_allocated (addr 2))
  expect_not (block_allocated (addr 3))

-- `mem_init`, where the program exits if `malloc` returns NULL
abbrev pub begun : Option State → Run (Unit {0})
begun none = aborted
begun (some s) = ok tt s

unfoldable pub init_heap : (addr : ℕ → ℕ) → Cmd (Unit {0})
init_heap addr s = begun (mem_init (addr 0) s)

unfoldable pub prev_test : (addr : ℕ → ℕ) → Cmd (Unit {0})
prev_test addr = do
  init_heap addr
  block1 ← mem_sbrk 96
  block2 ← mem_sbrk 96
  block3 ← mem_sbrk 128
  block_set_size_and_allocated block1 96 1
  block_set_size_and_allocated block2 96 0
  block_set_size_and_allocated block3 128 0
  expect (block_prev block2) block1
  expect (block_prev block3) block2
  b ← block_prev block3
  expect (block_size b) 96

unfoldable pub next_test : (addr : ℕ → ℕ) → Cmd (Unit {0})
next_test addr = do
  init_heap addr
  block1 ← mem_sbrk 64
  block2 ← mem_sbrk 64
  block3 ← mem_sbrk 64
  block_set_size_and_allocated block1 64 1
  block_set_size_and_allocated block2 64 0
  block_set_size_and_allocated block3 64 0
  expect (block_next block1) block2
  expect (block_next block2) block3
  b ← block_next block2
  expect (block_size b) 64

unfoldable pub next_size_allocated_test : (addr : ℕ → ℕ) → Cmd (Unit {0})
next_size_allocated_test addr = do
  init_heap addr
  block1 ← mem_sbrk 64
  block2 ← mem_sbrk 64
  block3 ← mem_sbrk 96
  block_set_size_and_allocated block1 64 1
  block_set_size_and_allocated block2 64 0
  block_set_size_and_allocated block3 96 1
  expect (block_next_allocated block1) 0
  expect (block_next_allocated block2) 1
  expect (block_next_size block1) 64
  expect (block_next_size block2) 96

unfoldable pub prev_size_allocated_test : (addr : ℕ → ℕ) → Cmd (Unit {0})
prev_size_allocated_test addr = do
  init_heap addr
  block1 ← mem_sbrk 64
  block2 ← mem_sbrk 96
  block3 ← mem_sbrk 128
  block_set_size_and_allocated block1 64 1
  block_set_size_and_allocated block2 96 0
  block_set_size_and_allocated block3 128 1
  expect (block_prev_allocated block3) 0
  expect (block_prev_allocated block2) 1
  expect (block_prev_size block3) 96
  expect (block_prev_size block2) 64
