-- ===== src/Mm.antt =====
-- mm.c: the allocator. Each function is a command over the state; the search of the free list
-- runs on fuel, as many rounds as the heap has bytes, which is more than there are blocks.
pub mod Abstract
pub mod Client
pub mod Coalesce
pub mod Ends
pub mod Free
pub mod Init
pub mod Inv
pub mod Malloc
pub mod Neighbours
pub mod Realloc
pub mod Request
pub mod Sample
pub mod Steps
mod Tests
pub mod Touch
use cs0330_fall2022_7_malloc.Base.{
  ℕ, zero, suc, ◌+◌, ◌-◌, ◌%◌, Bool, true, false, not, ◌&&◌, ◌==◌, if◌then◌else◌,
}
use cs0330_fall2022_7_malloc.Machine.{
  Cmd, out_of_fuel, pure, ◌>>=◌, ◌>>◌, get, set_prologue, set_epilogue, set_first, memmove, add,
  sub, less, is_set, null, failed_ptr,
}
use cs0330_fall2022_7_malloc.Block.{
  tags_size, min_block_size, payload, block_allocated, block_size, block_next, block_prev,
  block_set_allocated, block_set_size_and_allocated, payload_to_block, block_flink,
}
use cs0330_fall2022_7_malloc.FreeList.{insert_free_block, pull_free_block}
use cs0330_fall2022_7_malloc.Memlib.{to_int, mem_sbrk, mem_heapsize}

-- `(size + 7) & ~7`
unfoldable pub align : ℕ → ℕ
align size = let t = add size 7 in t - t % 8

-- `(void)0` as a command
abbrev pub skip : Cmd (Unit {0})
skip = pure tt

-- `if (!block_allocated(prev))`: the block before takes `block` in.
unfoldable pub absorb : (prev block : ℕ) → Cmd (Unit {0})
absorb prev block = do
  pull_free_block prev
  a ← block_size prev
  b ← block_size block
  block_set_size_and_allocated prev (add a b) 0

-- `keep` takes the free block `next` in, and goes back to the list.
unfoldable pub absorb_next : (next keep : ℕ) → Cmd (Unit {0})
absorb_next next keep = do
  pull_free_block next
  a ← block_size next
  b ← block_size keep
  block_set_size_and_allocated keep (add a b) 0
  insert_free_block keep

-- The first half of `coalescing`, then what it does at the next block.
unfoldable pub coalesce_prev : (prev block : ℕ) → Cmd (Unit {0})
coalesce_prev prev block = do
  prev_used ← block_allocated prev
  if is_set prev_used then skip else absorb prev block

unfoldable pub coalesce_next : (prev block next : ℕ) → Cmd (Unit {0})
coalesce_next prev block next = do
  next_used ← block_allocated next
  prev_used ← block_allocated prev
  let keep = if is_set prev_used then block else prev
  if is_set next_used then insert_free_block keep else absorb_next next keep

unfoldable pub coalescing : ℕ → Cmd (Unit {0})
coalescing block = do
  next ← block_next block
  prev ← block_prev block
  pull_free_block block
  coalesce_prev prev block
  coalesce_next prev block next

-- What `mm_init` returns: 0 or -1.
pub data Status : Type 0 where
  success failure : Status

unfoldable pub mm_init : Cmd Status
mm_init = do
  set_first null
  p ← mem_sbrk tags_size
  set_prologue p
  if p == failed_ptr then pure failure else do
    e ← mem_sbrk tags_size
    set_epilogue e
    if e == failed_ptr then pure failure else do
      block_set_size_and_allocated p tags_size 1
      block_set_size_and_allocated e tags_size 1
      pure success

-- The `while` loop of `mm_malloc`: the first block with room, or NULL.
unfoldable pub search_free : ℕ → (b_size curr : ℕ) → Cmd ℕ
search_free zero b_size curr = λ _. out_of_fuel
search_free (suc fuel) b_size curr = if curr == null then pure null else do
  size ← block_size curr
  if not (less size b_size) then pure curr else do
    next ← block_flink curr
    s ← get
    if next == s.flist_first then pure null else search_free fuel b_size next

-- The body of the loop at the block that it takes.
unfoldable pub split_block : (curr b_size free_size : ℕ) → Cmd (Unit {0})
split_block curr b_size free_size = do
  block_set_size_and_allocated curr b_size 1
  rest ← block_next curr
  block_set_size_and_allocated rest free_size 0
  rest' ← block_next curr
  insert_free_block rest'

unfoldable pub take_block : (curr b_size : ℕ) → Cmd ℕ
unfolding split_block
take_block curr b_size = do
  pull_free_block curr
  size ← block_size curr
  let free_size = sub size b_size
  if less free_size min_block_size
      then block_set_allocated curr 1
      else split_block curr b_size free_size
  pure (payload curr 0)

-- After the loop: a larger heap, with a new block where the epilogue was.
unfoldable pub extend_heap : (b_size : ℕ) → Cmd ℕ
extend_heap b_size = do
  old ← mem_sbrk (to_int b_size)
  s ← get
  if old == failed_ptr then pure null else do
    let new_block = s.epilogue
    block_set_size_and_allocated new_block b_size 1
    next ← block_next new_block
    set_epilogue next
    block_set_size_and_allocated next tags_size 1
    pure (payload new_block 0)

-- The size of a block for a request.
unfoldable pub request_size : ℕ → ℕ
unfolding align
request_size size =
    let b_size = add (align size) tags_size in
    if less b_size min_block_size then min_block_size else b_size

unfoldable pub mm_malloc : ℕ → Cmd ℕ
unfolding search_free
mm_malloc size = if size == 0 then pure null else do
  s ← get
  found ← search_free (mem_heapsize s) (request_size size) s.flist_first
  if found == null then extend_heap (request_size size) else take_block found (request_size size)

unfoldable pub mm_free : ℕ → Cmd (Unit {0})
mm_free ptr = if ptr == null then skip else do
  let block = payload_to_block ptr
  allocated ← block_allocated block
  if not (is_set allocated)
      then skip
      else do block_set_allocated block 0; insert_free_block block; coalescing block
