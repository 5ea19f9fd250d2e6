-- ===== src/FreeList.antt =====
-- `insert_free_block` and `pull_free_block` of mminline.h: the circular doubly linked free list
-- whose first block is the global `flist_first`.
pub mod Insert
pub mod Pull
pub mod Ring
pub mod Splice
pub mod Unlink
use cs0330_fall2022_7_malloc.Base.{ℕ, ◌==◌, not, if◌then◌else◌}
use cs0330_fall2022_7_malloc.Machine.{Cmd, pure, ◌>>=◌, ◌>>◌, get, set_first, null}
use cs0330_fall2022_7_malloc.Block.{
  require_free, block_flink, block_blink, block_set_flink, block_set_blink,
}

-- `if (flist_first != NULL)`: between the first and the last block
unfoldable pub link_before_first : ℕ → ℕ → Cmd (Unit {0})
link_before_first fb first = do
  last ← block_blink first
  block_set_flink fb first
  block_set_blink fb last
  block_set_flink last fb
  block_set_blink first fb

unfoldable pub link_alone : ℕ → Cmd (Unit {0})
link_alone fb = block_set_flink fb fb >> block_set_blink fb fb

unfoldable pub insert_free_block : ℕ → Cmd (Unit {0})
unfolding link_before_first link_alone
insert_free_block fb = do
  require_free fb
  s ← get
  if not (s.flist_first == null) then link_before_first fb s.flist_first else link_alone fb
  set_first fb

-- The two writes that take `fb` out of the ring.
unfoldable pub unlink : ℕ → Cmd (Unit {0})
unlink fb = do
  last ← block_blink fb
  next ← block_flink fb
  block_set_flink last next
  next' ← block_flink fb
  last' ← block_blink fb
  block_set_blink next' last'

-- `fb` is the first block: the next one becomes the first, or the list becomes empty.
unfoldable pub pull_first : ℕ → Cmd (Unit {0})
unfolding unlink
pull_first fb = do
  next ← block_flink fb
  set_first next
  if next == fb then set_first null else unlink fb

unfoldable pub pull_free_block : ℕ → Cmd (Unit {0})
unfolding pull_first unlink
pull_free_block fb = do
  require_free fb
  s ← get
  if s.flist_first == fb then pull_first fb else unlink fb
