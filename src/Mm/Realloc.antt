-- ===== src/Mm/Realloc.antt =====
-- `mm_realloc` of mm.c.
pub mod Both
pub mod Choices
pub mod Edges
pub mod Grow
pub mod Grown
pub mod Next
pub mod Prev
pub mod Regrown
pub mod Room
pub mod Slide
use cs0330_fall2022_7_malloc.Base.{ℕ, ◌+◌, ◌-◌, Bool, true, false, not, ◌&&◌, ◌==◌, if◌then◌else◌}
use cs0330_fall2022_7_malloc.Machine.{Cmd, pure, ◌>>=◌, ◌>>◌, memmove, add, less, is_set, null}
use cs0330_fall2022_7_malloc.Block.{
  tags_size, payload, block_allocated, block_size, block_next, block_prev,
  block_set_size_and_allocated, payload_to_block,
}
use cs0330_fall2022_7_malloc.FreeList.{pull_free_block}
use cs0330_fall2022_7_malloc.Mm.{align, mm_malloc, mm_free}

-- `!block_allocated(b) && old_size + block_size(b) >= b_size`
unfoldable pub has_room : (b old_size b_size : ℕ) → Cmd Bool
has_room b old_size b_size = do
  used ← block_allocated b
  if is_set used
      then pure false
      else do size ← block_size b; pure (not (less (add old_size size) b_size))

-- Both neighbours are free, and there is room with the two of them.
unfoldable pub has_room_both : (prev next old_size b_size : ℕ) → Cmd Bool
has_room_both prev next old_size b_size = do
  prev_used ← block_allocated prev
  if is_set prev_used then pure false else do
    next_used ← block_allocated next
    if is_set next_used then pure false else do
      a ← block_size prev
      b ← block_size next
      pure (not (less (add (add old_size a) b) b_size))

unfoldable pub grow_into_prev : (ptr prev old_size : ℕ) → Cmd ℕ
grow_into_prev ptr prev old_size = do
  pull_free_block prev
  size ← block_size prev
  block_set_size_and_allocated prev (add old_size size) 1
  memmove (payload prev 0) ptr old_size
  pure (payload prev 0)

unfoldable pub grow_into_next : (original old_size : ℕ) → Cmd ℕ
grow_into_next original old_size = do
  next ← block_next original
  pull_free_block next
  size ← block_size next
  block_set_size_and_allocated original (add old_size size) 1
  pure (payload original 0)

unfoldable pub grow_into_both : (ptr prev next old_size : ℕ) → Cmd ℕ
grow_into_both ptr prev next old_size = do
  pull_free_block next
  pull_free_block prev
  b ← block_size next
  a ← block_size prev
  block_set_size_and_allocated prev (add (add old_size b) a) 1
  memmove (payload prev 0) ptr old_size
  pure (payload prev 0)

-- The request that is passed on is `b_size`, tags included.
unfoldable pub move_block : (ptr old_size b_size : ℕ) → Cmd ℕ
move_block ptr old_size b_size = do
  newptr ← mm_malloc b_size
  if newptr == null then pure newptr else do memmove newptr ptr old_size; mm_free ptr; pure newptr

unfoldable pub grow : (ptr original old_size b_size : ℕ) → Cmd ℕ
grow ptr original old_size b_size = do
  next ← block_next original
  prev ← block_prev original
  into_prev ← has_room prev old_size b_size
  if into_prev then grow_into_prev ptr prev old_size else do
    into_next ← has_room next old_size b_size
    if into_next then grow_into_next original old_size else do
      into_both ← has_room_both prev next old_size b_size
      if into_both then grow_into_both ptr prev next old_size else move_block ptr old_size b_size

unfoldable pub mm_realloc : (ptr size : ℕ) → Cmd ℕ
mm_realloc ptr size =
    if ptr == null
    then (do _ ← mm_malloc size; pure null)
    else if size == 0
    then mm_free ptr >> pure null
    else do
      let original = payload_to_block ptr
      let b_size = add (align size) tags_size
      old_size ← block_size original
      if less old_size b_size then grow ptr original old_size b_size else pure ptr
