-- ===== src/Block.antt =====
-- The block accessors of mminline.h. A block is the address of its header; `payload[i]` is the
-- long at `b + 8 + 8 * i`, and a failed assert is `aborted`.
pub mod Laws
pub mod Write
use cs0330_fall2022_7_malloc.Base.{
  ℕ, ◌+◌, ◌-◌, ◌*◌, ◌/◌, ◌%◌, ◌^◌, Bool, true, false, ◌&&◌, ◌||◌, not, ◌==◌, if◌then◌else◌,
}
use cs0330_fall2022_7_malloc.Machine.{
  Cmd, pure, ◌>>=◌, ◌>>◌, require, load, store, add, sub, less, low_bit, clear_low, set_low, is_set,
}

-- mm.h
abbrev pub alignment : ℕ
alignment = 8

abbrev pub word_size : ℕ
word_size = 8

abbrev pub tags_size : ℕ
tags_size = 2 * word_size

abbrev pub min_block_size : ℕ
min_block_size = 4 * word_size

-- `&b->payload[i]`
abbrev pub payload : ℕ → ℕ → ℕ
payload b i = b + 8 + 8 * i

unfoldable pub block_allocated : ℕ → Cmd ℕ
block_allocated b = do size ← load b; pure (low_bit size)

unfoldable pub block_end_tag : ℕ → Cmd ℕ
block_end_tag b = do
  size ← load b
  require (not (less size (word_size * 2)))
  pure (payload b (size / 8 - 2))

unfoldable pub block_end_allocated : ℕ → Cmd ℕ
unfolding block_end_tag
block_end_allocated b = do tag ← block_end_tag b; size ← load tag; pure (low_bit size)

unfoldable pub block_set_size : ℕ → ℕ → Cmd (Unit {0})
unfolding block_allocated block_end_tag
block_set_size b size = do
  require (size % alignment == 0)
  allocated ← block_allocated b
  let size' = if allocated == 1 then set_low size else size
  store b size'
  tag ← block_end_tag b
  store tag size'

unfoldable pub block_size : ℕ → Cmd ℕ
block_size b = do size ← load b; pure (clear_low size)

unfoldable pub block_set_allocated : ℕ → ℕ → Cmd (Unit {0})
unfolding block_end_tag
block_set_allocated b allocated = do
  require (allocated == 0 || allocated == 1)
  size ← load b
  store b (if allocated == 0 then clear_low size else set_low size)
  tag ← block_end_tag b
  end ← load tag
  store tag (if allocated == 0 then clear_low end else set_low end)

unfoldable pub block_set_size_and_allocated : ℕ → ℕ → ℕ → Cmd (Unit {0})
unfolding block_set_size block_set_allocated
block_set_size_and_allocated b size allocated = do
  block_set_size b size
  block_set_allocated b allocated

unfoldable pub block_end_size : ℕ → Cmd ℕ
unfolding block_end_tag
block_end_size b = do tag ← block_end_tag b; size ← load tag; pure (clear_low size)

-- `b->payload[-2]` is the long just below the header.
unfoldable pub block_prev_size : ℕ → Cmd ℕ
block_prev_size b = do size ← load (sub b 8); pure (clear_low size)

unfoldable pub block_prev : ℕ → Cmd ℕ
unfolding block_prev_size
block_prev b = do size ← block_prev_size b; pure (sub b size)

unfoldable pub block_next : ℕ → Cmd ℕ
unfolding block_size
block_next b = do size ← block_size b; pure (add b size)

unfoldable pub payload_to_block : ℕ → ℕ
payload_to_block p = sub p 8

unfoldable pub block_next_allocated : ℕ → Cmd ℕ
unfolding block_next block_allocated
block_next_allocated b = do next ← block_next b; block_allocated next

unfoldable pub block_next_size : ℕ → Cmd ℕ
unfolding block_next block_size
block_next_size b = do next ← block_next b; block_size next

unfoldable pub block_prev_allocated : ℕ → Cmd ℕ
unfolding block_prev block_allocated
block_prev_allocated b = do prev ← block_prev b; block_allocated prev

-- `assert(!block_allocated(b))`
unfoldable pub require_free : ℕ → Cmd (Unit {0})
unfolding block_allocated
require_free b = do allocated ← block_allocated b; require (not (is_set allocated))

unfoldable pub block_blink : ℕ → Cmd ℕ
unfolding require_free
block_blink b = require_free b >> load (payload b 1)

unfoldable pub block_set_blink : ℕ → ℕ → Cmd (Unit {0})
unfolding require_free
block_set_blink b new_blink = do
  require_free b
  require_free new_blink
  store (payload b 1) new_blink

unfoldable pub block_flink : ℕ → Cmd ℕ
unfolding require_free
block_flink b = require_free b >> load (payload b 0)

unfoldable pub block_set_flink : ℕ → ℕ → Cmd (Unit {0})
unfolding require_free
block_set_flink b new_flink = do
  require_free b
  require_free new_flink
  store (payload b 0) new_flink
