-- ===== src/Driver/Valid.antt =====
-- `eval_mm_valid` of mdriver.c: a trace is run, and every result of the allocator is checked.
use cs0330_fall2022_7_malloc.Base.{
  ℕ, ◌%◌, not, ◌&&◌, ◌==◌, if◌then◌else◌, List, [], ◌∷◌, none, some,
}
use cs0330_fall2022_7_malloc.Machine.{Cmd, pure, ◌>>=◌, ◌>>◌, null, memset}
use cs0330_fall2022_7_malloc.Memlib.{to_int}
use cs0330_fall2022_7_malloc.Mm.{success, failure, mm_init, mm_malloc, mm_free}
use cs0330_fall2022_7_malloc.Mm.Realloc.{mm_realloc}
use cs0330_fall2022_7_malloc.Driver.{
  Range, Track, malloc_error, defined, get_elem?, set_elem?, reset_brk, add_range, remove_range,
  clear_ranges, to_long, less_int, rounds, holds_index,
}
use cs0330_fall2022_7_malloc.Driver.Trace.{TraceOp, Trace, alloc, free, realloc}

-- 1, or 0 after an error.
pub data Verdict : Type 0 where
  valid invalid : Track → Verdict

-- The payload is filled with the low byte of the index, and remembered.
unfoldable pub remember : Track → List Range → (p index size : ℕ) → Cmd Verdict
remember t ranges p index size = do
  memset p (index % 256) (to_long size)
  blocks ← defined (set_elem? t.blocks index p)
  block_sizes ← defined (set_elem? t.block_sizes index (to_long size))
  pure (valid (record t { ranges = ranges; blocks = blocks; block_sizes = block_sizes }))

unfoldable pub valid_alloc : Track → (index size : ℕ) → Cmd Verdict
valid_alloc t index size = do
  p ← mm_malloc (to_long size)
  if p == null && not (size == 0)
      then pure (invalid (malloc_error t))
      else if size == 0
      then pure (valid t)
      else do
        added ← add_range t.ranges p size
        elim added [
          | none ↦ pure (invalid (malloc_error t))
          | some ranges ↦ remember t ranges p index size
        ]

-- The new block is in the range list; its data are checked.
unfoldable pub valid_moved : Track → List Range → (newp index size : ℕ) → Cmd Verdict
valid_moved t ranges newp index size = do
  old ← defined (get_elem? t.block_sizes index)
  let oldsize = if less_int size (to_int old) then size else to_int old
  kept ← holds_index (rounds oldsize) newp index
  if kept
      then remember t ranges newp index size
      else pure (invalid (malloc_error (record t { ranges = ranges })))

unfoldable pub valid_realloc : Track → (index size : ℕ) → Cmd Verdict
valid_realloc t index size = do
  oldp ← defined (get_elem? t.blocks index)
  newp ← mm_realloc oldp (to_long size)
  if newp == null && not (size == 0)
      then pure (invalid (malloc_error t))
      else if size == 0
      then pure (valid t)
      else do
        let left = remove_range t.ranges oldp
        added ← add_range left newp size
        elim added [
          | none ↦ pure (invalid (malloc_error (record t { ranges = left })))
          | some ranges ↦ valid_moved t ranges newp index size
        ]

unfoldable pub valid_free : Track → (index : ℕ) → Cmd Verdict
valid_free t index = do
  p ← defined (get_elem? t.blocks index)
  mm_free p
  pure (valid (record t { ranges = remove_range t.ranges p }))

unfoldable pub valid_op : Track → TraceOp → Cmd Verdict
valid_op t op = elim op.type_of [
  | alloc ↦ valid_alloc t op.index op.size
  | realloc ↦ valid_realloc t op.index op.size
  | free ↦ valid_free t op.index
]

unfoldable pub valid_ops : List TraceOp → Track → Cmd Verdict
valid_ops [] t = pure (valid t)
valid_ops (op ∷ ops) t = do
  v ← valid_op t op
  elim v [ valid t' ↦ valid_ops ops t' | invalid t' ↦ pure (invalid t') ]

unfoldable pub eval_mm_valid : Trace → Track → Cmd Verdict
unfolding valid_ops
eval_mm_valid trace t = do
  reset_brk
  let t' : Track = record t { ranges = clear_ranges t.ranges }
  status ← mm_init
  elim status [ failure ↦ pure (invalid (malloc_error t')) | success ↦ valid_ops trace.ops t' ]
