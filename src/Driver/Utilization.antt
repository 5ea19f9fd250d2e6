-- ===== src/Driver/Utilization.antt =====
-- `eval_mm_util` of mdriver.c: the highest total of requested bytes against the size of the heap.
use cs0330_fall2022_7_malloc.Base.{
  ℕ, ◌%◌, not, ◌&&◌, ◌==◌, if◌then◌else◌, List, [], ◌∷◌, none, some,
}
use cs0330_fall2022_7_malloc.Machine.{Cmd, pure, ◌>>=◌, ◌>>◌, get, null, memset}
use cs0330_fall2022_7_malloc.Memlib.{to_int, mem_heapsize}
use cs0330_fall2022_7_malloc.Mm.{success, failure, mm_init, mm_malloc, mm_free}
use cs0330_fall2022_7_malloc.Mm.Realloc.{mm_realloc}
use cs0330_fall2022_7_malloc.Driver.{
  Range, Track, malloc_error, defined, get_elem?, set_elem?, reset_brk, add_range, remove_range,
  clear_ranges, to_long, less_int, add_int, sub_int,
}
use cs0330_fall2022_7_malloc.Driver.Trace.{TraceOp, Trace, alloc, free, realloc}

-- The counts of requested bytes, as `int`s.
pub record Totals : Type 0 where
  pub total_size : ℕ
  pub max_total_size : ℕ

-- The loop goes on, or the function returns 0 after an error, or the program exits.
pub data UtilStep : Type 0 where
  counted : Track → Totals → UtilStep
  returned : Track → UtilStep
  exited : UtilStep

-- The quotient of two numbers as they stand, before they become `double`s.
pub data Utilization : Type 0 where
  ratio : (max_total_size heapsize : ℕ) → Utilization
  zero_util : Utilization
  no_util : Utilization

abbrev pub grow_totals : Totals → ℕ → Totals
grow_totals n more =
    let total = add_int n.total_size more in
    record {
      total_size = total;
      max_total_size = if less_int n.max_total_size total then total else n.max_total_size;
    }

-- The payload is filled, and the block is remembered.
unfoldable pub util_remember : Track → List Range → Totals → (p index size : ℕ) → Cmd UtilStep
util_remember t ranges n p index size = do
  memset p (index % 256) (to_long size)
  blocks ← defined (set_elem? t.blocks index p)
  block_sizes ← defined (set_elem? t.block_sizes index (to_long size))
  pure (counted (record t { ranges = ranges; blocks = blocks; block_sizes = block_sizes }) n)

unfoldable pub util_alloc : Track → Totals → (index size : ℕ) → Cmd UtilStep
util_alloc t n index size = do
  p ← mm_malloc (to_long size)
  if p == null && not (size == 0) then pure exited else if size == 0 then pure (counted t n) else do
    added ← add_range t.ranges p size
    elim added [
      | none ↦ pure (returned (malloc_error t))
      | some ranges ↦ util_remember t ranges (grow_totals n size) p index size
    ]

unfoldable pub util_realloc : Track → Totals → (index size : ℕ) → Cmd UtilStep
util_realloc t n index size = do
  old ← defined (get_elem? t.block_sizes index)
  oldp ← defined (get_elem? t.blocks index)
  newp ← mm_realloc oldp (to_long size)
  if newp == null && not (size == 0)
      then pure exited
      else if size == 0
      then pure (counted t n)
      else do
        let left = remove_range t.ranges oldp
        added ← add_range left newp size
        elim added [
          | none ↦ pure (returned (malloc_error (record t { ranges = left })))
          | some ranges ↦
              util_remember t ranges (grow_totals n (sub_int size (to_int old))) newp index size
        ]

unfoldable pub util_free : Track → Totals → (index : ℕ) → Cmd UtilStep
util_free t n index = do
  size ← defined (get_elem? t.block_sizes index)
  p ← defined (get_elem? t.blocks index)
  mm_free p
  pure (
      counted (record t { ranges = remove_range t.ranges p })
        (record n { total_size = sub_int n.total_size (to_int size) }))

unfoldable pub util_op : Track → Totals → TraceOp → Cmd UtilStep
util_op t n op = elim op.type_of [
  | alloc ↦ util_alloc t n op.index op.size
  | realloc ↦ util_realloc t n op.index op.size
  | free ↦ util_free t n op.index
]

unfoldable pub util_ops : List TraceOp → Track → Totals → Cmd Utilization
util_ops [] t n = do s ← get; pure (ratio n.max_total_size (mem_heapsize s))
util_ops (op ∷ ops) t n = do
  step ← util_op t n op
  elim step [
    | counted t' n' ↦ util_ops ops t' n'
    | returned t' ↦ pure zero_util
    | exited ↦ pure no_util
  ]

unfoldable pub eval_mm_util : Trace → Track → Cmd Utilization
unfolding util_ops
eval_mm_util trace t = do
  reset_brk
  status ← mm_init
  elim status [
    | failure ↦ pure no_util
    | success ↦
        util_ops trace.ops (record t { ranges = clear_ranges t.ranges })
          (record { total_size = 0; max_total_size = 0 })
  ]
