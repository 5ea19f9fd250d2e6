-- ===== src/Driver/Speed.antt =====
-- `eval_mm_speed` of mdriver.c: a trace is run without checks, to be timed.
use cs0330_fall2022_7_malloc.Base.{ℕ, ◌%◌, ◌==◌, if◌then◌else◌, List, [], ◌∷◌, Option, none, some}
use cs0330_fall2022_7_malloc.Machine.{Cmd, pure, ◌>>=◌, ◌>>◌, null, memset}
use cs0330_fall2022_7_malloc.Mm.{success, failure, mm_init, mm_malloc, mm_free}
use cs0330_fall2022_7_malloc.Mm.Realloc.{mm_realloc}
use cs0330_fall2022_7_malloc.Driver.{defined, get_elem?, set_elem?, reset_brk, to_long}
use cs0330_fall2022_7_malloc.Driver.Trace.{TraceOp, Trace, alloc, free, realloc}

-- The blocks of the trace, or `none` when `app_error` ends the program.
abbrev pub Timed : Type 0
Timed = Option (List ℕ)

unfoldable pub speed_fill : List ℕ → (p index size : ℕ) → Cmd Timed
speed_fill blocks p index size = if p == null then pure none else do
  memset p (index % 256) (to_long size)
  blocks' ← defined (set_elem? blocks index p)
  pure (some blocks')

unfoldable pub speed_op : List ℕ → TraceOp → Cmd Timed
speed_op blocks op = elim op.type_of [
  | alloc ↦ (do p ← mm_malloc (to_long op.size); speed_fill blocks p op.index op.size)
  | realloc ↦ (do
    oldp ← defined (get_elem? blocks op.index)
    newp ← mm_realloc oldp (to_long op.size)
    speed_fill blocks newp op.index op.size)
  | free ↦ (do block ← defined (get_elem? blocks op.index); mm_free block; pure (some blocks))
]

unfoldable pub speed_ops : List TraceOp → List ℕ → Cmd Timed
speed_ops [] blocks = pure (some blocks)
speed_ops (op ∷ ops) blocks = do
  step ← speed_op blocks op
  elim step [ none ↦ pure none | some blocks' ↦ speed_ops ops blocks' ]

unfoldable pub eval_mm_speed : Trace → List ℕ → Cmd Timed
unfolding speed_ops
eval_mm_speed trace blocks = do
  reset_brk
  status ← mm_init
  elim status [ failure ↦ pure none | success ↦ speed_ops trace.ops blocks ]
