-- ===== src/Driver/Libc.antt =====
-- `eval_libc_valid` and `eval_libc_speed` of mdriver.c. The allocator of the C library is a
-- parameter: its state, and its three functions.
use cs0330_fall2022_7_malloc.Base.{ℕ, ◌==◌, if◌then◌else◌, List, [], ◌∷◌, Option, none, some}
use cs0330_fall2022_7_malloc.Machine.{null}
use cs0330_fall2022_7_malloc.Driver.{get_elem?, set_elem?, to_long}
use cs0330_fall2022_7_malloc.Driver.Trace.{TraceOp, Trace, alloc, free, realloc}

pub record Libc (H : Type 0) : Type 0 where
  pub libc_malloc : ℕ → H → ℕ × H
  pub libc_realloc : ℕ → ℕ → H → ℕ × H
  pub libc_free : ℕ → H → H

-- The library's state and the blocks; `none` if the program exits, or an index is out of range.
abbrev pub LibcRun : Type 0 → Type 0
LibcRun H = Option (H × List ℕ)

module _ {H : Type 0} (libc : Libc H) where
  -- A pointer from the library: NULL ends the program.
  unfoldable pub libc_put : List ℕ → (index : ℕ) → ℕ × H → LibcRun H
  libc_put blocks index (p, h) =
      if p == null
      then none
      else elim (set_elem? blocks index p) [ none ↦ none | some blocks' ↦ some (h, blocks') ]

  unfoldable pub libc_op : TraceOp → H → List ℕ → LibcRun H
  libc_op op h blocks = elim op.type_of [
    | alloc ↦ libc_put blocks op.index (libc.libc_malloc (to_long op.size) h)
    | realloc ↦ elim (get_elem? blocks op.index) [
      | none ↦ none
      | some oldp ↦ libc_put blocks op.index (libc.libc_realloc oldp (to_long op.size) h)
    ]
    | free ↦ elim (get_elem? blocks op.index) [
      | none ↦ none
      | some p ↦ some (libc.libc_free p h, blocks)
    ]
  ]

  unfoldable pub libc_ops : List TraceOp → H → List ℕ → LibcRun H
  libc_ops [] h blocks = some (h, blocks)
  libc_ops (op ∷ ops) h blocks = elim (libc_op op h blocks) [
    | none ↦ none
    | some (h', blocks') ↦ libc_ops ops h' blocks'
  ]

  -- 1, and the state that the library is left in.
  unfoldable pub eval_libc_valid : Trace → H → List ℕ → Option (ℕ × H × List ℕ)
  unfolding libc_ops
  eval_libc_valid trace h blocks = elim (libc_ops trace.ops h blocks) [
    | none ↦ none
    | some (h', blocks') ↦ some (1, h', blocks')
  ]

  unfoldable pub eval_libc_speed : Trace → H → List ℕ → LibcRun H
  unfolding libc_ops
  eval_libc_speed trace h blocks = libc_ops trace.ops h blocks
