-- ===== src/Driver/Trace.antt =====
-- Traces of mdriver.c: their requests, and how a file is read. What `fscanf` makes of the
-- characters is an argument.
use cs0330_fall2022_7_malloc.Base.{
  ℕ, zero, suc, ◌&&◌, ◌==◌, ltb, if◌then◌else◌, List, [], ◌∷◌, length, Option, none, some,
}
use cs0330_fall2022_7_malloc.Driver.{sub_int}

pub data OpType : Type 0 where
  alloc free realloc : OpType

-- `traceop_t`
pub record TraceOp : Type 0 where
  pub type_of : OpType
  pub index : ℕ
  pub size : ℕ

-- `trace_t`, less its name and the two fields that nothing uses
pub record Trace : Type 0 where
  pub num_ids : ℕ
  pub num_ops : ℕ
  pub ops : List TraceOp

-- A line of a trace file after its four numbers, as it is scanned.
pub data Line : Type 0 where
  a_line r_line : (index size : ℕ) → Line
  f_line : (index : ℕ) → Line
  other_line : Line

-- `max_index = (index > max_index) ? index : max_index`
abbrev pub larger : ℕ → ℕ → ℕ
larger index max_index = if ltb max_index index then index else max_index

-- The requests and the largest index of an allocation; `none` if the program exits, or if there
-- are more lines than `room`. The size of a free request is not set: it is `unset`.
unfoldable pub read_ops : (unset room : ℕ) → (max_index : ℕ) → List Line → Option (List TraceOp × ℕ)
read_ops unset room max_index [] = some ([], max_index)
read_ops unset zero max_index (l ∷ lines) = none
read_ops unset (suc room) max_index (other_line ∷ lines) = none
read_ops unset (suc room) max_index (a_line index size ∷ lines) =
    elim (read_ops unset room (larger index max_index) lines) [
      | none ↦ none
      | some (ops, last) ↦ some (record { type_of = alloc; index = index; size = size } ∷ ops, last)
    ]
read_ops unset (suc room) max_index (r_line index size ∷ lines) =
    elim (read_ops unset room (larger index max_index) lines) [
      | none ↦ none
      | some (ops, last) ↦
          some (record { type_of = realloc; index = index; size = size } ∷ ops, last)
    ]
read_ops unset (suc room) max_index (f_line index ∷ lines) =
    elim (read_ops unset room max_index lines) [
      | none ↦ none
      | some (ops, last) ↦ some (record { type_of = free; index = index; size = unset } ∷ ops, last)
    ]

-- The header gives the number of ids and of requests, and two asserts check them.
unfoldable pub read_trace : (unset num_ids num_ops : ℕ) → List Line → Option Trace
read_trace unset num_ids num_ops lines = elim (read_ops unset num_ops 0 lines) [
  | none ↦ none
  | some (ops, last) ↦
      if last == sub_int num_ids 1 && length ops == num_ops
      then some (record { num_ids = num_ids; num_ops = num_ops; ops = ops })
      else none
]
