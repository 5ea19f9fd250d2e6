-- ===== src/Driver/Bounds.antt =====
-- What the two asserts at the end of `read_trace` of mdriver.c ensure.
use cs0330_fall2022_7_malloc.Base.{
  ℕ, zero, suc, ◌^◌, ◌≤◌, ◌<◌, ◌≡◌, refl, subst, Bool, true, false, ◌&&◌, ◌==◌, if◌then◌else◌, List,
  [], ◌∷◌, length, Option, none, some, arith,
}
use cs0330_fall2022_7_malloc.Driver.{sub_int}
use cs0330_fall2022_7_malloc.Driver.Trace.{
  OpType, alloc, free, realloc, TraceOp, Trace, Line, a_line, r_line, f_line, other_line, larger,
  read_ops, read_trace,
}

-- The index of every request that allocates is at most `top`.
abbrev pub Indexed : (top : ℕ) → OpType → ℕ → Type 0
Indexed top alloc i = i ≤ top
Indexed top realloc i = i ≤ top
Indexed top free i = Unit {0}

abbrev pub AllIndexed : (top : ℕ) → List TraceOp → Type 0
AllIndexed top [] = Unit {0}
AllIndexed top (op ∷ ops) = Indexed top op.type_of op.index × AllIndexed top ops

-- The maximum only grows, and it is at least every index that was counted.
abbrev Reads : (max_index : ℕ) → Option (List TraceOp × ℕ) → Type 0
Reads max_index none = Unit {0}
Reads max_index (some (ops, last)) = (max_index ≤ last) × AllIndexed last ops

larger-le : (i m last : ℕ) → larger i m ≤ last → (i ≤ last) × (m ≤ last)
larger-le i m last h = ground arith

read_ops-Reads :
    (unset room : ℕ) (lines : List Line) (max_index : ℕ)
    → Reads max_index (read_ops unset room max_index lines)
unfolding read_ops
read_ops-Reads unset room [] max_index = (omega arith, tt)
read_ops-Reads unset zero (l ∷ lines) max_index = tt
read_ops-Reads unset (suc room) (other_line ∷ lines) max_index = tt
read_ops-Reads unset (suc room) (a_line i n ∷ lines) max_index =
    next (read_ops unset room (larger i max_index) lines)
      (read_ops-Reads unset room lines (larger i max_index))
  where
    next :
        (r : Option (List TraceOp × ℕ))
        → Reads (larger i max_index) r
        → Reads max_index (elim r [
          | none ↦ none
          | some (ops, last) ↦ some (record { type_of = alloc; index = i; size = n } ∷ ops, last)
        ])
    next none h = tt
    next (some (ops, last)) h = let (up, max) = larger-le i max_index last h.0 in (max, (up, h.1))
read_ops-Reads unset (suc room) (r_line i n ∷ lines) max_index =
    next (read_ops unset room (larger i max_index) lines)
      (read_ops-Reads unset room lines (larger i max_index))
  where
    next :
        (r : Option (List TraceOp × ℕ))
        → Reads (larger i max_index) r
        → Reads max_index (elim r [
          | none ↦ none
          | some (ops, last) ↦ some (record { type_of = realloc; index = i; size = n } ∷ ops, last)
        ])
    next none h = tt
    next (some (ops, last)) h = let (up, max) = larger-le i max_index last h.0 in (max, (up, h.1))
read_ops-Reads unset (suc room) (f_line i ∷ lines) max_index =
    next (read_ops unset room max_index lines) (read_ops-Reads unset room lines max_index)
  where
    next :
        (r : Option (List TraceOp × ℕ))
        → Reads max_index r
        → Reads max_index (elim r [
          | none ↦ none
          | some (ops, last) ↦ some (record { type_of = free; index = i; size = unset } ∷ ops, last)
        ])
    next none h = tt
    next (some (ops, last)) h = (h.0, (tt, h.1))

-- What is known of a trace that was read.
abbrev pub WellRead : (num_ids num_ops : ℕ) → Option Trace → Type 0
WellRead num_ids num_ops none = Unit {0}
WellRead num_ids num_ops (some trace) =
    (length trace.ops ≡ num_ops) × AllIndexed (sub_int num_ids 1) trace.ops

-- If a trace is read whose header gives a positive number of ids below 2 ^ 32, it has as many requests as its header says, and every index of an `a` or `r`
-- request is below the number of ids that the header gives.
pub read_trace_lem :
    (unset num_ids num_ops : ℕ) (lines : List Line)
    → 0 < num_ids
    → num_ids < 2 ^ 32
    → WellRead num_ids num_ops (read_trace unset num_ids num_ops lines)
unfolding read_trace
read_trace_lem unset num_ids num_ops lines pos small =
    checked (read_ops unset num_ops 0 lines) (read_ops-Reads unset num_ops lines 0)
  where
    asserted :
        (ops : List TraceOp) (last : ℕ) (c : Bool)
        → (last == sub_int num_ids 1 && length ops == num_ops) ≡ c
        → AllIndexed last ops
        → WellRead num_ids num_ops
            (if c then some (record { num_ids = num_ids; num_ops = num_ops; ops = ops }) else none)
    asserted ops last false e h = tt
    asserted ops last true e h =
        let same : last ≡ sub_int num_ids 1 = ground (arith, e) in
        (ground (arith, e), subst (λ t. AllIndexed t ops) same h)

    checked :
        (r : Option (List TraceOp × ℕ))
        → Reads 0 r
        → WellRead num_ids num_ops (elim r [
          | none ↦ none
          | some (ops, last) ↦
              if last == sub_int num_ids 1 && length ops == num_ops
              then some (record { num_ids = num_ids; num_ops = num_ops; ops = ops })
              else none
        ])
    checked none h = tt
    checked (some (ops, last)) h =
        asserted ops last (last == sub_int num_ids 1 && length ops == num_ops) refl h.1
