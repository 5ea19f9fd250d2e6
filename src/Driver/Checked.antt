-- ===== src/Driver/Checked.antt =====
-- What `eval_mm_valid` of mdriver.c keeps track of, where a trace uses its blocks as it may.
pub mod Arrays
pub mod Listed
pub mod Moves
pub mod Requests
pub mod Run
pub mod Sample
mod Tests
use cs0330_fall2022_7_malloc.Base.{
  ℕ, suc, ◌+◌, ◌-◌, ◌%◌, ◌^◌, ◌≤◌, ◌<◌, ◌≡◌, List, [], ◌∷◌, ◌++◌, length, count, some,
}
use cs0330_fall2022_7_malloc.Machine.{State}
use cs0330_fall2022_7_malloc.Driver.{Range, Track, get_elem?}
use cs0330_fall2022_7_malloc.Driver.Trace.{OpType, alloc, free, realloc, TraceOp}
use cs0330_fall2022_7_malloc.Mm.Client.{Held, Backed}

-- A trace that allocates an index only while it is not in use, and frees and reallocates an index
-- only while it is in use; `used` are those in use at its start. Indices are below `ids`, the sizes of
-- allocations and reallocations are positive and below 2 ^ 31 - 64, and the low byte of a reallocated index is below 128.
pub data WellUsed (ids : ℕ) : (used : List ℕ) → List TraceOp → Type 0 where
  no_more : {used : List ℕ} → WellUsed ids used []
  allocates :
      {used : List ℕ} {ops : List TraceOp} (i size : ℕ)
      → i < ids
      → count i used ≡ 0
      → 0 < size
      → size + 64 < 2 ^ 31
      → WellUsed ids (i ∷ used) ops
      → WellUsed ids used (record { type_of = alloc; index = i; size = size } ∷ ops)
  reallocates :
      {ops : List TraceOp} (xs : List ℕ) (i : ℕ) (ys : List ℕ) (size : ℕ)
      → i < ids
      → i % 256 < 128
      → 0 < size
      → size + 64 < 2 ^ 31
      → WellUsed ids (i ∷ (xs ++ ys)) ops
      → WellUsed ids (xs ++ (i ∷ ys)) (record { type_of = realloc; index = i; size = size } ∷ ops)
  frees :
      {ops : List TraceOp} (xs : List ℕ) (i : ℕ) (ys : List ℕ) (size : ℕ)
      → WellUsed ids (xs ++ ys) ops
      → WellUsed ids (xs ++ (i ∷ ys)) (record { type_of = free; index = i; size = size } ∷ ops)

-- A block of the trace that is in use.
pub record Entry : Type 0 where
  pub index : ℕ
  pub addr : ℕ
  pub size : ℕ

-- It is filled with the low byte of its index.
abbrev pub held_of : Entry → Held
held_of e = record { addr = e.addr; size = e.size; bytes = λ i. e.index % 256 }

abbrev pub all_held : List Entry → List Held
all_held [] = []
all_held (e ∷ live) = held_of e ∷ all_held live

abbrev pub range_of : Entry → Range
range_of e = record { lo = e.addr; hi = e.addr + e.size - 1 }

abbrev pub all_ranges : List Entry → List Range
all_ranges [] = []
all_ranges (e ∷ live) = range_of e ∷ all_ranges live

abbrev pub indices : List Entry → List ℕ
indices [] = []
indices (e ∷ live) = e.index ∷ indices live

abbrev pub AllPositive : List Entry → Type 0
AllPositive [] = Unit {0}
AllPositive (e ∷ live) = (0 < e.size) × AllPositive live

-- Both arrays of the trace know the block.
abbrev pub Filed : Track → Entry → Type 0
Filed t e =
    (get_elem? t.blocks e.index ≡ some e.addr)
    × (get_elem? t.block_sizes e.index ≡ some e.size)
    × (0 < e.size)
    × (e.size + 64 < 2 ^ 31)

abbrev pub AllFiled : Track → List Entry → Type 0
AllFiled t [] = Unit {0}
AllFiled t (e ∷ live) = Filed t e × AllFiled t live

pub record Tracks (ids : ℕ) (s : State) (t : Track) (live : List Entry) : Type 0 where
  pub backed : Backed s (all_held live)
  pub same_ranges : t.ranges ≡ all_ranges live
  pub filed : AllFiled t live
  pub once : (j : ℕ) → count j (indices live) ≤ 1
  pub blocks_long : length t.blocks ≡ ids
  pub sizes_long : length t.block_sizes ≡ ids
