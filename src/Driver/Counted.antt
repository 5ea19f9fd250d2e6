-- ===== src/Driver/Counted.antt =====
-- The bytes that a trace has in use, without the allocator: what `eval_mm_util` of mdriver.c counts.
pub mod Requests
pub mod Run
pub mod Same
pub mod Steps
pub mod Sums
mod Tests
use cs0330_fall2022_7_malloc.Base.{ℕ, zero, suc, ◌+◌, ◌==◌, ltb, if◌then◌else◌, List, [], ◌∷◌}
use cs0330_fall2022_7_malloc.Driver.Trace.{OpType, alloc, free, realloc, TraceOp}

abbrev pub highest_of : ℕ → ℕ → ℕ
highest_of a b = if ltb a b then b else a

-- The size of an index after a request.
abbrev pub requested : OpType → ℕ → ℕ
requested alloc size = size
requested realloc size = size
requested free size = 0

abbrev pub set_size : (ℕ → ℕ) → (index size : ℕ) → ℕ → ℕ
set_size sizes index size j = if j == index then size else sizes j

abbrev pub after : TraceOp → (ℕ → ℕ) → ℕ → ℕ
after op sizes = set_size sizes op.index (requested op.type_of op.size)

-- The sizes of the indices below `ids`, together.
unfoldable pub total : (ids : ℕ) → (sizes : ℕ → ℕ) → ℕ
total zero sizes = 0
total (suc ids) sizes = sizes ids + total ids sizes

-- The largest total before, between and after the requests.
unfoldable pub peak : (ids : ℕ) → (sizes : ℕ → ℕ) → List TraceOp → ℕ
peak ids sizes [] = total ids sizes
peak ids sizes (op ∷ ops) = highest_of (total ids sizes) (peak ids (after op sizes) ops)

abbrev pub none_in_use : ℕ → ℕ
none_in_use j = 0
