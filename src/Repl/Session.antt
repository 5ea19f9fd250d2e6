-- ===== src/Repl/Session.antt =====
-- A session of the interactive part of mdriver.c after its start: lines that allocate and free with
-- any index, and that reallocate an index in use.
pub mod Filled
pub mod Lines
pub mod Located
pub mod Moves
pub mod Safe
pub mod Slots
mod Tests
use cs0330_fall2022_7_malloc.Base.{
  ℕ, ◌+◌, ◌%◌, ◌^◌, ◌≤◌, ◌<◌, ◌≡◌, List, [], ◌∷◌, length, count, true, some,
}
use cs0330_fall2022_7_malloc.Machine.{State, ok}
use cs0330_fall2022_7_malloc.Driver.{get_elem?}
use cs0330_fall2022_7_malloc.Driver.Checked.{Entry, all_held, all_ranges, indices}
use cs0330_fall2022_7_malloc.Driver.Reset.{Ready}
use cs0330_fall2022_7_malloc.Mm.Client.{Backed}
use cs0330_fall2022_7_malloc.Repl.{
  ReplBlock, Repl, done, make_repl_state, reset_cmd, malloc_cmd, free_cmd, remalloc_cmd,
}

-- The numbers of a line are those that `sscanf` reads, as `int`s; sizes are not negative and below
-- 2 ^ 31 - 64. The low byte of a reallocated index is below 128.
pub data Session : State → Repl → Type 0 where
  begun :
      {s s' : State} {r : Repl} (num_blocks errors : ℕ)
      → Ready s
      → num_blocks < 2 ^ 31
      → reset_cmd (make_repl_state num_blocks errors) s ≡ ok (done r) s'
      → Session s' r
  malloc_line :
      {s s' : State} {r r' : Repl} (i size : ℕ)
      → Session s r
      → i < 2 ^ 32
      → size + 64 < 2 ^ 31
      → malloc_cmd r (some (i, size)) s ≡ ok (done r') s'
      → Session s' r'
  free_line :
      {s s' : State} {r r' : Repl} (i : ℕ)
      → Session s r
      → i < 2 ^ 32
      → free_cmd r (some i) s ≡ ok (done r') s'
      → Session s' r'
  remalloc_line :
      {s s' : State} {r r' : Repl} (i size : ℕ) (b : ReplBlock)
      → Session s r
      → i < 2 ^ 32
      → get_elem? r.blocks i ≡ some b
      → b.is_valid ≡ true
      → i % 256 < 128
      → 0 < size
      → size + 64 < 2 ^ 31
      → remalloc_cmd r (some (i, size)) s ≡ ok (done r') s'
      → Session s' r'

-- The entry of the table for a block in use.
abbrev pub Slot : List ReplBlock → Entry → Type 0
Slot blocks e =
    (b : ReplBlock) × (get_elem? blocks e.index ≡ some b)
    × (b.is_valid ≡ true)
    × (b.ptr ≡ e.addr)
    × (b.size ≡ e.size)
    × (0 < e.size)
    × (e.size + 64 < 2 ^ 31)

abbrev pub AllSlots : List ReplBlock → List Entry → Type 0
AllSlots blocks [] = Unit {0}
AllSlots blocks (e ∷ live) = Slot blocks e × AllSlots blocks live

-- Every entry of the table that is in use is in the list.
abbrev pub AllListed : List ReplBlock → List Entry → Type 0
AllListed blocks live =
    (i : ℕ) (b : ReplBlock)
    → get_elem? blocks i ≡ some b
    → b.is_valid ≡ true
    → 0 < count i (indices live)

-- The table, the range list and the heap agree on the blocks in use.
pub record Agrees (s : State) (r : Repl) (live : List Entry) : Type 0 where
  pub backed : Backed s (all_held live)
  pub same_ranges : r.ranges ≡ all_ranges live
  pub slots : AllSlots r.blocks live
  pub no_others : AllListed r.blocks live
  pub once : (j : ℕ) → count j (indices live) ≤ 1
  pub long : length r.blocks ≡ r.num_blocks
  pub few : r.num_blocks < 2 ^ 31
