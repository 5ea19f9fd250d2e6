-- ===== src/Repl.antt =====
-- The interactive part of mdriver.c. What `sscanf` reads from a line is an argument, `none` where
-- it does not match; what is printed is modelled only where it decides what happens.
pub mod Find
pub mod Heap
pub mod Listing
pub mod Session
pub mod Table
mod Tests
use cs0330_fall2022_7_malloc.Base.{
  ℕ, zero, suc, ◌+◌, ◌-◌, ◌*◌, ◌%◌, ◌^◌, Bool, true, false, not, ◌&&◌, ◌==◌, if◌then◌else◌, List,
  [], ◌∷◌, Option, none, some,
}
use cs0330_fall2022_7_malloc.Machine.{State, Cmd, pure, ◌>>=◌, ◌>>◌, null, memset, sub}
use cs0330_fall2022_7_malloc.Memlib.{to_int}
use cs0330_fall2022_7_malloc.Mm.{Status, success, failure, mm_init, mm_malloc, mm_free}
use cs0330_fall2022_7_malloc.Mm.Realloc.{mm_realloc}
use cs0330_fall2022_7_malloc.Driver.{
  Range, defined, get_elem?, set_elem?, reset_brk, add_range, remove_range, clear_ranges, to_long,
  less_int, rounds, holds_index,
}

-- `repl_block_t`
pub record ReplBlock : Type 0 where
  pub is_valid : Bool
  pub ptr : ℕ
  pub size : ℕ
  pub index : ℕ

-- `repl_t`, less the three fields that nothing sets or reads; `errors` is the global.
pub record Repl : Type 0 where
  pub ranges : List Range
  pub tracenum : ℕ
  pub num_ops : ℕ
  pub num_blocks : ℕ
  pub blocks : List ReplBlock
  pub errors : ℕ

-- The blocks from index `i` on.
unfoldable pub fresh_blocks : (n i : ℕ) → List ReplBlock
fresh_blocks zero i = []
fresh_blocks (suc n) i =
    record { is_valid = false; ptr = null; size = 0; index = i } ∷ fresh_blocks n (i + 1)

unfoldable pub make_repl_state : (num_blocks errors : ℕ) → Repl
make_repl_state num_blocks errors = record {
  ranges = [];
  tracenum = 0;
  num_ops = 0;
  num_blocks = num_blocks;
  blocks = fresh_blocks num_blocks 0;
  errors = errors;
}

-- The loop with `tentative`, over `blocks[i]` and those after it.
unfoldable pub find_from : Option ReplBlock → (block_ptr : ℕ) → List ReplBlock → Option ReplBlock
find_from tentative block_ptr [] = tentative
find_from tentative block_ptr (b ∷ blocks) =
    let later = find_from (some b) block_ptr blocks in
    let same = find_from tentative block_ptr blocks in
    if sub b.ptr 8 == block_ptr then (if b.is_valid then some b else later) else same

unfoldable pub find_repl_block_from_block : (block_ptr : ℕ) → List ReplBlock → Option ReplBlock
find_repl_block_from_block block_ptr blocks = find_from none block_ptr blocks

-- The command is done, or the program exits.
pub data Reply : Type 0 where
  done : Repl → Reply
  quit : Reply

abbrev pub repl_error : Repl → Repl
repl_error r = record r { errors = r.errors + 1 }

unfoldable pub reset_cmd : Repl → Cmd Reply
reset_cmd r = do
  reset_brk
  status ← mm_init
  elim status [
    | failure ↦ pure quit
    | success ↦
        pure (
          done
            (record r { ranges = clear_ranges r.ranges; tracenum = r.tracenum + 1; num_ops = 0 }))
  ]

unfoldable pub quit_cmd : Repl → Cmd Reply
quit_cmd r = do reset_brk; pure quit

-- `(index < 0) || (index >= num_blocks)` for an `int`
abbrev pub bad_index : Repl → ℕ → Bool
bad_index r index = not (not (less_int index 0) && less_int index r.num_blocks)

-- The new payload is filled, and remembered.
unfoldable pub malloc_filled : Repl → ReplBlock → List Range → (p index size : ℕ) → Cmd Reply
malloc_filled r b ranges p index size = do
  memset p (index % 256) (to_long size)
  blocks ←
      defined
        (set_elem? r.blocks index (record b { is_valid = true; ptr = p; size = to_long size }))
  pure (done (record r { ranges = ranges; blocks = blocks }))

unfoldable pub malloc_cmd : Repl → (scanned : Option (ℕ × ℕ)) → Cmd Reply
malloc_cmd r none = pure (done r)
malloc_cmd r (some (index, size)) = if bad_index r index then pure (done r) else do
  b ← defined (get_elem? r.blocks index)
  if b.is_valid then pure (done r) else do
    let r' : Repl = record r { num_ops = r.num_ops + 1 }
    p ← mm_malloc (to_long size)
    if p == null && not (size == 0)
        then pure (done (repl_error r'))
        else if size == 0
        then pure (done r')
        else do
          added ← add_range r'.ranges p size
          elim added [
            | none ↦ pure (done (repl_error r'))
            | some ranges ↦ malloc_filled r' b ranges p index size
          ]

unfoldable pub free_cmd : Repl → (scanned : Option ℕ) → Cmd Reply
free_cmd r none = pure (done r)
free_cmd r (some index) = if bad_index r index then pure (done r) else do
  b ← defined (get_elem? r.blocks index)
  if not b.is_valid then pure (done r) else do
    mm_free b.ptr
    blocks ← defined (set_elem? r.blocks index (record b { is_valid = false }))
    pure (
        done (record r {
          ranges = remove_range r.ranges b.ptr;
          num_ops = r.num_ops + 1;
          blocks = blocks;
        }))

-- The new block is in the range list; its data are checked.
unfoldable pub remalloc_moved : Repl → ReplBlock → (newp index size : ℕ) → Cmd Reply
remalloc_moved r b newp index size = do
  let oldsize = if less_int size (to_int b.size) then size else to_int b.size
  kept ← holds_index (rounds oldsize) newp index
  if not kept then pure (done (repl_error r)) else do
    memset newp (index % 256) (to_long size)
    blocks ← defined (set_elem? r.blocks index (record b { ptr = newp; size = to_long size }))
    pure (done (record r { blocks = blocks }))

unfoldable pub remalloc_cmd : Repl → (scanned : Option (ℕ × ℕ)) → Cmd Reply
remalloc_cmd r none = pure (done r)
remalloc_cmd r (some (index, size)) = if bad_index r index then pure (done r) else do
  b ← defined (get_elem? r.blocks index)
  newp ← mm_realloc b.ptr (to_long size)
  if newp == null && not (size == 0)
      then pure (done (repl_error r))
      else if size == 0
      then pure (done r)
      else do
        let left : Repl = record r { ranges = remove_range r.ranges b.ptr }
        added ← add_range left.ranges newp size
        elim added [
          | none ↦ pure (done (repl_error left))
          | some ranges ↦ remalloc_moved (record left { ranges = ranges }) b newp index size
        ]
