-- ===== src/Repl/Heap.antt =====
-- `mm_print_heap_repl` and `print_cmd` of mdriver.c: the walk over the heap, and what it reports.
use cs0330_fall2022_7_malloc.Base.{
  ℕ, zero, suc, ◌*◌, Bool, not, ◌==◌, if◌then◌else◌, List, [], ◌∷◌, ◌++◌, Option, none, some, ltb,
}
use cs0330_fall2022_7_malloc.Machine.{Cmd, out_of_fuel, pure, ◌>>=◌, get, less, sub, add, is_set}
use cs0330_fall2022_7_malloc.Memlib.{mem_heap_lo, mem_heap_hi, mem_heapsize}
use cs0330_fall2022_7_malloc.Block.{
  tags_size, min_block_size, block_size, block_end_size, block_next, block_allocated, block_flink,
  block_blink,
}
use cs0330_fall2022_7_malloc.Driver.{defined, get_elem?}
use cs0330_fall2022_7_malloc.Repl.{Repl, ReplBlock, find_repl_block_from_block, bad_index}

-- A line of the output, and the complaints that may follow it.
pub data Printed : Type 0 where
  used_block : (label : Option ℕ) → (at size : ℕ) → Printed
  free_block : (at size next prev : ℕ) → Printed
  epilogue_block : (at size : ℕ) → Printed
  differing_tags too_small next_outside : (at : ℕ) → Printed

abbrev pub label_of : Option ReplBlock → Option ℕ
label_of none = none
label_of (some b) = some b.index

abbrev pub when : Bool → Printed → List Printed → List Printed
when c line rest = if c then (line ∷ rest) else rest

-- The state of one block.
unfoldable pub print_block : (b : ℕ) → List ReplBlock → Cmd Printed
print_block b blocks = do
  used ← block_allocated b
  size ← block_size b
  if is_set used
      then pure (used_block (label_of (find_repl_block_from_block b blocks)) b size)
      else do next ← block_flink b; prev ← block_blink b; pure (free_block b size next prev)

-- The loop from `b` to the epilogue. Pointers to blocks count in 8 bytes: `epilogue + MINBLOCKSIZE`.
unfoldable pub print_blocks : (fuel b epilogue : ℕ) → List ReplBlock → Cmd (List Printed)
print_blocks zero b epilogue blocks = λ _. out_of_fuel
print_blocks (suc fuel) b epilogue blocks = if b == epilogue then pure [] else do
  line ← print_block b blocks
  s1 ← block_size b
  s2 ← block_end_size b
  next ← block_next b
  rest ← print_blocks fuel next epilogue blocks
  pure (
      line
      ∷ when (not (s1 == s2)) (differing_tags b) (
          when (less s1 min_block_size) (too_small b)
            (when (ltb (add epilogue (8 * min_block_size)) next) (next_outside b) rest)))

unfoldable pub mm_print_heap_repl : List ReplBlock → Cmd (List Printed)
unfolding print_blocks
mm_print_heap_repl blocks = do
  s ← get
  b ← block_next (mem_heap_lo s)
  let epilogue = add (sub (mem_heap_hi s) tags_size) 1
  lines ← print_blocks (mem_heapsize s) b epilogue blocks
  size ← block_size epilogue
  pure (lines ++ (epilogue_block epilogue size ∷ []))

-- With an index, the block of that index; without one, the heap.
unfoldable pub print_cmd : Repl → (scanned : Option ℕ) → Cmd (List Printed)
print_cmd r none = mm_print_heap_repl r.blocks
print_cmd r (some index) = if bad_index r index then pure [] else do
  b ← defined (get_elem? r.blocks index)
  if not b.is_valid then pure [] else do
    used ← block_allocated (sub b.ptr 8)
    size ← block_size (sub b.ptr 8)
    pure (if is_set used then used_block (some index) (sub b.ptr 8) size ∷ [] else [])
