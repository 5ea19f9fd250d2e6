-- ===== src/Repl/Tests.antt =====
-- The theorems on the interactive part at small inputs.
use cs0330_fall2022_7_malloc.Base.{◌≡◌, refl, true, false, List, [], ◌∷◌, some}
use cs0330_fall2022_7_malloc.Repl.{ReplBlock, find_repl_block_from_block}
use cs0330_fall2022_7_malloc.Repl.Find.{FoundLive, find_repl_block_lem, reset_needs_word}
use cs0330_fall2022_7_malloc.Mm.Sample.{sample, sample_blocks, sample-Inv}
use cs0330_fall2022_7_malloc.Repl.Listing.{PrintsAll, mm_print_heap_lem}
use cs0330_fall2022_7_malloc.Repl.Table.{reset, reset_handler, find_handler, cmd_table, same_word}

-- A block that was freed, and the one that took its place.
abbrev table : List ReplBlock
table =
    record { is_valid = false; ptr = 1024; size = 16; index = 0 }
    ∷ (record { is_valid = true; ptr = 1024; size = 24; index = 1 } ∷ [])

find_repl_block_example : FoundLive 1016 (find_repl_block_from_block 1016 table)
find_repl_block_example = find_repl_block_lem 1016 table refl

reset_found : find_handler reset cmd_table ≡ some reset_handler
unfolding find_handler same_word
reset_found = refl

reset_needs_word_example : reset ≡ reset
reset_needs_word_example = reset_needs_word reset reset_found

mm_print_heap_example : PrintsAll sample sample_blocks table
mm_print_heap_example = mm_print_heap_lem sample sample_blocks table sample-Inv
