-- ===== src/Repl/Find.antt =====
-- The search of `find_repl_block_from_block`, and the dispatch of commands, in mdriver.c.
use cs0330_fall2022_7_malloc.Base.{
  ℕ, ◌≡◌, refl, Bool, true, false, ◌&&◌, ◌||◌, ◌==◌, if◌then◌else◌, List, [], ◌∷◌, Option, none,
  some, arith,
}
use cs0330_fall2022_7_malloc.Machine.{sub}
use cs0330_fall2022_7_malloc.Repl.{ReplBlock, find_from, find_repl_block_from_block}
use cs0330_fall2022_7_malloc.Repl.Table.{
  Word, help, h, m, malloc, r, realloc, f, free, p, print, quit_word, q, reset, other,
  reset_handler, find_handler, cmd_table, same_word,
}

-- The entry is for the block at `at` and in use.
abbrev pub is_live : (at : ℕ) → ReplBlock → Bool
is_live at b = sub b.ptr 8 == at && b.is_valid

abbrev pub any_live : (at : ℕ) → List ReplBlock → Bool
any_live at [] = false
any_live at (b ∷ blocks) = is_live at b || any_live at blocks

-- An entry was found, and it is in use.
abbrev pub FoundLive : (at : ℕ) → Option ReplBlock → Type 0
FoundLive at none = ⊥
FoundLive at (some b) = is_live at b ≡ true

find_from-live :
    (at : ℕ) (blocks : List ReplBlock) (tentative : Option ReplBlock)
    → any_live at blocks ≡ true
    → FoundLive at (find_from tentative at blocks)
unfolding find_from
find_from-live at [] tentative e = absurd (ground arith)
find_from-live at (b ∷ blocks) tentative e =
    tests (sub b.ptr 8 == at) b.is_valid refl refl (find_from-live at blocks (some b))
      (find_from-live at blocks tentative)
  where
    tests :
        (c v : Bool)
        → (sub b.ptr 8 == at) ≡ c
        → b.is_valid ≡ v
        → (any_live at blocks ≡ true → FoundLive at (find_from (some b) at blocks))
        → (any_live at blocks ≡ true → FoundLive at (find_from tentative at blocks))
        → FoundLive at (
            if c
            then (if v then some b else find_from (some b) at blocks)
            else find_from tentative at blocks)
    tests true true ec ev later same = ground (arith, ec, ev)
    tests true false ec ev later same = later (ground (arith, e, ec, ev))
    tests false v ec ev later same = same (ground (arith, e, ec))

-- If some entry of the table is in use and stands for the block, the search finds such an entry,
-- also where an entry that is not in use any more stands for the same block.
pub find_repl_block_lem :
    (at : ℕ) (blocks : List ReplBlock)
    → any_live at blocks ≡ true
    → FoundLive at (find_repl_block_from_block at blocks)
unfolding find_repl_block_from_block
find_repl_block_lem at blocks e = find_from-live at blocks none e

-- The handler that resets the heap is found under `reset` only: the entry for `r` with that handler
-- stands behind the one for `r` that reallocates, and is never reached.
pub reset_needs_word : (w : Word) → find_handler w cmd_table ≡ some reset_handler → w ≡ reset
unfolding find_handler same_word
reset_needs_word help e = cc
reset_needs_word h e = cc
reset_needs_word m e = cc
reset_needs_word malloc e = cc
reset_needs_word r e = cc
reset_needs_word realloc e = cc
reset_needs_word f e = cc
reset_needs_word free e = cc
reset_needs_word p e = cc
reset_needs_word print e = cc
reset_needs_word quit_word e = cc
reset_needs_word q e = cc
reset_needs_word reset e = refl
reset_needs_word other e = cc
