-- ===== src/Repl/Table.antt =====
-- `cmd_table` and the loop of `driver` in mdriver.c, with the lines as they are scanned.
use cs0330_fall2022_7_malloc.Base.{
  ℕ, Bool, true, false, if◌then◌else◌, List, [], ◌∷◌, Option, none, some,
}
use cs0330_fall2022_7_malloc.Machine.{Cmd, ok, pure, ◌>>=◌}
use cs0330_fall2022_7_malloc.Memlib.{mem_init}
use cs0330_fall2022_7_malloc.Repl.{
  Repl, Reply, done, quit, make_repl_state, reset_cmd, quit_cmd, malloc_cmd, free_cmd, remalloc_cmd,
}
use cs0330_fall2022_7_malloc.Repl.Heap.{print_cmd}

-- The first word of a line.
pub data Word : Type 0 where
  help h m malloc r realloc f free p print quit_word q reset other : Word

-- `!strcmp(a, b)`
unfoldable pub same_word : Word → Word → Bool
same_word help help = true
same_word h h = true
same_word m m = true
same_word malloc malloc = true
same_word r r = true
same_word realloc realloc = true
same_word f f = true
same_word free free = true
same_word p p = true
same_word print print = true
same_word quit_word quit_word = true
same_word q q = true
same_word reset reset = true
same_word _ _ = false

pub data Handler : Type 0 where
  help_handler malloc_handler remalloc_handler free_handler print_handler quit_handler
        reset_handler :
      Handler

abbrev pub cmd_table : List (Word × Handler)
cmd_table =
    (help, help_handler)
    ∷ (h, help_handler)
    ∷ (m, malloc_handler)
    ∷ (malloc, malloc_handler)
    ∷ (r, remalloc_handler)
    ∷ (realloc, remalloc_handler)
    ∷ (f, free_handler)
    ∷ (free, free_handler)
    ∷ (p, print_handler)
    ∷ (print, print_handler)
    ∷ (quit_word, quit_handler)
    ∷ (q, quit_handler)
    ∷ (reset, reset_handler)
    ∷ (r, reset_handler)
    ∷ []

unfoldable pub find_handler : Word → List (Word × Handler) → Option Handler
find_handler w [] = none
find_handler w ((c, handler) ∷ table) =
    let rest = find_handler w table in if same_word w c then some handler else rest

-- A line: its first word, and what the handlers scan in it.
pub record Input : Type 0 where
  pub word : Word
  pub two_numbers : Option (ℕ × ℕ)
  pub one_number : Option ℕ
  pub print_number : Option ℕ

unfoldable pub handle : Handler → Repl → Input → Cmd Reply
handle help_handler state input = pure (done state)
handle malloc_handler state input = malloc_cmd state input.two_numbers
handle remalloc_handler state input = remalloc_cmd state input.two_numbers
handle free_handler state input = free_cmd state input.one_number
handle print_handler state input = do _ ← print_cmd state input.print_number; pure (done state)
handle quit_handler state input = quit_cmd state
handle reset_handler state input = reset_cmd state

-- The loop over the lines; `none` for a line with no word.
unfoldable pub repl_loop : List (Option Input) → Repl → Cmd Reply
unfolding find_handler
repl_loop [] state = pure (done state)
repl_loop (none ∷ lines) state = repl_loop lines state
repl_loop (some input ∷ lines) state = elim (find_handler input.word cmd_table) [
  | none ↦ repl_loop lines state
  | some handler ↦ (do
    reply ← handle handler state input
    elim reply [ done state' ↦ repl_loop lines state' | quit ↦ pure quit ])
]

unfoldable pub driver : (base errors : ℕ) → List (Option Input) → Cmd Reply
unfolding repl_loop
driver base errors lines s = elim (mem_init base s) [
  | none ↦ ok quit s
  | some s' ↦
      (do
        reply ← reset_cmd (make_repl_state 1024 errors)
        elim reply [ done state ↦ repl_loop lines state | quit ↦ pure quit ])
        s'
]
