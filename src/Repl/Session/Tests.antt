-- ===== src/Repl/Session/Tests.antt =====
-- The start of a session, and the theorem at it.
use cs0330_fall2022_7_malloc.Base.{◌+◌, ◌≡◌, refl, List, some, arith, ◌⊎◌}
use cs0330_fall2022_7_malloc.Machine.{
  State, Run, ok, fault, aborted, out_of_fuel, null, load, store, read, write,
}
use cs0330_fall2022_7_malloc.Memlib.{mem_sbrk, mem_reset_brk}
use cs0330_fall2022_7_malloc.Block.{
  block_allocated, block_end_tag, block_set_size, block_set_allocated, block_set_size_and_allocated,
}
use cs0330_fall2022_7_malloc.Driver.{clear_ranges}
use cs0330_fall2022_7_malloc.Driver.Checked.{Entry, all_held, all_ranges}
use cs0330_fall2022_7_malloc.Mm.{mm_init, mm_malloc}
use cs0330_fall2022_7_malloc.Mm.Client.Apart.{AllKept, AllDisjoint}
use cs0330_fall2022_7_malloc.Repl.{
  Repl, Reply, done, quit, make_repl_state, reset_cmd, malloc_cmd, free_cmd,
}
use cs0330_fall2022_7_malloc.Repl.Session.{Session, begun, AllSlots, AllListed}
use cs0330_fall2022_7_malloc.Repl.Session.Safe.{session_keeps}

abbrev blank : State
blank = record {
  mem = λ a. 205;
  mem_start_brk = 1000;
  mem_brk = 1000;
  mem_max_addr = 3000;
  flist_first = 0;
  prologue = 0;
  epilogue = 0;
}

abbrev after : Run Reply → State
after (ok (done r) s) = s
after (ok quit s) = blank
after fault = blank
after aborted = blank
after out_of_fuel = blank

abbrev table : Run Reply → Repl
table (ok (done r) s) = r
table (ok quit s) = make_repl_state 2 0
table fault = make_repl_state 2 0
table aborted = make_repl_state 2 0
table out_of_fuel = make_repl_state 2 0

abbrev IsDone : Run Reply → Type 0
IsDone (ok (done r) s) = Unit {0}
IsDone (ok quit s) = ⊥
IsDone fault = ⊥
IsDone aborted = ⊥
IsDone out_of_fuel = ⊥

IsDone-done : (run : Run Reply) → IsDone run → run ≡ ok (done (table run)) (after run)
IsDone-done (ok (done r) s) h = refl
IsDone-done (ok quit s) h = elim h [ ]
IsDone-done fault h = elim h [ ]
IsDone-done aborted h = elim h [ ]
IsDone-done out_of_fuel h = elim h [ ]

abbrev first_run : Run Reply
first_run = reset_cmd (make_repl_state 2 0) blank

first-IsDone : IsDone first_run
unfolding reset_cmd mem_reset_brk clear_ranges mm_init mem_sbrk block_set_size_and_allocated load
    store read write block_end_tag block_set_allocated block_set_size block_allocated
first-IsDone = tt

started : Session (after first_run) (table first_run)
started =
    begun 2 0 (record { low = omega arith; aligned = refl; room = omega arith; top = omega arith })
      (omega arith) (IsDone-done first_run first-IsDone)

session_keeps_example :
    ((live : List Entry) × ((table first_run).ranges ≡ all_ranges live)
      × AllSlots (table first_run).blocks live
      × AllKept (after first_run) (all_held live)
      × AllDisjoint (all_held live)
      × AllListed (table first_run).blocks live)
    × ((r' : Repl) × (s' : State) × (malloc_cmd (table first_run) (some (1, 50)) (after first_run)
          ≡ ok (done r') s')
        × ((r'.errors ≡ (table first_run).errors)
            ⊎ ((r'.errors ≡ (table first_run).errors + 1)
                × (mm_malloc 50 (after first_run) ≡ ok null (after first_run)))))
    × ((r' : Repl) × (s' : State) × (free_cmd (table first_run) (some 1) (after first_run)
          ≡ ok (done r') s')
        × (r'.errors ≡ (table first_run).errors))
session_keeps_example = session_keeps 1 50 started (omega arith) (omega arith)
