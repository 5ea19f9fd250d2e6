-- ===== src/Driver/Tests.antt =====
-- The theorems on the driver at small inputs.
use cs0330_fall2022_7_malloc.Base.{
  ◌+◌, ◌-◌, ◌%◌, ◌≤◌, ◌≡◌, refl, List, [], ◌∷◌, none, some, arith, ◌⊎◌, inl, inr, false,
}
use cs0330_fall2022_7_malloc.Machine.{State, ok}
use cs0330_fall2022_7_malloc.Memlib.{mem_heap_lo, mem_heap_hi}
use cs0330_fall2022_7_malloc.Driver.{Range, add_range, remove_range, holds_index}
use cs0330_fall2022_7_malloc.Driver.Bounds.{WellRead, read_trace_lem}
use cs0330_fall2022_7_malloc.Driver.Data.{all_bytes, holds_index-low, holds_index-high}
use cs0330_fall2022_7_malloc.Driver.Reset.{Ready, reset_cmd_lem}
use cs0330_fall2022_7_malloc.Mm.Init.{bare}
use cs0330_fall2022_7_malloc.Mm.Inv.{Inv}
use cs0330_fall2022_7_malloc.Repl.{done, make_repl_state, reset_cmd}
use cs0330_fall2022_7_malloc.Driver.Ranges.{AllApart, Unfit, add_range_lem, add_range_misses}
use cs0330_fall2022_7_malloc.Driver.Removal.{Removes, remove_range_lem}
use cs0330_fall2022_7_malloc.Driver.Trace.{Line, a_line, f_line, read_trace}

abbrev heap : State
heap = record {
  mem = λ a. 7;
  mem_start_brk = 1000;
  mem_brk = 2000;
  mem_max_addr = 3000;
  flist_first = 0;
  prologue = 0;
  epilogue = 0;
}

abbrev held : Range
held = record { lo = 1104; hi = 1119 }

add_range_example :
    ((add_range (held ∷ []) 1024 40 heap ≡ ok none heap)
      × Unfit heap 1024 (1024 + 40 - 1) (held ∷ []))
    ⊎ ((after : List Range) × (add_range (held ∷ []) 1024 40 heap ≡ ok (some after) heap)
        × (1024 % 8 ≡ 0)
        × (mem_heap_lo heap ≤ 1024)
        × (1024 + 40 - 1 ≤ mem_heap_hi heap)
        × AllApart after
        × (remove_range after 1024 ≡ held ∷ []))
add_range_example =
    add_range_lem heap 1024 40 (omega arith) (omega arith) (omega arith) (held ∷ []) (tt, tt)
      (inr (omega arith), tt)

add_range_misses_example :
    add_range (held ∷ []) 1096 40 heap
    ≡ ok (some (record { lo = 1096; hi = 1096 + 40 - 1 } ∷ (held ∷ []))) heap
unfolding mem_heap_lo mem_heap_hi
add_range_misses_example =
    add_range_misses heap 1096 40 (omega arith) (omega arith) (omega arith) held refl (omega arith)
      (omega arith) (omega arith) (omega arith)

remove_range_example : Removes (held ∷ (record { lo = 1200; hi = 1207 } ∷ [])) 1104
remove_range_example =
    remove_range_lem (held ∷ (record { lo = 1200; hi = 1207 } ∷ [])) 1104
      (omega arith, (omega arith, tt)) ((inl (omega arith), tt), (tt, tt))

holds_index_low_example :
    holds_index 16 1104 263 heap ≡ ok (all_bytes heap 16 1104 (263 % 256)) heap
holds_index_low_example = holds_index-low heap 16 1104 263 (omega arith) (omega arith) (omega arith)

holds_index_high_example : holds_index 16 1104 200 heap ≡ ok false heap
holds_index_high_example =
    holds_index-high heap 15 1104 200 (omega arith) (omega arith) (omega arith)

abbrev lines : List Line
lines = a_line 0 24 ∷ (a_line 1 100 ∷ (f_line 0 ∷ []))

read_trace_example : WellRead 2 3 (read_trace 0 2 3 lines)
read_trace_example = read_trace_lem 0 2 3 lines (omega arith) (omega arith)

heap-Ready : Ready heap
heap-Ready = record { low = omega arith; aligned = refl; room = omega arith; top = omega arith }

reset_cmd_example :
    (s' : State) × (reset_cmd (make_repl_state 2 0) heap
      ≡ ok
          (done (record (make_repl_state 2 0) {
            ranges = [];
            tracenum = (make_repl_state 2 0).tracenum + 1;
            num_ops = 0;
          }))
          s')
    × Inv s' bare
    × (s'.mem_max_addr ≡ 3000)
reset_cmd_example = reset_cmd_lem heap heap-Ready (make_repl_state 2 0)
