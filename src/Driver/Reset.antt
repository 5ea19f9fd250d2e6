-- ===== src/Driver/Reset.antt =====
-- What the driver and its interactive part start from: `mem_reset_brk` and `mm_init` in a state that
-- earlier runs left behind.
use cs0330_fall2022_7_malloc.Base.{◌+◌, ◌%◌, ◌^◌, ◌≤◌, ◌<◌, ◌≡◌, refl, [], arith, inl, inr}
use cs0330_fall2022_7_malloc.Machine.{State, ok}
use cs0330_fall2022_7_malloc.Memlib.{mem_reset_brk}
use cs0330_fall2022_7_malloc.Driver.{Track, clear_ranges}
use cs0330_fall2022_7_malloc.Driver.Trace.{Trace}
use cs0330_fall2022_7_malloc.Driver.Valid.{eval_mm_valid, valid_ops}
use cs0330_fall2022_7_malloc.Mm.{mm_init, success}
use cs0330_fall2022_7_malloc.Mm.Init.{bare, Empty, mm_init_lem}
use cs0330_fall2022_7_malloc.Mm.Inv.{Inv}
use cs0330_fall2022_7_malloc.Repl.{Repl, done, reset_cmd}

-- The limits of the heap, as `mem_init` sets them, with room for two blocks of 16 bytes.
pub record Ready (s : State) : Type 0 where
  pub low : 0 < s.mem_start_brk
  pub aligned : s.mem_start_brk % 8 ≡ 0
  pub room : s.mem_start_brk + 32 ≤ s.mem_max_addr
  pub top : s.mem_max_addr < 2 ^ 63

module _ (s : State) (ready : Ready s) where
  emptied : Empty (mem_reset_brk s)
  unfolding mem_reset_brk
  emptied = record {
    empty = refl;
    low = ready.low;
    aligned = ready.aligned;
    ordered = omega (arith, ready.room);
    top = ready.top;
  }

  pub fresh :
      (s' : State) × (mm_init (mem_reset_brk s) ≡ ok success s')
      × Inv s' bare
      × (s'.mem_start_brk ≡ s.mem_start_brk)
      × (s'.mem_max_addr ≡ s.mem_max_addr)
  unfolding mem_reset_brk
  fresh = elim (mm_init_lem (mem_reset_brk s) emptied) [
    | inl good ↦ good
    | inr bad ↦ absurd (omega (arith, bad.2, ready.room))
  ]

  -- Whatever the heap holds, `reset_cmd` succeeds if the heap has room for prologue and epilogue: it
  -- leaves an empty range list, the next trace number, no requests, and a heap that satisfies the
  -- invariant with no block but these two.
  pub reset_cmd_lem :
      (r : Repl)
      → (s' : State) × (reset_cmd r s
          ≡ ok (done (record r { ranges = []; tracenum = r.tracenum + 1; num_ops = 0 })) s')
        × Inv s' bare
        × (s'.mem_max_addr ≡ s.mem_max_addr)
  unfolding reset_cmd clear_ranges mem_reset_brk
  reset_cmd_lem r = let (s', run, inv, start, limit) = fresh in (s', rw run refl, inv, limit)

  -- Whatever the heap holds, `eval_mm_valid` runs the requests of the trace from an empty range list
  -- and a heap that satisfies the invariant with no block but prologue and epilogue.
  pub eval_mm_valid_start :
      (trace : Trace) (t : Track)
      → (s' : State) × (eval_mm_valid trace t s ≡ valid_ops trace.ops (record t { ranges = [] }) s')
        × Inv s' bare
        × (s'.mem_max_addr ≡ s.mem_max_addr)
  unfolding eval_mm_valid clear_ranges mem_reset_brk
  eval_mm_valid_start trace t =
      let (s', run, inv, start, limit) = fresh in (s', rw run refl, inv, limit)
