-- ===== src/Driver/Checked/Sample.antt =====
-- A small trace that uses its indices as it may, and a state that an earlier run left behind.
use cs0330_fall2022_7_malloc.Base.{refl, [], ◌∷◌, arith}
use cs0330_fall2022_7_malloc.Machine.{State}
use cs0330_fall2022_7_malloc.Driver.{Track}
use cs0330_fall2022_7_malloc.Driver.Checked.{WellUsed, no_more, allocates, reallocates, frees}
use cs0330_fall2022_7_malloc.Driver.Reset.{Ready}
use cs0330_fall2022_7_malloc.Driver.Trace.{alloc, free, realloc, Trace}

abbrev pub used_before : State
used_before = record {
  mem = λ a. 205;
  mem_start_brk = 1000;
  mem_brk = 1832;
  mem_max_addr = 3000;
  flist_first = 1400;
  prologue = 1000;
  epilogue = 1816;
}

abbrev pub a_trace : Trace
a_trace = record {
  num_ids = 2;
  num_ops = 4;
  ops =
      record { type_of = alloc; index = 0; size = 24 }
      ∷ (record { type_of = alloc; index = 1; size = 100 }
          ∷ (record { type_of = realloc; index = 0; size = 60 }
              ∷ (record { type_of = free; index = 1; size = 0 } ∷ [])));
}

pub a_trace-WellUsed : WellUsed 2 [] a_trace.ops
a_trace-WellUsed = allocates 0 24 (omega arith) refl (omega arith) (omega arith) (
    allocates 1 100 (omega arith) refl (omega arith) (omega arith) (
      reallocates (1 ∷ []) 0 [] 60 (omega arith) (omega arith) (omega arith) (omega arith)
        (frees (0 ∷ []) 1 [] 0 no_more)))

abbrev pub fresh_track : Track
fresh_track = record { ranges = []; blocks = 0 ∷ (0 ∷ []); block_sizes = 0 ∷ (0 ∷ []); errors = 0 }

pub used_before-Ready : Ready used_before
used_before-Ready = record {
  low = omega arith;
  aligned = refl;
  room = omega arith;
  top = omega arith;
}
