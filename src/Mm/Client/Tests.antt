-- ===== src/Mm/Client/Tests.antt =====
-- A small run of a program that uses mm.c, and the theorems on what it can rely on.
use cs0330_fall2022_7_malloc.Base.{ℕ, ◌+◌, ◌≡◌, ◌≢◌, refl, [], ◌∷◌, arith, ◌⊎◌, if◌then◌else◌, ◌==◌}
use cs0330_fall2022_7_malloc.Machine.{
  State, Run, ok, fault, aborted, out_of_fuel, null, set_byte, load, store, read, write,
}
use cs0330_fall2022_7_malloc.Memlib.{mem_sbrk, mem_heapsize}
use cs0330_fall2022_7_malloc.Block.{
  block_next, block_allocated, block_end_tag, block_set_size, block_size, block_set_allocated,
  block_set_size_and_allocated,
}
use cs0330_fall2022_7_malloc.Mm.{
  mm_init, mm_malloc, mm_free, align, request_size, extend_heap, search_free, success,
}
use cs0330_fall2022_7_malloc.Mm.Client.{Held, Reaches, began, allocated, wrote}
use cs0330_fall2022_7_malloc.Mm.Client.Apart.{AllKept, AllDisjoint}
use cs0330_fall2022_7_malloc.Mm.Client.Safe.{program_keeps, program_proceeds}
use cs0330_fall2022_7_malloc.Mm.Init.{Empty}
use cs0330_fall2022_7_malloc.Mm.Realloc.{mm_realloc}

abbrev blank : State
blank = record {
  mem = λ a. 205;
  mem_start_brk = 1000;
  mem_brk = 1000;
  mem_max_addr = 3000;
  flist_first = 0;
  prologue = 0;
  epilogue = 0;
}

blank-Empty : Empty blank
blank-Empty = record {
  empty = refl;
  low = omega arith;
  aligned = refl;
  ordered = omega arith;
  top = omega arith;
}

abbrev Returns : {A : Type 0} → Run A → A → Type 0
Returns (ok a s) b = a ≡ b
Returns fault b = ⊥
Returns aborted b = ⊥
Returns out_of_fuel b = ⊥

abbrev after : {A : Type 0} → Run A → State
after (ok a s) = s
after fault = blank
after aborted = blank
after out_of_fuel = blank

Returns-ok : {A : Type 0} (r : Run A) (b : A) → Returns r b → r ≡ ok b (after r)
Returns-ok (ok a s) b e = cc
Returns-ok fault b e = elim e [ ]
Returns-ok aborted b e = elim e [ ]
Returns-ok out_of_fuel b e = elim e [ ]

abbrev started : State
started = after (mm_init blank)

abbrev first_given : State
first_given = after (mm_malloc 40 started)

abbrev first_written : State
first_written = record first_given { mem = set_byte first_given.mem (1024 + 3) 77 }

init-Returns : Returns (mm_init blank) success
unfolding mm_init mem_sbrk block_set_size_and_allocated load store read write block_end_tag
    block_set_allocated block_set_size block_allocated
init-Returns = refl

malloc-Returns : Returns (mm_malloc 40 started) 1024
unfolding mm_init mem_sbrk block_set_size_and_allocated load store read write mm_malloc mem_heapsize
    extend_heap request_size block_next block_end_tag block_set_allocated block_set_size
    block_allocated block_size align search_free
malloc-Returns = refl

abbrev piece : Held
piece = record { addr = 1024; size = 40; bytes = λ i. first_given.mem (1024 + i) }

abbrev written : Held
written = record piece { bytes = λ j. if j == 3 then 77 else piece.bytes j }

-- The program allocates 40 bytes and writes the fourth one.
small_run : Reaches first_written (written ∷ [])
small_run =
    wrote [] piece [] 3 77
      (allocated 40 (began blank-Empty (Returns-ok (mm_init blank) success init-Returns))
        (omega arith) (omega arith) (Returns-ok (mm_malloc 40 started) 1024 malloc-Returns)
        (omega arith))
      (omega arith)

program_keeps_example : AllKept first_written (written ∷ []) × AllDisjoint (written ∷ [])
program_keeps_example = program_keeps small_run

program_proceeds_example :
    (((ptr : ℕ) × (s' : State) × (mm_malloc 100 first_written ≡ ok ptr s') × (ptr ≢ null))
      ⊎ (mm_malloc 100 first_written ≡ ok null first_written))
    × ((s' : State) × (mm_free 1024 first_written ≡ ok tt s'))
    × (((ptr : ℕ) × (s' : State) × (mm_realloc 1024 100 first_written ≡ ok ptr s') × (ptr ≢ null))
        ⊎ (mm_realloc 1024 100 first_written ≡ ok null first_written))
program_proceeds_example = program_proceeds [] written [] 100 small_run (omega arith) (omega arith)
