-- ===== src/Memlib.antt =====
-- memlib.c: the simulated break of the heap. `malloc`, `errno` and the messages of the library
-- are outside the model; the address that `malloc` returns is an argument.
use cs0330_fall2022_7_malloc.Base.{
  ℕ, ◌+◌, ◌-◌, ◌*◌, ◌%◌, ◌^◌, Option, none, some, ltb, leb, ◌||◌, ◌==◌, if◌then◌else◌,
}
use cs0330_fall2022_7_malloc.Machine.{State, Cmd, ok, null, failed_ptr}

-- `MAX_HEAP` of config.h
abbrev pub max_heap : ℕ
max_heap = 20 * 2 ^ 20

-- The break as an `int`: the low 32 bits of a `long`.
abbrev pub to_int : ℕ → ℕ
to_int w = w % 2 ^ 32

-- `base` is what `malloc(MAX_HEAP)` returns; at NULL the program exits.
unfoldable pub mem_init : (base : ℕ) → State → Option State
mem_init base s =
    if base == null
    then none
    else some (record s { mem_start_brk = base; mem_max_addr = base + max_heap; mem_brk = base })

unfoldable pub mem_reset_brk : State → State
mem_reset_brk s = record s { mem_brk = s.mem_start_brk }

-- The argument is the pattern of an `int`, negative from 2 ^ 31 on.
unfoldable pub mem_sbrk : ℕ → Cmd ℕ
mem_sbrk incr s =
    if leb (2 ^ 31) incr || ltb s.mem_max_addr (s.mem_brk + incr)
    then ok failed_ptr s
    else ok s.mem_brk (record s { mem_brk = s.mem_brk + incr })

unfoldable pub mem_heap_lo : State → ℕ
mem_heap_lo s = s.mem_start_brk

unfoldable pub mem_heap_hi : State → ℕ
mem_heap_hi s = s.mem_brk - 1

unfoldable pub mem_heapsize : State → ℕ
mem_heapsize s = s.mem_brk - s.mem_start_brk
