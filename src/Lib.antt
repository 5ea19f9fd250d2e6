-- ===== src/Lib.antt =====
-- A model of a malloc implementation and of the driver that checks it.
--
-- The allocator (mm.c, with its accessors in mminline.h) keeps a heap of blocks with a size and a
-- flag in a tag at both ends, and a circular list of the free blocks whose links lie in the blocks
-- themselves. The heap is an array that memlib.c manages with a simulated break. The driver
-- (mdriver.c) runs the allocator on traces, keeps a list of the payloads that it was given, and has
-- an interactive part.
--
-- The files:
--   Base             names of the libraries, Boolean tests and list lemmas that all files share
--   Machine          64-bit longs, bytes in memory, the process state, commands over it
--   Block            the accessors of mminline.h; Block/Laws and Block/Write for what they do at a
--                    block of the heap
--   FreeList         insert_free_block and pull_free_block of mminline.h; FreeList/Ring for the
--                    rings that they keep, FreeList/Splice and FreeList/Unlink for their writes
--   Memlib           mem_init, mem_sbrk and the other functions of memlib.c
--   Layout           what the bytes of a heap stand for: a list of blocks, its free blocks, its
--                    payloads, and the order that the blocks may have
--   Mm               align, coalescing, mm_init, mm_malloc and mm_free of mm.c; mm_realloc is in
--                    Mm/Realloc; Mm/Inv has the invariant between two calls
--   Mm/Abstract      the heap as a client sees it, payloads with their bytes and nothing of tags
--                    and links; Mm/Touch for a client's writes to a payload
--   Mm/Client        a program that calls the allocator and writes to what it was given, as a step
--                    relation
--   Driver           the range list of mdriver.c; Driver/Trace reads traces, and Driver/Valid,
--                    Driver/Utilization, Driver/Speed and Driver/Libc run them; Driver/Checked
--                    takes eval_mm_valid together with the allocator, and Driver/Counted takes
--                    eval_mm_util, with the bytes that a trace has in use
--   Repl             the interactive part of mdriver.c: its state and handlers, the printing of the
--                    heap (Repl/Heap), and the command table with the loop (Repl/Table);
--                    Repl/Session has the lines of a session as a step relation
--   AccessorTests    the tests of mminline-tests.c, their lists and the choice of one by its name
--   Fcyc             the samples of fcyc.c, the least of them and the test for convergence
--   Clock            the counter arithmetic of clock.c
--
-- A function of the code is a definition of the same name. Where a function is long, the body of a
-- loop or a branch has a definition of its own, which its comment names. A function that reads or
-- writes the heap is a command: it takes the state and ends with a result and a state, or with
-- `fault`, at an access outside the heap or an array, or with `aborted`, at a failed assert. Memory is
-- a byte at each address; a long is eight bytes, the lowest first. A long and an int are patterns that wrap, and they are
-- compared as signed numbers. Pointers are addresses, which are compared as unsigned numbers.
--
-- The search of mm_malloc runs on fuel, one round for each byte of the heap. Blocks have 16 bytes or
-- more and the search meets each free block once, so that is enough. The walk of
-- mm_print_heap_repl has the same fuel. The loop of fcyc that takes samples has maxsamples as fuel,
-- since it stops at that many samples at the latest.
--
-- Outside the model: the C library and the hardware. What malloc returns to mem_init and to the
-- accessor tests, what scanf reads, the allocator of the C library in the eval_libc functions, the
-- readings of the cycle counter and the arithmetic of the processor on doubles are arguments. Output and messages are left out, so are option
-- parsing, scores and other floating point, the clearing of the cache and the clock rate, and the
-- interval timers (ftimer.c, fsecs.c).
pub mod AccessorTests
pub mod Base
pub mod Machine
pub mod Block
pub mod Fcyc
pub mod FreeList
pub mod Memlib
pub mod Mm
pub mod Clock
pub mod Driver
pub mod Repl
pub mod Layout
