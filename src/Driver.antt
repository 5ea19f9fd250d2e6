-- ===== src/Driver.antt =====
-- mdriver.c: the program that runs the allocator on traces and checks it. Messages are not
-- modelled; `errors`, which counts them, is. `exit` and a failed `assert` end a run.
pub mod Bounds
pub mod Checked
pub mod Counted
pub mod Data
pub mod Libc
pub mod Ranges
pub mod Removal
pub mod Reset
pub mod Speed
pub mod Trace
pub mod Utilization
mod Tests
pub mod Valid
use cs0330_fall2022_7_malloc.Base.{
  ℕ, zero, suc, ◌+◌, ◌-◌, ◌*◌, ◌%◌, ◌^◌, Bool, true, false, not, ◌&&◌, ◌||◌, ◌==◌, leb, ltb,
  if◌then◌else◌, List, [], ◌∷◌, Option, none, some,
}
use cs0330_fall2022_7_malloc.Machine.{
  State, Cmd, ok, fault, pure, ◌>>=◌, ◌>>◌, get, require, in_heap, add, sub, less,
}
use cs0330_fall2022_7_malloc.Memlib.{mem_heap_lo, mem_heap_hi, mem_reset_brk}

-- `int` values are patterns below 2 ^ 32; the sign is extended where one becomes a `long`.
abbrev pub to_long : ℕ → ℕ
to_long w = if ltb w (2 ^ 31) then w else w + (2 ^ 64 - 2 ^ 32)

abbrev pub add_int : ℕ → ℕ → ℕ
add_int a b = (a + b) % 2 ^ 32

abbrev pub sub_int : ℕ → ℕ → ℕ
sub_int a b = (a + 2 ^ 32 - b) % 2 ^ 32

abbrev pub less_int : ℕ → ℕ → Bool
less_int a b = less (to_long a) (to_long b)

-- An element of an array, and a write to one; out of range the behaviour is undefined.
abbrev pub get_elem? : {A : Type 0} → List A → ℕ → Option A
get_elem? [] i = none
get_elem? (x ∷ xs) zero = some x
get_elem? (x ∷ xs) (suc i) = get_elem? xs i

abbrev pub set_elem? : {A : Type 0} → List A → ℕ → A → Option (List A)
set_elem? [] i a = none
set_elem? (x ∷ xs) zero a = some (a ∷ xs)
set_elem? (x ∷ xs) (suc i) a = elim (set_elem? xs i a) [ none ↦ none | some ys ↦ some (x ∷ ys) ]

abbrev pub defined : {A : Type 0} → Option A → Cmd A
defined none s = fault
defined (some a) s = ok a s

abbrev pub reset_brk : Cmd (Unit {0})
reset_brk s = ok tt (mem_reset_brk s)

-- `range_t`: the first and the last byte of a payload.
pub record Range : Type 0 where
  pub lo : ℕ
  pub hi : ℕ

abbrev pub overlaps : (lo hi : ℕ) → Range → Bool
overlaps lo hi p = (leb p.lo lo && leb lo p.hi) || (leb p.lo hi && leb hi p.hi)

abbrev pub overlaps_any : (lo hi : ℕ) → List Range → Bool
overlaps_any lo hi [] = false
overlaps_any lo hi (p ∷ ranges) = overlaps lo hi p || overlaps_any lo hi ranges

abbrev pub in_extent : State → ℕ → Bool
in_extent s a = leb (mem_heap_lo s) a && leb a (mem_heap_hi s)

-- `none` where the code reports an error and returns 0.
unfoldable pub add_range : List Range → (lo size : ℕ) → Cmd (Option (List Range))
add_range ranges lo size = if size == 0 then pure (some ranges) else do
  require (less_int 0 size)
  s ← get
  let hi = sub (add lo (to_long size)) 1
  pure (
      if not (lo % 8 == 0)
      then none
      else if not (in_extent s lo && in_extent s hi)
      then none
      else if overlaps_any lo hi ranges
      then none
      else some (record { lo = lo; hi = hi } ∷ ranges))

unfoldable pub remove_range : List Range → (lo : ℕ) → List Range
remove_range [] lo = []
remove_range (p ∷ ranges) lo =
    let rest = remove_range ranges lo in if p.lo == lo then ranges else (p ∷ rest)

unfoldable pub clear_ranges : List Range → List Range
clear_ranges ranges = []

-- What a run keeps: the range list, and the two arrays of the trace.
pub record Track : Type 0 where
  pub ranges : List Range
  pub blocks : List ℕ
  pub block_sizes : List ℕ
  pub errors : ℕ

-- `malloc_error`
abbrev pub malloc_error : Track → Track
malloc_error t = record t { errors = t.errors + 1 }

-- A `char` of the heap; it is signed, so a byte from 128 on is not equal to its value as an `int`.
abbrev pub load_char : ℕ → Cmd ℕ
load_char p s = if in_heap s p 1 then ok (s.mem p) s else fault

abbrev pub char_is : (byte index : ℕ) → Bool
char_is byte index = ltb byte 128 && byte == index % 256

-- The loop that compares the first `n` bytes at `p` with the low byte of the index.
unfoldable pub holds_index : (n p index : ℕ) → Cmd Bool
holds_index zero p index = pure true
holds_index (suc n) p index = do
  b ← load_char p
  if char_is b index then holds_index n (p + 1) index else pure false

-- Rounds of `for (j = 0; j < n; j++)`
abbrev pub rounds : ℕ → ℕ
rounds n = if less_int 0 n then n else 0
