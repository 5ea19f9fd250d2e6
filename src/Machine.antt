-- ===== src/Machine.antt =====
-- The machine that mm.c runs on: 64-bit longs as bit patterns, a byte-addressed memory, the
-- process state, and commands over it. `fault` is an access outside the heap or an array, `aborted` a
-- failed assert or an exit.
pub mod Bytes
pub mod Words
use cs0330_fall2022_7_malloc.Base.{
  ℕ, zero, suc, ◌+◌, ◌-◌, ◌*◌, ◌/◌, ◌%◌, ◌^◌, Bool, true, false, List, [], ◌∷◌, ltb, leb, ◌&&◌, not,
  ◌==◌, if◌then◌else◌,
}

-- `long`: a two's-complement pattern below 2 ^ 64, with the sums that wrap and the signed order.
abbrev pub wrap : ℕ → ℕ
wrap x = x % 2 ^ 64

abbrev pub add : ℕ → ℕ → ℕ
add a b = wrap (a + b)

abbrev pub sub : ℕ → ℕ → ℕ
sub a b = wrap (a + 2 ^ 64 - b)

abbrev pub less : ℕ → ℕ → Bool
less a b = ltb (wrap (a + 2 ^ 63)) (wrap (b + 2 ^ 63))

-- `w & 1`, `w & -2`, `w | 1`
abbrev pub low_bit : ℕ → ℕ
low_bit w = w % 2

abbrev pub clear_low : ℕ → ℕ
clear_low w = w - w % 2

abbrev pub set_low : ℕ → ℕ
set_low w = w - w % 2 + 1

abbrev pub bit : Bool → ℕ
bit true = 1
bit false = 0

abbrev pub is_set : ℕ → Bool
is_set b = not (b == 0)

abbrev pub null : ℕ
null = 0

-- `(void *)-1`
abbrev pub failed_ptr : ℕ
failed_ptr = 2 ^ 64 - 1

-- A byte at each address.
abbrev pub Mem : Type 0
Mem = ℕ → ℕ

abbrev pub set_byte : Mem → ℕ → ℕ → Mem
set_byte m p v a = if a == p then v else m a

-- `n` bytes at `p`, the lowest first, as one number.
unfoldable pub read : ℕ → Mem → ℕ → ℕ
read zero m p = 0
read (suc n) m p = m p + 256 * read n m (p + 1)

unfoldable pub write : ℕ → Mem → ℕ → ℕ → Mem
write zero m p v = m
write (suc n) m p v = write n (set_byte m p (v % 256)) (p + 1) (v / 256)

-- A `long` in memory.
abbrev pub read_long : Mem → ℕ → ℕ
read_long m p = read 8 m p

abbrev pub write_long : Mem → ℕ → ℕ → Mem
write_long m p v = write 8 m p v

-- `mem_start_brk`, `mem_brk` and `mem_max_addr` of memlib.c; the globals of mm.c and mminline.h.
pub record State : Type 0 where
  pub mem : Mem
  pub mem_start_brk : ℕ
  pub mem_brk : ℕ
  pub mem_max_addr : ℕ
  pub flist_first : ℕ
  pub prologue : ℕ
  pub epilogue : ℕ

pub data Run (A : Type 0) : Type 0 where
  ok : A → State → Run A
  fault : Run A
  aborted : Run A
  out_of_fuel : Run A

abbrev pub Cmd : Type 0 → Type 0
Cmd A = State → Run A

abbrev pub pure : {A : Type 0} → A → Cmd A
pure a s = ok a s

module _ {A B : Type 0} where
  abbrev pub proceed : Run A → (A → Cmd B) → Run B
  proceed (ok a s) k = k a s
  proceed fault k = fault
  proceed aborted k = aborted
  proceed out_of_fuel k = out_of_fuel

  infixl 5 ◌>>=◌ ◌>>◌
  abbrev pub ◌>>=◌ : Cmd A → (A → Cmd B) → Cmd B
  m >>= k = λ s. proceed (m s) k

  abbrev pub ◌>>◌ : Cmd A → Cmd B → Cmd B
  m >> n = λ s. proceed (m s) (λ _. n)

abbrev pub get : Cmd State
get s = ok s s

-- `assert`
abbrev pub require : Bool → Cmd (Unit {0})
require b s = if b then ok tt s else aborted

-- The `n` bytes at `p` lie between `mem_heap_lo` and `mem_heap_hi`.
abbrev pub in_heap : State → ℕ → ℕ → Bool
in_heap s p n = leb s.mem_start_brk p && leb (p + n) s.mem_brk

unfoldable pub load : ℕ → Cmd ℕ
load p s = if in_heap s p 8 then ok (read_long s.mem p) s else fault

unfoldable pub store : ℕ → ℕ → Cmd (Unit {0})
store p v s = if in_heap s p 8 then ok tt (record s { mem = write_long s.mem p v }) else fault

abbrev pub set_first : ℕ → Cmd (Unit {0})
set_first p s = ok tt (record s { flist_first = p })

abbrev pub set_prologue : ℕ → Cmd (Unit {0})
set_prologue p s = ok tt (record s { prologue = p })

abbrev pub set_epilogue : ℕ → Cmd (Unit {0})
set_epilogue p s = ok tt (record s { epilogue = p })

-- `memmove` reads all its bytes before it writes, and `memset` writes one byte value.
unfoldable pub copied : Mem → ℕ → ℕ → ℕ → Mem
copied m dest src n a = if leb dest a && ltb a (dest + n) then m (src + (a - dest)) else m a

unfoldable pub memmove : ℕ → ℕ → ℕ → Cmd (Unit {0})
memmove dest src n s =
    if in_heap s dest n && in_heap s src n
    then ok tt (record s { mem = copied s.mem dest src n })
    else fault

unfoldable pub filled : Mem → ℕ → ℕ → ℕ → Mem
filled m dest v n a = if leb dest a && ltb a (dest + n) then v % 256 else m a

unfoldable pub memset : ℕ → ℕ → ℕ → Cmd (Unit {0})
memset dest v n s =
    if in_heap s dest n then ok tt (record s { mem = filled s.mem dest v n }) else fault
