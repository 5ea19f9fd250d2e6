-- ===== src/Mm/Client.antt =====
-- A program that uses mm.c: it allocates, frees and reallocates blocks that it holds, and writes
-- their payloads, in any order.
pub mod Apart
pub mod Backing
pub mod Calls
pub mod Safe
mod Tests
use cs0330_fall2022_7_malloc.Base.{
  ℕ, ◌+◌, ◌^◌, ◌≤◌, ◌<◌, ◌≡◌, ◌≢◌, List, [], ◌∷◌, ◌++◌, if◌then◌else◌, ltb, ◌==◌,
}
use cs0330_fall2022_7_malloc.Machine.{Mem, State, ok, null, set_byte}
use cs0330_fall2022_7_malloc.Mm.{success, mm_init, mm_malloc, mm_free}
use cs0330_fall2022_7_malloc.Mm.Abstract.{Given, Owns}
use cs0330_fall2022_7_malloc.Mm.Init.{Empty}
use cs0330_fall2022_7_malloc.Mm.Realloc.{mm_realloc}

-- A payload that the program holds: its address, the size it asked for, and the bytes in it.
pub record Held : Type 0 where
  pub addr : ℕ
  pub size : ℕ
  pub bytes : ℕ → ℕ

-- What a run of the program can lead to, from `mm_init` on.
pub data Reaches : State → List Held → Type 0 where
  began : {s s' : State} → Empty s → mm_init s ≡ ok success s' → Reaches s' []
  allocated :
      {s s' : State} {live : List Held} {ptr : ℕ} (size : ℕ)
      → Reaches s live
      → 0 < size
      → size + 32 < 2 ^ 31
      → mm_malloc size s ≡ ok ptr s'
      → ptr ≢ null
      → Reaches s' (record { addr = ptr; size = size; bytes = λ i. s'.mem (ptr + i) } ∷ live)
  refused :
      {s s' : State} {live : List Held} (size : ℕ)
      → Reaches s live
      → 0 < size
      → size + 32 < 2 ^ 31
      → mm_malloc size s ≡ ok null s'
      → Reaches s' live
  freed :
      {s s' : State} (xs : List Held) (b : Held) (ys : List Held)
      → Reaches s (xs ++ (b ∷ ys))
      → mm_free b.addr s ≡ ok tt s'
      → Reaches s' (xs ++ ys)
  reallocated :
      {s s' : State} (xs : List Held) (b : Held) (ys : List Held) {ptr : ℕ} (size : ℕ)
      → Reaches s (xs ++ (b ∷ ys))
      → 0 < size
      → size + 64 < 2 ^ 31
      → mm_realloc b.addr size s ≡ ok ptr s'
      → ptr ≢ null
      → Reaches s' (
          record {
            addr = ptr;
            size = size;
            bytes = λ i. if ltb i b.size then b.bytes i else s'.mem (ptr + i);
          }
          ∷ (xs ++ ys))
  not_reallocated :
      {s s' : State} (xs : List Held) (b : Held) (ys : List Held) (size : ℕ)
      → Reaches s (xs ++ (b ∷ ys))
      → 0 < size
      → size + 64 < 2 ^ 31
      → mm_realloc b.addr size s ≡ ok null s'
      → Reaches s' (xs ++ (b ∷ ys))
  wrote :
      {s : State} (xs : List Held) (b : Held) (ys : List Held) (i v : ℕ)
      → Reaches s (xs ++ (b ∷ ys))
      → i < b.size
      → Reaches
          (record s { mem = set_byte s.mem (b.addr + i) v })
          (record b { bytes = λ j. if j == i then v else b.bytes j } ∷ (xs ++ ys))

abbrev pub Holds : Mem → Held → Type 0
Holds m b = (i : ℕ) → i < b.size → m (b.addr + i) ≡ b.bytes i

-- Each payload lies in a block of its own of those that were given out, and there are no others.
abbrev pub Backs : Mem → List Held → Given → Type 0
Backs m [] given = given ≡ []
Backs m (b ∷ live) given =
    (before : Given) × (q : ℕ) × (k : ℕ) × (after : Given) × (given ≡ before ++ ((q, k) ∷ after))
    × (b.addr ≡ q + 8)
    × (b.size + 16 ≤ k)
    × Holds m b
    × Backs m live (before ++ after)

abbrev pub Backed : State → List Held → Type 0
Backed s live = (given : Given) × Owns s given × Backs s.mem live given
