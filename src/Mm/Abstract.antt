-- ===== src/Mm/Abstract.antt =====
-- The allocator as its client sees it: the list of the blocks that it gave out, by address and
-- size, in order of address. The layout of free blocks and the order of the free list are forgotten.
pub mod Calls
pub mod Facts
pub mod Find
pub mod Move
pub mod Resize
pub mod RoundTrip
mod Tests
pub mod Write
use cs0330_fall2022_7_malloc.Base.{
  ℕ, ◌+◌, ◌-◌, ◌*◌, ◌%◌, ◌^◌, ◌≤◌, ◌<◌, ◌≡◌, refl, sym, subst, ap, List, [], ◌∷◌, ◌++◌, Bool, true,
  false, arith, ◌∙◌, ◌==◌, if◌then◌else◌, ◌&&◌, ◌||◌, leb, ltb, eq→==, ne→==, ==-cases, inl, inr,
  ◌⊎◌,
}
use cs0330_fall2022_7_malloc.Machine.{Mem, State, bit}
use cs0330_fall2022_7_malloc.Layout.{Blocks, span, Heap, done, block, Heap-end}
use cs0330_fall2022_7_malloc.Layout.Payload.{payload_byte, KeepsPayload}
use cs0330_fall2022_7_malloc.Mm.Inv.{Inv, allocs}

abbrev pub Given : Type 0
Given = List (ℕ × ℕ)

-- The state satisfies the invariant, and these are the blocks that were given out.
abbrev pub Owns : State → Given → Type 0
Owns s given = (bs : Blocks) × Inv s bs × (allocs s.mem_start_brk bs ≡ given)

-- The bytes of the payload of a block are the same in both memories.
abbrev pub SamePayload : (q n : ℕ) → Mem → Mem → Type 0
SamePayload q n m m' = (a : ℕ) → q + 8 ≤ a → a + 8 < q + n → m' a ≡ m a

abbrev pub Keeps : Given → Mem → Mem → Type 0
Keeps [] m m' = Unit {0}
Keeps ((q, n) ∷ given) m m' = SamePayload q n m m' × Keeps given m m'

module _ (m m' : Mem) where
  pub Keeps-append : (xs ys : Given) → Keeps xs m m' → Keeps ys m m' → Keeps (xs ++ ys) m m'
  Keeps-append [] ys h k = k
  Keeps-append ((q, n) ∷ xs) ys h k = (h.0, Keeps-append xs ys h.1 k)

  pub Keeps-split : (xs ys : Given) → Keeps (xs ++ ys) m m' → Keeps xs m m' × Keeps ys m m'
  Keeps-split [] ys h = (tt, h)
  Keeps-split ((q, n) ∷ xs) ys h = let (front, back) = Keeps-split xs ys h.1 in ((h.0, front), back)

  -- What is kept of a layout is kept of the blocks given out.
  pub KeepsPayload-Keeps : (p : ℕ) (bs : Blocks) → KeepsPayload p bs m m' → Keeps (allocs p bs) m m'
  KeepsPayload-Keeps p [] h = tt
  KeepsPayload-Keeps p ((n, false) ∷ bs) h = KeepsPayload-Keeps (p + n) bs h
  KeepsPayload-Keeps p ((n, true) ∷ bs) h =
      head (n == 16) (λ a lo hi. h a (ground arith))
        (KeepsPayload-Keeps (p + n) bs (λ a i. h a (ground (arith, i))))
    where
      head :
          (c : Bool)
          → SamePayload p n m m'
          → Keeps (allocs (p + n) bs) m m'
          → Keeps (if c then allocs (p + n) bs else ((p, n) ∷ allocs (p + n) bs)) m m'
      head true same rest = rest
      head false same rest = (same, rest)

pub Keeps-trans : (m m' m'' : Mem) (xs : Given) → Keeps xs m m' → Keeps xs m' m'' → Keeps xs m m''
Keeps-trans m m' m'' [] h k = tt
Keeps-trans m m' m'' ((q, n) ∷ xs) h k =
    (λ a lo hi. k.0 a lo hi ∙ h.0 a lo hi, Keeps-trans m m' m'' xs h.1 k.1)

pub Keeps-refl : (m : Mem) (xs : Given) → Keeps xs m m
Keeps-refl m [] = tt
Keeps-refl m ((q, n) ∷ xs) = (λ a lo hi. refl, Keeps-refl m xs)
