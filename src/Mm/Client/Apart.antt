-- ===== src/Mm/Client/Apart.antt =====
-- The payloads that a program holds are in the heap, and apart.
use mathlib.Core.List.{append_assoc}
use cs0330_fall2022_7_malloc.Base.{
  ℕ, ◌+◌, ◌%◌, ◌^◌, ◌≤◌, ◌<◌, ◌≡◌, sym, subst, List, [], ◌∷◌, ◌++◌, arith, ◌⊎◌, inl, inr,
}
use cs0330_fall2022_7_malloc.Machine.{Mem, State}
use cs0330_fall2022_7_malloc.Mm.Abstract.{Given, Owns}
use cs0330_fall2022_7_malloc.Mm.Abstract.Facts.{InHeap, Owns-place, Above, Owns-Above}
use cs0330_fall2022_7_malloc.Mm.Client.{Held, Holds, Backs, Backed}

-- No byte belongs to both.
abbrev pub Disjoint : Held → Held → Type 0
Disjoint b c = (b.addr + b.size ≤ c.addr) ⊎ (c.addr + c.size ≤ b.addr)

abbrev pub DisjointFrom : Held → List Held → Type 0
DisjointFrom b [] = Unit {0}
DisjointFrom b (c ∷ live) = Disjoint b c × DisjointFrom b live

abbrev pub AllDisjoint : List Held → Type 0
AllDisjoint [] = Unit {0}
AllDisjoint (b ∷ live) = DisjointFrom b live × AllDisjoint live

-- The payload is aligned and lies in the heap, and it holds what was written.
pub record IsKept (s : State) (b : Held) : Type 0 where
  pub aligned : b.addr % 8 ≡ 0
  pub low : s.mem_start_brk ≤ b.addr
  pub high : b.addr + b.size ≤ s.mem_brk
  pub top : s.mem_brk < 2 ^ 63
  pub holds : Holds s.mem b

abbrev pub AllKept : State → List Held → Type 0
AllKept s [] = Unit {0}
AllKept s (b ∷ live) = IsKept s b × AllKept s live

-- The block of `k` bytes at `q` is apart from all others.
abbrev Clear : (q k : ℕ) → Given → Type 0
Clear q k [] = Unit {0}
Clear q k ((q', k') ∷ given) = ((q + k ≤ q') ⊎ (q' + k' ≤ q)) × Clear q k given

Clear-append : (q k : ℕ) (xs ys : Given) → Clear q k xs → Clear q k ys → Clear q k (xs ++ ys)
Clear-append q k [] ys h h' = h'
Clear-append q k (x ∷ xs) ys h h' = (h.0, Clear-append q k xs ys h.1 h')

Clear-split : (q k : ℕ) (xs ys : Given) → Clear q k (xs ++ ys) → Clear q k xs × Clear q k ys
Clear-split q k [] ys h = (tt, h)
Clear-split q k (x ∷ xs) ys h =
    let (front, back) = Clear-split q k xs ys h.1 in ((h.0, front), back)

Clear-after : (p q k : ℕ) (given : Given) → q + k ≤ p → Above p given → Clear q k given
Clear-after p q k [] le h = tt
Clear-after p q k ((q', k') ∷ given) le h =
    (inl (omega (arith, h.0)), Clear-after (q' + k') q k given (omega (arith, h.0)) h.1)

-- A block in the order of address is apart from all others.
Above-Clear :
    (p : ℕ) (before : Given) (q k : ℕ) (after : Given)
    → Above p (before ++ ((q, k) ∷ after))
    → (p ≤ q) × Clear q k (before ++ after) × Above p (before ++ after)
Above-Clear p [] q k after h =
    (h.0, Clear-after (q + k) q k after (omega arith) h.1, weaker after h.1)
  where
    weaker : (given : Given) → Above (q + k) given → Above p given
    weaker [] h' = tt
    weaker (x ∷ given) h' = (omega (arith, h'.0, h.0), h'.1)
Above-Clear p ((q', k') ∷ before) q k after h =
    let (le, clear, above) = Above-Clear (q' + k') before q k after h.1 in
    (omega (arith, h.0), (inr le, clear), (h.0, above))

Clear-DisjointFrom :
    (m : Mem) (b : Held) (q k : ℕ) (live : List Held) (given : Given)
    → b.addr ≡ q + 8
    → b.size + 16 ≤ k
    → Clear q k given
    → Backs m live given
    → DisjointFrom b live
Clear-DisjointFrom m b q k [] given at room clear h = tt
Clear-DisjointFrom m b q k (c ∷ live) given at room clear
      (before, q', k', after, e, at', room', holds, rest) =
    let (front, back) = Clear-split q k before ((q', k') ∷ after) (subst (Clear q k) e clear) in
    (
      ground (arith, back.0, at, at', room, room'),
      Clear-DisjointFrom m b q k live (before ++ after) at room
          (Clear-append q k before after front back.1) rest,
    )

Backs-AllDisjoint :
    (m : Mem) (p : ℕ) (live : List Held) (given : Given)
    → Above p given
    → Backs m live given
    → AllDisjoint live
Backs-AllDisjoint m p [] given above h = tt
Backs-AllDisjoint m p (b ∷ live) given above (before, q, k, after, e, at, room, holds, rest) =
    let (le, clear, above') = Above-Clear p before q k after (subst (Above p) e above) in
    (
      Clear-DisjointFrom m b q k live (before ++ after) at room clear rest,
      Backs-AllDisjoint m p live (before ++ after) above' rest,
    )

-- Where each block of a list lies in the heap.
abbrev AllIn : State → Given → Type 0
AllIn s [] = Unit {0}
AllIn s ((q, k) ∷ given) = InHeap s q k × AllIn s given

AllIn-without :
    (s : State) (before : Given) (q k : ℕ) (after : Given)
    → AllIn s (before ++ ((q, k) ∷ after))
    → InHeap s q k × AllIn s (before ++ after)
AllIn-without s [] q k after h = h
AllIn-without s (x ∷ before) q k after h =
    let (here, rest) = AllIn-without s before q k after h.1 in (here, (h.0, rest))

Backs-AllKept :
    (s : State) (live : List Held) (given : Given)
    → AllIn s given
    → Backs s.mem live given
    → AllKept s live
Backs-AllKept s [] given places h = tt
Backs-AllKept s (b ∷ live) given places (before, q, k, after, e, at, room, holds, rest) =
    let (here, places') = AllIn-without s before q k after (subst (AllIn s) e places) in
    (
      record {
        aligned = omega (arith, here.aligned, at);
        low = omega (arith, here.low, at);
        high = omega (arith, here.high, at, room);
        top = here.top;
        holds = holds;
      },
      Backs-AllKept s live (before ++ after) places' rest,
    )

Owns-AllIn : (s : State) (front given : Given) → Owns s (front ++ given) → AllIn s given
Owns-AllIn s front [] owns = tt
Owns-AllIn s front ((q, k) ∷ given) owns = (
  Owns-place s front given q k owns,
  Owns-AllIn s (front ++ ((q, k) ∷ [])) given
      (subst (Owns s) (sym (append_assoc front ((q, k) ∷ []) given)) owns),
)

pub Backed-kept : (s : State) (live : List Held) → Backed s live → AllKept s live × AllDisjoint live
Backed-kept s live (given, owns, backs) = (
  Backs-AllKept s live given (Owns-AllIn s [] given owns) backs,
  Backs-AllDisjoint s.mem s.mem_start_brk live given (Owns-Above s given owns) backs,
)
