-- ===== src/Mm/Abstract/Facts.antt =====
-- What a client may rely on of the blocks that it holds: where they lie, and that they are apart.
use cs0330_fall2022_7_malloc.Base.{
  ℕ, ◌+◌, ◌%◌, ◌^◌, ◌≤◌, ◌<◌, ◌≡◌, ◌≢◌, sym, subst, [], ◌∷◌, ◌++◌, Bool, true, false, arith, ◌∙◌,
  ◌==◌, if◌then◌else◌,
}
use cs0330_fall2022_7_malloc.Machine.{State}
use cs0330_fall2022_7_malloc.Layout.{Blocks}
use cs0330_fall2022_7_malloc.Layout.Shape.{
  Place, at_start, at_end, broken, next, walk, walk-append, walk_end, IsShaped, not_last,
}
use cs0330_fall2022_7_malloc.Mm.Abstract.{Given, Owns}
use cs0330_fall2022_7_malloc.Mm.Abstract.Find.{allocs_find}
use cs0330_fall2022_7_malloc.Mm.Coalesce.Branches.{behind}
use cs0330_fall2022_7_malloc.Mm.Inv.{Inv, allocs, span-aligned}
use cs0330_fall2022_7_malloc.Mm.Steps.{second-Here}

pub block_size_min :
    (us : Blocks) (n : ℕ) (vs : Blocks) → IsShaped (us ++ ((n, true) ∷ vs)) → n ≢ 16 → 32 ≤ n
unfolding walk next
block_size_min us n vs h big =
    let p = walk at_start us in
    let whole : walk (next p n true) vs ≡ at_end =
      sym (walk-append at_start us ((n, true) ∷ vs)) ∙ h in
    sizes p n big (walk_end (next p n true) vs whole)
  where
    sizes : (p : Place) (n : ℕ) → n ≢ 16 → next p n true ≢ broken → 32 ≤ n
    sizes p n big w = ground arith

-- After a block that was given out there is at least one more.
pub room_behind :
    (s : State) (us : Blocks) (n : ℕ) (vs : Blocks)
    → Inv s (us ++ ((n, true) ∷ vs))
    → 32 ≤ n
    → behind s us + n + 16 ≤ s.mem_brk
room_behind s us n [] inv big = absurd (not_last us n true big inv.shaped)
room_behind s us n ((j, h) ∷ vs) inv big =
    let after = second-Here {s = s} us n true j h vs inv.sound in
    omega (arith, after.hi, after.at.tags)

-- The block lies in the heap, with 16 bytes before it and behind it.
pub record InHeap (s : State) (q n : ℕ) : Type 0 where
  pub low : s.mem_start_brk ≤ q
  pub high : q + n + 16 ≤ s.mem_brk
  pub aligned : q % 8 ≡ 0
  pub big : 32 ≤ n
  pub top : s.mem_brk < 2 ^ 63
  pub start : 0 < s.mem_start_brk

pub Owns-place :
    (s : State) (before after : Given) (q n : ℕ)
    → Owns s (before ++ ((q, n) ∷ after))
    → InHeap s q n
Owns-place s before after q n (bs, inv, e) =
    let (us, vs, layout, at, b, a, tag) = allocs_find s.mem_start_brk q n bs before after e in
    let inv' = subst (Inv s) layout inv in
    let big = block_size_min us n vs inv'.shaped tag in
    record {
      low = omega arith;
      high = omega (arith, room_behind s us n vs inv' big);
      aligned = omega (arith, inv.aligned, span-aligned us ((n, true) ∷ vs) inv'.sound.heap);
      big = big;
      top = inv.sound.top;
      start = inv.sound.low;
    }

-- The blocks stand in order of address, from `p` on, and do not overlap.
abbrev pub Above : (p : ℕ) → Given → Type 0
Above p [] = Unit {0}
Above p ((q, n) ∷ given) = (p ≤ q) × Above (q + n) given

Above-weaken : (p p' : ℕ) (given : Given) → p' ≤ p → Above p given → Above p' given
Above-weaken p p' [] le h = tt
Above-weaken p p' ((q, n) ∷ given) le h = (omega (arith, h.0), h.1)

allocs-Above : (p : ℕ) (bs : Blocks) → Above p (allocs p bs)
allocs-Above p [] = tt
allocs-Above p ((n, false) ∷ bs) =
    Above-weaken (p + n) p (allocs (p + n) bs) (omega arith) (allocs-Above (p + n) bs)
allocs-Above p ((n, true) ∷ bs) = first (n == 16) (allocs-Above (p + n) bs)
  where
    first :
        (c : Bool)
        → Above (p + n) (allocs (p + n) bs)
        → Above p (if c then allocs (p + n) bs else ((p, n) ∷ allocs (p + n) bs))
    first true h = Above-weaken (p + n) p (allocs (p + n) bs) (omega arith) h
    first false h = (omega arith, h)

-- In a state that satisfies the invariant, the blocks that were given out are in order of address
-- from the start of the heap on, and no two of them overlap.
pub Owns-Above : (s : State) (given : Given) → Owns s given → Above s.mem_start_brk given
Owns-Above s given (bs, inv, e) = subst (Above s.mem_start_brk) e (allocs-Above s.mem_start_brk bs)
