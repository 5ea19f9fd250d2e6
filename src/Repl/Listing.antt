-- ===== src/Repl/Listing.antt =====
-- What `mm_print_heap_repl` of mdriver.c prints of a heap between two calls of the allocator.
use cs0330_fall2022_7_malloc.Base.{
  ℕ, zero, suc, ◌+◌, ◌-◌, ◌*◌, ◌^◌, ◌≤◌, ◌<◌, ◌≡◌, ◌≢◌, refl, sym, subst, ap, Bool, true, false,
  List, [], ◌∷◌, ◌++◌, arith, ◌∙◌, ◌⊎◌, inl, inr, eq→==, ne→==, le→ltb, length,
}
use cs0330_fall2022_7_malloc.Machine.{Mem, State, ok, add, sub}
use cs0330_fall2022_7_malloc.Machine.Words.{less-le}
use cs0330_fall2022_7_malloc.Memlib.{mem_heap_lo, mem_heap_hi, mem_heapsize}
use cs0330_fall2022_7_malloc.Block.Laws.{
  Here, FreeHere, block_size-eq, block_end_size-eq, block_next-eq, block_allocated-eq,
  block_flink-eq, block_blink-eq,
}
use cs0330_fall2022_7_malloc.Layout.{
  Blocks, span, span-append, IsBlock, Heap, Heap-end, Heap-head, Heap-tail, Heap-split,
}
use cs0330_fall2022_7_malloc.Layout.Shape.{
  Place, at_start, after_used, after_free, at_end, broken, next, walk, walk_end, IsShaped,
}
use cs0330_fall2022_7_malloc.FreeList.Ring.{flink, blink}
use cs0330_fall2022_7_malloc.Mm.Inv.{Inv, shaped_last}
use cs0330_fall2022_7_malloc.Repl.{ReplBlock, find_repl_block_from_block}
use cs0330_fall2022_7_malloc.Repl.Heap.{
  Printed, used_block, free_block, epilogue_block, label_of, print_block, print_blocks,
  mm_print_heap_repl,
}

-- One line for each block, and no complaint.
abbrev line_of : Mem → List ReplBlock → (p n : ℕ) → Bool → Printed
line_of m table p n true = used_block (label_of (find_repl_block_from_block p table)) p n
line_of m table p n false = free_block p n (flink m p) (blink m p)

abbrev pub listing : Mem → List ReplBlock → (p : ℕ) → Blocks → List Printed
listing m table p [] = []
listing m table p ((n, f) ∷ bs) = line_of m table p n f ∷ listing m table (p + n) bs

-- The blocks between the prologue and the epilogue have 32 bytes or more.
abbrev AllBig : Blocks → Type 0
AllBig [] = Unit {0}
AllBig ((n, f) ∷ bs) = (32 ≤ n) × AllBig bs

big_next :
    (p : Place) (n : ℕ) (f : Bool)
    → ((p ≡ after_used) ⊎ (p ≡ after_free))
    → next p n f ≢ broken
    → ((32 ≤ n) × ((next p n f ≡ after_used) ⊎ (next p n f ≡ after_free))) ⊎ (next p n f ≡ at_end)
unfolding next
big_next p n f at w = ground arith

after_end : (bs : Blocks) (n : ℕ) (f : Bool) → walk at_end (bs ++ ((n, f) ∷ [])) ≡ at_end → ⊥
unfolding walk next
after_end [] n f e = cc
after_end ((m, g) ∷ bs) n f e = walk_end broken (bs ++ ((n, f) ∷ [])) e refl

middle-AllBig :
    (bs : Blocks) (p : Place)
    → ((p ≡ after_used) ⊎ (p ≡ after_free))
    → walk p (bs ++ ((16, true) ∷ [])) ≡ at_end
    → AllBig bs
unfolding walk
middle-AllBig [] p at e = tt
middle-AllBig ((n, f) ∷ bs) p at e =
    elim (big_next p n f at (walk_end (next p n f) (bs ++ ((16, true) ∷ [])) e)) [
      | inl (big, there) ↦ (big, middle-AllBig bs (next p n f) there e)
      | inr ended ↦
          absurd (after_end bs 16 true (ap (λ t. walk t (bs ++ ((16, true) ∷ []))) (sym ended) ∙ e))
    ]

-- The prologue, the blocks between, the epilogue.
shaped_parts :
    (bs : Blocks)
    → IsShaped bs
    → (mid : Blocks) × (bs ≡ (16, true) ∷ (mid ++ ((16, true) ∷ []))) × AllBig mid
unfolding walk next
shaped_parts bs h = let (zs, e) = shaped_last bs h in parts zs e (subst IsShaped e h)
  where
    too_short : IsShaped ((16, true) ∷ []) → ⊥
    too_short h' = cc

    starts :
        (n : ℕ) (f : Bool)
        → next at_start n f ≢ broken
        → (n ≡ 16) × (f ≡ true) × (next at_start n f ≡ after_used)
    starts n f w = ground arith

    parts :
        (zs : Blocks)
        → bs ≡ zs ++ ((16, true) ∷ [])
        → IsShaped (zs ++ ((16, true) ∷ []))
        → (mid : Blocks) × (bs ≡ (16, true) ∷ (mid ++ ((16, true) ∷ []))) × AllBig mid
    parts [] e h' = absurd (too_short h')
    parts ((n, f) ∷ mid) e h' =
        let (size, flag, place) =
          starts n f (walk_end (next at_start n f) (mid ++ ((16, true) ∷ [])) h') in
        (
          mid,
          e
              ∙ ap (λ t. t ∷ (mid ++ ((16, true) ∷ [])))
                  (ap (λ t. (t, f)) size ∙ ap (λ t. (16, t)) flag),
          middle-AllBig mid (next at_start n f) (inl place) h',
        )

module _ (s : State) (table : List ReplBlock) (top : s.mem_brk < 2 ^ 63)
    (low : 0 < s.mem_start_brk) where
  print_block-eq :
      (p n : ℕ) (f : Bool)
      → Here s p n f
      → 32 ≤ n
      → print_block p table s ≡ ok (line_of s.mem table p n f) s
  unfolding print_block
  print_block-eq p n true here big = rw (block_allocated-eq here, block_size-eq here) refl
  print_block-eq p n false here big =
      let free : FreeHere s p = record { size = n; here = here; links = big } in
      rw (block_allocated-eq here, block_size-eq here, block_flink-eq free, block_blink-eq free)
        refl

  print_from :
      (mid : Blocks) (fuel p : ℕ)
      → length mid < fuel
      → AllBig mid
      → s.mem_start_brk ≤ p
      → Heap s.mem s.mem_brk p (mid ++ ((16, true) ∷ []))
      → print_blocks fuel p (s.mem_brk - 16) table s ≡ ok (listing s.mem table p mid) s
  unfolding print_blocks
  print_from mid zero p enough big lo heap = absurd (omega arith)
  print_from [] (suc fuel) p enough big lo heap =
      rw (eq→== p (s.mem_brk - 16) (omega (arith, Heap-end heap))) refl
  print_from ((n, f) ∷ mid) (suc fuel) p enough big lo heap =
      let end = Heap-end heap in
      let last = span-append mid ((16, true) ∷ []) in
      let here : Here s p n f = record {
        at = Heap-head heap;
        lo = lo;
        hi = omega (arith, end);
        top = omega arith;
      } in
      let far : add (s.mem_brk - 16) (8 * 32) ≡ s.mem_brk - 16 + 256 = omega arith in
      rw
        (
          ne→== p (s.mem_brk - 16) (omega (arith, end, last, big.0)),
          print_block-eq p n f here big.0,
          block_size-eq here,
          block_end_size-eq here,
          block_next-eq here,
          print_from mid fuel (p + n) (omega arith) big.1 (omega arith) (Heap-tail heap),
          eq→== n n refl,
          less-le n 32 big.0 (omega (arith, here.hi)),
          far,
          le→ltb (s.mem_brk - 16 + 256) (p + n) (omega (arith, end, last)),
        )
        refl

length_le_span : (bs : Blocks) → AllBig bs → length bs ≤ span bs
length_le_span [] big = omega arith
length_le_span ((n, f) ∷ bs) big = omega (arith, big.0, length_le_span bs big.1)

-- The blocks of the layout are a prologue, some blocks and an epilogue; the state is unchanged, and
-- what is printed is the listing of the blocks between, and the epilogue.
abbrev pub PrintsAll : State → Blocks → List ReplBlock → Type 0
PrintsAll s bs table =
    (mid : Blocks) × (bs ≡ (16, true) ∷ (mid ++ ((16, true) ∷ [])))
    × (mm_print_heap_repl table s
        ≡ ok
            (listing s.mem table (s.mem_start_brk + 16) mid
              ++ (epilogue_block (s.mem_brk - 16) 16 ∷ []))
            s)

-- In a state that satisfies the invariant, `mm_print_heap_repl` ends without a fault within as many
-- rounds as the heap has bytes, changes nothing, and prints one line for each block between prologue
-- and epilogue, in order, then a line for the epilogue, and no complaint.
pub mm_print_heap_lem :
    (s : State) (bs : Blocks) (table : List ReplBlock) → Inv s bs → PrintsAll s bs table
unfolding mm_print_heap_repl mem_heap_lo mem_heap_hi mem_heapsize
mm_print_heap_lem s bs table inv =
    let (mid, e, big) = shaped_parts bs inv.shaped in
    let heap = subst (Heap s.mem s.mem_brk s.mem_start_brk) e inv.sound.heap in
    let end = Heap-end heap in
    let size = span-append mid ((16, true) ∷ []) in
    let low = inv.sound.low in
    let prologue : Here s s.mem_start_brk 16 true = record {
      at = Heap-head heap;
      lo = omega arith;
      hi = omega (arith, end);
      top = inv.sound.top;
    } in
    let split = Heap-split (s.mem_start_brk + 16) mid ((16, true) ∷ []) (Heap-tail heap) in
    let at_last : s.mem_start_brk + 16 + span mid ≡ s.mem_brk - 16 = omega (arith, end, size) in
    let last : Here s (s.mem_brk - 16) 16 true = record {
      at = subst (λ p. IsBlock s.mem p 16 true) at_last (Heap-head split.1);
      lo = omega (arith, end, size);
      hi = omega (arith, end, size);
      top = inv.sound.top;
    } in
    let epilogue : add (sub (s.mem_brk - 1) 16) 1 ≡ s.mem_brk - 16 =
      omega (arith, end, size, inv.sound.top) in
    (
      mid,
      e,
      rw
          (
            block_next-eq prologue,
            epilogue,
            print_from s table inv.sound.top low mid (s.mem_brk - s.mem_start_brk)
                (s.mem_start_brk + 16) (omega (arith, end, size, length_le_span mid big)) big
                (omega arith) (Heap-tail heap),
            block_size-eq last,
          )
          refl,
    )
