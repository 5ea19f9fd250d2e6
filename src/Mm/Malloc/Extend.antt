-- ===== src/Mm/Malloc/Extend.antt =====
-- `mm_malloc` when no free block has room: the heap grows, or the break cannot move.
use cs0330_fall2022_7_malloc.Base.{
  ℕ, ◌+◌, ◌%◌, ◌^◌, ◌≤◌, ◌<◌, ◌≡◌, refl, sym, subst, ap, [], ◌∷◌, ◌++◌, true, arith, ◌∙◌, count,
  SameItems, inl, inr, ◌⊎◌, lt→ltb, le→ltb, lt→leb, ne→==,
}
use cs0330_fall2022_7_malloc.Machine.{Mem, State, ok, failed_ptr, null}
use cs0330_fall2022_7_malloc.Block.{payload}
use cs0330_fall2022_7_malloc.Block.Laws.{Here, block_next-eq}
use cs0330_fall2022_7_malloc.Block.Write.{Tagged, block_set_size_and_allocated_lem}
use cs0330_fall2022_7_malloc.Layout.Frame.{IsBlock-frame, Heap-frame}
use cs0330_fall2022_7_malloc.Layout.{
  Blocks, span-append, IsBlock, Heap, done, block, Heap-end, Heap-split, Heap-join, frees,
}
use cs0330_fall2022_7_malloc.Layout.Place.{frees-block}
use cs0330_fall2022_7_malloc.Layout.Payload.{payload_byte, payload_byte-append, payload_byte-range}
use cs0330_fall2022_7_malloc.Layout.Retile.{SameOutside, FreeRing-same, FreeRing-frame}
use cs0330_fall2022_7_malloc.Layout.Shape.{
  Place, at_start, at_end, next, walk, walk-append, IsShaped,
}
use cs0330_fall2022_7_malloc.FreeList.Ring.{FreeRing}
use cs0330_fall2022_7_malloc.Memlib.{mem_sbrk, to_int}
use cs0330_fall2022_7_malloc.Mm.{extend_heap}
use cs0330_fall2022_7_malloc.Mm.Coalesce.Branches.{behind}
use cs0330_fall2022_7_malloc.Mm.Inv.{Inv, allocs-append}
use cs0330_fall2022_7_malloc.Mm.Malloc.Grants.{Grants, GrantsAt}
use cs0330_fall2022_7_malloc.Mm.Steps.{count-frees}

IsShaped-extend :
    (zs : Blocks) (r : ℕ)
    → 32 ≤ r
    → IsShaped (zs ++ ((16, true) ∷ []))
    → IsShaped (zs ++ ((r, true) ∷ ((16, true) ∷ [])))
unfolding walk next
IsShaped-extend zs r big h =
    walk-append at_start zs ((r, true) ∷ ((16, true) ∷ []))
    ∙ moved (walk at_start zs) big (sym (walk-append at_start zs ((16, true) ∷ [])) ∙ h)
  where
    moved : (p : Place) → 32 ≤ r → next p 16 true ≡ at_end → next (next p r true) 16 true ≡ at_end
    moved p big e = ground arith

module _ (s : State) (zs : Blocks) (r : ℕ) (inv : Inv s (zs ++ ((16, true) ∷ [])))
    (r_aligned : r % 8 ≡ 0) (r_min : 32 ≤ r) (r_int : r < 2 ^ 31) where
  old : Blocks
  old = zs ++ ((16, true) ∷ [])

  new : Blocks
  new = zs ++ ((r, true) ∷ ((16, true) ∷ []))

  q : ℕ
  q = s.epilogue

  at : behind s zs ≡ q
  unfolding q
  at = omega (arith, inv.epilogue, Heap-end inv.sound.heap, span-append zs ((16, true) ∷ []))

  q_end : q + 16 ≡ s.mem_brk
  unfolding q
  q_end = inv.epilogue

  q_lo : s.mem_start_brk ≤ q
  q_lo = omega (arith, at)

  ptr : payload q 0 ≡ q + 8
  ptr = omega (arith, q_end, inv.limit, inv.top)

  int_same : to_int r ≡ r
  int_same = omega arith

  -- From a state that satisfies the invariant and has too little room in the heap, `extend_heap` at a
  -- multiple of 8 from 32 up to 2 ^ 31 returns NULL and changes nothing.
  pub extend_heap_full : s.mem_max_addr < s.mem_brk + r → extend_heap r s ≡ ok null s
  unfolding extend_heap mem_sbrk
  extend_heap_full full =
      rw (int_same, lt→leb (2 ^ 31) r r_int, lt→ltb s.mem_max_addr (s.mem_brk + r) full) refl

  module _ (room : s.mem_brk + r ≤ s.mem_max_addr) where
    s₁ : State
    s₁ = record s { mem_brk = s.mem_brk + r }

    record Grown (m₁ m₂ : Mem) : Type 0 where
      first_tags : Tagged s.mem m₁ q r true
      second_tags : Tagged m₁ m₂ (q + r) 16 true
      run : extend_heap r s ≡ ok (q + 8) (record s₁ { mem = m₂; epilogue = q + r })

    grown : (m₁ : Mem) × (m₂ : Mem) × Grown m₁ m₂
    unfolding extend_heap mem_sbrk s₁ q
    grown =
        let small = inv.top in
        let low = inv.sound.low in
        let (m₁, run₁, t₁) =
          block_set_size_and_allocated_lem s₁ q r true r_aligned (omega arith) q_lo
            (omega (arith, q_end)) (omega arith) in
        let s₂ : State = record s₁ { mem = m₁ } in
        let s₃ : State = record s₂ { epilogue = q + r } in
        let here : Here s₂ q r true = record {
          at = t₁.at;
          lo = q_lo;
          hi = omega (arith, q_end);
          top = omega arith;
        } in
        let (m₂, run₂, t₂) =
          block_set_size_and_allocated_lem s₃ (q + r) 16 true refl (omega arith)
            (omega (arith, q_lo)) (omega (arith, q_end)) (omega arith) in
        (
          m₁,
          m₂,
          record {
            first_tags = t₁;
            second_tags = t₂;
            run =
                rw
                  (
                    int_same,
                    lt→leb (2 ^ 31) r r_int,
                    le→ltb s.mem_max_addr (s.mem_brk + r) room,
                    ne→== s.mem_brk failed_ptr (omega (arith, small)),
                    run₁,
                    block_next-eq here,
                    run₂,
                  )
                  (ap (λ t. ok t (record s₁ { mem = m₂; epilogue = q + r })) ptr);
          },
        )

    module _ (m₁ m₂ : Mem) (made : Grown m₁ m₂) where
      s' : State
      s' = record s₁ { mem = m₂; epilogue = q + r }

      below : (a : ℕ) → a < q → m₂ a ≡ s.mem a
      below a h =
          made.second_tags.same a (inl (omega arith)) (inl (omega arith))
          ∙ made.first_tags.same a (inl h) (inl (omega arith))

      first_block : IsBlock m₂ q r true
      first_block =
          IsBlock-frame m₂
            (λ a lo hi. made.second_tags.same a (inl (omega arith)) (inl (omega arith)))
            (λ a lo hi. made.second_tags.same a (inl (omega arith)) (inl (omega arith)))
            made.first_tags.at

      heap' : Heap m₂ (s.mem_brk + r) s.mem_start_brk new
      unfolding new
      heap' =
          let front = (Heap-split s.mem_start_brk zs ((16, true) ∷ []) inv.sound.heap).0 in
          Heap-join (Heap-frame m₂ (λ a lo hi. below a (omega (arith, at))) front) (
            subst (λ t. Heap m₂ (s.mem_brk + r) t ((r, true) ∷ ((16, true) ∷ []))) (sym at)
              (block first_block (omega arith)
                (block made.second_tags.at (omega arith) (done (omega (arith, q_end))))))

      same_frees : SameItems (frees s.mem_start_brk old) (frees s.mem_start_brk new)
      unfolding old new
      same_frees x = omega (
        arith,
        count-frees zs x s.mem_start_brk ((16, true) ∷ []),
        count-frees zs x s.mem_start_brk ((r, true) ∷ ((16, true) ∷ [])),
      )

      free' : FreeRing m₂ s.flist_first (frees s.mem_start_brk new)
      unfolding old
      free' =
          FreeRing-same (frees s.mem_start_brk new) same_frees
            (FreeRing-frame m₂ q (s.mem_brk + r) outside free_below inv.free)
        where
          outside : SameOutside q (s.mem_brk + r) s.mem m₂
          outside a (inl h) = below a h
          outside a (inr h) =
              made.second_tags.same a (inr (omega (arith, q_end))) (inr (omega (arith, q_end)))
              ∙ made.first_tags.same a (inr (omega (arith, q_end))) (inr (omega (arith, q_end)))

          free_below :
              (x : ℕ)
              → 0 < count x (frees s.mem_start_brk (zs ++ ((16, true) ∷ [])))
              → (x + 32 ≤ q) ⊎ (s.mem_brk + r ≤ x)
          free_below x i =
              let front = (Heap-split s.mem_start_brk zs ((16, true) ∷ []) inv.sound.heap).0 in
              let (n, b, links, lo, hi) =
                frees-block x front
                  (omega (arith, count-frees zs x s.mem_start_brk ((16, true) ∷ []))) in
              inl (omega (arith, at))

      inv' : Inv s' new
      unfolding s' s₁ new q
      inv' = record {
        sound = record { heap = heap'; low = inv.sound.low; top = omega (arith, inv.top) };
        free = free';
        shaped = IsShaped-extend zs r r_min inv.shaped;
        aligned = inv.aligned;
        epilogue = omega (arith, q_end);
        limit = room;
        top = inv.top;
      }

      payload_below : (a : ℕ) → payload_byte s.mem_start_brk old a ≡ true → a < q
      unfolding old
      payload_below a i = ground (
        arith,
        payload_byte-append s.mem_start_brk zs ((16, true) ∷ []) a,
        payload_byte-range s.mem_start_brk zs a,
        at,
      )

      Grants-new : GrantsAt (extend_heap r s) s old zs r ((16, true) ∷ []) (s.mem_brk + r)
      unfolding old new s' s₁
      Grants-new = (
        s',
        made.run ∙ ap (λ t. ok (t + 8) s') (sym at),
        inv',
        λ a i. below a (payload_below a i),
        refl,
        refl,
      )

  -- From a state that satisfies the invariant and has room in the heap, `extend_heap` at a multiple of
  -- 8 from 32 up to 2 ^ 31 moves the break by that size and grants a block of exactly that size where
  -- the epilogue was, with a new epilogue behind it: all other blocks and all payloads are the same,
  -- and the new state satisfies the invariant.
  pub extend_heap_lem :
      s.mem_brk + r ≤ s.mem_max_addr
      → GrantsAt
          (extend_heap r s)
          s
          (zs ++ ((16, true) ∷ []))
          zs
          r
          ((16, true) ∷ [])
          (s.mem_brk + r)
  unfolding old
  extend_heap_lem room = let (m₁, m₂, made) = grown room in Grants-new room m₁ m₂ made

  pub extend_heap-Grants :
      s.mem_brk + r ≤ s.mem_max_addr → Grants (extend_heap r s) s (zs ++ ((16, true) ∷ [])) r
  extend_heap-Grants room =
      let (s', run, inv', keeps, base, brk) = extend_heap_lem room in
      (
        s',
        zs,
        r,
        ((16, true) ∷ []),
        run,
        inv',
        omega arith,
        allocs-append s.mem_start_brk zs ((16, true) ∷ []),
        keeps,
        base,
      )
