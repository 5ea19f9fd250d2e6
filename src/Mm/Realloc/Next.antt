-- ===== src/Mm/Realloc/Next.antt =====
-- `mm_realloc` where the block takes in the free block after it.
use cs0330_fall2022_7_malloc.Base.{
  ℕ, ◌+◌, ◌≤◌, ◌≡◌, refl, ap, List, [], ◌∷◌, ◌++◌, true, false, arith, ◌∙◌, ◌||◌, count, SameItems,
}
use cs0330_fall2022_7_malloc.Machine.{State, ok}
use cs0330_fall2022_7_malloc.Machine.Words.{add-small}
use cs0330_fall2022_7_malloc.Block.{payload, block_set_size_and_allocated}
use cs0330_fall2022_7_malloc.Block.Laws.{Here, block_next-eq, block_size-eq}
use cs0330_fall2022_7_malloc.Layout.{Blocks, frees}
use cs0330_fall2022_7_malloc.Layout.Payload.{payload_byte, payload_byte-append}
use cs0330_fall2022_7_malloc.Layout.Retile.{others, FreeRing-same}
use cs0330_fall2022_7_malloc.FreeList.{pull_free_block}
use cs0330_fall2022_7_malloc.Mm.Coalesce.Branches.{behind}
use cs0330_fall2022_7_malloc.Mm.Ends.{Ends}
use cs0330_fall2022_7_malloc.Mm.Inv.{Inv, allocs}
use cs0330_fall2022_7_malloc.Mm.Realloc.{grow_into_next}
use cs0330_fall2022_7_malloc.Mm.Realloc.Regrown.{RegrownAt, grown_next-IsShaped}
use cs0330_fall2022_7_malloc.Mm.Steps.{
  state, pull_ends, merge_ends, first-Here, second-Here, count-frees, count-others,
}

module _ (s : State) (us : Blocks) (n j : ℕ) (ys : Blocks) (b_size : ℕ)
    (inv : Inv s (us ++ ((n, true) ∷ ((j, false) ∷ ys)))) (big : 32 ≤ n)
    (fits : b_size ≤ n + j) where
  q : ℕ
  q = behind s us

  old : Blocks
  old = us ++ ((n, true) ∷ ((j, false) ∷ ys))

  gs : List ℕ
  gs = others s.mem_start_brk us (q + n + j) ys

  all_free : SameItems (frees s.mem_start_brk old) ((q + n) ∷ gs)
  unfolding old gs q
  all_free x = omega (
    arith,
    count-frees us x s.mem_start_brk ((n, true) ∷ ((j, false) ∷ ys)),
    count-others us x s.mem_start_brk (behind s us + n + j) ys,
  )

  pulled : Ends (pull_free_block (q + n) s) s old gs
  unfolding old
  pulled =
      pull_ends inv.sound (q + n) gs (λ x. omega (arith, all_free x))
        (FreeRing-same ((q + n) ∷ gs) all_free inv.free)

  here : Here s q n true
  unfolding q
  here = first-Here {s = s} us n true ((j, false) ∷ ys) inv.sound

  after : Here (state pulled) (q + n) j false
  unfolding q old
  after = second-Here {s = state pulled} us n true j false ys pulled.sound

  merged :
      Ends
        (block_set_size_and_allocated q (n + j) 1 (state pulled))
        (state pulled)
        (us ++ ((n + j, true) ∷ ys))
        gs
  unfolding q old gs
  merged =
      merge_ends {s = state pulled} us ((n, true) ∷ ((j, false) ∷ [])) ys pulled.sound
        (behind s us + n + j) (omega arith) pulled.free (n + j) true (omega arith)
        (omega (arith, here.at.aligned, after.at.aligned)) (omega (arith, big)) (omega (arith, big))

  new_inv : Inv (state merged) (us ++ ((n + j, true) ∷ ys))
  unfolding q gs
  new_inv = record {
    sound = merged.sound;
    free =
        FreeRing-same (frees s.mem_start_brk (us ++ ((n + j, true) ∷ ys)))
          (λ x.
            let e : behind s us + (n + j) ≡ behind s us + n + j = omega arith in
            omega (
              arith,
              ap (λ t. count x (frees t ys)) e,
              count-frees us x s.mem_start_brk ((n + j, true) ∷ ys),
              count-others us x s.mem_start_brk (behind s us + n + j) ys,
            ))
          merged.free;
    shaped = grown_next-IsShaped us n j ys big inv.shaped;
    aligned = inv.aligned;
    epilogue = inv.epilogue;
    limit = inv.limit;
    top = inv.top;
  }

  -- Every byte outside the two blocks' tags and links is as it was.
  new_keeps : (a : ℕ) → payload_byte s.mem_start_brk old a ≡ true → (state merged).mem a ≡ s.mem a
  unfolding old q
  new_keeps a i =
      let e : behind s us + n + j ≡ behind s us + (n + j) = omega arith in
      merged.keeps a (
        ground (
          arith,
          ap (λ t. payload_byte t ys a) e,
          payload_byte-append s.mem_start_brk us ((n, true) ∷ ((j, false) ∷ ys)) a,
          payload_byte-append s.mem_start_brk us ((n + j, true) ∷ ys) a,
        ))
      ∙ pulled.keeps a i

  payload_of :
      (a : ℕ)
      → (payload_byte s.mem_start_brk us a || payload_byte q ((n, true) ∷ ((j, false) ∷ ys)) a)
        ≡ true
      → payload_byte s.mem_start_brk old a ≡ true
  unfolding old q
  payload_of a i = payload_byte-append s.mem_start_brk us ((n, true) ∷ ((j, false) ∷ ys)) a ∙ i

  -- With a free block after the block and room in the two together, `grow_into_next` makes them one
  -- block at the same address: the data and all other allocated blocks and payloads are the same.
  pub grow_into_next_lem :
      RegrownAt (grow_into_next (behind s us) n s) s us n ((j, false) ∷ ys) b_size us (n + j) ys
  unfolding grow_into_next q
  grow_into_next_lem =
      let e : behind s us + (n + j) ≡ behind s us + n + j = omega arith in
      (
        state merged,
        rw
            (
              block_next-eq here,
              pulled.run,
              block_size-eq after,
              add-small n j (omega (arith, after.hi, after.top)),
              merged.run,
            )
            (ap (λ t. ok t (state merged)) ptr),
        new_inv,
        fits,
        ap (λ t. allocs s.mem_start_brk us ++ allocs t ys) e,
        λ i lt. new_keeps (behind s us + 8 + i) (payload_of (behind s us + 8 + i) (ground arith)),
        λ a i. new_keeps a (payload_of a (ground (arith, i))),
        λ a i. new_keeps a (payload_of a (ground (arith, i))),
        refl,
        refl,
      )
    where
      ptr : payload (behind s us) 0 ≡ behind s us + 8
      ptr = omega arith
