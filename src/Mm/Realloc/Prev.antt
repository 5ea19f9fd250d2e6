-- ===== src/Mm/Realloc/Prev.antt =====
-- `mm_realloc` where the free block before the block takes it in.
use cs0330_fall2022_7_malloc.Base.{
  ℕ, ◌+◌, ◌≤◌, ◌≡◌, refl, sym, ap, List, [], ◌∷◌, ◌++◌, true, false, arith, ◌∙◌, ◌||◌, count,
  SameItems,
}
use mathlib.Core.List.{append-nil}
use cs0330_fall2022_7_malloc.Machine.{State, ok}
use cs0330_fall2022_7_malloc.Machine.Words.{add-small}
use cs0330_fall2022_7_malloc.Block.{payload, block_set_size_and_allocated}
use cs0330_fall2022_7_malloc.Block.Laws.{Here, block_size-eq}
use cs0330_fall2022_7_malloc.Layout.{Blocks, span, span-append, frees, Heap-end}
use cs0330_fall2022_7_malloc.Layout.Payload.{payload_byte, payload_byte-append}
use cs0330_fall2022_7_malloc.Layout.Retile.{others, FreeRing-same}
use cs0330_fall2022_7_malloc.FreeList.{pull_free_block}
use cs0330_fall2022_7_malloc.Mm.Coalesce.Branches.{behind}
use cs0330_fall2022_7_malloc.Mm.Ends.{Ends}
use cs0330_fall2022_7_malloc.Mm.Inv.{Inv, allocs, allocs-append}
use cs0330_fall2022_7_malloc.Mm.Realloc.{grow_into_prev}
use cs0330_fall2022_7_malloc.Mm.Realloc.Regrown.{RegrownAt, grown_prev-IsShaped}
use cs0330_fall2022_7_malloc.Mm.Realloc.Slide.{
  slid, slide_run, slide-Inv, slide_data, slide_before, slide_after,
}
use cs0330_fall2022_7_malloc.Mm.Steps.{
  state, pull_ends, merge_ends, first-Here, second-Here, count-frees, count-others,
}

module _ (s : State) (xs : Blocks) (k n : ℕ) (vs : Blocks) (b_size : ℕ)
    (inv : Inv s (xs ++ ((k, false) ∷ ((n, true) ∷ vs)))) (big : 32 ≤ n) (fits : b_size ≤ n + k)
    (links : 32 ≤ k) (tail : 16 ≤ span vs) where
  q : ℕ
  q = behind s xs

  old : Blocks
  old = xs ++ ((k, false) ∷ ((n, true) ∷ vs))

  gs : List ℕ
  gs = others s.mem_start_brk xs (q + k + n) vs

  all_free : SameItems (frees s.mem_start_brk old) (q ∷ gs)
  unfolding old gs q
  all_free x = omega (
    arith,
    count-frees xs x s.mem_start_brk ((k, false) ∷ ((n, true) ∷ vs)),
    count-others xs x s.mem_start_brk (behind s xs + k + n) vs,
  )

  pulled : Ends (pull_free_block q s) s old gs
  unfolding old
  pulled =
      pull_ends inv.sound q gs (λ x. omega (arith, all_free x))
        (FreeRing-same (q ∷ gs) all_free inv.free)

  before : Here (state pulled) q k false
  unfolding q old
  before = first-Here {s = state pulled} xs k false ((n, true) ∷ vs) pulled.sound

  here : Here (state pulled) (q + k) n true
  unfolding q old
  here = second-Here {s = state pulled} xs k false n true vs pulled.sound

  merged :
      Ends
        (block_set_size_and_allocated q (n + k) 1 (state pulled))
        (state pulled)
        (xs ++ ((n + k, true) ∷ vs))
        gs
  unfolding q old gs
  merged =
      merge_ends {s = state pulled} xs ((k, false) ∷ ((n, true) ∷ [])) vs pulled.sound
        (behind s xs + k + n) (omega arith) pulled.free (n + k) true (omega arith)
        (omega (arith, here.at.aligned, before.at.aligned)) (omega (arith, big))
        (omega (arith, big))

  new_inv : Inv (state merged) (xs ++ ((n + k, true) ∷ vs))
  unfolding q gs
  new_inv = record {
    sound = merged.sound;
    free =
        FreeRing-same (frees s.mem_start_brk (xs ++ ((n + k, true) ∷ vs)))
          (λ x.
            let e : behind s xs + (n + k) ≡ behind s xs + k + n = omega arith in
            omega (
              arith,
              ap (λ t. count x (frees t vs)) e,
              count-frees xs x s.mem_start_brk ((n + k, true) ∷ vs),
              count-others xs x s.mem_start_brk (behind s xs + k + n) vs,
            ))
          merged.free;
    shaped = grown_prev-IsShaped xs k n vs big inv.shaped;
    aligned = inv.aligned;
    epilogue = inv.epilogue;
    limit = inv.limit;
    top = inv.top;
  }

  -- Up to the copy, every payload is as it was.
  new_keeps : (a : ℕ) → payload_byte s.mem_start_brk old a ≡ true → (state merged).mem a ≡ s.mem a
  unfolding old q
  new_keeps a i =
      let e : behind s xs + (n + k) ≡ behind s xs + k + n = omega arith in
      merged.keeps a (
        ground (
          arith,
          ap (λ t. payload_byte t vs a) e,
          payload_byte-append s.mem_start_brk xs ((k, false) ∷ ((n, true) ∷ vs)) a,
          payload_byte-append s.mem_start_brk xs ((n + k, true) ∷ vs) a,
        ))
      ∙ pulled.keeps a i

  payload_of :
      (a : ℕ)
      → (payload_byte s.mem_start_brk xs a || payload_byte q ((k, false) ∷ ((n, true) ∷ vs)) a)
        ≡ true
      → payload_byte s.mem_start_brk old a ≡ true
  unfolding old q
  payload_of a i = payload_byte-append s.mem_start_brk xs ((k, false) ∷ ((n, true) ∷ vs)) a ∙ i

  after_copy : State
  after_copy = slid (state merged) xs (q + k + 8) n

  room : n + 16 ≤ n + k
  room = omega arith

  src_lo : s.mem_start_brk ≤ q + k + 8
  unfolding q
  src_lo = omega arith

  src_hi : q + k + 8 + n ≤ s.mem_brk
  unfolding q old
  src_hi = omega (arith, Heap-end inv.sound.heap, span-append xs ((k, false) ∷ ((n, true) ∷ vs)))

  run : grow_into_prev (q + k + 8) q n s ≡ ok (q + 8) after_copy
  unfolding grow_into_prev q after_copy
  run =
      let ptr : payload (behind s xs) 0 ≡ behind s xs + 8 = omega arith in
      rw
        (
          pulled.run,
          block_size-eq before,
          add-small n k (omega (arith, here.hi, here.top)),
          merged.run,
          ptr,
          slide_run (state merged) xs (behind s xs + k + 8) n (n + k) vs new_inv room src_lo src_hi,
        )
        refl

  -- With a free block before the block and room in the two together, `grow_into_prev` makes them one
  -- block at the address of the free one, with the data moved to its payload; all other allocated
  -- blocks and payloads are the same.
  pub grow_into_prev_lem :
      RegrownAt
        (grow_into_prev (behind s xs + k + 8) (behind s xs) n s)
        s
        (xs ++ ((k, false) ∷ []))
        n
        vs
        b_size
        xs
        (n + k)
        vs
  unfolding q after_copy
  grow_into_prev_lem =
      let p = s.mem_start_brk in
      let m = state merged in
      let src = behind s xs + k + 8 in
      let us = xs ++ ((k, false) ∷ []) in
      let e : behind s xs + (n + k) ≡ behind s us + n =
        omega (arith, span-append xs ((k, false) ∷ [])) in
      let e' : behind s us ≡ behind s xs + k = omega (arith, span-append xs ((k, false) ∷ [])) in
      let c : behind s us + n ≡ behind s xs + k + n = omega (arith, e') in
      (
        slid m xs src n,
        run,
        slide-Inv m xs src n (n + k) vs new_inv room src_lo src_hi,
        fits,
        ap (λ t. allocs p xs ++ allocs t vs) e
            ∙ ap (λ t. t ++ allocs (behind s us + n) vs)
                (sym (allocs-append p xs ((k, false) ∷ []) ∙ append-nil (allocs p xs))),
        λ i lt.
            slide_data m xs src n (n + k) vs new_inv room src_lo src_hi i (omega arith)
            ∙ new_keeps (src + i) (payload_of (src + i) (ground arith))
            ∙ ap s.mem (omega (arith, e')),
        λ a i.
            let front : payload_byte p xs a ≡ true =
              ground (arith, i, payload_byte-append p xs ((k, false) ∷ []) a) in
            slide_before m xs src n (n + k) vs new_inv room src_lo src_hi a front
            ∙ new_keeps a (payload_of a (ground (arith, front))),
        λ a i.
            let back : payload_byte (behind s xs + k + n) vs a ≡ true =
              ap (λ t. payload_byte t vs a) (sym c) ∙ i in
            slide_after m xs src n (n + k) vs new_inv room src_lo src_hi (behind s us + n) vs
              (omega (arith, e')) a i
            ∙ new_keeps a (payload_of a (ground (arith, back))),
        refl,
        refl,
      )
