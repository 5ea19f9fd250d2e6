-- ===== src/Mm/Realloc/Both.antt =====
-- `mm_realloc` where the free block before the block takes it in, and the free one after it.
use cs0330_fall2022_7_malloc.Base.{
  ℕ, ◌+◌, ◌≤◌, ◌≡◌, refl, sym, ap, List, [], ◌∷◌, ◌++◌, true, false, arith, ◌∙◌, ◌||◌, count,
  SameItems,
}
use mathlib.Core.List.{append-nil}
use cs0330_fall2022_7_malloc.Machine.{State, ok}
use cs0330_fall2022_7_malloc.Machine.Words.{add-small}
use cs0330_fall2022_7_malloc.Block.{payload, block_set_size_and_allocated}
use cs0330_fall2022_7_malloc.Block.Laws.{Here, block_size-eq}
use cs0330_fall2022_7_malloc.Layout.{Blocks, span-append, frees, Heap-end}
use cs0330_fall2022_7_malloc.Layout.Payload.{payload_byte, payload_byte-append}
use cs0330_fall2022_7_malloc.Layout.Retile.{others, FreeRing-same}
use cs0330_fall2022_7_malloc.FreeList.{pull_free_block}
use cs0330_fall2022_7_malloc.Mm.Coalesce.Branches.{behind}
use cs0330_fall2022_7_malloc.Mm.Ends.{Ends}
use cs0330_fall2022_7_malloc.Mm.Inv.{Inv, allocs, allocs-append}
use cs0330_fall2022_7_malloc.Mm.Realloc.{grow_into_both}
use cs0330_fall2022_7_malloc.Mm.Realloc.Regrown.{RegrownAt, grown_both-IsShaped}
use cs0330_fall2022_7_malloc.Mm.Realloc.Slide.{
  slid, slide_run, slide-Inv, slide_data, slide_before, slide_after,
}
use cs0330_fall2022_7_malloc.Mm.Steps.{
  state, pull_ends, merge_ends, first-Here, second-Here, third-Here, count-frees, count-others,
}

module _ (s : State) (xs : Blocks) (k n j : ℕ) (ys : Blocks) (b_size : ℕ)
    (inv : Inv s (xs ++ ((k, false) ∷ ((n, true) ∷ ((j, false) ∷ ys))))) (big : 32 ≤ n)
    (fits : b_size ≤ n + j + k) (links : 32 ≤ k) (links' : 32 ≤ j) where
  q : ℕ
  q = behind s xs

  old : Blocks
  old = xs ++ ((k, false) ∷ ((n, true) ∷ ((j, false) ∷ ys)))

  gs : List ℕ
  gs = others s.mem_start_brk xs (q + k + n + j) ys

  all_free : SameItems (frees s.mem_start_brk old) ((q + k + n) ∷ (q ∷ gs))
  unfolding old gs q
  all_free x = omega (
    arith,
    count-frees xs x s.mem_start_brk ((k, false) ∷ ((n, true) ∷ ((j, false) ∷ ys))),
    count-others xs x s.mem_start_brk (behind s xs + k + n + j) ys,
  )

  pulled_next : Ends (pull_free_block (q + k + n) s) s old (q ∷ gs)
  unfolding old
  pulled_next =
      pull_ends inv.sound (q + k + n) (q ∷ gs) (λ x. omega (arith, all_free x))
        (FreeRing-same ((q + k + n) ∷ (q ∷ gs)) all_free inv.free)

  pulled : Ends (pull_free_block q (state pulled_next)) (state pulled_next) old gs
  pulled = pull_ends pulled_next.sound q gs (λ x. omega (arith, all_free x)) pulled_next.free

  before : Here (state pulled) q k false
  unfolding q old
  before = first-Here {s = state pulled} xs k false ((n, true) ∷ ((j, false) ∷ ys)) pulled.sound

  here : Here (state pulled) (q + k) n true
  unfolding q old
  here = second-Here {s = state pulled} xs k false n true ((j, false) ∷ ys) pulled.sound

  after : Here (state pulled) (q + k + n) j false
  unfolding q old
  after = third-Here {s = state pulled} xs k false n true j false ys pulled.sound

  merged :
      Ends
        (block_set_size_and_allocated q (n + j + k) 1 (state pulled))
        (state pulled)
        (xs ++ ((n + j + k, true) ∷ ys))
        gs
  unfolding q old gs
  merged =
      merge_ends {s = state pulled} xs ((k, false) ∷ ((n, true) ∷ ((j, false) ∷ []))) ys
        pulled.sound (behind s xs + k + n + j) (omega arith) pulled.free (n + j + k) true
        (omega arith) (omega (arith, here.at.aligned, before.at.aligned, after.at.aligned))
        (omega (arith, big)) (omega (arith, big))

  new_inv : Inv (state merged) (xs ++ ((n + j + k, true) ∷ ys))
  unfolding q gs
  new_inv = record {
    sound = merged.sound;
    free =
        FreeRing-same (frees s.mem_start_brk (xs ++ ((n + j + k, true) ∷ ys)))
          (λ x.
            let e : behind s xs + (n + j + k) ≡ behind s xs + k + n + j = omega arith in
            omega (
              arith,
              ap (λ t. count x (frees t ys)) e,
              count-frees xs x s.mem_start_brk ((n + j + k, true) ∷ ys),
              count-others xs x s.mem_start_brk (behind s xs + k + n + j) ys,
            ))
          merged.free;
    shaped = grown_both-IsShaped xs k n j ys big inv.shaped;
    aligned = inv.aligned;
    epilogue = inv.epilogue;
    limit = inv.limit;
    top = inv.top;
  }

  -- Up to the copy, every payload is as it was.
  new_keeps : (a : ℕ) → payload_byte s.mem_start_brk old a ≡ true → (state merged).mem a ≡ s.mem a
  unfolding old q
  new_keeps a i =
      let e : behind s xs + (n + j + k) ≡ behind s xs + k + n + j = omega arith in
      merged.keeps a (
        ground (
          arith,
          ap (λ t. payload_byte t ys a) e,
          payload_byte-append s.mem_start_brk xs ((k, false) ∷ ((n, true) ∷ ((j, false) ∷ ys))) a,
          payload_byte-append s.mem_start_brk xs ((n + j + k, true) ∷ ys) a,
        ))
      ∙ pulled.keeps a i
      ∙ pulled_next.keeps a i

  payload_of :
      (a : ℕ)
      → (payload_byte s.mem_start_brk xs a
          || payload_byte q ((k, false) ∷ ((n, true) ∷ ((j, false) ∷ ys))) a)
        ≡ true
      → payload_byte s.mem_start_brk old a ≡ true
  unfolding old q
  payload_of a i =
      payload_byte-append s.mem_start_brk xs ((k, false) ∷ ((n, true) ∷ ((j, false) ∷ ys))) a ∙ i

  after_copy : State
  after_copy = slid (state merged) xs (q + k + 8) n

  room : n + 16 ≤ n + j + k
  room = omega arith

  src_lo : s.mem_start_brk ≤ q + k + 8
  unfolding q
  src_lo = omega arith

  src_hi : q + k + 8 + n ≤ s.mem_brk
  unfolding q old
  src_hi = omega (
    arith,
    Heap-end inv.sound.heap,
    span-append xs ((k, false) ∷ ((n, true) ∷ ((j, false) ∷ ys))),
  )

  run : grow_into_both (q + k + 8) q (q + k + n) n s ≡ ok (q + 8) after_copy
  unfolding grow_into_both q after_copy
  run =
      let ptr : payload (behind s xs) 0 ≡ behind s xs + 8 = omega arith in
      rw
        (
          pulled_next.run,
          pulled.run,
          block_size-eq after,
          block_size-eq before,
          add-small n j (omega (arith, after.hi, after.top)),
          add-small (n + j) k (omega (arith, after.hi, after.top)),
          merged.run,
          ptr,
          slide_run (state merged) xs (behind s xs + k + 8) n (n + j + k) ys new_inv room src_lo
              src_hi,
        )
        refl

  -- With free blocks on both sides and room in the three together, `grow_into_both` makes them one
  -- block at the address of the first, with the data moved to its payload; all other allocated
  -- blocks and payloads are the same.
  pub grow_into_both_lem :
      RegrownAt
        (grow_into_both (behind s xs + k + 8) (behind s xs) (behind s xs + k + n) n s)
        s
        (xs ++ ((k, false) ∷ []))
        n
        ((j, false) ∷ ys)
        b_size
        xs
        (n + j + k)
        ys
  unfolding q after_copy
  grow_into_both_lem =
      let p = s.mem_start_brk in
      let m = state merged in
      let src = behind s xs + k + 8 in
      let us = xs ++ ((k, false) ∷ []) in
      let e : behind s xs + (n + j + k) ≡ behind s us + n + j =
        omega (arith, span-append xs ((k, false) ∷ [])) in
      let e' : behind s us ≡ behind s xs + k = omega (arith, span-append xs ((k, false) ∷ [])) in
      (
        slid m xs src n,
        run,
        slide-Inv m xs src n (n + j + k) ys new_inv room src_lo src_hi,
        fits,
        ap (λ t. allocs p xs ++ allocs t ys) e
            ∙ ap (λ t. t ++ allocs (behind s us + n + j) ys)
                (sym (allocs-append p xs ((k, false) ∷ []) ∙ append-nil (allocs p xs))),
        λ i lt.
            slide_data m xs src n (n + j + k) ys new_inv room src_lo src_hi i (omega arith)
            ∙ new_keeps (src + i) (payload_of (src + i) (ground arith))
            ∙ ap s.mem (omega (arith, e')),
        λ a i.
            let front : payload_byte p xs a ≡ true =
              ground (arith, i, payload_byte-append p xs ((k, false) ∷ []) a) in
            slide_before m xs src n (n + j + k) ys new_inv room src_lo src_hi a front
            ∙ new_keeps a (payload_of a (ground (arith, front))),
        λ a i.
            let back : payload_byte (behind s xs + k + n + j) ys a ≡ true =
              ap (λ t. payload_byte t ys a) (omega (arith, e')) ∙ i in
            slide_after m xs src n (n + j + k) ys new_inv room src_lo src_hi (behind s us + n + j)
              ys (omega (arith, e')) a i
            ∙ new_keeps a (payload_of a (ground (arith, back))),
        refl,
        refl,
      )
