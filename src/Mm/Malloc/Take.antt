-- ===== src/Mm/Malloc/Take.antt =====
-- `mm_malloc` at a free block with room: the block is taken whole, or split.
use cs0330_fall2022_7_malloc.Base.{
  ℕ, ◌+◌, ◌-◌, ◌%◌, ◌≤◌, ◌<◌, ◌≡◌, refl, sym, subst, ap, List, [], ◌∷◌, ◌++◌, true, false, arith,
  ◌∙◌, count, SameItems, lt-cases, ◌⊎◌, inl, inr,
}
use cs0330_fall2022_7_malloc.Machine.{Mem, State, ok, sub}
use cs0330_fall2022_7_malloc.Machine.Words.{sub-small, less-lt, less-le}
use cs0330_fall2022_7_malloc.Block.{payload}
use cs0330_fall2022_7_malloc.Block.Laws.{Here, block_size-eq}
use cs0330_fall2022_7_malloc.Layout.{Blocks, Heap, done, block, frees}
use cs0330_fall2022_7_malloc.Layout.Payload.{KeepsPayload}
use cs0330_fall2022_7_malloc.Layout.Retile.{
  SameOutside, others, FreeRing-same, Sound-retile, FreeRing-retile,
}
use cs0330_fall2022_7_malloc.Layout.Shape.{IsShaped-take, IsShaped-split}
use cs0330_fall2022_7_malloc.Layout.Sound.{Sound}
use cs0330_fall2022_7_malloc.FreeList.{insert_free_block, pull_free_block}
use cs0330_fall2022_7_malloc.FreeList.Ring.{FreeRing}
use cs0330_fall2022_7_malloc.Mm.{take_block, split_block}
use cs0330_fall2022_7_malloc.Mm.Coalesce.Branches.{behind}
use cs0330_fall2022_7_malloc.Mm.Ends.{Ends}
use cs0330_fall2022_7_malloc.Mm.Inv.{Inv, allocs, allocs-append}
use cs0330_fall2022_7_malloc.Mm.Steps.{
  state, insert_ends, pull_ends, first-Here, count-frees, count-others, flag_ends,
}
use cs0330_fall2022_7_malloc.Mm.Malloc.Split.{Splits, splits}
use cs0330_fall2022_7_malloc.Mm.Malloc.Grants.{
  Grants, GrantsAt, payload_outside, payload_taken, payload_split,
}

module _ (s : State) (xs : Blocks) (n : ℕ) (ys : Blocks) (b_size : ℕ)
    (inv : Inv s (xs ++ ((n, false) ∷ ys))) (b_aligned : b_size % 8 ≡ 0) (b_min : 32 ≤ b_size)
    (fits : b_size ≤ n) where
  old : Blocks
  old = xs ++ ((n, false) ∷ ys)

  gs : List ℕ
  gs = others s.mem_start_brk xs (behind s xs + n) ys

  all_free : SameItems (frees s.mem_start_brk old) (behind s xs ∷ gs)
  unfolding old gs
  all_free x = omega (
    arith,
    count-frees xs x s.mem_start_brk ((n, false) ∷ ys),
    count-others xs x s.mem_start_brk (behind s xs + n) ys,
  )

  pulled : Ends (pull_free_block (behind s xs) s) s old gs
  unfolding old
  pulled =
      pull_ends inv.sound (behind s xs) gs (λ x. omega (arith, all_free x))
        (FreeRing-same (behind s xs ∷ gs) all_free inv.free)

  here : Here (state pulled) (behind s xs) n false
  unfolding old
  here = first-Here {s = state pulled} xs n false ys pulled.sound

  free_size : sub n b_size ≡ n - b_size
  free_size = sub-small n b_size fits (omega (arith, here.hi, here.top))

  ptr : payload (behind s xs) 0 ≡ behind s xs + 8
  ptr = omega arith

  -- The rest would be smaller than a block: the block is taken whole.
  take_whole :
      n - b_size < 32 → GrantsAt (take_block (behind s xs) b_size s) s old xs n ys s.mem_brk
  unfolding take_block old gs
  take_whole small =
      let p = s.mem_start_brk in
      let flagged =
        flag_ends {s = state pulled} xs n false ys pulled.sound pulled.free true (omega arith) in
      (
        state flagged,
        rw
            (
              pulled.run,
              block_size-eq here,
              free_size,
              less-lt (n - b_size) 32 small (omega arith),
              flagged.run,
            )
            (ap (λ t. ok t (state flagged)) ptr),
        record {
          sound = flagged.sound;
          free =
              FreeRing-same (frees p (xs ++ ((n, true) ∷ ys)))
                (λ x. omega (
                  arith,
                  count-frees xs x p ((n, true) ∷ ys),
                  count-others xs x p (behind s xs + n) ys,
                ))
                flagged.free;
          shaped = IsShaped-take xs n ys inv.shaped;
          aligned = inv.aligned;
          epilogue = inv.epilogue;
          limit = inv.limit;
          top = inv.top;
        },
        λ a i. flagged.keeps a (payload_taken p xs n ys a i) ∙ pulled.keeps a i,
        refl,
        refl,
      )

  s₁ : State
  s₁ = state pulled

  v : ℕ
  v = behind s xs

  k : ℕ
  k = n - b_size

  -- The new layout, before the rest is in the free list.
  new : Blocks
  new = xs ++ ((b_size, true) ∷ ((k, false) ∷ ys))

  module _ (big : 32 ≤ n - b_size) (m₁ m₂ : Mem) (made : Splits s₁ v b_size k m₁ m₂) where
    s₂ : State
    s₂ = record s₁ { mem = m₂ }

    upto_same : v + (n + 0) ≡ v + n
    upto_same = omega arith

    outside : SameOutside v (v + (n + 0)) s₁.mem m₂
    unfolding v k s₁
    outside a (inl h) =
        made.second_tags.same a (inl (omega arith)) (inl (omega arith))
        ∙ made.first_tags.same a (inl h) (inl (omega arith))
    outside a (inr h) =
        made.second_tags.same a (inr (omega (arith, fits))) (inr (omega (arith, fits)))
        ∙ made.first_tags.same a (inr (omega (arith, fits))) (inr (omega (arith, fits)))

    tiles : Heap m₂ (v + (n + 0)) v ((b_size, true) ∷ ((k, false) ∷ []))
    unfolding v k
    tiles =
        block made.first_block (omega arith)
          (block made.second_tags.at (omega arith) (done (omega (arith, fits))))

    sound₂ : Sound s₂ new
    unfolding new s₂ v k s₁ old
    sound₂ =
        Sound-retile {s = state pulled} xs ((n, false) ∷ []) ys pulled.sound
          ((b_size, true) ∷ ((n - b_size, false) ∷ [])) m₂ outside tiles

    free₂ : FreeRing s₂.mem s₂.flist_first gs
    unfolding new s₂ v k gs s₁ old
    free₂ =
        let p = s.mem_start_brk in
        subst (λ t. FreeRing m₂ (state pulled).flist_first (others p xs t ys)) upto_same
          (FreeRing-retile {s = state pulled} xs ((n, false) ∷ []) ys pulled.sound m₂ outside (
            subst (λ t. FreeRing (state pulled).mem (state pulled).flist_first (others p xs t ys))
              (sym upto_same) pulled.free))

    all_free₂ : SameItems ((v + b_size) ∷ gs) (frees s.mem_start_brk new)
    unfolding new v k gs
    all_free₂ x =
        let e : behind s xs + b_size + (n - b_size) ≡ behind s xs + n = omega (arith, fits) in
        omega (
          arith,
          ap (λ t. count x (frees t ys)) e,
          count-frees xs x s.mem_start_brk ((b_size, true) ∷ ((n - b_size, false) ∷ ys)),
          count-others xs x s.mem_start_brk (behind s xs + n) ys,
        )

    inserted : Ends (insert_free_block (v + b_size) s₂) s₂ new ((v + b_size) ∷ gs)
    unfolding s₂ s₁
    inserted = insert_ends sound₂ (v + b_size) gs (λ x. omega (arith, all_free₂ x)) free₂

    split_keeps : KeepsPayload s.mem_start_brk old s.mem (state inserted).mem
    unfolding old new v k s₁ s₂
    split_keeps a i =
        inserted.keeps a (payload_split s.mem_start_brk xs b_size n ys a fits i)
        ∙ outside a (ground (arith, payload_outside s.mem_start_brk xs n ys a i))
        ∙ pulled.keeps a i

    Grants-split :
        GrantsAt
          (take_block (behind s xs) b_size s)
          s
          old
          xs
          b_size
          ((n - b_size, false) ∷ ys)
          s.mem_brk
    unfolding take_block split_block old gs new v k s₁ s₂
    Grants-split =
        let p = s.mem_start_brk in
        (
          state inserted,
          rw
              (
                pulled.run,
                block_size-eq here,
                free_size,
                less-le (n - b_size) 32 big (omega (arith, here.hi, here.top)),
                made.run,
                inserted.run,
              )
              (ap (λ t. ok t (state inserted)) ptr),
          record {
            sound = inserted.sound;
            free = FreeRing-same (frees p new) all_free₂ inserted.free;
            shaped = IsShaped-split xs b_size (n - b_size) n ys b_min big inv.shaped;
            aligned = inv.aligned;
            epilogue = inv.epilogue;
            limit = inv.limit;
            top = inv.top;
          },
          split_keeps,
          refl,
          refl,
        )

  -- From a state that satisfies the invariant, `take_block` at a free block of at least `b_size` bytes,
  -- a multiple of 8 that is 32 or more: where less than 32 bytes are left, it grants the whole block;
  -- else it grants the first `b_size` bytes of it, and the rest is a free block behind it. All other
  -- blocks, all payloads and the break are the same, and the new state satisfies the invariant.
  pub take_block_lem :
      ((n - b_size < 32)
        × GrantsAt
            (take_block (behind s xs) b_size s)
            s
            (xs ++ ((n, false) ∷ ys))
            xs
            n
            ys
            s.mem_brk)
      ⊎ ((32 ≤ n - b_size)
          × GrantsAt
              (take_block (behind s xs) b_size s)
              s
              (xs ++ ((n, false) ∷ ys))
              xs
              b_size
              ((n - b_size, false) ∷ ys)
              s.mem_brk)
  unfolding old s₁ v k
  take_block_lem = elim (lt-cases (n - b_size) 32) [
    | inl small ↦ inl (small, take_whole small)
    | inr big ↦
        let (m₁, m₂, made) =
          splits (state pulled) (behind s xs) n b_size here b_aligned b_min fits big in
        inr (big, Grants-split big m₁ m₂ made)
  ]

  -- Either way, the block was not allocated and has room.
  pub take_block-Grants :
      Grants (take_block (behind s xs) b_size s) s (xs ++ ((n, false) ∷ ys)) b_size
  take_block-Grants =
      let p = s.mem_start_brk in
      let same = allocs-append p xs ((n, false) ∷ ys) in
      elim take_block_lem [
        | inl (small, (s', run, inv', keeps, base, brk)) ↦
            (s', xs, n, ys, run, inv', fits, same, keeps, base)
        | inr (big, (s', run, inv', keeps, base, brk)) ↦
            let e : behind s xs + b_size + (n - b_size) ≡ behind s xs + n = omega (arith, fits) in
            (
              s',
              xs,
              b_size,
              ((n - b_size, false) ∷ ys),
              run,
              inv',
              omega arith,
              same ∙ ap (λ t. allocs p xs ++ allocs t ys) (sym e),
              keeps,
              base,
            )
      ]
