-- ===== src/Mm/Coalesce/Branches.antt =====
-- The four branches of `coalescing`, and the function as a whole.
use mathlib.Core.List.{append_assoc}
use cs0330_fall2022_7_malloc.Base.{
  ℕ, ◌+◌, ◌≡◌, refl, sym, subst, ap, [], ◌∷◌, ◌++◌, Bool, true, false, arith, count, SameItems,
}
use cs0330_fall2022_7_malloc.Machine.{State, ◌>>◌}
use cs0330_fall2022_7_malloc.Block.Laws.{block_allocated-eq}
use cs0330_fall2022_7_malloc.Layout.{Blocks, span, span-append, frees}
use cs0330_fall2022_7_malloc.Layout.Payload.{payload_byte}
use cs0330_fall2022_7_malloc.Layout.Retile.{others, FreeRing-same}
use cs0330_fall2022_7_malloc.Layout.Sound.{Sound}
use cs0330_fall2022_7_malloc.FreeList.{insert_free_block}
use cs0330_fall2022_7_malloc.FreeList.Ring.{FreeRing}
use cs0330_fall2022_7_malloc.Mm.{absorb_next, coalesce_prev, coalesce_next}
use cs0330_fall2022_7_malloc.Mm.Ends.{Ends}
use cs0330_fall2022_7_malloc.Mm.Steps.{
  state, Ends-then, Ends-cast, insert_ends, first-Here, second-Here, third-Here, count-frees,
  count-others,
}
use cs0330_fall2022_7_malloc.Mm.Coalesce.{free_payload, absorb_ends, absorb_next_ends}

-- What becomes of a free block of `n` bytes between two neighbours.
unfoldable pub joined : ℕ → Bool → ℕ → ℕ → Bool → Blocks → Blocks
joined k true n j true ys = (k, true) ∷ ((n, false) ∷ ((j, true) ∷ ys))
joined k false n j true ys = (k + n, false) ∷ ((j, true) ∷ ys)
joined k true n j false ys = (k, true) ∷ ((n + j, false) ∷ ys)
joined k false n j false ys = (k + n + j, false) ∷ ys

-- The address behind a prefix of the layout.
abbrev pub behind : State → Blocks → ℕ
behind s xs = s.mem_start_brk + span xs

-- The second half, once the block of `n` bytes behind the prefix is out of the list.
module _ {s : State} (xs : Blocks) (n : ℕ) (j : ℕ) (h : Bool) (ys : Blocks)
    (sound : Sound s (xs ++ ((n, false) ∷ ((j, h) ∷ ys))))
    (free : FreeRing s.mem s.flist_first
      (others s.mem_start_brk xs (behind s xs + n) ((j, h) ∷ ys))) where
  -- The next block is in use: the block goes back to the list.
  back_in_list :
      Ends
        (insert_free_block (behind s xs) s)
        s
        (xs ++ ((n, false) ∷ ((j, h) ∷ ys)))
        (frees s.mem_start_brk (xs ++ ((n, false) ∷ ((j, h) ∷ ys))))
  back_in_list =
      let p = s.mem_start_brk in
      let all = xs ++ ((n, false) ∷ ((j, h) ∷ ys)) in
      let gs = others p xs (p + span xs + n) ((j, h) ∷ ys) in
      let same : (x : ℕ) → count x ((p + span xs) ∷ gs) ≡ count x (frees p all) = λ x. omega (
        arith,
        count-frees xs x p ((n, false) ∷ ((j, h) ∷ ys)),
        count-others xs x p (p + span xs + n) ((j, h) ∷ ys),
      ) in
      Ends-cast (frees p all) refl refl same
        (insert_ends sound (p + span xs) gs (λ x. omega (arith, same x)) free)

-- The next block is free too: it is taken in.
module _ {s : State} (xs : Blocks) (n : ℕ) (j : ℕ) (ys : Blocks)
    (sound : Sound s (xs ++ ((n, false) ∷ ((j, false) ∷ ys))))
    (free : FreeRing s.mem s.flist_first
      (others s.mem_start_brk xs (behind s xs + n) ((j, false) ∷ ys))) where
  take_next_in :
      Ends
        (absorb_next (behind s xs + n) (behind s xs) s)
        s
        (xs ++ ((n + j, false) ∷ ys))
        (frees s.mem_start_brk (xs ++ ((n + j, false) ∷ ys)))
  take_next_in =
      let p = s.mem_start_brk in
      let c = p + span xs + n in
      absorb_next_ends xs n j ys sound (
        FreeRing-same (c ∷ others p xs (c + j) ys)
          (λ x.
            omega (arith, count-others xs x p c ((j, false) ∷ ys), count-others xs x p (c + j) ys))
          free)

-- With an allocated block before, the result stands behind that block.
module _ (s : State) (xs : Blocks) (k n j : ℕ) (ys : Blocks) where
  front : Blocks
  front = xs ++ ((k, true) ∷ [])

  front-append : (zs : Blocks) → front ++ zs ≡ xs ++ ((k, true) ∷ zs)
  unfolding front
  front-append zs = append_assoc xs ((k, true) ∷ []) zs

  behind-front : (t : State) → behind t front ≡ behind t xs + k
  unfolding front
  behind-front t = omega (arith, span-append xs ((k, true) ∷ []))

  front-others :
      (zs : Blocks)
      → SameItems
          (others s.mem_start_brk xs (behind s xs + k + n) zs)
          (others s.mem_start_brk front (behind s front + n) zs)
  unfolding front
  front-others zs x = omega (
    arith,
    count-others xs x s.mem_start_brk (behind s xs + k + n) zs,
    count-others front x s.mem_start_brk (behind s front + n) zs,
    count-frees xs x s.mem_start_brk ((k, true) ∷ []),
    ap (λ t. count x (frees (t + n) zs)) (behind-front s),
  )

  after_used_used :
      Sound s (xs ++ ((k, true) ∷ ((n, false) ∷ ((j, true) ∷ ys))))
      → FreeRing s.mem s.flist_first
          (others s.mem_start_brk xs (behind s xs + k + n) ((j, true) ∷ ys))
      → Ends
          (insert_free_block (behind s xs + k) s)
          s
          (xs ++ ((k, true) ∷ ((n, false) ∷ ((j, true) ∷ ys))))
          (frees s.mem_start_brk (xs ++ ((k, true) ∷ ((n, false) ∷ ((j, true) ∷ ys)))))
  after_used_used sound free =
      let zs = (n, false) ∷ ((j, true) ∷ ys) in
      Ends-cast (frees s.mem_start_brk (xs ++ ((k, true) ∷ zs)))
        (ap (λ t. insert_free_block t s) (behind-front s)) (front-append zs)
        (λ x. ap (λ t. count x (frees s.mem_start_brk t)) (front-append zs))
        (back_in_list {s = s} front n j true ys (subst (Sound s) (sym (front-append zs)) sound) (
          FreeRing-same (others s.mem_start_brk front (behind s front + n) ((j, true) ∷ ys))
            (front-others ((j, true) ∷ ys)) free))

  after_used_free :
      Sound s (xs ++ ((k, true) ∷ ((n, false) ∷ ((j, false) ∷ ys))))
      → FreeRing s.mem s.flist_first
          (others s.mem_start_brk xs (behind s xs + k + n) ((j, false) ∷ ys))
      → Ends
          (absorb_next (behind s xs + k + n) (behind s xs + k) s)
          s
          (xs ++ ((k, true) ∷ ((n + j, false) ∷ ys)))
          (frees s.mem_start_brk (xs ++ ((k, true) ∷ ((n + j, false) ∷ ys))))
  after_used_free sound free =
      let zs = (n, false) ∷ ((j, false) ∷ ys) in
      let zs' = (n + j, false) ∷ ys in
      Ends-cast (frees s.mem_start_brk (xs ++ ((k, true) ∷ zs')))
        (ap (λ t. absorb_next (t + n) t s) (behind-front s)) (front-append zs')
        (λ x. ap (λ t. count x (frees s.mem_start_brk t)) (front-append zs'))
        (take_next_in {s = s} front n j ys (subst (Sound s) (sym (front-append zs)) sound) (
          FreeRing-same (others s.mem_start_brk front (behind s front + n) ((j, false) ∷ ys))
            (front-others ((j, false) ∷ ys)) free))

joined_payload :
    (p : ℕ) (xs : Blocks) (k n j : ℕ) (h : Bool) (ys : Blocks) (a : ℕ)
    → payload_byte p (xs ++ joined k false n j h ys) a ≡ true
    → payload_byte p (xs ++ ((k + n, false) ∷ ((j, h) ∷ ys))) a ≡ true
unfolding joined
joined_payload p xs k n j true ys a i = i
joined_payload p xs k n j false ys a i = free_payload p xs ys (k + n) j a i

-- From the block out of the list to the joined block in it: with an allocated block before, and
-- with a free one.
module _ {s : State} (xs : Blocks) (k n j : ℕ) (ys : Blocks) where
  pub finish_after_used :
      (h : Bool)
      → Sound s (xs ++ ((k, true) ∷ ((n, false) ∷ ((j, h) ∷ ys))))
      → FreeRing s.mem s.flist_first (others s.mem_start_brk xs (behind s xs + k + n) ((j, h) ∷ ys))
      → Ends
          ((coalesce_prev (behind s xs) (behind s xs + k)
              >> coalesce_next (behind s xs) (behind s xs + k) (behind s xs + k + n))
            s)
          s
          (xs ++ joined k true n j h ys)
          (frees s.mem_start_brk (xs ++ joined k true n j h ys))
  unfolding coalesce_prev coalesce_next joined
  finish_after_used true sound free =
      rw
        (
          block_allocated-eq (first-Here {s = s} xs k true ((n, false) ∷ ((j, true) ∷ ys)) sound),
          block_allocated-eq (third-Here {s = s} xs k true n false j true ys sound),
          block_allocated-eq (first-Here {s = s} xs k true ((n, false) ∷ ((j, true) ∷ ys)) sound),
        )
        (after_used_used s xs k n j ys sound free)
  finish_after_used false sound free =
      rw
        (
          block_allocated-eq (first-Here {s = s} xs k true ((n, false) ∷ ((j, false) ∷ ys)) sound),
          block_allocated-eq (third-Here {s = s} xs k true n false j false ys sound),
          block_allocated-eq (first-Here {s = s} xs k true ((n, false) ∷ ((j, false) ∷ ys)) sound),
        )
        (after_used_free s xs k n j ys sound free)

  -- The second half after the block before has taken the block in.
  second_half :
      (h : Bool)
      → Sound s (xs ++ ((k + n, false) ∷ ((j, h) ∷ ys)))
      → FreeRing s.mem s.flist_first
          (others s.mem_start_brk xs (behind s xs + (k + n)) ((j, h) ∷ ys))
      → Ends
          (coalesce_next (behind s xs) (behind s xs + k) (behind s xs + (k + n)) s)
          s
          (xs ++ joined k false n j h ys)
          (frees s.mem_start_brk (xs ++ joined k false n j h ys))
  unfolding coalesce_next joined
  second_half true sound free =
      rw
        (
          block_allocated-eq (second-Here {s = s} xs (k + n) false j true ys sound),
          block_allocated-eq (first-Here {s = s} xs (k + n) false ((j, true) ∷ ys) sound),
        )
        (back_in_list {s = s} xs (k + n) j true ys sound free)
  second_half false sound free =
      rw
        (
          block_allocated-eq (second-Here {s = s} xs (k + n) false j false ys sound),
          block_allocated-eq (first-Here {s = s} xs (k + n) false ((j, false) ∷ ys) sound),
        )
        (take_next_in {s = s} xs (k + n) j ys sound free)

module _ {s : State} (xs : Blocks) (k n j : ℕ) (ys : Blocks) where
  pub finish_after_free :
      (h : Bool)
      → Sound s (xs ++ ((k, false) ∷ ((n, false) ∷ ((j, h) ∷ ys))))
      → FreeRing s.mem s.flist_first
          (behind s xs ∷ others s.mem_start_brk xs (behind s xs + k + n) ((j, h) ∷ ys))
      → Ends
          ((coalesce_prev (behind s xs) (behind s xs + k)
              >> coalesce_next (behind s xs) (behind s xs + k) (behind s xs + k + n))
            s)
          s
          (xs ++ joined k false n j h ys)
          (frees s.mem_start_brk (xs ++ joined k false n j h ys))
  unfolding coalesce_prev
  finish_after_free h sound free =
      let zs = (n, false) ∷ ((j, h) ∷ ys) in
      let absorbed = absorb_ends xs k n ((j, h) ∷ ys) sound free in
      let e : behind s xs + k + n ≡ behind s xs + (k + n) = omega arith in
      rw (block_allocated-eq (first-Here {s = s} xs k false zs sound), e)
        (Ends-then absorbed (coalesce_next (behind s xs) (behind s xs + k) (behind s xs + (k + n)))
          (joined_payload s.mem_start_brk xs k n j h ys)
          (second_half {s = state absorbed} xs k n j ys h absorbed.sound absorbed.free))
