-- ===== src/Mm/Realloc/Grow.antt =====
-- `mm_realloc` at a larger size, where the neighbours have room for it.
use mathlib.Core.List.{append_assoc}
use cs0330_fall2022_7_malloc.Base.{
  ℕ, ◌+◌, ◌^◌, ◌≤◌, ◌<◌, ◌≡◌, refl, sym, subst, ap, [], ◌∷◌, ◌++◌, Bool, true, false, arith, ◌∙◌,
  ◌⊎◌, inl, inr, ne→==,
}
use cs0330_fall2022_7_malloc.Machine.{State, ok, add, sub}
use cs0330_fall2022_7_malloc.Machine.Words.{less-lt}
use cs0330_fall2022_7_malloc.Block.{block_prev, payload_to_block, tags_size}
use cs0330_fall2022_7_malloc.Block.Laws.{Here, block_next-eq, block_prev-eq, block_size-eq}
use cs0330_fall2022_7_malloc.Layout.{Blocks, span-append, Heap, Heap-tail}
use cs0330_fall2022_7_malloc.Mm.{align}
use cs0330_fall2022_7_malloc.Mm.Coalesce.Branches.{behind}
use cs0330_fall2022_7_malloc.Mm.Inv.{Inv}
use cs0330_fall2022_7_malloc.Mm.Realloc.{
  has_room_both, grow, grow_into_prev, grow_into_next, grow_into_both, move_block, mm_realloc,
}
use cs0330_fall2022_7_malloc.Mm.Realloc.Both.{grow_into_both_lem}
use cs0330_fall2022_7_malloc.Mm.Realloc.Next.{grow_into_next_lem}
use cs0330_fall2022_7_malloc.Mm.Realloc.Prev.{grow_into_prev_lem}
use cs0330_fall2022_7_malloc.Mm.Realloc.Regrown.{RegrownAt}
use cs0330_fall2022_7_malloc.Mm.Realloc.Room.{
  free_links, fits_one, fits_two, has_room-eq, has_room_both-eq,
}
use cs0330_fall2022_7_malloc.Mm.Request.{align-nearest}
use cs0330_fall2022_7_malloc.Mm.Steps.{first-Here, second-Here, third-Here, heap_after}

-- The neighbours that are taken in, and what comes of it.
abbrev pub TakesIn :
    State
    → (xs : Blocks) → (k : ℕ) → (g : Bool) → (n j : ℕ) → (h : Bool) → (ys : Blocks) → (size : ℕ)
    → Type 0
TakesIn s xs k g n j h ys size =
    let old = xs ++ ((k, g) ∷ []) in
    let run = mm_realloc (behind s xs + k + 8) size s in
    ((g ≡ false)
      × (align size + 16 ≤ n + k)
      × RegrownAt run s old n ((j, h) ∷ ys) (align size + 16) xs (n + k) ((j, h) ∷ ys))
    ⊎ (((g ≡ true) ⊎ (n + k < align size + 16))
        × (h ≡ false)
        × (align size + 16 ≤ n + j)
        × RegrownAt run s old n ((j, h) ∷ ys) (align size + 16) old (n + j) ys)
    ⊎ ((g ≡ false)
        × (n + k < align size + 16)
        × (h ≡ false)
        × (n + j < align size + 16)
        × (align size + 16 ≤ n + j + k)
        × RegrownAt run s old n ((j, h) ∷ ys) (align size + 16) xs (n + j + k) ys)

module _ (s : State) (xs : Blocks) (k : ℕ) (g : Bool) (n j : ℕ) (h : Bool) (ys : Blocks) (size : ℕ)
    (inv : Inv s (xs ++ ((k, g) ∷ ((n, true) ∷ ((j, h) ∷ ys))))) (big : 32 ≤ n) (pos : 0 < size)
    (small : size + 32 < 2 ^ 63) (larger : n < align size + 16) where
  abbrev r : ℕ
  r = align size + 16

  r_small : r < 2 ^ 63
  r_small = omega (arith, (align-nearest size (omega arith)).2)

  us : Blocks
  us = xs ++ ((k, g) ∷ [])

  us_end : behind s us ≡ behind s xs + k
  unfolding us
  us_end = omega (arith, span-append xs ((k, g) ∷ []))

  before : Here s (behind s xs) k g
  before = first-Here {s = s} xs k g ((n, true) ∷ ((j, h) ∷ ys)) inv.sound

  here : Here s (behind s xs + k) n true
  here = second-Here {s = s} xs k g n true ((j, h) ∷ ys) inv.sound

  after : Here s (behind s xs + k + n) j h
  after = third-Here {s = s} xs k g n true j h ys inv.sound

  -- The call ends with the block between these.
  Goal : Blocks → ℕ → Blocks → Type 0
  Goal ls m rs = RegrownAt (mm_realloc (behind s xs + k + 8) size s) s us n ((j, h) ∷ ys) r ls m rs

  back_prev : block_prev (behind s xs + k) s ≡ ok (behind s xs) s
  back_prev = block_prev-eq before

  to_grow :
      mm_realloc (behind s xs + k + 8) size s ≡ grow (behind s xs + k + 8) (behind s xs + k) n r s
  unfolding mm_realloc payload_to_block
  to_grow =
      let (e, lo, hi) = align-nearest size (omega arith) in
      let back : sub (behind s xs + k + 8) 8 ≡ behind s xs + k = omega (arith, here.hi, here.top) in
      let sum : add (align size) tags_size ≡ align size + 16 = omega arith in
      rw
        (
          ne→== (behind s xs + k + 8) 0 (omega arith),
          ne→== size 0 (omega arith),
          back,
          block_size-eq here,
          sum,
          less-lt n (align size + 16) larger (omega arith),
        )
        refl

  -- The order in which `grow` asks its neighbours.
  ask_before :
      fits_one g n k r ≡ true
      → grow (behind s xs + k + 8) (behind s xs + k) n r s
        ≡ grow_into_prev (behind s xs + k + 8) (behind s xs) n s
  unfolding grow
  ask_before e =
      rw
        (
          block_next-eq here,
          back_prev,
          has_room-eq g n r before (omega (arith, here.hi, here.top)) r_small,
          e,
        )
        refl

  ask_after :
      fits_one g n k r ≡ false
      → fits_one h n j r ≡ true
      → grow (behind s xs + k + 8) (behind s xs + k) n r s ≡ grow_into_next (behind s xs + k) n s
  unfolding grow
  ask_after e e' =
      rw
        (
          block_next-eq here,
          back_prev,
          has_room-eq g n r before (omega (arith, here.hi, here.top)) r_small,
          e,
          has_room-eq h n r after (omega (arith, after.hi, after.top)) r_small,
          e',
        )
        refl

  ask_both :
      fits_one g n k r ≡ false
      → fits_one h n j r ≡ false
      → has_room_both (behind s xs) (behind s xs + k + n) n r s ≡ ok true s
      → grow (behind s xs + k + 8) (behind s xs + k) n r s
        ≡ grow_into_both (behind s xs + k + 8) (behind s xs) (behind s xs + k + n) n s
  unfolding grow
  ask_both e e' both =
      rw
        (
          block_next-eq here,
          back_prev,
          has_room-eq g n r before (omega (arith, here.hi, here.top)) r_small,
          e,
          has_room-eq h n r after (omega (arith, after.hi, after.top)) r_small,
          e',
          both,
        )
        refl

  links_before : g ≡ false → 32 ≤ k
  links_before e = free_links (
      subst (λ t. Heap s.mem s.mem_brk (behind s xs) ((k, t) ∷ ((n, true) ∷ ((j, h) ∷ ys)))) e
        (heap_after {s = s} xs ((k, g) ∷ ((n, true) ∷ ((j, h) ∷ ys))) inv.sound))

  links_after : h ≡ false → 32 ≤ j
  links_after e = free_links (
      subst (λ t. Heap s.mem s.mem_brk (behind s xs + k + n) ((j, t) ∷ ys)) e
        (Heap-tail
          (Heap-tail (heap_after {s = s} xs ((k, g) ∷ ((n, true) ∷ ((j, h) ∷ ys))) inv.sound))))

  -- Where no neighbours have room, the block is moved.
  pub realloc_moves :
      fits_one g n k (align size + 16) ≡ false
      → fits_one h n j (align size + 16) ≡ false
      → fits_two g h n k j (align size + 16) ≡ false
      → mm_realloc (behind s xs + k + 8) size s
        ≡ move_block (behind s xs + k + 8) n (align size + 16) s
  unfolding grow
  realloc_moves e e' both =
      to_grow
      ∙ rw
          (
            block_next-eq here,
            back_prev,
            has_room-eq g n r before (omega (arith, here.hi, here.top)) r_small,
            e,
            has_room-eq h n r after (omega (arith, after.hi, after.top)) r_small,
            e',
            has_room_both-eq g h n r before after (omega (arith, after.hi, after.top)) r_small,
            both,
          )
          refl

  by_before : fits_one g n k r ≡ true → Goal xs (n + k) ((j, h) ∷ ys)
  unfolding Goal us
  by_before e =
      let free : g ≡ false = ground (arith, e) in
      let enough : r ≤ n + k = ground (arith, e) in
      subst (λ t. RegrownAt t s (xs ++ ((k, g) ∷ [])) n ((j, h) ∷ ys) r xs (n + k) ((j, h) ∷ ys))
        (sym (to_grow ∙ ask_before e))
        (subst
          (λ t.
            RegrownAt (grow_into_prev (behind s xs + k + 8) (behind s xs) n s) s
              (xs ++ ((k, t) ∷ [])) n ((j, h) ∷ ys) r xs (n + k) ((j, h) ∷ ys))
          (sym free)
          (grow_into_prev_lem s xs k n ((j, h) ∷ ys) r
            (subst (λ t. Inv s (xs ++ ((k, t) ∷ ((n, true) ∷ ((j, h) ∷ ys))))) free inv) big enough
            (links_before free) (omega (arith, after.at.tags))))

  by_after : fits_one g n k r ≡ false → fits_one h n j r ≡ true → Goal us (n + j) ys
  unfolding Goal us
  by_after e e' =
      let free : h ≡ false = ground (arith, e') in
      let enough : r ≤ n + j = ground (arith, e') in
      let front = xs ++ ((k, g) ∷ []) in
      subst (λ t. RegrownAt t s front n ((j, h) ∷ ys) r front (n + j) ys)
        (sym (to_grow ∙ ask_after e e' ∙ ap (λ t. grow_into_next t n s) (sym us_end)))
        (subst
          (λ t.
            RegrownAt (grow_into_next (behind s front) n s) s front n ((j, t) ∷ ys) r front (n + j)
              ys)
          (sym free)
          (grow_into_next_lem s front n j ys r
            (subst (Inv s) (sym (append_assoc xs ((k, g) ∷ []) ((n, true) ∷ ((j, false) ∷ ys))))
              (subst (λ t. Inv s (xs ++ ((k, g) ∷ ((n, true) ∷ ((j, t) ∷ ys))))) free inv))
            big enough))

  by_both :
      g ≡ false
      → h ≡ false
      → r ≤ n + j + k
      → fits_one g n k r ≡ false
      → fits_one h n j r ≡ false
      → Goal xs (n + j + k) ys
  unfolding Goal us
  by_both free free' enough e e' =
      let room =
        has_room_both-eq g h n r before after (omega (arith, after.hi, after.top)) r_small
        ∙ ap (λ t. ok t s) (ground (arith, free, free')) in
      subst (λ t. RegrownAt t s (xs ++ ((k, g) ∷ [])) n ((j, h) ∷ ys) r xs (n + j + k) ys)
        (sym (to_grow ∙ ask_both e e' room))
        (subst
          (λ t.
            RegrownAt (grow_into_both (behind s xs + k + 8) (behind s xs) (behind s xs + k + n) n s)
              s (xs ++ ((k, t) ∷ [])) n ((j, h) ∷ ys) r xs (n + j + k) ys)
          (sym free)
          (subst
            (λ t.
              RegrownAt
                (grow_into_both (behind s xs + k + 8) (behind s xs) (behind s xs + k + n) n s) s
                (xs ++ ((k, false) ∷ [])) n ((j, t) ∷ ys) r xs (n + j + k) ys)
            (sym free')
            (grow_into_both_lem s xs k n j ys r
              (subst (λ t. Inv s (xs ++ ((k, false) ∷ ((n, true) ∷ ((j, t) ∷ ys))))) free'
                (subst (λ t. Inv s (xs ++ ((k, t) ∷ ((n, true) ∷ ((j, h) ∷ ys))))) free inv))
              big enough (links_before free) (links_after free'))))

  -- From a state that satisfies the invariant, `mm_realloc` at a size that the block of 32 bytes or more
  -- has no room for, but that it has together with a free neighbour or with two: if the block before it
  -- is free and there is room in both, the new block is these two, at the address of the one before; if
  -- not, and the one after it is free and there is room in both, it is these two, at the same address;
  -- else it is all three, at the address of the one before. The data of the block are at the address
  -- that is returned, all other allocated blocks and their payloads and the break are the same, and the
  -- new state satisfies the invariant.
  pub realloc_grows :
      (((g ≡ false) × (align size + 16 ≤ n + k)) ⊎ ((h ≡ false) × (align size + 16 ≤ n + j)))
        ⊎ ((g ≡ false) × (h ≡ false) × (align size + 16 ≤ n + j + k))
      → TakesIn s xs k g n j h ys size
  unfolding Goal us
  realloc_grows room = tests (fits_one g n k r) (fits_one h n j r) refl refl room
    where
      tests :
          (c d : Bool)
          → fits_one g n k r ≡ c
          → fits_one h n j r ≡ d
          → (((g ≡ false) × (r ≤ n + k)) ⊎ ((h ≡ false) × (r ≤ n + j)))
            ⊎ ((g ≡ false) × (h ≡ false) × (r ≤ n + j + k))
          → TakesIn s xs k g n j h ys size
      tests true d e e' room = inl (ground (arith, e), ground (arith, e), by_before e)
      tests false true e e' room =
          inr (inl (ground (arith, e), ground (arith, e'), ground (arith, e'), by_after e e'))
      tests false false e e' (inl (inl fits)) = absurd (ground (arith, e, fits))
      tests false false e e' (inl (inr fits)) = absurd (ground (arith, e', fits))
      tests false false e e' (inr fits) = inr (
          inr (
            fits.0,
            ground (arith, e, fits.0),
            fits.1,
            ground (arith, e', fits.1),
            fits.2,
            by_both fits.0 fits.1 fits.2 e e',
          ))
