-- ===== src/Mm/Free.antt =====
-- `mm_free` at a block in use.
use mathlib.Core.List.{append_assoc}
use cs0330_fall2022_7_malloc.Base.{
  ℕ, ◌+◌, ◌≤◌, ◌≡◌, refl, sym, subst, ap, List, [], ◌∷◌, ◌++◌, Bool, true, false, arith, ◌∙◌, count,
  SameItems, ne→==, inl, inr,
}
use cs0330_fall2022_7_malloc.Machine.{State, ok, ◌>>◌, sub}
use cs0330_fall2022_7_malloc.Block.{payload_to_block, block_set_allocated}
use cs0330_fall2022_7_malloc.Block.Laws.{Here, block_allocated-eq}
use cs0330_fall2022_7_malloc.Layout.{Blocks, span-append, frees}
use cs0330_fall2022_7_malloc.Layout.Payload.{payload_byte, KeepsPayload}
use cs0330_fall2022_7_malloc.Layout.Retile.{others, FreeRing-same}
use cs0330_fall2022_7_malloc.Layout.Shape.{
  at_start, walk, walk-append, IsShaped, not_first, not_last,
}
use cs0330_fall2022_7_malloc.Layout.Sound.{Sound}
use cs0330_fall2022_7_malloc.FreeList.{insert_free_block}
use cs0330_fall2022_7_malloc.FreeList.Ring.{FreeRing}
use cs0330_fall2022_7_malloc.Mm.{coalescing, mm_free}
use cs0330_fall2022_7_malloc.Mm.Coalesce.Branches.{joined, behind}
use cs0330_fall2022_7_malloc.Mm.Coalesce.Result.{three, three_payload, coalescing_ends}
use cs0330_fall2022_7_malloc.Mm.Coalesce.Joined.{joined-walk, joined-allocs}
use cs0330_fall2022_7_malloc.Mm.Ends.{Ends}
use cs0330_fall2022_7_malloc.Mm.Inv.{Inv, allocs, allocs-append, last_block}
use cs0330_fall2022_7_malloc.Mm.Steps.{
  state, Ends-then, Ends-cast, insert_ends, first-Here, count-frees, count-others, flag_ends,
}

module _ (s : State) (xs : Blocks) (k : ℕ) (g : Bool) (n j : ℕ) (h : Bool) (ys : Blocks)
    (sound : Sound s (xs ++ ((k, g) ∷ ((n, true) ∷ ((j, h) ∷ ys)))))
    (free : FreeRing s.mem s.flist_first
      (frees s.mem_start_brk (xs ++ ((k, g) ∷ ((n, true) ∷ ((j, h) ∷ ys))))))
    (big : 32 ≤ n) where
  -- The blocks before the block that is freed.
  front : Blocks
  front = xs ++ ((k, g) ∷ [])

  regroup : (zs : Blocks) → front ++ zs ≡ xs ++ ((k, g) ∷ zs)
  unfolding front
  regroup zs = append_assoc xs ((k, g) ∷ []) zs

  behind-front : behind s front ≡ behind s xs + k
  unfolding front
  behind-front = omega (arith, span-append xs ((k, g) ∷ []))

  rest : Blocks
  rest = (j, h) ∷ ys

  gs : List ℕ
  gs = others s.mem_start_brk front (behind s front + n) rest

  -- The list holds all free blocks but the one that is about to be freed.
  before : SameItems (frees s.mem_start_brk (front ++ ((n, true) ∷ rest))) gs
  unfolding gs
  before x = omega (
    arith,
    count-frees front x s.mem_start_brk ((n, true) ∷ rest),
    count-others front x s.mem_start_brk (behind s front + n) rest,
  )

  after : SameItems (behind s front ∷ gs) (frees s.mem_start_brk (xs ++ three k g n j h ys))
  unfolding gs rest
  after x = omega (
    arith,
    count-frees front x s.mem_start_brk ((n, false) ∷ rest),
    count-others front x s.mem_start_brk (behind s front + n) rest,
    ap (λ t. count x (frees s.mem_start_brk t)) (regroup ((n, false) ∷ rest)),
  )

  marked : Ends (block_set_allocated (behind s front) 0 s) s (front ++ ((n, false) ∷ rest)) gs
  unfolding gs rest
  marked =
      flag_ends {s = s} front n true rest (subst (Sound s) (sym (regroup ((n, true) ∷ rest))) sound)
        (FreeRing-same gs before (
          subst (λ t. FreeRing s.mem s.flist_first (frees s.mem_start_brk t))
            (sym (regroup ((n, true) ∷ rest))) free))
        false (omega arith)

  listed :
      Ends
        (insert_free_block (behind s front) (state marked))
        (state marked)
        (xs ++ three k g n j h ys)
        (frees s.mem_start_brk (xs ++ three k g n j h ys))
  unfolding gs rest
  listed =
      Ends-cast (frees s.mem_start_brk (xs ++ three k g n j h ys)) refl
        (regroup ((n, false) ∷ rest)) after
        (insert_ends marked.sound (behind s front) gs
          (λ x. omega (
            arith,
            after x,
            ap (λ t. count x (frees s.mem_start_brk t)) (regroup ((n, false) ∷ rest)),
          ))
          marked.free)

  coalesced :
      Ends
        (coalescing (behind s front) (state listed))
        (state listed)
        (xs ++ joined k g n j h ys)
        (frees s.mem_start_brk (xs ++ joined k g n j h ys))
  coalesced =
      Ends-cast (frees s.mem_start_brk (xs ++ joined k g n j h ys))
        (ap (λ t. coalescing t (state listed)) (sym behind-front)) refl (λ x. refl)
        (coalescing_ends {s = state listed} xs k g n j h ys listed.sound listed.free)

  freed :
      Ends
        (mm_free (behind s front + 8) s)
        s
        (xs ++ joined k g n j h ys)
        (frees s.mem_start_brk (xs ++ joined k g n j h ys))
  unfolding mm_free payload_to_block gs rest
  freed =
      let b = behind s front in
      let at : sub (b + 8) 8 ≡ b = b_small in
      let incl : (a : ℕ)
          → payload_byte s.mem_start_brk (xs ++ joined k g n j h ys) a ≡ true
          → payload_byte s.mem_start_brk (front ++ ((n, false) ∷ rest)) a ≡ true =
        λ a i.
          subst (λ t. payload_byte s.mem_start_brk t a ≡ true) (sym (regroup ((n, false) ∷ rest)))
            (three_payload s.mem_start_brk xs k g n j h ys a i) in
      rw (ne→== (b + 8) 0 (omega arith), at, block_allocated-eq here)
        (Ends-then marked (insert_free_block b >> coalescing b) incl (
          Ends-then listed (coalescing b) (three_payload s.mem_start_brk xs k g n j h ys)
            coalesced))
    where
      here : Here s (behind s front) n true
      here =
          first-Here {s = s} front n true rest
            (subst (Sound s) (sym (regroup ((n, true) ∷ rest))) sound)

      b_small : sub (behind s front + 8) 8 ≡ behind s front
      b_small = omega (arith, here.hi, here.top)

-- What `mm_free` leaves behind, at the block of `n` bytes between `xs` and `ys`.
abbrev pub Frees : State → Blocks → ℕ → Blocks → Type 0
Frees s xs n ys =
    (s' : State) × (bs' : Blocks) × (mm_free (behind s xs + 8) s ≡ ok tt s')
    × Inv s' bs'
    × (allocs s.mem_start_brk bs' ≡ allocs s.mem_start_brk xs ++ allocs (behind s xs + n) ys)
    × KeepsPayload s.mem_start_brk bs' s.mem s'.mem
    × (s'.mem_brk ≡ s.mem_brk)
    × (s'.mem_start_brk ≡ s.mem_start_brk)

free_between :
    (s : State) (xs : Blocks) (k : ℕ) (g : Bool) (n j : ℕ) (h : Bool) (ys : Blocks)
    → Inv s (xs ++ ((k, g) ∷ ((n, true) ∷ ((j, h) ∷ ys))))
    → 32 ≤ n
    → Frees s (xs ++ ((k, g) ∷ [])) n ((j, h) ∷ ys)
unfolding front
free_between s xs k g n j h ys inv big =
    let done = freed s xs k g n j h ys inv.sound inv.free big in
    let p = s.mem_start_brk in
    (
      state done,
      xs ++ joined k g n j h ys,
      done.run,
      record {
        sound = done.sound;
        free = done.free;
        shaped =
            walk-append at_start xs (joined k g n j h ys)
            ∙ joined-walk (walk at_start xs) k g n j h ys big
                (sym (walk-append at_start xs ((k, g) ∷ ((n, true) ∷ ((j, h) ∷ ys)))) ∙ inv.shaped);
        aligned = inv.aligned;
        epilogue = inv.epilogue;
        limit = inv.limit;
        top = inv.top;
      },
      allocs-append p xs (joined k g n j h ys)
          ∙ ap (λ t. allocs p xs ++ t) (joined-allocs (behind s xs) k g n j h ys)
          ∙ sym (allocs-append p xs (three k g n j h ys))
          ∙ ap (allocs p) (sym (append_assoc xs ((k, g) ∷ []) ((n, false) ∷ ((j, h) ∷ ys))))
          ∙ allocs-append p (xs ++ ((k, g) ∷ [])) ((n, false) ∷ ((j, h) ∷ ys)),
      done.keeps,
      refl,
      refl,
    )

free_after :
    (s : State) (xs : Blocks) (k : ℕ) (g : Bool) (n : ℕ) (ys : Blocks)
    → Inv s ((xs ++ ((k, g) ∷ [])) ++ ((n, true) ∷ ys))
    → 32 ≤ n
    → Frees s (xs ++ ((k, g) ∷ [])) n ys
free_after s xs k g n [] inv big = absurd (not_last (xs ++ ((k, g) ∷ [])) n true big inv.shaped)
free_after s xs k g n ((j, h) ∷ ys) inv big =
    free_between s xs k g n j h ys
      (subst (Inv s) (append_assoc xs ((k, g) ∷ []) ((n, true) ∷ ((j, h) ∷ ys))) inv) big

-- From a state that satisfies the invariant, `mm_free` at the payload of an allocated block of 32 bytes or more ends
-- without a fault in a state that satisfies the invariant: the block is no longer allocated, all
-- other allocated blocks are the same, their payloads are unchanged, and the break has not moved.
pub mm_free_lem :
    (s : State) (xs : Blocks) (n : ℕ) (ys : Blocks)
    → Inv s (xs ++ ((n, true) ∷ ys))
    → 32 ≤ n
    → Frees s xs n ys
mm_free_lem s xs n ys inv big = elim (last_block xs) [
  | inl e ↦
      absurd (not_first n true ys big (subst (λ t. IsShaped (t ++ ((n, true) ∷ ys))) e inv.shaped))
  | inr (xs', k, g, e) ↦
      subst (λ t. Frees s t n ys) (sym e)
        (free_after s xs' k g n ys (subst (λ t. Inv s (t ++ ((n, true) ∷ ys))) e inv) big)
]
