-- ===== src/Mm/Realloc/Edges.antt =====
-- `mm_realloc` where it moves nothing: at NULL, at size 0, and at a size that the block has.
use cs0330_fall2022_7_malloc.Base.{
  ℕ, ◌+◌, ◌^◌, ◌≤◌, ◌<◌, ◌≡◌, refl, ap, ◌∷◌, ◌++◌, true, arith, ◌⊎◌, inl, inr, ne→==,
}
use cs0330_fall2022_7_malloc.Machine.{State, ok, proceed, null, add, sub}
use cs0330_fall2022_7_malloc.Machine.Words.{less-le}
use cs0330_fall2022_7_malloc.Block.{payload_to_block, tags_size}
use cs0330_fall2022_7_malloc.Block.Laws.{Here, block_size-eq}
use cs0330_fall2022_7_malloc.Layout.{Blocks}
use cs0330_fall2022_7_malloc.Layout.Payload.{KeepsPayload}
use cs0330_fall2022_7_malloc.Mm.{mm_malloc, align}
use cs0330_fall2022_7_malloc.Mm.Coalesce.Branches.{behind}
use cs0330_fall2022_7_malloc.Mm.Free.{mm_free_lem}
use cs0330_fall2022_7_malloc.Mm.Inv.{Inv, allocs}
use cs0330_fall2022_7_malloc.Mm.Malloc.Total.{mm_malloc_lem}
use cs0330_fall2022_7_malloc.Mm.Realloc.{mm_realloc}
use cs0330_fall2022_7_malloc.Mm.Request.{align-nearest, request_size_bounds}
use cs0330_fall2022_7_malloc.Mm.Steps.{first-Here}

-- A block was allocated at `behind s xs`, and the run does not return it.
abbrev pub Leaks : State → Blocks → (size : ℕ) → Type 0
Leaks s bs size =
    (s' : State) × (xs : Blocks) × (k : ℕ) × (ys : Blocks) × (mm_malloc size s
      ≡ ok (behind s xs + 8) s')
    × (mm_realloc null size s ≡ ok null s')
    × Inv s' (xs ++ ((k, true) ∷ ys))
    × (size + 16 ≤ k)
    × (allocs s.mem_start_brk bs ≡ allocs s.mem_start_brk xs ++ allocs (behind s xs + k) ys)

-- From a state that satisfies the invariant and at a positive size below 2 ^ 31 - 32, `mm_realloc` at
-- NULL returns NULL whatever `mm_malloc` returns: where `mm_malloc` returns a block, that block is
-- allocated and its address is not returned; otherwise `mm_malloc` returns NULL and nothing changes.
pub realloc_at_null :
    (s : State) (bs : Blocks) (size : ℕ)
    → Inv s bs
    → 0 < size
    → size + 32 < 2 ^ 31
    → Leaks s bs size ⊎ ((mm_malloc size s ≡ ok null s) × (mm_realloc null size s ≡ ok null s))
unfolding mm_realloc
realloc_at_null s bs size inv pos small = elim (mm_malloc_lem s bs size inv pos small) [
  | inl (s', xs, k, ys, run, inv', room, same, keeps, base) ↦ inl (
    s',
    xs,
    k,
    ys,
    run,
    ap (λ t. proceed t (λ _ s₁. ok null s₁)) run,
    inv',
    omega (arith, (request_size_bounds size pos (omega arith)).2),
    same,
  )
  | inr none ↦ inr (none.0, ap (λ t. proceed t (λ _ s₁. ok null s₁)) none.0)
]

module _ (s : State) (xs : Blocks) (n : ℕ) (ys : Blocks)
    (inv : Inv s (xs ++ ((n, true) ∷ ys))) where
  here : Here s (behind s xs) n true
  here = first-Here {s = s} xs n true ys inv.sound

  ptr_pos : 0 < behind s xs
  ptr_pos = omega (arith, inv.sound.low)

  ptr_back : sub (behind s xs + 8) 8 ≡ behind s xs
  ptr_back = omega (arith, here.hi, here.top)

  -- From a state that satisfies the invariant, `mm_realloc` with size 0 at an allocated block of 32
  -- bytes or more frees the block and returns NULL: the new state satisfies the invariant, and all
  -- other allocated blocks and their payloads are the same.
  pub realloc_to_zero :
      32 ≤ n
      → (s' : State) × (bs' : Blocks) × (mm_realloc (behind s xs + 8) 0 s ≡ ok null s')
        × Inv s' bs'
        × (allocs s.mem_start_brk bs' ≡ allocs s.mem_start_brk xs ++ allocs (behind s xs + n) ys)
        × KeepsPayload s.mem_start_brk bs' s.mem s'.mem
  unfolding mm_realloc
  realloc_to_zero big =
      let (s', bs', run, inv', same, keeps, brk, base) = mm_free_lem s xs n ys inv big in
      (
        s',
        bs',
        rw (ne→== (behind s xs + 8) 0 (omega arith)) (ap (λ t. proceed t (λ _ s₁. ok null s₁)) run),
        inv',
        same,
        keeps,
      )

  -- From a state that satisfies the invariant, `mm_realloc` at a positive size below 2 ^ 63 - 32 for
  -- which the block has room, with both tags, returns the block as it is and changes nothing.
  pub realloc_in_place :
      (size : ℕ)
      → 0 < size
      → size + 32 < 2 ^ 63
      → align size + 16 ≤ n
      → mm_realloc (behind s xs + 8) size s ≡ ok (behind s xs + 8) s
  unfolding mm_realloc payload_to_block
  realloc_in_place size pos small room =
      let (e, lo, hi) = align-nearest size (omega arith) in
      let sum : add (align size) tags_size ≡ align size + 16 = omega arith in
      rw
        (
          ne→== (behind s xs + 8) 0 (omega arith),
          ne→== size 0 (omega arith),
          ptr_back,
          block_size-eq here,
          sum,
          less-le n (align size + 16) room (omega (arith, here.hi, here.top)),
        )
        refl
