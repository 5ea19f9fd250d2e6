-- ===== src/Mm/Coalesce/Result.antt =====
-- `coalescing` as a whole.
use mathlib.Core.List.{append_assoc}
use cs0330_fall2022_7_malloc.Base.{
  ℕ, ◌+◌, ◌≡◌, sym, subst, List, [], ◌∷◌, ◌++◌, Bool, true, false, arith, SameItems,
}
use cs0330_fall2022_7_malloc.Machine.{State, ◌>>◌}
use cs0330_fall2022_7_malloc.Block.Laws.{block_next-eq, block_prev-eq}
use cs0330_fall2022_7_malloc.Layout.{Blocks, span, frees}
use cs0330_fall2022_7_malloc.Layout.Payload.{payload_byte}
use cs0330_fall2022_7_malloc.Layout.Retile.{others, FreeRing-same}
use cs0330_fall2022_7_malloc.Layout.Sound.{Sound}
use cs0330_fall2022_7_malloc.FreeList.Ring.{FreeRing}
use cs0330_fall2022_7_malloc.Mm.{coalesce_prev, coalesce_next, coalescing}
use cs0330_fall2022_7_malloc.Mm.Ends.{Ends}
use cs0330_fall2022_7_malloc.Mm.Steps.{
  state, Ends-then, pull_ends, first-Here, second-Here, count-frees, count-others,
}
use cs0330_fall2022_7_malloc.Mm.Coalesce.{free_payload}
use cs0330_fall2022_7_malloc.Mm.Coalesce.Branches.{
  joined, behind, finish_after_used, finish_after_free,
}

-- The layout that `coalescing` meets.
abbrev pub three : ℕ → Bool → ℕ → ℕ → Bool → Blocks → Blocks
three k g n j h ys = (k, g) ∷ ((n, false) ∷ ((j, h) ∷ ys))

-- The payloads of the joined layout were payloads before.
pub three_payload :
    (p : ℕ) (xs : Blocks) (k : ℕ) (g : Bool) (n j : ℕ) (h : Bool) (ys : Blocks) (a : ℕ)
    → payload_byte p (xs ++ joined k g n j h ys) a ≡ true
    → payload_byte p (xs ++ three k g n j h ys) a ≡ true
unfolding joined
three_payload p xs k true n j true ys a i = i
three_payload p xs k false n j true ys a i = free_payload p xs ((j, true) ∷ ys) k n a i
three_payload p xs k false n j false ys a i =
    free_payload p xs ((j, false) ∷ ys) k n a (free_payload p xs ys (k + n) j a i)
three_payload p xs k true n j false ys a i =
    let assoc = λ (zs : Blocks). append_assoc xs ((k, true) ∷ []) zs in
    subst (λ t. payload_byte p t a ≡ true) (assoc ((n, false) ∷ ((j, false) ∷ ys)))
      (free_payload p (xs ++ ((k, true) ∷ [])) ys n j a
        (subst (λ t. payload_byte p t a ≡ true) (sym (assoc ((n + j, false) ∷ ys))) i))

-- What the free list holds beside the block.
beside : (p : ℕ) (xs : Blocks) (k n j : ℕ) (ys : Blocks) → Bool → Bool → List ℕ
beside p xs k n j ys true h = others p xs (p + span xs + k + n) ((j, h) ∷ ys)
beside p xs k n j ys false h = (p + span xs) ∷ others p xs (p + span xs + k + n) ((j, h) ∷ ys)

beside_all :
    (p : ℕ) (xs : Blocks) (k n j : ℕ) (ys : Blocks) (g h : Bool)
    → SameItems (frees p (xs ++ three k g n j h ys)) ((p + span xs + k) ∷ beside p xs k n j ys g h)
unfolding beside
beside_all p xs k n j ys true h x = omega (
  arith,
  count-frees xs x p (three k true n j h ys),
  count-others xs x p (p + span xs + k + n) ((j, h) ∷ ys),
)
beside_all p xs k n j ys false h x = omega (
  arith,
  count-frees xs x p (three k false n j h ys),
  count-others xs x p (p + span xs + k + n) ((j, h) ∷ ys),
)

module _ {s : State} (xs : Blocks) (k n j : ℕ) (ys : Blocks) where
  finish :
      (g h : Bool)
      → Sound s (xs ++ three k g n j h ys)
      → FreeRing s.mem s.flist_first (beside s.mem_start_brk xs k n j ys g h)
      → Ends
          ((coalesce_prev (behind s xs) (behind s xs + k)
              >> coalesce_next (behind s xs) (behind s xs + k) (behind s xs + k + n))
            s)
          s
          (xs ++ joined k g n j h ys)
          (frees s.mem_start_brk (xs ++ joined k g n j h ys))
  unfolding beside
  finish true h sound free = finish_after_used xs k n j ys h sound free
  finish false h sound free = finish_after_free xs k n j ys h sound free

-- On a sound heap whose free blocks are all in the free list, `coalescing` at a free block with a block on either side ends
-- well: the block and its free neighbours are one block, all free blocks are in the list again,
-- and no payload has changed.
pub coalescing_ends :
    {s : State} (xs : Blocks) (k : ℕ) (g : Bool) (n j : ℕ) (h : Bool) (ys : Blocks)
    → Sound s (xs ++ three k g n j h ys)
    → FreeRing s.mem s.flist_first (frees s.mem_start_brk (xs ++ three k g n j h ys))
    → Ends
        (coalescing (behind s xs + k) s)
        s
        (xs ++ joined k g n j h ys)
        (frees s.mem_start_brk (xs ++ joined k g n j h ys))
unfolding coalescing beside
coalescing_ends {s} xs k g n j h ys sound free =
    let b = behind s xs + k in
    let all = beside_all s.mem_start_brk xs k n j ys g h in
    let pulled =
      pull_ends sound b (beside s.mem_start_brk xs k n j ys g h) (λ x. omega (arith, all x))
        (FreeRing-same (b ∷ beside s.mem_start_brk xs k n j ys g h) all free) in
    rw
      (
        block_next-eq (second-Here {s = s} xs k g n false ((j, h) ∷ ys) sound),
        block_prev-eq (first-Here {s = s} xs k g ((n, false) ∷ ((j, h) ∷ ys)) sound),
      )
      (Ends-then pulled (coalesce_prev (behind s xs) b >> coalesce_next (behind s xs) b (b + n))
        (three_payload s.mem_start_brk xs k g n j h ys)
        (finish {s = state pulled} xs k n j ys g h pulled.sound pulled.free))
