-- ===== src/Mm/Neighbours.antt =====
-- What the accessors say of the blocks on both sides of a block between two calls.
use cs0330_fall2022_7_malloc.Base.{
  ℕ, ◌+◌, ◌≡◌, refl, sym, subst, [], ◌∷◌, ◌++◌, Bool, true, false, ◌⊎◌, inl, inr,
}
use mathlib.Core.List.{append_assoc}
use cs0330_fall2022_7_malloc.Machine.{State, ok, bit}
use cs0330_fall2022_7_malloc.Block.{
  block_next_allocated, block_next_size, block_prev_allocated, block_prev_size,
}
use cs0330_fall2022_7_malloc.Block.Laws.{
  block_next-eq, block_prev-eq, block_prev_size-eq, block_size-eq, block_allocated-eq,
}
use cs0330_fall2022_7_malloc.Layout.{Blocks}
use cs0330_fall2022_7_malloc.Layout.Shape.{IsShaped, no_free_neighbours}
use cs0330_fall2022_7_malloc.Mm.Coalesce.Branches.{behind}
use cs0330_fall2022_7_malloc.Mm.Inv.{Inv}
use cs0330_fall2022_7_malloc.Mm.Steps.{first-Here, second-Here, third-Here}

before_free :
    (xs : Blocks) (k : ℕ) (g : Bool) (n : ℕ) (ys : Blocks)
    → IsShaped (xs ++ ((k, g) ∷ ((n, false) ∷ ys)))
    → g ≡ true
before_free xs k true n ys h = refl
before_free xs k false n ys h = no_free_neighbours xs k n false ys h

used_around :
    (xs : Blocks) (k : ℕ) (g : Bool) (n : ℕ) (f : Bool) (j : ℕ) (h : Bool) (ys : Blocks)
    → IsShaped (xs ++ ((k, g) ∷ ((n, f) ∷ ((j, h) ∷ ys))))
    → (f ≡ true) ⊎ ((g ≡ true) × (h ≡ true))
used_around xs k g n true j h ys shaped = inl refl
used_around xs k g n false j h ys shaped = inr (
  before_free xs k g n ((j, h) ∷ ys) shaped,
  no_free_neighbours (xs ++ ((k, g) ∷ [])) n j h ys
      (subst IsShaped (sym (append_assoc xs ((k, g) ∷ []) ((n, false) ∷ ((j, h) ∷ ys)))) shaped),
)

-- In a state that satisfies the invariant, at every block between two others, `block_prev_size` and
-- `block_prev_allocated` give the size and the flag of the block before it, and `block_next_size` and
-- `block_next_allocated` those of the block after it; where the block is free, both flags are set.
pub neighbours_seen :
    (s : State) (xs : Blocks) (k : ℕ) (g : Bool) (n : ℕ) (f : Bool) (j : ℕ) (h : Bool) (ys : Blocks)
    → Inv s (xs ++ ((k, g) ∷ ((n, f) ∷ ((j, h) ∷ ys))))
    → (block_prev_size (behind s xs + k) s ≡ ok k s)
      × (block_prev_allocated (behind s xs + k) s ≡ ok (bit g) s)
      × (block_next_size (behind s xs + k) s ≡ ok j s)
      × (block_next_allocated (behind s xs + k) s ≡ ok (bit h) s)
      × ((f ≡ true) ⊎ ((g ≡ true) × (h ≡ true)))
unfolding block_next_allocated block_next_size block_prev_allocated
neighbours_seen s xs k g n f j h ys inv =
    let before = first-Here {s = s} xs k g ((n, f) ∷ ((j, h) ∷ ys)) inv.sound in
    let here = second-Here {s = s} xs k g n f ((j, h) ∷ ys) inv.sound in
    let after = third-Here {s = s} xs k g n f j h ys inv.sound in
    (
      block_prev_size-eq before,
      rw (block_prev-eq before, block_allocated-eq before) refl,
      rw (block_next-eq here, block_size-eq after) refl,
      rw (block_next-eq here, block_allocated-eq after) refl,
      used_around xs k g n f j h ys inv.shaped,
    )
