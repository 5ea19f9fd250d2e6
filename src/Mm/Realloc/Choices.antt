-- ===== src/Mm/Realloc/Choices.antt =====
-- Which of its ways `mm_realloc` goes at a block between two others.
use mathlib.Core.List.{append_assoc}
use cs0330_fall2022_7_malloc.Base.{
  ℕ, ◌+◌, ◌^◌, ◌≤◌, ◌<◌, ◌≡◌, refl, sym, subst, [], ◌∷◌, ◌++◌, Bool, true, false, arith, ◌⊎◌, inl,
  inr, lt-cases,
}
use cs0330_fall2022_7_malloc.Machine.{State, ok}
use cs0330_fall2022_7_malloc.Layout.{Blocks, span-append}
use cs0330_fall2022_7_malloc.Mm.{align}
use cs0330_fall2022_7_malloc.Mm.Coalesce.Branches.{behind}
use cs0330_fall2022_7_malloc.Mm.Inv.{Inv}
use cs0330_fall2022_7_malloc.Mm.Realloc.{mm_realloc, move_block}
use cs0330_fall2022_7_malloc.Mm.Realloc.Edges.{realloc_in_place}
use cs0330_fall2022_7_malloc.Mm.Realloc.Grow.{TakesIn, realloc_grows, realloc_moves}
use cs0330_fall2022_7_malloc.Mm.Realloc.Room.{fits_one, fits_two}

-- Neither a free neighbour nor two have the room.
abbrev pub NoRoom : (k : ℕ) → (g : Bool) → (n j : ℕ) → (h : Bool) → (b_size : ℕ) → Type 0
NoRoom k g n j h b_size =
    ((g ≡ true) ⊎ (n + k < b_size))
    × ((h ≡ true) ⊎ (n + j < b_size))
    × ((g ≡ true) ⊎ (h ≡ true) ⊎ (n + j + k < b_size))

-- The block stays, takes in its neighbours, or moves.
abbrev pub Chooses :
    State
    → (xs : Blocks) → (k : ℕ) → (g : Bool) → (n j : ℕ) → (h : Bool) → (ys : Blocks) → (size : ℕ)
    → Type 0
Chooses s xs k g n j h ys size =
    let ptr = behind s xs + k + 8 in
    ((align size + 16 ≤ n) × (mm_realloc ptr size s ≡ ok ptr s))
    ⊎ ((n < align size + 16) × TakesIn s xs k g n j h ys size)
    ⊎ ((n < align size + 16)
        × NoRoom k g n j h (align size + 16)
        × (mm_realloc ptr size s ≡ move_block ptr n (align size + 16) s))

module _ (s : State) (xs : Blocks) (k : ℕ) (g : Bool) (n j : ℕ) (h : Bool) (ys : Blocks) (size : ℕ)
    (inv : Inv s (xs ++ ((k, g) ∷ ((n, true) ∷ ((j, h) ∷ ys))))) (big : 32 ≤ n) (pos : 0 < size)
    (small : size + 32 < 2 ^ 63) where
  stays : align size + 16 ≤ n → mm_realloc (behind s xs + k + 8) size s ≡ ok (behind s xs + k + 8) s
  stays room =
      let us = xs ++ ((k, g) ∷ []) in
      let at : behind s us ≡ behind s xs + k = omega (arith, span-append xs ((k, g) ∷ [])) in
      subst (λ p. mm_realloc (p + 8) size s ≡ ok (p + 8) s) at
        (realloc_in_place s us n ((j, h) ∷ ys)
          (subst (Inv s) (sym (append_assoc xs ((k, g) ∷ []) ((n, true) ∷ ((j, h) ∷ ys)))) inv) size
          pos small room)

  -- From a state that satisfies the invariant, `mm_realloc` of a block of 32 bytes or more at a positive
  -- size below 2 ^ 63 - 32: where the block has room for the size and both tags, it returns the same
  -- address and changes nothing. Where it has not, but a free neighbour or both together give the room,
  -- it takes them in, the one before the block if that is enough, else the one after it if that is
  -- enough, else both. Only where no neighbours give the room, it moves the block.
  pub realloc-Chooses : Chooses s xs k g n j h ys size
  realloc-Chooses = elim (lt-cases n (align size + 16)) [
    | inr room ↦ inl (room, stays room)
    | inl larger ↦
        tests larger (fits_one g n k (align size + 16)) (fits_one h n j (align size + 16))
          (fits_two g h n k j (align size + 16)) refl refl refl
  ]
    where
      grows :
          n < align size + 16
          → (((g ≡ false) × (align size + 16 ≤ n + k)) ⊎ ((h ≡ false) × (align size + 16 ≤ n + j)))
            ⊎ ((g ≡ false) × (h ≡ false) × (align size + 16 ≤ n + j + k))
          → Chooses s xs k g n j h ys size
      grows larger room =
          inr (inl (larger, realloc_grows s xs k g n j h ys size inv big pos small larger room))

      tests :
          n < align size + 16
          → (c d e : Bool) → fits_one g n k (align size + 16) ≡ c
          → fits_one h n j (align size + 16) ≡ d
          → fits_two g h n k j (align size + 16) ≡ e
          → Chooses s xs k g n j h ys size
      tests larger true d e e₁ e₂ e₃ =
          grows larger (inl (inl (ground (arith, e₁), ground (arith, e₁))))
      tests larger false true e e₁ e₂ e₃ =
          grows larger (inl (inr (ground (arith, e₂), ground (arith, e₂))))
      tests larger false false true e₁ e₂ e₃ =
          grows larger (inr (ground (arith, e₃), ground (arith, e₃), ground (arith, e₃)))
      tests larger false false false e₁ e₂ e₃ = inr (
          inr (
            larger,
            (ground (arith, e₁), ground (arith, e₂), ground (arith, e₃)),
            realloc_moves s xs k g n j h ys size inv big pos small larger e₁ e₂ e₃,
          ))
