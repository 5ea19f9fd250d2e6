-- ===== src/Mm/Realloc/Grown.antt =====
-- What the three ways in which `mm_realloc` takes in neighbours have in common.
use cs0330_fall2022_7_malloc.Base.{
  ℕ, ◌+◌, ◌^◌, ◌≤◌, ◌<◌, ◌≡◌, [], ◌∷◌, ◌++◌, Bool, true, false, ◌⊎◌, inl, inr,
}
use cs0330_fall2022_7_malloc.Machine.{State, Run}
use cs0330_fall2022_7_malloc.Layout.{Blocks}
use cs0330_fall2022_7_malloc.Mm.{align}
use cs0330_fall2022_7_malloc.Mm.Coalesce.Branches.{behind}
use cs0330_fall2022_7_malloc.Mm.Inv.{Inv}
use cs0330_fall2022_7_malloc.Mm.Realloc.{mm_realloc}
use cs0330_fall2022_7_malloc.Mm.Realloc.Grow.{realloc_grows}
use cs0330_fall2022_7_malloc.Mm.Realloc.Regrown.{Regrown, RegrownAt-Regrown}

module _ (s : State) (xs : Blocks) (k : ℕ) (g : Bool) (n j : ℕ) (h : Bool) (ys : Blocks) (size : ℕ)
    (inv : Inv s (xs ++ ((k, g) ∷ ((n, true) ∷ ((j, h) ∷ ys))))) (big : 32 ≤ n) (pos : 0 < size)
    (small : size + 32 < 2 ^ 63) (larger : n < align size + 16) where
  abbrev run : Run ℕ
  run = mm_realloc (behind s xs + k + 8) size s

  pub realloc-Regrown :
      (((g ≡ false) × (align size + 16 ≤ n + k)) ⊎ ((h ≡ false) × (align size + 16 ≤ n + j)))
        ⊎ ((g ≡ false) × (h ≡ false) × (align size + 16 ≤ n + j + k))
      → Regrown run s (xs ++ ((k, g) ∷ [])) n ((j, h) ∷ ys) (align size + 16)
  realloc-Regrown room =
      let us = xs ++ ((k, g) ∷ []) in
      let vs = (j, h) ∷ ys in
      let weaken = RegrownAt-Regrown run s us n vs (align size + 16) in
      elim (realloc_grows s xs k g n j h ys size inv big pos small larger room) [
        | inl (_, _, before) ↦ weaken xs (n + k) vs before
        | inr (inl (_, _, _, after)) ↦ weaken us (n + j) ys after
        | inr (inr (_, _, _, _, _, both)) ↦ weaken xs (n + j + k) ys both
      ]
