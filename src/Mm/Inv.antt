-- ===== src/Mm/Inv.antt =====
-- The invariant of the allocator between two calls.
use cs0330_fall2022_7_malloc.Base.{
  ℕ, ◌+◌, ◌%◌, ◌^◌, ◌≤◌, ◌<◌, ◌≡◌, refl, sym, subst, List, [], ◌∷◌, ◌++◌, Bool, true, false, arith,
  ap, ◌∙◌, ◌==◌, if◌then◌else◌, ◌⊎◌, inl, inr,
}
use cs0330_fall2022_7_malloc.Machine.{Mem, State}
use cs0330_fall2022_7_malloc.Layout.{Blocks, span, frees, Heap, block}
use cs0330_fall2022_7_malloc.Layout.Shape.{
  Place, at_start, at_end, next, walk, walk-append, IsShaped,
}
use cs0330_fall2022_7_malloc.Layout.Sound.{Sound}
use cs0330_fall2022_7_malloc.FreeList.Ring.{FreeRing}

-- The heap has the shaped layout `bs`, the free list holds exactly its free blocks, and the
-- globals point to its two ends.
pub record Inv (s : State) (bs : Blocks) : Type 0 where
  pub sound : Sound s bs
  pub free : FreeRing s.mem s.flist_first (frees s.mem_start_brk bs)
  pub shaped : IsShaped bs
  pub aligned : s.mem_start_brk % 8 ≡ 0
  pub epilogue : s.epilogue + 16 ≡ s.mem_brk
  pub limit : s.mem_brk ≤ s.mem_max_addr
  pub top : s.mem_max_addr < 2 ^ 63

-- The blocks that were given to the program, by address and size: all allocated ones but the
-- prologue and the epilogue, which are the only ones of 16 bytes.
abbrev pub allocs : ℕ → Blocks → List (ℕ × ℕ)
allocs p [] = []
allocs p ((n, true) ∷ bs) = if n == 16 then allocs (p + n) bs else ((p, n) ∷ allocs (p + n) bs)
allocs p ((n, false) ∷ bs) = allocs (p + n) bs

pub allocs-append :
    (p : ℕ) (xs ys : Blocks) → allocs p (xs ++ ys) ≡ allocs p xs ++ allocs (p + span xs) ys
allocs-append p [] ys = ap (λ q. allocs q ys) (omega arith)
allocs-append p ((n, true) ∷ xs) ys =
    if-append (n == 16) (p, n) _ _ _
      (allocs-append (p + n) xs ys ∙ ap (λ q. allocs (p + n) xs ++ allocs q ys) (omega arith))
  where
    if-append :
        (c : Bool) (a : ℕ × ℕ) (l xs' ys' : List (ℕ × ℕ))
        → l ≡ xs' ++ ys'
        → (if c then l else (a ∷ l)) ≡ (if c then xs' else (a ∷ xs')) ++ ys'
    if-append true a l xs' ys' e = e
    if-append false a l xs' ys' e = ap (λ t. a ∷ t) e
allocs-append p ((n, false) ∷ xs) ys =
    allocs-append (p + n) xs ys ∙ ap (λ q. allocs (p + n) xs ++ allocs q ys) (omega arith)

-- The last block of a list that is not empty.
pub last_block :
    (xs : Blocks)
    → (xs ≡ []) ⊎ ((xs' : Blocks) × (k : ℕ) × (g : Bool) × (xs ≡ xs' ++ ((k, g) ∷ [])))
last_block [] = inl refl
last_block ((n, f) ∷ xs) = elim (last_block xs) [
  | inl e ↦ inr ([], n, f, ap (λ t. (n, f) ∷ t) e)
  | inr (xs', k, g, e) ↦ inr ((n, f) ∷ xs', k, g, ap (λ t. (n, f) ∷ t) e)
]

-- The layout of a state that satisfies the invariant ends with the epilogue.
pub shaped_last : (bs : Blocks) → IsShaped bs → (zs : Blocks) × (bs ≡ zs ++ ((16, true) ∷ []))
unfolding walk next
shaped_last bs h = elim (last_block bs) [
  | inl e ↦ absurd (empty_not_shaped (subst IsShaped e h))
  | inr (zs, k, g, e) ↦
      let (size, flag) =
        ends (walk at_start zs) k g
          (sym (walk-append at_start zs ((k, g) ∷ [])) ∙ subst IsShaped e h) in
      (zs, e ∙ ap (λ t. zs ++ (t ∷ [])) (ap (λ t. (t, g)) size ∙ ap (λ t. (16, t)) flag))
]
  where
    empty_not_shaped : IsShaped [] → ⊥
    empty_not_shaped e = cc

    ends : (p : Place) (k : ℕ) (g : Bool) → next p k g ≡ at_end → (k ≡ 16) × (g ≡ true)
    ends p k g e = ground arith

-- Every address where a block starts is aligned.
pub span-aligned :
    {m : Mem} {e : ℕ} (xs ys : Blocks) {p : ℕ} → Heap m e p (xs ++ ys) → span xs % 8 ≡ 0
span-aligned [] ys h = omega arith
span-aligned ((n, f) ∷ xs) ys (block b l h) = omega (arith, b.aligned, span-aligned xs ys h)
