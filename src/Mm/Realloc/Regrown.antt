-- ===== src/Mm/Realloc/Regrown.antt =====
-- What `mm_realloc` promises where it makes a block larger, and the steps its branches share.
use cs0330_fall2022_7_malloc.Base.{
  ℕ, ◌+◌, ◌≤◌, ◌<◌, ◌≡◌, ◌≢◌, refl, sym, ap, ◌∷◌, ◌++◌, true, false, arith, ◌∙◌, ◌⊎◌, inl, inr,
  lt→ltb, le→ltb, le→leb, lt→leb,
}
use cs0330_fall2022_7_malloc.Machine.{Mem, State, Run, ok, copied}
use cs0330_fall2022_7_malloc.Layout.{Blocks}
use cs0330_fall2022_7_malloc.Layout.Payload.{KeepsPayload}
use cs0330_fall2022_7_malloc.Layout.Shape.{
  Place, at_start, after_used, after_free, at_end, broken, next, walk, walk-append, walk_end,
  walk_used_of_free, IsShaped,
}
use cs0330_fall2022_7_malloc.Mm.Coalesce.Branches.{behind}
use cs0330_fall2022_7_malloc.Mm.Inv.{Inv, allocs}

-- The block of `n` bytes between `us` and `vs` has become one of at least `b_size` bytes: its data
-- are at the new payload, and all other allocated blocks and their payloads are the same.
abbrev pub Regrown : Run ℕ → State → (us : Blocks) → (n : ℕ) → (vs : Blocks) → (b_size : ℕ) → Type 0
Regrown r s us n vs b_size =
    (s' : State) × (xs : Blocks) × (k : ℕ) × (ys : Blocks) × (r ≡ ok (behind s xs + 8) s')
    × Inv s' (xs ++ ((k, true) ∷ ys))
    × (b_size ≤ k)
    × (allocs s.mem_start_brk xs ++ allocs (behind s xs + k) ys
        ≡ allocs s.mem_start_brk us ++ allocs (behind s us + n) vs)
    × ((i : ℕ) → i + 16 < n → s'.mem (behind s xs + 8 + i) ≡ s.mem (behind s us + 8 + i))
    × KeepsPayload s.mem_start_brk us s.mem s'.mem
    × KeepsPayload (behind s us + n) vs s.mem s'.mem
    × (s'.mem_start_brk ≡ s.mem_start_brk)

-- The same with the new block: the `k` bytes between `xs` and `ys`. The break does not move.
abbrev pub RegrownAt :
    Run ℕ
    → State
    → (us : Blocks) → (n : ℕ) → (vs : Blocks) → (b_size : ℕ) → (xs : Blocks) → (k : ℕ)
    → (ys : Blocks) → Type 0
RegrownAt r s us n vs b_size xs k ys =
    (s' : State) × (r ≡ ok (behind s xs + 8) s')
    × Inv s' (xs ++ ((k, true) ∷ ys))
    × (b_size ≤ k)
    × (allocs s.mem_start_brk xs ++ allocs (behind s xs + k) ys
        ≡ allocs s.mem_start_brk us ++ allocs (behind s us + n) vs)
    × ((i : ℕ) → i + 16 < n → s'.mem (behind s xs + 8 + i) ≡ s.mem (behind s us + 8 + i))
    × KeepsPayload s.mem_start_brk us s.mem s'.mem
    × KeepsPayload (behind s us + n) vs s.mem s'.mem
    × (s'.mem_start_brk ≡ s.mem_start_brk)
    × (s'.mem_brk ≡ s.mem_brk)

pub RegrownAt-Regrown :
    (r : Run ℕ) (s : State) (us : Blocks) (n : ℕ) (vs : Blocks) (b_size : ℕ) (xs : Blocks) (k : ℕ)
    (ys : Blocks)
    → RegrownAt r s us n vs b_size xs k ys
    → Regrown r s us n vs b_size
RegrownAt-Regrown r s us n vs b_size xs k ys
      (s', run, inv, fits, same, bytes, keeps, keeps', base, brk) =
    (s', xs, k, ys, run, inv, fits, same, bytes, keeps, keeps', base)

-- `memmove` copies inside its destination, and changes nothing else.
pub copied_in : (m : Mem) (dest src n i : ℕ) → i < n → copied m dest src n (dest + i) ≡ m (src + i)
unfolding copied
copied_in m dest src n i h =
    rw (le→leb dest (dest + i) (omega arith), lt→ltb (dest + i) (dest + n) (omega arith))
      (ap (λ t. m (src + t)) (omega arith))

pub copied_out :
    (m : Mem) (dest src n a : ℕ) → ((a < dest) ⊎ (dest + n ≤ a)) → copied m dest src n a ≡ m a
unfolding copied
copied_out m dest src n a (inl h) = rw (lt→leb dest a h) refl
copied_out m dest src n a (inr h) = rw (le→leb dest a (omega arith), le→ltb a (dest + n) h) refl

-- A block in use takes in the free block after it, the one before it, or both.
pub grown_next-IsShaped :
    (xs : Blocks) (n j : ℕ) (ys : Blocks)
    → 32 ≤ n
    → IsShaped (xs ++ ((n, true) ∷ ((j, false) ∷ ys)))
    → IsShaped (xs ++ ((n + j, true) ∷ ys))
unfolding walk next
grown_next-IsShaped xs n j ys big h =
    let p = walk at_start xs in
    let whole : walk (next (next p n true) j false) ys ≡ at_end =
      sym (walk-append at_start xs ((n, true) ∷ ((j, false) ∷ ys))) ∙ h in
    let (free, used) = places p n j big (walk_end (next (next p n true) j false) ys whole) in
    walk-append at_start xs ((n + j, true) ∷ ys)
    ∙ ap (λ t. walk t ys) used
    ∙ walk_used_of_free ys (ap (λ t. walk t ys) (sym free) ∙ whole)
  where
    places :
        (p : Place) (n j : ℕ)
        → 32 ≤ n
        → next (next p n true) j false ≢ broken
        → (next (next p n true) j false ≡ after_free) × (next p (n + j) true ≡ after_used)
    places p n j big w = ground arith

pub grown_prev-IsShaped :
    (xs : Blocks) (k n : ℕ) (ys : Blocks)
    → 32 ≤ n
    → IsShaped (xs ++ ((k, false) ∷ ((n, true) ∷ ys)))
    → IsShaped (xs ++ ((n + k, true) ∷ ys))
unfolding walk next
grown_prev-IsShaped xs k n ys big h =
    let p = walk at_start xs in
    let whole : walk (next (next p k false) n true) ys ≡ at_end =
      sym (walk-append at_start xs ((k, false) ∷ ((n, true) ∷ ys))) ∙ h in
    walk-append at_start xs ((n + k, true) ∷ ys)
    ∙ ap (λ t. walk t ys) (place p k n big (walk_end (next (next p k false) n true) ys whole))
    ∙ whole
  where
    place :
        (p : Place) (k n : ℕ)
        → 32 ≤ n
        → next (next p k false) n true ≢ broken
        → next p (n + k) true ≡ next (next p k false) n true
    place p k n big w = ground arith

pub grown_both-IsShaped :
    (xs : Blocks) (k n j : ℕ) (ys : Blocks)
    → 32 ≤ n
    → IsShaped (xs ++ ((k, false) ∷ ((n, true) ∷ ((j, false) ∷ ys))))
    → IsShaped (xs ++ ((n + j + k, true) ∷ ys))
unfolding walk next
grown_both-IsShaped xs k n j ys big h =
    let p = walk at_start xs in
    let last = next (next (next p k false) n true) j false in
    let whole : walk last ys ≡ at_end =
      sym (walk-append at_start xs ((k, false) ∷ ((n, true) ∷ ((j, false) ∷ ys)))) ∙ h in
    let (free, used) = places p k n j big (walk_end last ys whole) in
    walk-append at_start xs ((n + j + k, true) ∷ ys)
    ∙ ap (λ t. walk t ys) used
    ∙ walk_used_of_free ys (ap (λ t. walk t ys) (sym free) ∙ whole)
  where
    places :
        (p : Place) (k n j : ℕ)
        → 32 ≤ n
        → next (next (next p k false) n true) j false ≢ broken
        → (next (next (next p k false) n true) j false ≡ after_free)
          × (next p (n + j + k) true ≡ after_used)
    places p k n j big w = ground arith
