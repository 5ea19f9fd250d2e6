-- ===== src/Mm/Abstract/Resize.antt =====
-- `mm_realloc` at a positive size, on the list of the blocks that were given out.
use cs0330_fall2022_7_malloc.Base.{
  ℕ, ◌+◌, ◌^◌, ◌≤◌, ◌<◌, ◌≡◌, refl, sym, subst, ap, [], ◌∷◌, ◌++◌, Bool, true, false, arith, ◌∙◌,
  ◌⊎◌, inl, inr, lt-cases,
}
use mathlib.Core.List.{append_assoc}
use cs0330_fall2022_7_malloc.Machine.{State, Run, ok, null}
use cs0330_fall2022_7_malloc.Layout.{Blocks, span-append}
use cs0330_fall2022_7_malloc.Layout.Shape.{IsShaped, not_first, not_last}
use cs0330_fall2022_7_malloc.Mm.{align}
use cs0330_fall2022_7_malloc.Mm.Abstract.{Given, Owns, Keeps-append, Keeps-refl, KeepsPayload-Keeps}
use cs0330_fall2022_7_malloc.Mm.Abstract.Calls.{allocs-middle}
use cs0330_fall2022_7_malloc.Mm.Abstract.Facts.{block_size_min}
use cs0330_fall2022_7_malloc.Mm.Abstract.Find.{allocs_find}
use cs0330_fall2022_7_malloc.Mm.Abstract.Move.{Becomes, move_block_lem}
use cs0330_fall2022_7_malloc.Mm.Coalesce.Branches.{behind}
use cs0330_fall2022_7_malloc.Mm.Inv.{Inv, allocs, last_block}
use cs0330_fall2022_7_malloc.Mm.Realloc.{mm_realloc, move_block}
use cs0330_fall2022_7_malloc.Mm.Realloc.Edges.{realloc_in_place}
use cs0330_fall2022_7_malloc.Mm.Realloc.Grow.{realloc_moves}
use cs0330_fall2022_7_malloc.Mm.Realloc.Grown.{realloc-Regrown}
use cs0330_fall2022_7_malloc.Mm.Realloc.Regrown.{Regrown}
use cs0330_fall2022_7_malloc.Mm.Realloc.Room.{fits_one, fits_two}
use cs0330_fall2022_7_malloc.Mm.Request.{align-nearest}

Becomes-weaken :
    (r : Run ℕ) (s : State) (before : Given) (q n : ℕ) (after : Given) (b_size b_size' : ℕ)
    → b_size' ≤ b_size
    → Becomes r s before q n after b_size
    → Becomes r s before q n after b_size'
Becomes-weaken r s before q n after b_size b_size' le
      (s', before', q', k, after', run, owns, others, room, moved, keeps, base) =
    (s', before', q', k, after', run, owns, others, omega arith, moved, keeps, base)

-- What `Regrown` says of a layout, for the blocks given out.
Regrown-Becomes :
    (r : Run ℕ) (s : State) (us : Blocks) (n : ℕ) (vs : Blocks) (b_size : ℕ)
    → 32 ≤ b_size
    → Regrown r s us n vs b_size
    → Becomes r s (allocs s.mem_start_brk us) (behind s us) n (allocs (behind s us + n) vs) b_size
Regrown-Becomes r s us n vs b_size big
      (s', xs, k, ys, run, inv, room, others, copied, front, back, base) =
    (
      s',
      allocs s.mem_start_brk xs,
      behind s xs,
      k,
      allocs (behind s xs + k) ys,
      run,
      (
        xs ++ ((k, true) ∷ ys),
        inv,
        ap (λ t. allocs t (xs ++ ((k, true) ∷ ys))) base
            ∙ allocs-middle s.mem_start_brk xs k ys (omega arith),
      ),
      others,
      room,
      copied,
      Keeps-append s.mem s'.mem (allocs s.mem_start_brk us) (allocs (behind s us + n) vs)
          (KeepsPayload-Keeps s.mem s'.mem s.mem_start_brk us front)
          (KeepsPayload-Keeps s.mem s'.mem (behind s us + n) vs back),
      base,
    )

-- The run at the block behind `us`, in the layout.
abbrev Resizes : State → (us : Blocks) → (n : ℕ) → (vs : Blocks) → (size : ℕ) → Type 0
Resizes s us n vs size =
    Becomes (mm_realloc (behind s us + 8) size s) s (allocs s.mem_start_brk us) (behind s us) n
      (allocs (behind s us + n) vs) (size + 16)
    ⊎ (mm_realloc (behind s us + 8) size s ≡ ok null s)

module _ (s : State) (size : ℕ) (pos : 0 < size) (small : size + 64 < 2 ^ 31) where
  wanted : ℕ
  wanted = align size + 16

  wanted_range : (size + 16 ≤ wanted) × (wanted + 32 < 2 ^ 31)
  unfolding wanted
  wanted_range = let (e, lo, hi) = align-nearest size (omega arith) in (omega arith, omega arith)

  module _ (xs : Blocks) (k : ℕ) (g : Bool) (n j : ℕ) (h : Bool) (ys : Blocks)
      (inv : Inv s (xs ++ ((k, g) ∷ ((n, true) ∷ ((j, h) ∷ ys))))) (big : 32 ≤ n)
      (larger : n < align size + 16) where
    us : Blocks
    us = xs ++ ((k, g) ∷ [])

    us_end : behind s us ≡ behind s xs + k
    unfolding us
    us_end = omega (arith, span-append xs ((k, g) ∷ []))

    us-Owns :
        Owns s
          (allocs s.mem_start_brk us ++ ((behind s us, n) ∷ allocs (behind s us + n) ((j, h) ∷ ys)))
    unfolding us
    us-Owns = (
      us ++ ((n, true) ∷ ((j, h) ∷ ys)),
      subst (Inv s) (sym (append_assoc xs ((k, g) ∷ []) ((n, true) ∷ ((j, h) ∷ ys)))) inv,
      allocs-middle s.mem_start_brk us n ((j, h) ∷ ys) big,
    )

    -- The neighbours do not have the room.
    apart :
        fits_one g n k (align size + 16) ≡ false
        → fits_one h n j (align size + 16) ≡ false
        → fits_two g h n k j (align size + 16) ≡ false
        → Resizes s us n ((j, h) ∷ ys) size
    unfolding us wanted
    apart e₁ e₂ e₃ =
        let q = behind s us in
        let p = s.mem_start_brk in
        let moves : mm_realloc (q + 8) size s ≡ move_block (q + 8) n (align size + 16) s =
          ap (λ t. mm_realloc (t + 8) size s) us_end
          ∙ realloc_moves s xs k g n j h ys size inv big pos (omega arith) larger e₁ e₂ e₃
          ∙ ap (λ t. move_block (t + 8) n (align size + 16) s) (sym us_end) in
        elim (move_block_lem s (allocs p us) q n (allocs (q + n) ((j, h) ∷ ys)) (align size + 16)
          larger us-Owns (omega (arith, wanted_range.1))) [
            | inl moved ↦ inl (
                Becomes-weaken (mm_realloc (q + 8) size s) s (allocs p us) q n
                  (allocs (q + n) ((j, h) ∷ ys)) (align size + 16) (size + 16)
                  (omega (arith, wanted_range.0))
                  (subst
                    (λ t.
                      Becomes t s (allocs p us) q n (allocs (q + n) ((j, h) ∷ ys))
                        (align size + 16))
                    (sym moves) moved))
            | inr none ↦ inr (moves ∙ none)
          ]

    together :
        (((g ≡ false) × (align size + 16 ≤ n + k)) ⊎ ((h ≡ false) × (align size + 16 ≤ n + j)))
          ⊎ ((g ≡ false) × (h ≡ false) × (align size + 16 ≤ n + j + k))
        → Resizes s us n ((j, h) ∷ ys) size
    unfolding us wanted
    together room =
        let q = behind s us in
        let p = s.mem_start_brk in
        inl (
          Becomes-weaken (mm_realloc (q + 8) size s) s (allocs p us) q n
            (allocs (q + n) ((j, h) ∷ ys)) (align size + 16) (size + 16)
            (omega (arith, wanted_range.0))
            (Regrown-Becomes (mm_realloc (q + 8) size s) s us n ((j, h) ∷ ys) (align size + 16)
              (omega arith)
              (subst
                (λ t. Regrown (mm_realloc (t + 8) size s) s us n ((j, h) ∷ ys) (align size + 16))
                (sym us_end)
                (realloc-Regrown s xs k g n j h ys size inv big pos (omega arith) larger room))))

    resize_between : Resizes s (xs ++ ((k, g) ∷ [])) n ((j, h) ∷ ys) size
    unfolding us
    resize_between =
        choose (fits_one g n k (align size + 16)) (fits_one h n j (align size + 16))
          (fits_two g h n k j (align size + 16)) refl refl refl
      where
        choose :
            (c d e : Bool)
            → fits_one g n k (align size + 16) ≡ c
            → fits_one h n j (align size + 16) ≡ d
            → fits_two g h n k j (align size + 16) ≡ e
            → Resizes s us n ((j, h) ∷ ys) size
        choose true d e e₁ e₂ e₃ = together (inl (inl (ground (arith, e₁), ground (arith, e₁))))
        choose false true e e₁ e₂ e₃ = together (inl (inr (ground (arith, e₂), ground (arith, e₂))))
        choose false false true e₁ e₂ e₃ =
            together (inr (ground (arith, e₃), ground (arith, e₃), ground (arith, e₃)))
        choose false false false e₁ e₂ e₃ = apart e₁ e₂ e₃

  in_place :
      (us : Blocks) (n : ℕ) (vs : Blocks)
      → Inv s (us ++ ((n, true) ∷ vs))
      → 32 ≤ n
      → align size + 16 ≤ n
      → Resizes s us n vs size
  unfolding wanted
  in_place us n vs inv big room = inl (
    s,
    allocs s.mem_start_brk us,
    behind s us,
    n,
    allocs (behind s us + n) vs,
    realloc_in_place s us n vs inv size pos (omega arith) room,
    (us ++ ((n, true) ∷ vs), inv, allocs-middle s.mem_start_brk us n vs big),
    refl,
    omega (arith, wanted_range.0),
    λ i lt. refl,
    Keeps-refl s.mem (allocs s.mem_start_brk us ++ allocs (behind s us + n) vs),
    refl,
  )

  resize_layout :
      (us : Blocks) (n : ℕ) (vs : Blocks)
      → Inv s (us ++ ((n, true) ∷ vs))
      → 32 ≤ n
      → Resizes s us n vs size
  resize_layout us n vs inv big = elim (lt-cases n (align size + 16)) [
    | inr room ↦ in_place us n vs inv big room
    | inl larger ↦ neighbours vs (last_block us) inv larger
  ]
    where
      neighbours :
          (vs : Blocks)
          → (us ≡ []) ⊎ ((xs : Blocks) × (k : ℕ) × (g : Bool) × (us ≡ xs ++ ((k, g) ∷ [])))
          → Inv s (us ++ ((n, true) ∷ vs))
          → n < align size + 16
          → Resizes s us n vs size
      neighbours [] before inv larger = absurd (not_last us n true big inv.shaped)
      neighbours ((j, h) ∷ ys) (inl e) inv larger = absurd (
          not_first n true ((j, h) ∷ ys) big
            (subst (λ t. IsShaped (t ++ ((n, true) ∷ ((j, h) ∷ ys)))) e inv.shaped))
      neighbours ((j, h) ∷ ys) (inr (xs, k, g, e)) inv larger =
          subst (λ t. Resizes s t n ((j, h) ∷ ys) size) (sym e)
            (resize_between xs k g n j h ys
              (subst (Inv s) (append_assoc xs ((k, g) ∷ []) ((n, true) ∷ ((j, h) ∷ ys)))
                (subst (λ t. Inv s (t ++ ((n, true) ∷ ((j, h) ∷ ys)))) e inv))
              big larger)

  -- Where a block of `n` bytes is given out, `mm_realloc` at a positive size below 2 ^ 31 - 64 makes
  -- it one with room for the size, and its data are at the address that is returned; all other
  -- blocks stay where they are, with their payloads. Or it returns NULL and changes nothing.
  pub realloc-Becomes :
      (before after : Given) (q n : ℕ)
      → Owns s (before ++ ((q, n) ∷ after))
      → Becomes (mm_realloc (q + 8) size s) s before q n after (size + 16)
        ⊎ (mm_realloc (q + 8) size s ≡ ok null s)
  realloc-Becomes before after q n (bs, inv, e) =
      let (us, vs, layout, at, b, a, tag) = allocs_find s.mem_start_brk q n bs before after e in
      let inv' = subst (Inv s) layout inv in
      let done = resize_layout us n vs inv' (block_size_min us n vs inv'.shaped tag) in
      subst
        (λ t.
          Becomes (mm_realloc (t + 8) size s) s before t n after (size + 16)
          ⊎ (mm_realloc (t + 8) size s ≡ ok null s))
        (sym at)
        (subst
          (λ t.
            Becomes (mm_realloc (behind s us + 8) size s) s before (behind s us) n t (size + 16)
            ⊎ (mm_realloc (behind s us + 8) size s ≡ ok null s))
          a
          (subst
            (λ t.
              Becomes (mm_realloc (behind s us + 8) size s) s t (behind s us) n
                (allocs (behind s us + n) vs) (size + 16)
              ⊎ (mm_realloc (behind s us + 8) size s ≡ ok null s))
            b done))
