-- ===== src/Mm/Malloc/Total.antt =====
-- `mm_malloc` as a whole.
use cs0330_fall2022_7_malloc.Base.{
  ℕ, ◌+◌, ◌%◌, ◌^◌, ◌≤◌, ◌<◌, ◌≡◌, refl, sym, subst, ap, [], ◌∷◌, true, false, arith, ◌∙◌, ◌==◌,
  if◌then◌else◌, count, lt-cases, inl, inr, ◌⊎◌, ne→==, eq→==,
}
use cs0330_fall2022_7_malloc.Machine.{State, Run, ok, null, read_long, clear_low}
use cs0330_fall2022_7_malloc.Machine.Words.{clear_low-tag}
use cs0330_fall2022_7_malloc.Layout.{Blocks, span, span-append, frees}
use cs0330_fall2022_7_malloc.Layout.Place.{frees-split}
use cs0330_fall2022_7_malloc.Layout.Sound.{IsFree-small}
use cs0330_fall2022_7_malloc.Mm.{mm_malloc, extend_heap, take_block, request_size}
use cs0330_fall2022_7_malloc.Mm.Coalesce.Branches.{behind}
use cs0330_fall2022_7_malloc.Mm.Inv.{Inv, shaped_last}
use cs0330_fall2022_7_malloc.Mm.Request.{request_size_bounds}
use cs0330_fall2022_7_malloc.Mm.Malloc.Extend.{extend_heap-Grants, extend_heap_full}
use cs0330_fall2022_7_malloc.Mm.Malloc.Grants.{Grants}
use cs0330_fall2022_7_malloc.Mm.Malloc.Search.{search_free_lem, first_fit, first_fit-Fits}
use cs0330_fall2022_7_malloc.Mm.Malloc.Take.{take_block-Grants}
use cs0330_fall2022_7_malloc.Mm.Steps.{first-Here}

-- NULL, with nothing changed: every free block is too small, and so is the rest of the heap.
abbrev pub Refuses : Run ℕ → State → Blocks → (b_size : ℕ) → Type 0
Refuses r s bs b_size =
    (r ≡ ok null s)
    × ((x : ℕ) → 0 < count x (frees s.mem_start_brk bs) → clear_low (read_long s.mem x) < b_size)
    × (s.mem_max_addr < s.mem_brk + b_size)

module _ (s : State) (bs : Blocks) (size : ℕ) (inv : Inv s bs) (pos : 0 < size)
    (small : size + 32 < 2 ^ 31) where
  b_size : ℕ
  b_size = request_size size

  bounds : (b_size % 8 ≡ 0) × (32 ≤ b_size) × (size + 16 ≤ b_size) × (b_size < size + 32)
  unfolding b_size
  bounds = request_size_bounds size pos (omega (arith, small))

  found : ℕ
  found = first_fit s.mem b_size inv.free.ring

  searched :
      mm_malloc size s ≡ (if found == null then extend_heap b_size else take_block found b_size) s
  unfolding mm_malloc b_size found
  searched =
      let (zs, e) = shaped_last bs inv.shaped in
      let filled : 0 < span bs = omega (arith, ap span e, span-append zs ((16, true) ∷ [])) in
      rw
        (
          ne→== size 0 (omega arith),
          search_free_lem inv.sound (request_size size) (omega (arith, bounds.3)) filled inv.free,
        )
        refl

  not_found :
      found ≡ null
      → ((x : ℕ) → 0 < count x inv.free.ring → clear_low (read_long s.mem x) < b_size)
      → Grants (mm_malloc size s) s bs b_size ⊎ Refuses (mm_malloc size s) s bs b_size
  not_found none few =
      let (zs, e) = shaped_last bs inv.shaped in
      let run : mm_malloc size s ≡ extend_heap b_size s =
        searched
        ∙ ap (λ t. (if t then extend_heap b_size else take_block found b_size) s)
            (eq→== found null none) in
      let inv' = subst (Inv s) e inv in
      let int : b_size < 2 ^ 31 = omega (arith, bounds.3) in
      elim (lt-cases s.mem_max_addr (s.mem_brk + b_size)) [
        | inl full ↦ inr (
          run ∙ extend_heap_full s zs b_size inv' bounds.0 bounds.1 int full,
          λ x i. few x (omega (arith, inv.free.same x)),
          full,
        )
        | inr room ↦ inl (
            subst (λ t. Grants t s bs b_size) (sym run)
              (subst (λ t. Grants (extend_heap b_size s) s t b_size) (sym e)
                (extend_heap-Grants s zs b_size inv' bounds.0 bounds.1 int room)))
      ]

  found_block :
      0 < count found inv.free.ring
      → b_size ≤ clear_low (read_long s.mem found)
      → Grants (mm_malloc size s) s bs b_size
  found_block member fits =
      let free : 0 < count found (frees s.mem_start_brk bs) = omega (arith, inv.free.same found) in
      let (xs, n, ys, e, at) = frees-split found s.mem_start_brk bs free in
      let pos' = (IsFree-small inv.sound found free).0 in
      let run : mm_malloc size s ≡ take_block (behind s xs) b_size s =
        searched
        ∙ ap (λ t. (if t then extend_heap b_size else take_block found b_size) s)
            (ne→== found null (omega arith))
        ∙ ap (λ t. take_block t b_size s) at in
      let inv' = subst (Inv s) e inv in
      let here = first-Here {s = s} xs n false ys inv'.sound in
      let size_is : clear_low (read_long s.mem found) ≡ n =
        ap (λ t. clear_low (read_long s.mem t)) at
        ∙ ap clear_low here.at.header
        ∙ clear_low-tag n false here.at.aligned in
      subst (λ t. Grants t s bs b_size) (sym run)
        (subst (λ t. Grants (take_block (behind s xs) b_size s) s t b_size) (sym e)
          (take_block-Grants s xs n ys b_size inv' bounds.0 bounds.1 (omega (arith, size_is))))

  -- From a state that satisfies the invariant, `mm_malloc` at a positive size below
  -- 2 ^ 31 - 32 either returns the payload of a newly allocated block of the size that the
  -- request needs, in a state that satisfies the invariant, with all other allocated blocks and
  -- their payloads the same; or it returns NULL and changes nothing, and then every free block
  -- is too small and the heap has no room left for the request.
  pub mm_malloc_lem :
      Grants (mm_malloc size s) s bs (request_size size)
      ⊎ Refuses (mm_malloc size s) s bs (request_size size)
  unfolding b_size found first_fit
  mm_malloc_lem = elim (first_fit-Fits s.mem b_size inv.free.ring) [
    | inl (none, few) ↦ not_found none few
    | inr (member, fits) ↦ inl (found_block member fits)
  ]
