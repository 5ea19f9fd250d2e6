-- ===== src/Mm/Abstract/Calls.antt =====
-- `mm_malloc` and `mm_free` on the list of the blocks that were given out.
use cs0330_fall2022_7_malloc.Base.{
  ℕ, ◌+◌, ◌^◌, ◌≤◌, ◌<◌, ◌≡◌, refl, sym, subst, ap, ◌∷◌, ◌++◌, true, arith, ◌∙◌, ◌⊎◌, inl, inr,
  ne→==,
}
use cs0330_fall2022_7_malloc.Machine.{State, Run, ok, null}
use cs0330_fall2022_7_malloc.Layout.{Blocks, span}
use cs0330_fall2022_7_malloc.Mm.{mm_malloc, mm_free}
use cs0330_fall2022_7_malloc.Mm.Abstract.{Given, Owns, Keeps, KeepsPayload-Keeps}
use cs0330_fall2022_7_malloc.Mm.Abstract.Facts.{block_size_min}
use cs0330_fall2022_7_malloc.Mm.Abstract.Find.{allocs_find}
use cs0330_fall2022_7_malloc.Mm.Coalesce.Branches.{behind}
use cs0330_fall2022_7_malloc.Mm.Free.{mm_free_lem}
use cs0330_fall2022_7_malloc.Mm.Inv.{Inv, allocs, allocs-append}
use cs0330_fall2022_7_malloc.Mm.Malloc.Total.{mm_malloc_lem}
use cs0330_fall2022_7_malloc.Mm.Request.{request_size_bounds}

-- A block of 16 bytes would not be in the list.
pub allocs-middle :
    (p : ℕ) (xs : Blocks) (k : ℕ) (ys : Blocks)
    → 32 ≤ k
    → allocs p (xs ++ ((k, true) ∷ ys))
      ≡ allocs p xs ++ ((p + span xs, k) ∷ allocs (p + span xs + k) ys)
allocs-middle p xs k ys big =
    allocs-append p xs ((k, true) ∷ ys)
    ∙ ap (λ t. allocs p xs ++ t) (rw (ne→== k 16 (omega arith)) refl)

-- A call that gives out a block of at least `size` bytes for the payload, at the address that it
-- returns, and keeps all others.
abbrev pub Gives : Run ℕ → State → Given → (size : ℕ) → Type 0
Gives r s given size =
    (s' : State) × (before : Given) × (q : ℕ) × (k : ℕ) × (after : Given) × (r ≡ ok (q + 8) s')
    × Owns s' (before ++ ((q, k) ∷ after))
    × (given ≡ before ++ after)
    × (size + 16 ≤ k)
    × Keeps given s.mem s'.mem
    × (s'.mem_start_brk ≡ s.mem_start_brk)

-- From a state in which certain blocks are given out, `mm_malloc` at a positive size below
-- 2 ^ 31 - 32 gives out one more block with room for the size, and keeps the others where they are,
-- with their payloads; or it returns NULL and changes nothing.
pub malloc-Gives :
    (s : State) (given : Given) (size : ℕ)
    → Owns s given
    → 0 < size
    → size + 32 < 2 ^ 31
    → Gives (mm_malloc size s) s given size ⊎ (mm_malloc size s ≡ ok null s)
malloc-Gives s given size (bs, inv, e) pos small = elim (mm_malloc_lem s bs size inv pos small) [
  | inl (s', xs, k, ys, run, inv', room, same, keeps, base) ↦
      let bounds = request_size_bounds size pos (omega arith) in
      inl (
        s',
        allocs s.mem_start_brk xs,
        behind s xs,
        k,
        allocs (behind s xs + k) ys,
        run,
        (
          xs ++ ((k, true) ∷ ys),
          inv',
          ap (λ t. allocs t (xs ++ ((k, true) ∷ ys))) base
              ∙ allocs-middle s.mem_start_brk xs k ys (omega (arith, bounds.1)),
        ),
        sym e ∙ same,
        omega (arith, bounds.2),
        subst (λ t. Keeps t s.mem s'.mem) e
            (KeepsPayload-Keeps s.mem s'.mem s.mem_start_brk bs keeps),
        base,
      )
  | inr refused ↦ inr refused.0
]

-- From a state in which certain blocks are given out, `mm_free` at the payload of one of them takes
-- it back, and keeps all others where they are, with their payloads.
pub free_takes :
    (s : State) (before after : Given) (q n : ℕ)
    → Owns s (before ++ ((q, n) ∷ after))
    → (s' : State) × (mm_free (q + 8) s ≡ ok tt s')
      × Owns s' (before ++ after)
      × Keeps (before ++ after) s.mem s'.mem
      × (s'.mem_start_brk ≡ s.mem_start_brk)
free_takes s before after q n (bs, inv, e) =
    let (us, vs, layout, at, b, a, tag) = allocs_find s.mem_start_brk q n bs before after e in
    let inv' = subst (Inv s) layout inv in
    let big = block_size_min us n vs inv'.shaped tag in
    let (s', bs', run, inv'', same, keeps, brk, base) = mm_free_lem s us n vs inv' big in
    let left : allocs s.mem_start_brk bs' ≡ before ++ after =
      same ∙ ap (λ t. t ++ allocs (behind s us + n) vs) b ∙ ap (λ t. before ++ t) a in
    (
      s',
      ap (λ t. mm_free (t + 8) s) at ∙ run,
      (bs', inv'', ap (λ t. allocs t bs') base ∙ left),
      subst (λ t. Keeps t s.mem s'.mem) left
          (KeepsPayload-Keeps s.mem s'.mem s.mem_start_brk bs' keeps),
      base,
    )
