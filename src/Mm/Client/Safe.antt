-- ===== src/Mm/Client/Safe.antt =====
-- What a program that uses mm.c can rely on, at every point of every run.
use cs0330_fall2022_7_malloc.Base.{
  ℕ, ◌+◌, ◌^◌, ◌<◌, ◌≡◌, ◌≢◌, List, ◌∷◌, ◌++◌, ◌⊎◌, inl, inr, arith,
}
use cs0330_fall2022_7_malloc.Machine.{State, ok, null}
use cs0330_fall2022_7_malloc.Mm.{mm_malloc, mm_free}
use cs0330_fall2022_7_malloc.Mm.Client.{Held, Reaches}
use cs0330_fall2022_7_malloc.Mm.Client.Apart.{AllKept, AllDisjoint, Backed-kept}
use cs0330_fall2022_7_malloc.Mm.Client.Calls.{malloc_step, free_step, realloc_step, Reaches-Backed}
use cs0330_fall2022_7_malloc.Mm.Realloc.{mm_realloc}

-- At every point of a run of a program that starts with `mm_init` on an empty heap, allocates,
-- frees and reallocates only what it holds, at positive sizes below 2 ^ 31 - 64 (2 ^ 31 - 32 for
-- `mm_malloc`), and writes only to payloads that it holds: every payload that it holds is aligned, lies in the heap and has the bytes
-- that the program wrote last, the first ones also after `mm_realloc`; and no two of them overlap.
pub program_keeps :
    {s : State} {live : List Held} → Reaches s live → AllKept s live × AllDisjoint live
program_keeps {s} {live} h = Backed-kept s live (Reaches-Backed h)

-- At every point of such a run in which the program holds a payload, the next call returns:
-- `mm_malloc`, and `mm_realloc` of that payload, at a positive size below 2 ^ 31 - 64, give a new
-- payload, or NULL and change nothing; `mm_free` of that payload succeeds.
pub program_proceeds :
    {s : State} (xs : List Held) (b : Held) (ys : List Held) (size : ℕ)
    → Reaches s (xs ++ (b ∷ ys))
    → 0 < size
    → size + 64 < 2 ^ 31
    → (((ptr : ℕ) × (s' : State) × (mm_malloc size s ≡ ok ptr s') × (ptr ≢ null))
        ⊎ (mm_malloc size s ≡ ok null s))
      × ((s' : State) × (mm_free b.addr s ≡ ok tt s'))
      × (((ptr : ℕ) × (s' : State) × (mm_realloc b.addr size s ≡ ok ptr s') × (ptr ≢ null))
          ⊎ (mm_realloc b.addr size s ≡ ok null s))
program_proceeds {s} xs b ys size h pos small =
    let backed = Reaches-Backed h in
    let (s', run, _) = free_step s xs b ys backed in
    (
      elim (malloc_step s (xs ++ (b ∷ ys)) size backed pos (omega arith)) [
        | inl (ptr, s₁, run₁, ne, _) ↦ inl (ptr, s₁, run₁, ne)
        | inr none ↦ inr none
      ],
      (s', run),
      elim (realloc_step s xs b ys size backed pos small) [
        | inl (ptr, s₁, run₁, ne, _) ↦ inl (ptr, s₁, run₁, ne)
        | inr none ↦ inr none
      ],
    )
