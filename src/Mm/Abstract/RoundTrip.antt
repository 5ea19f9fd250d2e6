-- ===== src/Mm/Abstract/RoundTrip.antt =====
-- `mm_malloc` followed by `mm_free` of what it returned.
use cs0330_fall2022_7_malloc.Base.{ℕ, ◌+◌, ◌^◌, ◌<◌, ◌≡◌, refl, sym, subst, inl, inr}
use cs0330_fall2022_7_malloc.Machine.{State, ok, ◌>>=◌}
use cs0330_fall2022_7_malloc.Mm.{mm_malloc, mm_free}
use cs0330_fall2022_7_malloc.Mm.Abstract.{Given, Owns, Keeps, Keeps-refl, Keeps-trans}
use cs0330_fall2022_7_malloc.Mm.Abstract.Calls.{malloc-Gives, free_takes}

-- From a state in which certain blocks are given out, `mm_malloc` at a positive size below
-- 2 ^ 31 - 32 and then `mm_free` of its result succeed, also where the result is NULL: the same
-- blocks are given out as before, with the same bytes in their payloads.
pub free-malloc :
    (s : State) (given : Given) (size : ℕ)
    → Owns s given
    → 0 < size
    → size + 32 < 2 ^ 31
    → (s' : State) × ((mm_malloc size >>= mm_free) s ≡ ok tt s')
      × Owns s' given
      × Keeps given s.mem s'.mem
unfolding mm_free
free-malloc s given size owns pos small = elim (malloc-Gives s given size owns pos small) [
  | inr refused ↦ (s, rw refused refl, owns, Keeps-refl s.mem given)
  | inl (s₁, before, q, k, after, run, owns₁, e, room, keeps, base) ↦
      let (s₂, run₂, owns₂, keeps₂, base₂) = free_takes s₁ before after q k owns₁ in
      (
        s₂,
        rw run run₂,
        subst (Owns s₂) (sym e) owns₂,
        Keeps-trans s.mem s₁.mem s₂.mem given keeps
            (subst (λ t. Keeps t s₁.mem s₂.mem) (sym e) keeps₂),
      )
]
