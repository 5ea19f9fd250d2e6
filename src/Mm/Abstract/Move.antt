-- ===== src/Mm/Abstract/Move.antt =====
-- The branch of `mm_realloc` that moves a block to a place of its own, on the list of the blocks
-- that were given out.
use mathlib.Core.List.{append_assoc}
use cs0330_fall2022_7_malloc.Base.{
  ℕ, ◌+◌, ◌^◌, ◌≤◌, ◌<◌, ◌≡◌, refl, sym, subst, ap, ◌∷◌, ◌++◌, arith, ◌∙◌, ◌⊎◌, inl, inr, ne→==,
}
use cs0330_fall2022_7_malloc.Machine.{Mem, State, Run, ok, null}
use cs0330_fall2022_7_malloc.Mm.{mm_malloc}
use cs0330_fall2022_7_malloc.Mm.Abstract.{
  Given, Owns, SamePayload, Keeps, Keeps-append, Keeps-split, Keeps-trans,
}
use cs0330_fall2022_7_malloc.Mm.Abstract.Calls.{malloc-Gives, free_takes}
use cs0330_fall2022_7_malloc.Mm.Abstract.Facts.{Owns-place}
use cs0330_fall2022_7_malloc.Mm.Abstract.Find.{split_join}
use cs0330_fall2022_7_malloc.Mm.Realloc.{move_block}
use cs0330_fall2022_7_malloc.Mm.Abstract.Write.{Owns-Touched, copy_into}

-- The block of `n` bytes at `q` has become one of at least `b_size` bytes: its data are at the new
-- payload, and all others are where they were, with their payloads.
abbrev pub Becomes :
    Run ℕ → State → (before : Given) → (q n : ℕ) → (after : Given) → (b_size : ℕ) → Type 0
Becomes r s before q n after b_size =
    (s' : State) × (before' : Given) × (q' : ℕ) × (k : ℕ) × (after' : Given) × (r ≡ ok (q' + 8) s')
    × Owns s' (before' ++ ((q', k) ∷ after'))
    × (before' ++ after' ≡ before ++ after)
    × (b_size ≤ k)
    × ((i : ℕ) → i + 16 < n → s'.mem (q' + 8 + i) ≡ s.mem (q + 8 + i))
    × Keeps (before ++ after) s.mem s'.mem
    × (s'.mem_start_brk ≡ s.mem_start_brk)

pub Keeps-without :
    (m m' : Mem) (before after : Given) (q n : ℕ)
    → Keeps (before ++ ((q, n) ∷ after)) m m'
    → Keeps (before ++ after) m m' × SamePayload q n m m'
Keeps-without m m' before after q n h =
    let (front, back) = Keeps-split m m' before ((q, n) ∷ after) h in
    (Keeps-append m m' before after front back.1, back.0)

-- After `mm_malloc` gave out a block of `k` bytes at `q'`: the data of the old block are copied, and
-- the old block is taken back.
module _ (s : State) (before : Given) (q n : ℕ) (after : Given) (b_size : ℕ)
    (larger : n < b_size) where
  hand_over :
      (s₁ : State) (front : Given) (q' k : ℕ) (back left right left' right' : Given)
      → mm_malloc b_size s ≡ ok (q' + 8) s₁
      → Owns s₁ (front ++ ((q', k) ∷ back))
      → before ++ ((q, n) ∷ after) ≡ front ++ back
      → b_size + 16 ≤ k
      → Keeps (before ++ ((q, n) ∷ after)) s.mem s₁.mem
      → s₁.mem_start_brk ≡ s.mem_start_brk
      → front ++ ((q', k) ∷ back) ≡ left ++ ((q, n) ∷ right)
      → left ++ right ≡ left' ++ ((q', k) ∷ right')
      → left' ++ right' ≡ before ++ after
      → Becomes (move_block (q + 8) n b_size s) s before q n after b_size
  unfolding move_block
  hand_over s₁ front q' k back left right left' right' run owns e room keeps base whole rest
        others =
      let old = Owns-place s₁ left right q n (subst (Owns s₁) whole owns) in
      let (m₂, moved, touched, data₂) =
        copy_into s₁ front q' k back owns (q + 8) n (omega (arith, old.low))
          (omega (arith, old.high)) (omega arith) in
      let (owns₂, keeps₂) = Owns-Touched s₁ front q' k back owns m₂ touched in
      let s₂ : State = record s₁ { mem = m₂ } in
      let (s₃, freed, owns₃, keeps₃, base₃) =
        free_takes s₂ left right q n (subst (Owns s₂) whole owns₂) in
      let (kept₁, same₁) = Keeps-without s.mem s₁.mem before after q n keeps in
      let (kept₂, _) =
        Keeps-without s₁.mem m₂ before after q n (subst (λ t. Keeps t s₁.mem m₂) (sym e) keeps₂) in
      let (kept₃, same₃) =
        Keeps-without m₂ s₃.mem left' right' q' k (subst (λ t. Keeps t m₂ s₃.mem) rest keeps₃) in
      (
        s₃,
        left',
        q',
        k,
        right',
        rw (run, ne→== (q' + 8) 0 (omega arith), moved, freed) refl,
        subst (Owns s₃) rest owns₃,
        others,
        omega arith,
        λ i lt.
            same₃ (q' + 8 + i) (omega arith) (omega arith)
            ∙ data₂ i (omega arith)
            ∙ same₁ (q + 8 + i) (omega arith) (omega arith),
        Keeps-trans s.mem m₂ s₃.mem (before ++ after)
            (Keeps-trans s.mem s₁.mem m₂ (before ++ after) kept₁ kept₂)
            (subst (λ t. Keeps t m₂ s₃.mem) others kept₃),
        base₃ ∙ base,
      )

  -- Where a block of `n` bytes is given out, `move_block` with a larger size below 2 ^ 31 - 32 moves
  -- the data of the block to a new one and takes the old one back; or it returns NULL and changes
  -- nothing.
  pub move_block_lem :
      Owns s (before ++ ((q, n) ∷ after))
      → b_size + 32 < 2 ^ 31
      → Becomes (move_block (q + 8) n b_size s) s before q n after b_size
        ⊎ (move_block (q + 8) n b_size s ≡ ok null s)
  unfolding move_block
  move_block_lem owns small =
      elim (malloc-Gives s (before ++ ((q, n) ∷ after)) b_size owns (omega arith) small) [
        | inr none ↦ inr (rw none refl)
        | inl (s₁, front, q', k, back, run, owns₁, e, room, keeps, base) ↦
            inl (elim (split_join (q, n) front back before after (sym e)) [
              | inl (mid, e₁, e₂) ↦
                  hand_over s₁ front q' k back before (mid ++ ((q', k) ∷ back)) (before ++ mid) back
                    run owns₁ e room keeps base
                    (ap (λ t. t ++ ((q', k) ∷ back)) e₁
                      ∙ append_assoc before ((q, n) ∷ mid) ((q', k) ∷ back))
                    (sym (append_assoc before mid ((q', k) ∷ back)))
                    (append_assoc before mid back ∙ ap (λ t. before ++ t) (sym e₂))
              | inr (mid, e₁, e₂) ↦
                  hand_over s₁ front q' k back (front ++ ((q', k) ∷ mid)) after front (mid ++ after)
                    run owns₁ e room keeps base
                    (ap (λ t. front ++ ((q', k) ∷ t)) e₂
                      ∙ sym (append_assoc front ((q', k) ∷ mid) ((q, n) ∷ after)))
                    (append_assoc front ((q', k) ∷ mid) after)
                    (sym (append_assoc front mid after) ∙ ap (λ t. t ++ after) (sym e₁))
            ])
      ]
