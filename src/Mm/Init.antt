-- ===== src/Mm/Init.antt =====
-- `mm_init` on an empty heap.
use cs0330_fall2022_7_malloc.Base.{
  ℕ, ◌+◌, ◌%◌, ◌^◌, ◌≤◌, ◌<◌, ◌≡◌, refl, subst, [], ◌∷◌, true, arith, ◌⊎◌, inl, inr, lt→ltb, le→ltb,
  ne→==, lt-cases,
}
use cs0330_fall2022_7_malloc.Machine.{Mem, State, ok, failed_ptr}
use cs0330_fall2022_7_malloc.Block.Write.{Tagged, block_set_size_and_allocated_lem}
use cs0330_fall2022_7_malloc.Layout.{Blocks, IsBlock, Heap, done, block}
use cs0330_fall2022_7_malloc.Layout.Frame.{IsBlock-frame}
use cs0330_fall2022_7_malloc.Layout.Shape.{next, walk}
use cs0330_fall2022_7_malloc.Memlib.{mem_sbrk}
use cs0330_fall2022_7_malloc.Mm.{mm_init, success, failure}
use cs0330_fall2022_7_malloc.Mm.Inv.{Inv}

-- The prologue and the epilogue.
abbrev pub bare : Blocks
bare = (16, true) ∷ ((16, true) ∷ [])

-- A heap as `mem_init` and `mem_reset_brk` leave it.
pub record Empty (s : State) : Type 0 where
  pub empty : s.mem_brk ≡ s.mem_start_brk
  pub low : 0 < s.mem_start_brk
  pub aligned : s.mem_start_brk % 8 ≡ 0
  pub ordered : s.mem_start_brk ≤ s.mem_max_addr
  pub top : s.mem_max_addr < 2 ^ 63

module _ (s : State) (h : Empty s) where
  p : ℕ
  p = s.mem_brk

  start : s.mem_start_brk ≤ p
  unfolding p
  start = omega (arith, h.empty)

  -- The state at the two writes of a block.
  s₁ : State
  s₁ = record s { flist_first = 0; mem_brk = p + 16 + 16; prologue = p; epilogue = p + 16 }

  record Made (m₁ m₂ : Mem) : Type 0 where
    first_tags : Tagged s.mem m₁ p 16 true
    second_tags : Tagged m₁ m₂ (p + 16) 16 true
    run : mm_init s ≡ ok success (record s₁ { mem = m₂ })

  made : p + 32 ≤ s.mem_max_addr → (m₁ : Mem) × (m₂ : Mem) × Made m₁ m₂
  unfolding mm_init mem_sbrk s₁ p
  made room =
      let top = h.top in
      let (m₁, run₁, t₁) =
        block_set_size_and_allocated_lem s₁ p 16 true refl (omega arith) start (omega arith)
          (omega arith) in
      let (m₂, run₂, t₂) =
        block_set_size_and_allocated_lem (record s₁ { mem = m₁ }) (p + 16) 16 true refl
          (omega arith) (omega (arith, start)) (omega arith) (omega arith) in
      (
        m₁,
        m₂,
        record {
          first_tags = t₁;
          second_tags = t₂;
          run =
              rw
                (
                  le→ltb s.mem_max_addr (p + 16) (omega arith),
                  ne→== p failed_ptr (omega arith),
                  le→ltb s.mem_max_addr (p + 16 + 16) (omega arith),
                  ne→== (p + 16) failed_ptr (omega arith),
                  run₁,
                  run₂,
                )
                refl;
        },
      )

  init_inv :
      (m₁ m₂ : Mem) → Made m₁ m₂ → p + 32 ≤ s.mem_max_addr → Inv (record s₁ { mem = m₂ }) bare
  unfolding s₁ p walk next
  init_inv m₁ m₂ made room =
      let top = h.top in
      let first_block : IsBlock m₂ p 16 true =
        IsBlock-frame m₂
          (λ a lo hi. made.second_tags.same a (inl (omega arith)) (inl (omega arith)))
          (λ a lo hi. made.second_tags.same a (inl (omega arith)) (inl (omega arith)))
          made.first_tags.at in
      record {
        sound = record {
          heap =
              subst (λ t. Heap m₂ (p + 16 + 16) t bare) h.empty
                (block first_block (omega arith)
                  (block made.second_tags.at (omega arith) (done (omega arith))));
          low = h.low;
          top = omega arith;
        };
        free = record { ring = []; is_ring = refl; same = λ x. refl };
        shaped = refl;
        aligned = h.aligned;
        epilogue = omega arith;
        limit = omega arith;
        top = h.top;
      }

  -- On an empty heap with room for the prologue and the epilogue, `mm_init` succeeds and establishes
  -- the invariant, with the heap at these two blocks; with less room it returns -1.
  pub mm_init_lem :
      ((s' : State) × (mm_init s ≡ ok success s')
        × Inv s' bare
        × (s'.mem_start_brk ≡ s.mem_start_brk)
        × (s'.mem_max_addr ≡ s.mem_max_addr))
      ⊎ ((s' : State) × (mm_init s ≡ ok failure s') × (s.mem_max_addr < s.mem_start_brk + 32))
  unfolding mm_init mem_sbrk s₁ p
  mm_init_lem =
      let top = h.top in
      let ordered = h.ordered in
      elim (lt-cases s.mem_max_addr (p + 32)) [
        | inr room ↦
            let (m₁, m₂, made) = made room in
            inl (record s₁ { mem = m₂ }, made.run, init_inv m₁ m₂ made room, refl, refl)
        | inl full ↦ elim (lt-cases s.mem_max_addr (p + 16)) [
          | inl none ↦ inr (
            record s { flist_first = 0; prologue = failed_ptr },
            rw (lt→ltb s.mem_max_addr (p + 16) none) refl,
            omega (arith, h.empty),
          )
          | inr one ↦ inr (
            record s { flist_first = 0; mem_brk = p + 16; prologue = p; epilogue = failed_ptr },
            rw
                (
                  le→ltb s.mem_max_addr (p + 16) one,
                  ne→== p failed_ptr (omega (arith, h.empty)),
                  lt→ltb s.mem_max_addr (p + 16 + 16) (omega arith),
                )
                refl,
            omega (arith, h.empty),
          )
        ]
      ]
