-- ===== src/Mm/Malloc/Split.antt =====
-- The two blocks that `mm_malloc` makes of one: the tags that it writes.
use cs0330_fall2022_7_malloc.Base.{ℕ, ◌+◌, ◌-◌, ◌%◌, ◌≤◌, ◌≡◌, true, false, arith, inl}
use cs0330_fall2022_7_malloc.Machine.{Mem, State}
use cs0330_fall2022_7_malloc.Block.Laws.{Here, block_next-eq}
use cs0330_fall2022_7_malloc.Block.Write.{Tagged, block_set_size_and_allocated_lem}
use cs0330_fall2022_7_malloc.Layout.Frame.{IsBlock-frame}
use cs0330_fall2022_7_malloc.Layout.{IsBlock}
use cs0330_fall2022_7_malloc.FreeList.{insert_free_block}
use cs0330_fall2022_7_malloc.Mm.{split_block}

-- The two blocks are written, the one in use first.
pub record Splits (s₁ : State) (v b_size k : ℕ) (m₁ m₂ : Mem) : Type 0 where
  pub first_tags : Tagged s₁.mem m₁ v b_size true
  pub second_tags : Tagged m₁ m₂ (v + b_size) k false
  pub run : split_block v b_size k s₁ ≡ insert_free_block (v + b_size) (record s₁ { mem = m₂ })
  pub first_block : IsBlock m₂ v b_size true

module _ (s₁ : State) (v n b_size : ℕ) (here : Here s₁ v n false) (b_aligned : b_size % 8 ≡ 0)
    (b_min : 32 ≤ b_size) (fits : b_size ≤ n) where
  pub splits : 32 ≤ n - b_size → (m₁ : Mem) × (m₂ : Mem) × Splits s₁ v b_size (n - b_size) m₁ m₂
  unfolding split_block
  splits big =
      let aligned : (n - b_size) % 8 ≡ 0 = omega (arith, here.at.aligned) in
      let (m₁, run₁, t₁) =
        block_set_size_and_allocated_lem s₁ v b_size true b_aligned (omega arith) here.lo
          (omega (arith, here.hi)) here.top in
      let s₂ : State = record s₁ { mem = m₁ } in
      let (m₂, run₂, t₂) =
        block_set_size_and_allocated_lem s₂ (v + b_size) (n - b_size) false aligned (omega arith)
          (omega (arith, here.lo)) (omega (arith, here.hi)) here.top in
      let s₃ : State = record s₁ { mem = m₂ } in
      let here₂ : Here s₂ v b_size true = record {
        at = t₁.at;
        lo = here.lo;
        hi = omega (arith, here.hi);
        top = here.top;
      } in
      let at₃ : IsBlock m₂ v b_size true =
        IsBlock-frame m₂ (λ a lo hi. t₂.same a (inl (omega arith)) (inl (omega arith)))
          (λ a lo hi. t₂.same a (inl (omega arith)) (inl (omega arith))) t₁.at in
      let here₃ : Here s₃ v b_size true = record {
        at = at₃;
        lo = here.lo;
        hi = omega (arith, here.hi);
        top = here.top;
      } in
      (
        m₁,
        m₂,
        record {
          first_tags = t₁;
          second_tags = t₂;
          run = rw (run₁, block_next-eq here₂, run₂, block_next-eq here₃);
          first_block = at₃;
        },
      )
