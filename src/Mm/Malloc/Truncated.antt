-- ===== src/Mm/Malloc/Truncated.antt =====
-- `mm_malloc` at a block size that does not fit the `int` of `mem_sbrk`.
use cs0330_fall2022_7_malloc.Base.{
  ℕ, ◌+◌, ◌-◌, ◌%◌, ◌^◌, ◌≤◌, ◌<◌, ◌≡◌, refl, ap, [], ◌∷◌, ◌++◌, Bool, true, arith, ◌==◌,
  if◌then◌else◌, eq→==, ne→==, le→leb, lt→leb, le→ltb,
}
use cs0330_fall2022_7_malloc.Machine.{
  State, ok, fault, bit, store, read_long, write_long, set_low, low_bit, failed_ptr,
}
use cs0330_fall2022_7_malloc.Machine.Bytes.{read-write_long}
use cs0330_fall2022_7_malloc.Machine.Words.{less-le, bit-le, end_index}
use cs0330_fall2022_7_malloc.Memlib.{mem_sbrk}
use cs0330_fall2022_7_malloc.Block.{
  block_allocated, block_end_tag, block_set_size, block_set_size_and_allocated,
}
use cs0330_fall2022_7_malloc.Block.Laws.{load-eq, store-eq}
use cs0330_fall2022_7_malloc.Layout.{Blocks, span, span-append, Heap-end}
use cs0330_fall2022_7_malloc.Mm.{extend_heap}
use cs0330_fall2022_7_malloc.Mm.Inv.{Inv}

-- A write beyond the break is a fault.
store_beyond : (s : State) (p v : ℕ) → s.mem_start_brk ≤ p → s.mem_brk < p + 8 → store p v s ≡ fault
unfolding store
store_beyond s p v lo hi = rw (le→leb s.mem_start_brk p lo, lt→leb (p + 8) s.mem_brk hi) refl

-- So the tags of a block that ends beyond it cannot be written.
module _ (s : State) (q n : ℕ) (aligned : n % 8 ≡ 0) (tags : 16 ≤ n) (lo : s.mem_start_brk ≤ q)
    (head : q + 8 ≤ s.mem_brk) (beyond : s.mem_brk < q + n) (small : n < 2 ^ 62) where
  end_tag_beyond :
      (s₁ : State) (f : Bool)
      → s₁.mem_start_brk ≡ s.mem_start_brk
      → s₁.mem_brk ≡ s.mem_brk
      → read_long s₁.mem q ≡ n + bit f
      → block_end_tag q s₁ ≡ ok (q + n - 8) s₁
  unfolding block_end_tag
  end_tag_beyond s₁ f e e' header =
      rw
        (
          load-eq s₁ q (omega (arith, e, lo)) (omega (arith, e', head)),
          header,
          less-le (n + bit f) 16 (omega arith) (omega (arith, bit-le f)),
        )
        (ap (λ t. ok t s₁) (end_index q n f aligned tags))

  block_set_size_beyond : block_set_size q n s ≡ fault
  unfolding block_set_size block_allocated
  block_set_size_beyond =
      let g : Bool = low_bit (read_long s.mem q) == 1 in
      let size_word : (if low_bit (read_long s.mem q) == 1 then set_low n else n) ≡ n + bit g =
        ground arith in
      let s₁ : State = record s { mem = write_long s.mem q (n + bit g) } in
      rw
        (
          eq→== (n % 8) 0 aligned,
          load-eq s q lo head,
          size_word,
          store-eq s q (n + bit g) lo head,
          end_tag_beyond s₁ g refl refl
              (read-write_long s.mem q (n + bit g) (omega (arith, bit-le g))),
          store_beyond s₁ (q + n - 8) (n + bit g) (omega (arith, lo)) (omega (arith, beyond)),
        )
        refl

  pub tags_beyond : block_set_size_and_allocated q n 1 s ≡ fault
  unfolding block_set_size_and_allocated
  tags_beyond = rw block_set_size_beyond refl

-- From a state that satisfies the invariant, `extend_heap` at a block size that is a multiple of 8,
-- from 2 ^ 32 up to 2 ^ 62, and whose low 32 bits are an increment that the heap has room for accesses
-- memory outside the heap, and no assert fails before that.
pub extend_heap_truncates :
    (s : State) (zs : Blocks) (b_size : ℕ)
    → Inv s (zs ++ ((16, true) ∷ []))
    → b_size % 8 ≡ 0
    → 2 ^ 32 ≤ b_size
    → b_size < 2 ^ 62
    → b_size % 2 ^ 32 < 2 ^ 31
    → s.mem_brk + b_size % 2 ^ 32 ≤ s.mem_max_addr
    → extend_heap b_size s ≡ fault
unfolding extend_heap mem_sbrk
extend_heap_truncates s zs b_size inv aligned big small int room =
    let step = b_size % 2 ^ 32 in
    let top = inv.top in
    let end : s.mem_start_brk + span zs + 16 ≡ s.mem_brk =
      omega (arith, Heap-end inv.sound.heap, span-append zs ((16, true) ∷ [])) in
    rw
      (
        lt→leb (2 ^ 31) step int,
        le→ltb s.mem_max_addr (s.mem_brk + step) room,
        ne→== s.mem_brk failed_ptr (omega arith),
        tags_beyond (record s { mem_brk = s.mem_brk + step }) s.epilogue b_size aligned
            (omega arith) (omega (arith, inv.epilogue, end)) (omega (arith, inv.epilogue))
            (omega (arith, inv.epilogue)) small,
      )
      refl
