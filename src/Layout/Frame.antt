-- ===== src/Layout/Frame.antt =====
-- Changes of memory that keep a layout, and layouts in parts.
use cs0330_fall2022_7_malloc.Base.{
  ℕ, ◌+◌, ◌-◌, ◌*◌, ◌≤◌, ◌<◌, ◌≡◌, refl, [], ◌∷◌, Bool, true, false, arith, ◌∙◌, ◌⊎◌, inl, inr,
}
use cs0330_fall2022_7_malloc.Machine.{Mem, bit}
use cs0330_fall2022_7_malloc.Machine.Bytes.{read_agree}
use cs0330_fall2022_7_malloc.Layout.{Blocks, IsBlock, Heap, done, block, Heap-end, link_byte}

-- A block is kept by a change that spares its two tags.
pub IsBlock-frame :
    {m : Mem} (m' : Mem) {p n : ℕ} {f : Bool}
    → ((a : ℕ) → p ≤ a → a < p + 8 → m' a ≡ m a)
    → ((a : ℕ) → p + n - 8 ≤ a → a < p + n → m' a ≡ m a)
    → IsBlock m p n f
    → IsBlock m' p n f
IsBlock-frame {m} m' {p} {n} same_head same_foot b = record {
  header = read_agree 8 m m' p same_head ∙ b.header;
  footer =
      read_agree 8 m m' (p + n - 8) (λ a lo hi. same_foot a lo (omega (arith, b.tags))) ∙ b.footer;
  aligned = b.aligned;
  tags = b.tags;
}

-- A layout is kept by a change outside its range.
pub Heap-frame :
    {m : Mem} {e : ℕ} (m' : Mem) {p : ℕ} {bs : Blocks}
    → ((a : ℕ) → p ≤ a → a < e → m' a ≡ m a)
    → Heap m e p bs
    → Heap m' e p bs
Heap-frame m' same (done h) = done h
Heap-frame m' same (block b l h) =
    let end = Heap-end h in
    let room = b.tags in
    block
      (IsBlock-frame m' (λ a lo hi. same a lo (omega arith))
        (λ a lo hi. same a (omega arith) (omega arith)) b)
      l (Heap-frame m' (λ a lo hi. same a (omega arith) hi) h)

pub link_byte-below : (p : ℕ) (bs : Blocks) (a : ℕ) → a < p → link_byte p bs a ≡ false
link_byte-below p [] a h = refl
link_byte-below p ((n, f) ∷ bs) a h = ground (arith, link_byte-below (p + n) bs a)

link_byte-tags :
    (p n : ℕ) (f : Bool) (bs : Blocks) (a : ℕ)
    → 32 ≤ n + 16 * bit f
    → ((a < p + 8) ⊎ (p + n - 8 ≤ a))
    → a < p + n
    → link_byte p ((n, f) ∷ bs) a ≡ false
link_byte-tags p n true bs a room tag hi = link_byte-below (p + n) bs a hi
link_byte-tags p n false bs a room tag hi = ground (arith, link_byte-below (p + n) bs a hi)

link_byte-tail :
    (p n : ℕ) (f : Bool) (bs : Blocks) (a : ℕ)
    → 32 ≤ n + 16 * bit f
    → p + n ≤ a
    → link_byte (p + n) bs a ≡ false
    → link_byte p ((n, f) ∷ bs) a ≡ false
link_byte-tail p n true bs a room lo out = out
link_byte-tail p n false bs a room lo out = ground arith

-- A layout is kept by a change of the links in its free blocks.
pub Heap-links :
    {m : Mem} {e : ℕ} (m' : Mem) {p : ℕ} {bs : Blocks}
    → ((a : ℕ) → p ≤ a → link_byte p bs a ≡ false → m' a ≡ m a)
    → Heap m e p bs
    → Heap m' e p bs
Heap-links m' same (done h) = done h
Heap-links m' same (block {p} {n} {f} {bs} b l h) =
    let room = b.tags in
    block
      (IsBlock-frame m' (λ a lo hi. same a lo (link_byte-tags p n f bs a l (inl hi) (omega arith)))
        (λ a lo hi. same a (omega arith) (link_byte-tags p n f bs a l (inr lo) hi)) b)
      l (Heap-links m' (λ a lo out. same a (omega arith) (link_byte-tail p n f bs a l lo out)) h)
