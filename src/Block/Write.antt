-- ===== src/Block/Write.antt =====
-- The functions of mminline.h that write both tags of a block.
use cs0330_fall2022_7_malloc.Base.{
  ℕ, ◌+◌, ◌-◌, ◌%◌, ◌^◌, ◌≤◌, ◌<◌, ◌≡◌, refl, Bool, true, false, arith, ◌==◌, ◌||◌, if◌then◌else◌,
  ◌⊎◌, ◌∙◌, eq→==,
}
use cs0330_fall2022_7_malloc.Machine.{
  Mem, State, ok, ◌>>=◌, ◌>>◌, store, read_long, write_long, bit, set_low, clear_low, low_bit,
}
use cs0330_fall2022_7_malloc.Machine.Words.{bit-le, clear_low-tag, set_low-tag}
use cs0330_fall2022_7_malloc.Machine.Bytes.{read-write_long, read-write_long_outside, write_outside}
use cs0330_fall2022_7_malloc.Layout.{IsBlock}
use cs0330_fall2022_7_malloc.Block.{
  block_allocated, block_end_tag, block_set_size, block_set_allocated, block_set_size_and_allocated,
}
use cs0330_fall2022_7_malloc.Block.Laws.{
  Here, load-eq, store-eq, load-header, block_end_tag_of_header,
}

-- Both tags of `n` bytes at `q` are written, and nothing else.
pub record Tagged (m m' : Mem) (q n : ℕ) (f : Bool) : Type 0 where
  pub at : IsBlock m' q n f
  pub same : (a : ℕ) → ((a < q) ⊎ (q + 8 ≤ a)) → ((a < q + n - 8) ⊎ (q + n ≤ a)) → m' a ≡ m a

both_tags : Mem → ℕ → ℕ → ℕ → Mem
both_tags m q n w = write_long (write_long m q w) (q + n - 8) w

both_tags-Tagged :
    (m : Mem) (q n : ℕ) (f : Bool)
    → n % 8 ≡ 0
    → 16 ≤ n
    → n < 2 ^ 63
    → Tagged m (both_tags m q n (n + bit f)) q n f
unfolding both_tags
both_tags-Tagged m q n f aligned tags small = record {
  at = record {
    header =
        read-write_long_outside (write_long m q (n + bit f)) (q + n - 8) (n + bit f) q (omega arith)
        ∙ read-write_long m q (n + bit f) (omega (arith, bit-le f));
    footer =
        read-write_long (write_long m q (n + bit f)) (q + n - 8) (n + bit f)
          (omega (arith, bit-le f));
    aligned = aligned;
    tags = tags;
  };
  same = λ a head foot.
      write_outside 8 (write_long m q (n + bit f)) (q + n - 8) (n + bit f) a (omega arith)
      ∙ write_outside 8 m q (n + bit f) a head;
}

Tagged-trans :
    {m m' m'' : Mem} {q n : ℕ} {f g : Bool}
    → Tagged m m' q n f
    → Tagged m' m'' q n g
    → Tagged m m'' q n g
Tagged-trans t u = record {
  at = u.at;
  same = λ a head foot. u.same a head foot ∙ t.same a head foot;
}

module _ (s : State) (q n : ℕ) (aligned : n % 8 ≡ 0) (tags : 16 ≤ n) (lo : s.mem_start_brk ≤ q)
    (hi : q + n ≤ s.mem_brk) (top : s.mem_brk < 2 ^ 63) where
  -- The two writes of a word, with the search for the end tag between them.
  write_tags :
      (f : Bool)
      → (do store q (n + bit f); tag ← block_end_tag q; store tag (n + bit f)) s
        ≡ ok tt (record s { mem = both_tags s.mem q n (n + bit f) })
  unfolding both_tags
  write_tags f =
      let w : ℕ = n + bit f in
      let s₁ : State = record s { mem = write_long s.mem q w } in
      rw (
        store-eq s q w lo (omega arith),
        block_end_tag_of_header s₁ q n f (read-write_long s.mem q w (omega (arith, bit-le f)))
            aligned tags lo hi top,
        store-eq s₁ (q + n - 8) w (omega arith) (omega arith),
      )

  -- `block_set_size` writes the size with the flag that it finds, whatever stands there.
  pub block_set_size_lem :
      (g : Bool) × (m' : Mem) × (block_set_size q n s ≡ ok tt (record s { mem = m' }))
      × Tagged s.mem m' q n g
      × (bit g ≡ low_bit (read_long s.mem q))
  unfolding block_set_size block_allocated
  block_set_size_lem =
      let g : Bool = low_bit (read_long s.mem q) == 1 in
      let size_word : (if low_bit (read_long s.mem q) == 1 then set_low n else n) ≡ n + bit g =
        ground arith in
      (
        g,
        both_tags s.mem q n (n + bit g),
        rw (eq→== (n % 8) 0 aligned, load-eq s q lo (omega arith), size_word) (write_tags g),
        both_tags-Tagged s.mem q n g aligned tags (omega arith),
        ground arith,
      )

-- `block_set_allocated` writes the flag into both tags of a block.
module _ {s : State} {q n : ℕ} {g : Bool} (h : Here s q n g) where
  flag_word :
      (f : Bool) → (if bit f == 0 then clear_low (n + bit g) else set_low (n + bit g)) ≡ n + bit f
  flag_word true = set_low-tag n g h.at.aligned
  flag_word false = clear_low-tag n g h.at.aligned ∙ omega arith

  flag_fits : (f : Bool) → (bit f == 0 || bit f == 1) ≡ true
  flag_fits true = refl
  flag_fits false = refl

  pub block_set_allocated_lem :
      (f : Bool)
      → (m' : Mem) × (block_set_allocated q (bit f) s ≡ ok tt (record s { mem = m' }))
        × Tagged s.mem m' q n f
  unfolding block_set_allocated both_tags
  block_set_allocated_lem f =
      let w : ℕ = n + bit f in
      let s₁ : State = record s { mem = write_long s.mem q w } in
      (
        both_tags s.mem q n w,
        rw (
          flag_fits f,
          load-header h,
          flag_word f,
          store-eq s q w h.lo (omega (arith, h.at.tags, h.hi)),
          block_end_tag_of_header s₁ q n f
              (read-write_long s.mem q w (omega (arith, bit-le f, h.hi, h.top))) h.at.aligned
              h.at.tags h.lo h.hi h.top,
          load-eq s₁ (q + n - 8) (omega (arith, h.at.tags, h.lo)) (omega (arith, h.at.tags, h.hi)),
          read-write_long_outside s.mem q w (q + n - 8) (omega (arith, h.at.tags)),
          h.at.footer,
          flag_word f,
          store-eq s₁ (q + n - 8) w (omega (arith, h.at.tags, h.lo))
              (omega (arith, h.at.tags, h.hi)),
        ),
        both_tags-Tagged s.mem q n f h.at.aligned h.at.tags (omega (arith, h.hi, h.top)),
      )

-- `block_set_size_and_allocated` makes a block of any bytes of the heap.
pub block_set_size_and_allocated_lem :
    (s : State) (q n : ℕ) (f : Bool)
    → n % 8 ≡ 0
    → 16 ≤ n
    → s.mem_start_brk ≤ q
    → q + n ≤ s.mem_brk
    → s.mem_brk < 2 ^ 63
    → (m' : Mem) × (block_set_size_and_allocated q n (bit f) s ≡ ok tt (record s { mem = m' }))
      × Tagged s.mem m' q n f
unfolding block_set_size_and_allocated
block_set_size_and_allocated_lem s q n f aligned tags lo hi top =
    let (g, m₁, e₁, t₁, old) = block_set_size_lem s q n aligned tags lo hi top in
    let s₁ : State = record s { mem = m₁ } in
    let here : Here s₁ q n g = record { at = t₁.at; lo = lo; hi = hi; top = top } in
    let (m₂, e₂, t₂) = block_set_allocated_lem here f in (m₂, rw (e₁, e₂), Tagged-trans t₁ t₂)
