-- ===== src/Driver/Data.antt =====
-- The check of the data of a moved block, in `eval_mm_valid` and `remalloc_cmd` of mdriver.c.
use cs0330_fall2022_7_malloc.Base.{
  ℕ, zero, suc, ◌+◌, ◌%◌, ◌≤◌, ◌<◌, ◌≡◌, refl, Bool, true, false, ◌&&◌, ◌==◌, if◌then◌else◌, arith,
  ap, ◌∙◌, le→leb,
}
use cs0330_fall2022_7_malloc.Machine.{State, ok}
use cs0330_fall2022_7_malloc.Driver.{holds_index, load_char, char_is}

-- The `n` bytes at `p` are all equal to `v`.
unfoldable pub all_bytes : State → (n p v : ℕ) → Bool
all_bytes s zero p v = true
all_bytes s (suc n) p v = s.mem p == v && all_bytes s n (p + 1) v

pub all_bytes-all :
    (s : State) (n p v : ℕ) → ((j : ℕ) → j < n → s.mem (p + j) ≡ v) → all_bytes s n p v ≡ true
unfolding all_bytes
all_bytes-all s zero p v h = refl
all_bytes-all s (suc n) p v h =
    let first : s.mem p ≡ v = ap s.mem (omega arith) ∙ h 0 (omega arith) in
    let rest =
      all_bytes-all s n (p + 1) v (λ j lt. ap s.mem (omega arith) ∙ h (j + 1) (omega arith)) in
    ground (arith, first, rest)

module _ (s : State) where
  load_char-eq : (p : ℕ) → s.mem_start_brk ≤ p → p + 1 ≤ s.mem_brk → load_char p s ≡ ok (s.mem p) s
  load_char-eq p lo hi = rw (le→leb _ _ lo, le→leb _ _ hi) refl

  -- In the heap, the loop that checks the data of a moved block tells whether every byte is the low
  -- byte of the index, if that is below 128.
  pub holds_index-low :
      (n p index : ℕ)
      → index % 256 < 128
      → s.mem_start_brk ≤ p
      → p + n ≤ s.mem_brk
      → holds_index n p index s ≡ ok (all_bytes s n p (index % 256)) s
  unfolding holds_index all_bytes
  holds_index-low zero p index low lo hi = refl
  holds_index-low (suc n) p index low lo hi =
      let rest = holds_index-low n (p + 1) index low (omega arith) (omega arith) in
      let sign : char_is (s.mem p) index ≡ (s.mem p == index % 256) = ground arith in
      rw (load_char-eq p lo (omega arith), sign) (either (s.mem p == index % 256) rest)
    where
      either :
          (c : Bool)
          → holds_index n (p + 1) index s ≡ ok (all_bytes s n (p + 1) (index % 256)) s
          → (if c then holds_index n (p + 1) index else (λ t. ok false t)) s
            ≡ ok (c && all_bytes s n (p + 1) (index % 256)) s
      either true rest = rest
      either false rest = refl

  -- From 128 on the check always fails, whatever the bytes are: a `char` is signed, and the low byte
  -- of the index is not. So a block with such an index cannot be reallocated without an error.
  pub holds_index-high :
      (n p index : ℕ)
      → 128 ≤ index % 256
      → s.mem_start_brk ≤ p
      → p + suc n ≤ s.mem_brk
      → holds_index (suc n) p index s ≡ ok false s
  unfolding holds_index
  holds_index-high n p index high lo hi =
      let sign : char_is (s.mem p) index ≡ false = ground arith in
      rw (load_char-eq p lo (omega arith), sign) refl
