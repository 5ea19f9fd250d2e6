-- ===== src/Block/Laws.antt =====
-- The accessors of mminline.h at a block of the heap: none of them faults, and each gives the
-- size, the flag, the neighbour or the link that the block's bytes stand for.
use cs0330_fall2022_7_malloc.Base.{
  ℕ, ◌+◌, ◌-◌, ◌%◌, ◌^◌, ◌≤◌, ◌<◌, ◌≡◌, Bool, false, arith, le→leb, ap, ◌∙◌,
}
use cs0330_fall2022_7_malloc.Machine.{State, ok, load, store, read_long, write_long, bit, sub}
use cs0330_fall2022_7_malloc.Machine.Words.{
  add-small, sub-small, less-le, bit-le, low_bit-tag, clear_low-tag, end_index,
}
use cs0330_fall2022_7_malloc.Layout.{IsBlock}
use cs0330_fall2022_7_malloc.Block.{
  payload, block_allocated, block_end_tag, block_size, block_next, block_prev, block_prev_size,
  require_free, block_end_size, block_end_allocated, block_flink, block_blink, block_set_flink,
  block_set_blink,
}

-- A block of the heap of a state, below the addresses that pointer arithmetic could wrap at.
pub record Here (s : State) (q n : ℕ) (f : Bool) : Type 0 where
  pub at : IsBlock s.mem q n f
  pub lo : s.mem_start_brk ≤ q
  pub hi : q + n ≤ s.mem_brk
  pub top : s.mem_brk < 2 ^ 63

module _ (s : State) where
  pub load-eq :
      (p : ℕ) → s.mem_start_brk ≤ p → p + 8 ≤ s.mem_brk → load p s ≡ ok (read_long s.mem p) s
  unfolding load
  load-eq p lo hi = rw (le→leb _ _ lo, le→leb _ _ hi)

  pub store-eq :
      (p v : ℕ)
      → s.mem_start_brk ≤ p
      → p + 8 ≤ s.mem_brk
      → store p v s ≡ ok tt (record s { mem = write_long s.mem p v })
  unfolding store
  store-eq p v lo hi = rw (le→leb _ _ lo, le→leb _ _ hi)

  -- The end tag is found from the header alone.
  pub block_end_tag_of_header :
      (q n : ℕ) (f : Bool)
      → read_long s.mem q ≡ n + bit f
      → n % 8 ≡ 0
      → 16 ≤ n
      → s.mem_start_brk ≤ q
      → q + n ≤ s.mem_brk
      → s.mem_brk < 2 ^ 63
      → block_end_tag q s ≡ ok (q + n - 8) s
  unfolding block_end_tag
  block_end_tag_of_header q n f header aligned tags lo hi top =
      rw
        (
          load-eq q lo (omega arith),
          header,
          less-le (n + bit f) 16 (omega arith) (omega (arith, bit-le f)),
        )
        (ap (λ t. ok t s) (end_index q n f aligned tags))

module _ {s : State} {q n : ℕ} {f : Bool} (h : Here s q n f) where
  room : 16 ≤ n
  room = h.at.tags

  pub load-header : load q s ≡ ok (n + bit f) s
  load-header = rw (load-eq s q h.lo (omega (arith, room, h.hi)), h.at.header)

  pub load-footer : load (q + n - 8) s ≡ ok (n + bit f) s
  load-footer =
      rw
        (load-eq s (q + n - 8) (omega (arith, room, h.lo)) (omega (arith, room, h.hi)), h.at.footer)

  pub block_allocated-eq : block_allocated q s ≡ ok (bit f) s
  unfolding block_allocated
  block_allocated-eq = rw load-header (ap (λ t. ok t s) (low_bit-tag n f h.at.aligned))

  pub block_size-eq : block_size q s ≡ ok n s
  unfolding block_size
  block_size-eq = rw load-header (ap (λ t. ok t s) (clear_low-tag n f h.at.aligned))

  pub block_next-eq : block_next q s ≡ ok (q + n) s
  unfolding block_next
  block_next-eq = rw block_size-eq (ap (λ t. ok t s) (add-small q n (omega (arith, h.hi, h.top))))

  pub block_end_tag-eq : block_end_tag q s ≡ ok (q + n - 8) s
  block_end_tag-eq = block_end_tag_of_header s q n f h.at.header h.at.aligned room h.lo h.hi h.top

  pub block_prev_size-eq : block_prev_size (q + n) s ≡ ok n s
  unfolding block_prev_size
  block_prev_size-eq =
      rw (sub-small (q + n) 8 (omega (arith, room)) (omega (arith, h.hi, h.top)), load-footer)
        (ap (λ t. ok t s) (clear_low-tag n f h.at.aligned))

  pub block_prev-eq : block_prev (q + n) s ≡ ok q s
  unfolding block_prev block_prev_size
  block_prev-eq =
      rw (sub-small (q + n) 8 (omega (arith, room)) (omega (arith, h.hi, h.top)), load-footer)
        (ap (λ t. ok t s)
          (ap (λ t. sub (q + n) t) (clear_low-tag n f h.at.aligned) ∙ omega (arith, h.hi, h.top)))

  pub block_end_size-eq : block_end_size q s ≡ ok n s
  unfolding block_end_size
  block_end_size-eq =
      rw (block_end_tag-eq, load-footer) (ap (λ t. ok t s) (clear_low-tag n f h.at.aligned))

  pub block_end_allocated-eq : block_end_allocated q s ≡ ok (bit f) s
  unfolding block_end_allocated
  block_end_allocated-eq =
      rw (block_end_tag-eq, load-footer) (ap (λ t. ok t s) (low_bit-tag n f h.at.aligned))

-- A free block, with room for its links.
pub record FreeHere (s : State) (q : ℕ) : Type 0 where
  pub size : ℕ
  pub here : Here s q size false
  pub links : 32 ≤ size

module _ {s : State} {q : ℕ} (h : FreeHere s q) where
  pub require_free-eq : require_free q s ≡ ok tt s
  unfolding require_free
  require_free-eq = rw (block_allocated-eq h.here)

  room_lo : s.mem_start_brk ≤ q
  room_lo = h.here.lo

  room_hi : q + 32 ≤ s.mem_brk
  room_hi = omega (arith, h.here.hi, h.links)

  pub block_flink-eq : block_flink q s ≡ ok (read_long s.mem (q + 8)) s
  unfolding block_flink
  block_flink-eq =
      let e : payload q 0 ≡ q + 8 = omega arith in
      rw (require_free-eq, e) (load-eq s (q + 8) (omega (arith, room_lo)) (omega (arith, room_hi)))

  pub block_blink-eq : block_blink q s ≡ ok (read_long s.mem (q + 16)) s
  unfolding block_blink
  block_blink-eq =
      let e : payload q 1 ≡ q + 16 = omega arith in
      rw (require_free-eq, e) (load-eq s (q + 16) (omega (arith, room_lo)) (omega (arith, room_hi)))

-- Setting a link of one free block to another.
module _ {s : State} {q r : ℕ} (h : FreeHere s q) (h' : FreeHere s r) where
  pub block_set_flink-eq :
      block_set_flink q r s ≡ ok tt (record s { mem = write_long s.mem (q + 8) r })
  unfolding block_set_flink
  block_set_flink-eq =
      let e : payload q 0 ≡ q + 8 = omega arith in
      rw (require_free-eq h, require_free-eq h', e)
        (store-eq s (q + 8) r (omega (arith, room_lo h)) (omega (arith, room_hi h)))

  pub block_set_blink-eq :
      block_set_blink q r s ≡ ok tt (record s { mem = write_long s.mem (q + 16) r })
  unfolding block_set_blink
  block_set_blink-eq =
      let e : payload q 1 ≡ q + 16 = omega arith in
      rw (require_free-eq h, require_free-eq h', e)
        (store-eq s (q + 16) r (omega (arith, room_lo h)) (omega (arith, room_hi h)))
