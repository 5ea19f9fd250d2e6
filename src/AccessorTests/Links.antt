-- ===== src/AccessorTests/Links.antt =====
-- The tests of mminline-tests.c that set a link of a free block, and that find a block by its
-- payload.
use cs0330_fall2022_7_malloc.Base.{
  ℕ, ◌+◌, ◌*◌, ◌≤◌, ◌≡◌, refl, Bool, true, false, arith, ◌⊎◌, ◌==◌, eq→==,
}
use cs0330_fall2022_7_malloc.Machine.{Mem, State, write_long, sub}
use cs0330_fall2022_7_malloc.Machine.Bytes.{read-write_long, write_outside}
use cs0330_fall2022_7_malloc.AccessorTests.{
  payload_to_block_test, set_flink_test, set_blink_test, set_allocated_test,
  set_size_and_allocated_test, end_tag_test,
}
use cs0330_fall2022_7_malloc.AccessorTests.Pass.{
  set_allocated-Passes, set_size_and_allocated-Passes, end_tag-Passes,
}
use cs0330_fall2022_7_malloc.AccessorTests.Rooms.{
  Room, Separate, TwoBlocks, make_two, ends_made, Room-ends, Passes,
}
use cs0330_fall2022_7_malloc.Block.{payload_to_block}
use cs0330_fall2022_7_malloc.Block.Laws.{
  Here, FreeHere, block_allocated-eq, block_size-eq, block_flink-eq, block_blink-eq,
  block_set_flink-eq, block_set_blink-eq,
}
use cs0330_fall2022_7_malloc.Layout.Frame.{IsBlock-frame}

-- A block is kept by a write of a long that spares its tags.
linked_Here :
    {s : State} {b n : ℕ} {f : Bool} (p v : ℕ)
    → Here s b n f
    → (p + 8 ≤ b) ⊎ (((b + 8 ≤ p) × (p + 16 ≤ b + n)) ⊎ (b + n ≤ p))
    → Here (record s { mem = write_long s.mem p v }) b n f
linked_Here {s} {b} {n} p v h apart = record {
  at =
      IsBlock-frame (write_long s.mem p v)
        (λ a lo hi. write_outside 8 s.mem p v a (ground (arith, apart, lo, hi, h.at.tags)))
        (λ a lo hi. write_outside 8 s.mem p v a (ground (arith, apart, lo, hi, h.at.tags))) h.at;
  lo = h.lo;
  hi = h.hi;
  top = h.top;
}

module _ (s : State) (addr : ℕ → ℕ) (room : Room s (addr 2) 32) where
  module _ (room' : Room s (addr 3) 64) (apart : Separate (addr 2) 32 (addr 3) 64) where
    two_free : TwoBlocks (ends_made s addr) (addr 2) 32 false (addr 3) 64 false
    two_free =
        make_two (ends_made s addr) (addr 2) 32 false (addr 3) 64 false
          (Room-ends s addr (addr 2) 32 room) (Room-ends s addr (addr 3) 64 room') apart refl
          (omega arith) refl (omega arith)

    set_flink-Passes : Passes set_flink_test s addr
    unfolding set_flink_test
    set_flink-Passes =
        let two = two_free in
        let s₂ : State = record (ends_made s addr) { mem = two.m₂ } in
        let a : FreeHere s₂ (addr 2) = record { size = 32; here = two.left; links = omega arith } in
        let c : FreeHere s₂ (addr 3) = record {
          size = 64;
          here = two.right;
          links = omega arith;
        } in
        let m₃ : Mem = write_long two.m₂ (addr 2 + 8) (addr 3) in
        let left = linked_Here {s = s₂} (addr 2 + 8) (addr 3) two.left (omega arith) in
        let right = linked_Here {s = s₂} (addr 2 + 8) (addr 3) two.right (ground (arith, apart)) in
        let a' : FreeHere (record s₂ { mem = m₃ }) (addr 2) = record {
          size = 32;
          here = left;
          links = omega arith;
        } in
        let link =
          read-write_long two.m₂ (addr 2 + 8) (addr 3) (omega (arith, room'.hi, room'.top)) in
        (
          record s₂ { mem = m₃ },
          rw
              (
                two.first,
                two.second,
                block_set_flink-eq a c,
                block_flink-eq a',
                link,
                eq→== (addr 3) (addr 3) refl,
                block_size-eq left,
                block_size-eq right,
                block_allocated-eq left,
                block_allocated-eq right,
              )
              refl,
        )

    set_blink-Passes : Passes set_blink_test s addr
    unfolding set_blink_test
    set_blink-Passes =
        let two = two_free in
        let s₂ : State = record (ends_made s addr) { mem = two.m₂ } in
        let a : FreeHere s₂ (addr 2) = record { size = 32; here = two.left; links = omega arith } in
        let c : FreeHere s₂ (addr 3) = record {
          size = 64;
          here = two.right;
          links = omega arith;
        } in
        let m₃ : Mem = write_long two.m₂ (addr 2 + 16) (addr 3) in
        let left = linked_Here {s = s₂} (addr 2 + 16) (addr 3) two.left (omega arith) in
        let right = linked_Here {s = s₂} (addr 2 + 16) (addr 3) two.right (ground (arith, apart)) in
        let a' : FreeHere (record s₂ { mem = m₃ }) (addr 2) = record {
          size = 32;
          here = left;
          links = omega arith;
        } in
        let link =
          read-write_long two.m₂ (addr 2 + 16) (addr 3) (omega (arith, room'.hi, room'.top)) in
        (
          record s₂ { mem = m₃ },
          rw
              (
                two.first,
                two.second,
                block_set_blink-eq a c,
                block_blink-eq a',
                link,
                eq→== (addr 3) (addr 3) refl,
                block_size-eq left,
                block_size-eq right,
                block_allocated-eq left,
                block_allocated-eq right,
              )
              refl,
        )

    -- On two blocks from `malloc` of 48 and 80 bytes that do not overlap, below 2 ^ 63, these five
    -- tests pass whatever the bytes are.
    pub tests_on_blocks_pass :
        Passes set_allocated_test s addr
        × Passes set_size_and_allocated_test s addr
        × Passes end_tag_test s addr
        × Passes set_flink_test s addr
        × Passes set_blink_test s addr
    tests_on_blocks_pass = (
      set_allocated-Passes s addr room room' apart,
      set_size_and_allocated-Passes s addr room room' apart,
      end_tag-Passes s addr room room' apart,
      set_flink-Passes,
      set_blink-Passes,
    )

  pub payload_to_block-Passes :
      Room s (addr 3) 96 → Separate (addr 2) 32 (addr 3) 96 → Passes payload_to_block_test s addr
  unfolding payload_to_block_test payload_to_block
  payload_to_block-Passes room' apart =
      let two =
        make_two (ends_made s addr) (addr 2) 32 false (addr 3) 96 true
          (Room-ends s addr (addr 2) 32 room) (Room-ends s addr (addr 3) 96 room') apart refl
          (omega arith) refl (omega arith) in
      let back : (sub (addr 2 + 8 + 8 * 0) 8 == addr 2) ≡ true =
        eq→== (sub (addr 2 + 8 + 8 * 0) 8) (addr 2) (omega (arith, room.hi, room.top)) in
      let back' : (sub (addr 3 + 8 + 8 * 0) 8 == addr 3) ≡ true =
        eq→== (sub (addr 3 + 8 + 8 * 0) 8) (addr 3) (omega (arith, room'.hi, room'.top)) in
      (record (ends_made s addr) { mem = two.m₂ }, rw (two.first, two.second, back, back') refl)
