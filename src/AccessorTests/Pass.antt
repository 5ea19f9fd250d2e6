-- ===== src/AccessorTests/Pass.antt =====
-- The tests of mminline-tests.c on two blocks from `malloc`: what they need to pass.
use cs0330_fall2022_7_malloc.Base.{
  ℕ, ◌+◌, ◌≡◌, refl, ap, Bool, true, false, arith, ◌∙◌, ◌⊎◌, inl, inr,
}
use cs0330_fall2022_7_malloc.Machine.{Mem, State, ok, aborted, read_long, bit, low_bit}
use cs0330_fall2022_7_malloc.Machine.Bytes.{read_agree}
use cs0330_fall2022_7_malloc.AccessorTests.{
  set_size_test, set_allocated_test, set_size_and_allocated_test, end_tag_test,
}
use cs0330_fall2022_7_malloc.Block.{block_set_size}
use cs0330_fall2022_7_malloc.Block.Laws.{
  Here, block_allocated-eq, block_size-eq, block_end_size-eq, block_end_allocated-eq, load-header,
}
use cs0330_fall2022_7_malloc.Block.Write.{block_set_size_lem, block_set_allocated_lem}
use cs0330_fall2022_7_malloc.AccessorTests.Rooms.{
  Room, Separate, tagged_Here, TwoBlocks, make_two, Passes, ends_made, Room-ends, parity, clear,
  set,
}

module _ (s : State) (addr : ℕ → ℕ) (room : Room s (addr 2) 32) where
  module _ (room' : Room s (addr 3) 64) (apart : Separate (addr 2) 32 (addr 3) 64) where
    made : (f g : Bool) → TwoBlocks (ends_made s addr) (addr 2) 32 f (addr 3) 64 g
    made f g =
        make_two (ends_made s addr) (addr 2) 32 f (addr 3) 64 g (Room-ends s addr (addr 2) 32 room)
          (Room-ends s addr (addr 3) 64 room') apart refl (omega arith) refl (omega arith)

    pub set_size_and_allocated-Passes : Passes set_size_and_allocated_test s addr
    unfolding set_size_and_allocated_test
    set_size_and_allocated-Passes =
        let both = made true false in
        (
          record (ends_made s addr) { mem = both.m₂ },
          rw
              (
                both.first,
                both.second,
                block_size-eq both.left,
                block_size-eq both.right,
                block_allocated-eq both.left,
                block_allocated-eq both.right,
              )
              refl,
        )

    pub end_tag-Passes : Passes end_tag_test s addr
    unfolding end_tag_test
    end_tag-Passes =
        let both = made true false in
        (
          record (ends_made s addr) { mem = both.m₂ },
          rw
              (
                both.first,
                both.second,
                block_size-eq both.left,
                block_end_size-eq both.left,
                block_size-eq both.right,
                block_end_size-eq both.right,
                block_end_allocated-eq both.left,
                block_end_allocated-eq both.right,
              )
              refl,
        )

    -- The state after both calls of `block_set_size`: the flags are those of the bytes of `malloc`.
    record Sized : Type 0 where
      f : Bool
      g : Bool
      m₁ : Mem
      m₂ : Mem
      first :
          block_set_size (addr 2) 32 (ends_made s addr)
          ≡ ok tt (record (ends_made s addr) { mem = m₁ })
      second :
          block_set_size (addr 3) 64 (record (ends_made s addr) { mem = m₁ })
          ≡ ok tt (record (ends_made s addr) { mem = m₂ })
      left : Here (record (ends_made s addr) { mem = m₂ }) (addr 2) 32 f
      right : Here (record (ends_made s addr) { mem = m₂ }) (addr 3) 64 g
      left_flag : bit f ≡ low_bit (read_long s.mem (addr 2))
      right_flag : bit g ≡ low_bit (read_long s.mem (addr 3))

    sized : Sized
    sized =
        let s₀ = ends_made s addr in
        let (f, m₁, run₁, t₁, old₁) =
          block_set_size_lem s₀ (addr 2) 32 refl (omega arith) room.lo (omega (arith, room.hi))
            room.top in
        let s₁ : State = record s₀ { mem = m₁ } in
        let (g, m₂, run₂, t₂, old₂) =
          block_set_size_lem s₁ (addr 3) 64 refl (omega arith) room'.lo (omega (arith, room'.hi))
            room'.top in
        let here : Here s₁ (addr 2) 32 f = record {
          at = t₁.at;
          lo = room.lo;
          hi = omega (arith, room.hi);
          top = room.top;
        } in
        record {
          f = f;
          g = g;
          m₁ = m₁;
          m₂ = m₂;
          first = run₁;
          second = run₂;
          left = tagged_Here {s = s₁} m₂ here t₂ (ground (arith, apart));
          right = record {
            at = t₂.at;
            lo = room'.lo;
            hi = omega (arith, room'.hi);
            top = room'.top;
          };
          left_flag = old₁;
          right_flag =
              old₂
              ∙ ap low_bit (
                  read_agree 8 s.mem m₁ (addr 3)
                    (λ a lo hi. t₁.same a (ground (arith, apart)) (ground (arith, apart))));
        }

    pub set_allocated-Passes : Passes set_allocated_test s addr
    unfolding set_allocated_test
    set_allocated-Passes =
        let two = sized in
        let s₂ : State = record (ends_made s addr) { mem = two.m₂ } in
        let (m₃, run₃, t₃) = block_set_allocated_lem two.left true in
        let s₃ : State = record s₂ { mem = m₃ } in
        let left : Here s₃ (addr 2) 32 true = record {
          at = t₃.at;
          lo = room.lo;
          hi = omega (arith, room.hi);
          top = room.top;
        } in
        let right : Here s₃ (addr 3) 64 two.g =
          tagged_Here {s = s₂} m₃ two.right t₃ (ground (arith, apart)) in
        let (m₄, run₄, t₄) = block_set_allocated_lem right false in
        let left' = tagged_Here {s = s₃} m₄ left t₄ (ground (arith, apart)) in
        let right' : Here (record s₃ { mem = m₄ }) (addr 3) 64 false = record {
          at = t₄.at;
          lo = room'.lo;
          hi = omega (arith, room'.hi);
          top = room'.top;
        } in
        (
          record s₃ { mem = m₄ },
          rw
              (
                two.first,
                two.second,
                run₃,
                run₄,
                block_allocated-eq left',
                block_allocated-eq right',
              )
              refl,
        )

    -- Whether `set_size_test` passes hangs on the flags that stood in the bytes of `malloc`.
    set_size-Passes :
        low_bit (read_long s.mem (addr 2)) ≡ 0
        → low_bit (read_long s.mem (addr 3)) ≡ 0
        → Passes set_size_test s addr
    unfolding set_size_test
    set_size-Passes even even' =
        let two = sized in
        let f : two.f ≡ false = clear two.f (two.left_flag ∙ even) in
        let g : two.g ≡ false = clear two.g (two.right_flag ∙ even') in
        let w : 32 + bit two.f ≡ 32 = ap (λ t. 32 + bit t) f in
        let w' : 64 + bit two.g ≡ 64 = ap (λ t. 64 + bit t) g in
        (
          record (ends_made s addr) { mem = two.m₂ },
          rw
              (
                two.first,
                two.second,
                load-header two.left,
                w,
                load-header two.right,
                w',
                block_size-eq two.left,
                block_size-eq two.right,
              )
              refl,
        )

    set_size_fails_first : low_bit (read_long s.mem (addr 2)) ≡ 1 → set_size_test addr s ≡ aborted
    unfolding set_size_test
    set_size_fails_first odd =
        let two = sized in
        let w : 32 + bit two.f ≡ 33 = ap (λ t. 32 + bit t) (set two.f (two.left_flag ∙ odd)) in
        rw (two.first, two.second, load-header two.left, w) refl

    set_size_fails_second :
        low_bit (read_long s.mem (addr 2)) ≡ 0
        → low_bit (read_long s.mem (addr 3)) ≡ 1
        → set_size_test addr s ≡ aborted
    unfolding set_size_test
    set_size_fails_second even odd =
        let two = sized in
        let w : 32 + bit two.f ≡ 32 = ap (λ t. 32 + bit t) (clear two.f (two.left_flag ∙ even)) in
        let w' : 64 + bit two.g ≡ 65 = ap (λ t. 64 + bit t) (set two.g (two.right_flag ∙ odd)) in
        rw (two.first, two.second, load-header two.left, w, load-header two.right, w') refl

    -- On two blocks from `malloc` that do not overlap, below 2 ^ 63, `set_size_test` passes if the
    -- lowest bits of both, which `malloc` leaves as they were, are clear; else an assert fails.
    pub set_size_test_lem :
        ((low_bit (read_long s.mem (addr 2)) ≡ 0)
          × (low_bit (read_long s.mem (addr 3)) ≡ 0)
          × Passes set_size_test s addr)
        ⊎ (((low_bit (read_long s.mem (addr 2)) ≡ 1) ⊎ (low_bit (read_long s.mem (addr 3)) ≡ 1))
            × (set_size_test addr s ≡ aborted))
    set_size_test_lem = elim (parity (read_long s.mem (addr 2))) [
      | inr odd ↦ inr (inl odd, set_size_fails_first odd)
      | inl even ↦ elim (parity (read_long s.mem (addr 3))) [
        | inr odd ↦ inr (inr odd, set_size_fails_second even odd)
        | inl even' ↦ inl (even, even', set_size-Passes even even')
      ]
    ]
