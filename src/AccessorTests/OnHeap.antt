-- ===== src/AccessorTests/OnHeap.antt =====
-- The tests of mminline-tests.c on three blocks of the simulated heap: they pass wherever the heap
-- lies.
use cs0330_fall2022_7_malloc.Base.{
  ℕ, ◌+◌, ◌%◌, ◌^◌, ◌≤◌, ◌<◌, ◌≡◌, refl, ap, Bool, true, false, arith, inl, eq→==, ne→==, le→ltb,
  lt→leb, some, ◌≢◌,
}
use cs0330_fall2022_7_malloc.Machine.{Mem, State, ok, bit}
use cs0330_fall2022_7_malloc.Memlib.{mem_init, mem_sbrk, max_heap}
use cs0330_fall2022_7_malloc.AccessorTests.{
  begun, init_heap, prev_test, next_test, next_size_allocated_test, prev_size_allocated_test,
}
use cs0330_fall2022_7_malloc.AccessorTests.Rooms.{Passes, tagged_Here}
use cs0330_fall2022_7_malloc.Block.{
  block_set_size_and_allocated, block_next_allocated, block_next_size, block_prev_allocated,
}
use cs0330_fall2022_7_malloc.Block.Laws.{
  Here, block_allocated-eq, block_size-eq, block_next-eq, block_prev-eq, block_prev_size-eq,
}
use cs0330_fall2022_7_malloc.Block.Write.{block_set_size_and_allocated_lem}

-- ThreeBlocks blocks, one after the other, from the start of the heap on.
record ThreeBlocks (s : State) (q a : ℕ) (f : Bool) (b : ℕ) (g : Bool) (c : ℕ) (h : Bool)
    : Type 0 where
  m₁ : Mem
  m₂ : Mem
  m₃ : Mem
  first : block_set_size_and_allocated q a (bit f) s ≡ ok tt (record s { mem = m₁ })
  second :
      block_set_size_and_allocated (q + a) b (bit g) (record s { mem = m₁ })
      ≡ ok tt (record s { mem = m₂ })
  third :
      block_set_size_and_allocated (q + a + b) c (bit h) (record s { mem = m₂ })
      ≡ ok tt (record s { mem = m₃ })
  one : Here (record s { mem = m₃ }) q a f
  two : Here (record s { mem = m₃ }) (q + a) b g
  last : Here (record s { mem = m₃ }) (q + a + b) c h

make_three :
    (s : State) (q a : ℕ) (f : Bool) (b : ℕ) (g : Bool) (c : ℕ) (h : Bool)
    → s.mem_start_brk ≤ q
    → q + a + b + c ≤ s.mem_brk
    → s.mem_brk < 2 ^ 63
    → (a % 8 ≡ 0) × (16 ≤ a)
    → (b % 8 ≡ 0) × (16 ≤ b)
    → (c % 8 ≡ 0) × (16 ≤ c)
    → ThreeBlocks s q a f b g c h
make_three s q a f b g c h lo hi top (a8, a16) (b8, b16) (c8, c16) =
    let (m₁, run₁, t₁) = block_set_size_and_allocated_lem s q a f a8 a16 lo (omega arith) top in
    let s₁ : State = record s { mem = m₁ } in
    let (m₂, run₂, t₂) =
      block_set_size_and_allocated_lem s₁ (q + a) b g b8 b16 (omega arith) (omega arith) top in
    let s₂ : State = record s { mem = m₂ } in
    let (m₃, run₃, t₃) =
      block_set_size_and_allocated_lem s₂ (q + a + b) c h c8 c16 (omega arith) hi top in
    let one₁ : Here s₁ q a f = record { at = t₁.at; lo = lo; hi = omega arith; top = top } in
    let two₂ : Here s₂ (q + a) b g = record {
      at = t₂.at;
      lo = omega arith;
      hi = omega arith;
      top = top;
    } in
    let one₂ : Here s₂ q a f = tagged_Here {s = s₁} m₂ one₁ t₂ (inl (omega arith)) in
    record {
      m₁ = m₁;
      m₂ = m₂;
      m₃ = m₃;
      first = run₁;
      second = run₂;
      third = run₃;
      one = tagged_Here {s = s₂} m₃ one₂ t₃ (inl (omega arith));
      two = tagged_Here {s = s₂} m₃ two₂ t₃ (inl (omega arith));
      last = record { at = t₃.at; lo = omega arith; hi = hi; top = top };
    }

-- The heap of `mem_init` at `addr 0`, with its break at `brk`.
abbrev heap_at : State → (base brk : ℕ) → State
heap_at s base brk = record s {
  mem_start_brk = base;
  mem_max_addr = base + max_heap;
  mem_brk = brk;
}

module _ (s : State) (addr : ℕ → ℕ) (got : addr 0 ≢ 0) (top : addr 0 + max_heap < 2 ^ 63) where
  init_some : mem_init (addr 0) s ≡ some (heap_at s (addr 0) (addr 0))
  unfolding mem_init
  init_some = rw (ne→== (addr 0) 0 got) refl

  init-eq : init_heap addr s ≡ ok tt (heap_at s (addr 0) (addr 0))
  unfolding init_heap
  init-eq = ap begun init_some

  sbrk-eq :
      (brk n : ℕ)
      → n < 2 ^ 31
      → brk + n ≤ addr 0 + max_heap
      → mem_sbrk n (heap_at s (addr 0) brk) ≡ ok brk (heap_at s (addr 0) (brk + n))
  unfolding mem_sbrk
  sbrk-eq brk n small room =
      rw (lt→leb (2 ^ 31) n small, le→ltb (addr 0 + max_heap) (brk + n) room) refl

  prev-Passes : Passes prev_test s addr
  unfolding prev_test
  prev-Passes =
      let q = addr 0 in
      let s₀ : State = heap_at s q (q + 96 + 96 + 128) in
      let made =
        make_three s₀ q 96 true 96 false 128 false (omega arith) (omega arith) (omega arith)
          (refl, omega arith) (refl, omega arith) (refl, omega arith) in
      (
        record s₀ { mem = made.m₃ },
        rw
            (
              init-eq,
              sbrk-eq q 96 (omega arith) (omega arith),
              sbrk-eq (q + 96) 96 (omega arith) (omega arith),
              sbrk-eq (q + 96 + 96) 128 (omega arith) (omega arith),
              made.first,
              made.second,
              made.third,
              block_prev-eq made.one,
              eq→== q q refl,
              block_prev-eq made.two,
              eq→== (q + 96) (q + 96) refl,
              block_prev-eq made.two,
              block_size-eq made.two,
            )
            refl,
      )

  next-Passes : Passes next_test s addr
  unfolding next_test
  next-Passes =
      let q = addr 0 in
      let s₀ : State = heap_at s q (q + 64 + 64 + 64) in
      let made =
        make_three s₀ q 64 true 64 false 64 false (omega arith) (omega arith) (omega arith)
          (refl, omega arith) (refl, omega arith) (refl, omega arith) in
      (
        record s₀ { mem = made.m₃ },
        rw
            (
              init-eq,
              sbrk-eq q 64 (omega arith) (omega arith),
              sbrk-eq (q + 64) 64 (omega arith) (omega arith),
              sbrk-eq (q + 64 + 64) 64 (omega arith) (omega arith),
              made.first,
              made.second,
              made.third,
              block_next-eq made.one,
              eq→== (q + 64) (q + 64) refl,
              block_next-eq made.two,
              eq→== (q + 64 + 64) (q + 64 + 64) refl,
              block_next-eq made.two,
              block_size-eq made.last,
            )
            refl,
      )

  next_size_allocated-Passes : Passes next_size_allocated_test s addr
  unfolding next_size_allocated_test block_next_allocated block_next_size
  next_size_allocated-Passes =
      let q = addr 0 in
      let s₀ : State = heap_at s q (q + 64 + 64 + 96) in
      let made =
        make_three s₀ q 64 true 64 false 96 true (omega arith) (omega arith) (omega arith)
          (refl, omega arith) (refl, omega arith) (refl, omega arith) in
      (
        record s₀ { mem = made.m₃ },
        rw
            (
              init-eq,
              sbrk-eq q 64 (omega arith) (omega arith),
              sbrk-eq (q + 64) 64 (omega arith) (omega arith),
              sbrk-eq (q + 64 + 64) 96 (omega arith) (omega arith),
              made.first,
              made.second,
              made.third,
              block_next-eq made.one,
              block_allocated-eq made.two,
              block_next-eq made.two,
              block_allocated-eq made.last,
              block_next-eq made.one,
              block_size-eq made.two,
              block_next-eq made.two,
              block_size-eq made.last,
            )
            refl,
      )

  prev_size_allocated-Passes : Passes prev_size_allocated_test s addr
  unfolding prev_size_allocated_test block_prev_allocated
  prev_size_allocated-Passes =
      let q = addr 0 in
      let s₀ : State = heap_at s q (q + 64 + 96 + 128) in
      let made =
        make_three s₀ q 64 true 96 false 128 true (omega arith) (omega arith) (omega arith)
          (refl, omega arith) (refl, omega arith) (refl, omega arith) in
      (
        record s₀ { mem = made.m₃ },
        rw
            (
              init-eq,
              sbrk-eq q 64 (omega arith) (omega arith),
              sbrk-eq (q + 64) 96 (omega arith) (omega arith),
              sbrk-eq (q + 64 + 96) 128 (omega arith) (omega arith),
              made.first,
              made.second,
              made.third,
              block_prev-eq made.two,
              block_allocated-eq made.two,
              block_prev-eq made.one,
              block_allocated-eq made.one,
              block_prev_size-eq made.two,
              block_prev_size-eq made.one,
            )
            refl,
      )

  -- Where `malloc` gives the heap below 2 ^ 63, the four tests of neighbours in the heap pass.
  pub tests_on_heap_pass :
      Passes prev_test s addr
      × Passes next_test s addr
      × Passes next_size_allocated_test s addr
      × Passes prev_size_allocated_test s addr
  tests_on_heap_pass =
      (prev-Passes, next-Passes, next_size_allocated-Passes, prev_size_allocated-Passes)
