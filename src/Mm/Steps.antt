-- ===== src/Mm/Steps.antt =====
-- The steps of the allocator on a layout that is written as a prefix, some blocks and a suffix.
use cs0330_fall2022_7_malloc.Base.{
  ℕ, ◌+◌, ◌*◌, ◌%◌, ◌^◌, ◌≤◌, ◌<◌, ◌≡◌, sym, subst, ap, List, [], ◌∷◌, ◌++◌, Bool, true, arith, ◌∙◌,
  count, count-append, SameItems,
}
use cs0330_fall2022_7_malloc.Machine.{State, Run, Cmd, proceed, bit}
use cs0330_fall2022_7_malloc.Block.{block_set_size_and_allocated, block_set_allocated}
use cs0330_fall2022_7_malloc.Block.Laws.{Here}
use cs0330_fall2022_7_malloc.Block.Write.{block_set_allocated_lem}
use cs0330_fall2022_7_malloc.Layout.{
  Blocks, span, Heap, Heap-split, Heap-head, Heap-tail, Heap-end, frees,
}
use cs0330_fall2022_7_malloc.Layout.Place.{frees-append}
use cs0330_fall2022_7_malloc.Layout.Payload.{payload_byte, KeepsPayload, links-KeepsPayload}
use cs0330_fall2022_7_malloc.Layout.Retile.{others, FreeRing-same}
use cs0330_fall2022_7_malloc.Layout.Sound.{Sound, Sound-links}
use cs0330_fall2022_7_malloc.FreeList.{insert_free_block, pull_free_block}
use cs0330_fall2022_7_malloc.FreeList.Ring.{FreeRing}
use cs0330_fall2022_7_malloc.FreeList.Insert.{Within, insert_free_block_lem}
use cs0330_fall2022_7_malloc.FreeList.Pull.{pull_free_block_lem}
use cs0330_fall2022_7_malloc.Mm.Ends.{Ends, merged, retagged}

abbrev pub state :
    {r : Run (Unit {0})} {s : State} {bs : Blocks} {fs : List ℕ} → Ends r s bs fs → State
state {s} e = record s { mem = e.mem; flist_first = e.first }

-- One step after another.
pub Ends-then :
    {r : Run (Unit {0})} {s : State} {bs bs' : Blocks} {fs fs' : List ℕ}
    → (e : Ends r s bs fs) → (k : Cmd (Unit {0}))
    → ((a : ℕ)
        → payload_byte s.mem_start_brk bs' a ≡ true
        → payload_byte s.mem_start_brk bs a ≡ true)
    → Ends (k (state e)) (state e) bs' fs'
    → Ends (proceed r (λ _. k)) s bs' fs'
Ends-then e k sub d = record {
  mem = d.mem;
  first = d.first;
  run = ap (λ t. proceed t (λ _. k)) e.run ∙ d.run;
  sound = d.sound;
  free = d.free;
  keeps = λ a i. d.keeps a i ∙ e.keeps a (sub a i);
}

-- The same result at an equal command, layout and list.
pub Ends-cast :
    {r r' : Run (Unit {0})} {s : State} {bs bs' : Blocks} {fs : List ℕ} (fs' : List ℕ)
    → r ≡ r'
    → bs ≡ bs'
    → SameItems fs fs'
    → Ends r s bs fs
    → Ends r' s bs' fs'
Ends-cast {s} fs' er eb same e = record {
  mem = e.mem;
  first = e.first;
  run = sym er ∙ e.run;
  sound = subst (Sound (record s { mem = e.mem; flist_first = e.first })) eb e.sound;
  free = FreeRing-same fs' same e.free;
  keeps = subst (λ t. KeepsPayload s.mem_start_brk t s.mem e.mem) eb e.keeps;
}

module _ {s : State} {bs : Blocks} (sound : Sound s bs) where
  pub insert_ends :
      (fb : ℕ) (gs : List ℕ)
      → Within s bs (fb ∷ gs)
      → FreeRing s.mem s.flist_first gs
      → Ends (insert_free_block fb s) s bs (fb ∷ gs)
  insert_ends fb gs sub free =
      let (m', run, only, free') = insert_free_block_lem sound fb gs sub free in
      let sound' = Sound-links sound m' only in
      record {
        mem = m';
        first = fb;
        run = run;
        sound = record { heap = sound'.heap; low = sound.low; top = sound.top };
        free = free';
        keeps = links-KeepsPayload s.mem m' sound.heap only;
      }

  pub pull_ends :
      (fb : ℕ) (gs : List ℕ)
      → Within s bs (fb ∷ gs)
      → FreeRing s.mem s.flist_first (fb ∷ gs)
      → Ends (pull_free_block fb s) s bs gs
  pull_ends fb gs sub free =
      let (m', first, run, only, free') = pull_free_block_lem sound fb gs sub free in
      let sound' = Sound-links sound m' only in
      record {
        mem = m';
        first = first;
        run = run;
        sound = record { heap = sound'.heap; low = sound.low; top = sound.top };
        free = free';
        keeps = links-KeepsPayload s.mem m' sound.heap only;
      }

module _ (xs : Blocks) where
  pub count-frees :
      (x p : ℕ) (ys : Blocks)
      → count x (frees p (xs ++ ys)) ≡ count x (frees p xs) + count x (frees (p + span xs) ys)
  count-frees x p ys =
      ap (count x) (frees-append p xs ys) ∙ count-append x (frees p xs) (frees (p + span xs) ys)

  pub count-others :
      (x p c : ℕ) (ys : Blocks)
      → count x (others p xs c ys) ≡ count x (frees p xs) + count x (frees c ys)
  count-others x p c ys = count-append x (frees p xs) (frees c ys)

module _ {s : State} (xs : Blocks) where
  -- The layout from the end of the prefix on.
  pub heap_after :
      (ys : Blocks) → Sound s (xs ++ ys) → Heap s.mem s.mem_brk (s.mem_start_brk + span xs) ys
  heap_after ys sound = (Heap-split s.mem_start_brk xs ys sound.heap).1

  pub Heap-Here :
      {q n : ℕ} {f : Bool} {ys : Blocks}
      → s.mem_start_brk + span xs ≤ q
      → s.mem_brk < 2 ^ 63
      → Heap s.mem s.mem_brk q ((n, f) ∷ ys)
      → Here s q n f
  Heap-Here lo top h = record {
    at = Heap-head h;
    lo = omega arith;
    hi = omega (arith, Heap-end (Heap-tail h));
    top = top;
  }

  pub first-Here :
      (n : ℕ) (f : Bool) (ys : Blocks)
      → Sound s (xs ++ ((n, f) ∷ ys))
      → Here s (s.mem_start_brk + span xs) n f
  first-Here n f ys sound = Heap-Here (omega arith) sound.top (heap_after ((n, f) ∷ ys) sound)

  pub second-Here :
      (k : ℕ) (g : Bool) (n : ℕ) (f : Bool) (ys : Blocks)
      → Sound s (xs ++ ((k, g) ∷ ((n, f) ∷ ys)))
      → Here s (s.mem_start_brk + span xs + k) n f
  second-Here k g n f ys sound =
      Heap-Here (omega arith) sound.top (Heap-tail (heap_after ((k, g) ∷ ((n, f) ∷ ys)) sound))

  pub third-Here :
      (k : ℕ) (g : Bool) (n : ℕ) (f : Bool) (j : ℕ) (h : Bool) (ys : Blocks)
      → Sound s (xs ++ ((k, g) ∷ ((n, f) ∷ ((j, h) ∷ ys))))
      → Here s (s.mem_start_brk + span xs + k + n) j h
  third-Here k g n f j h ys sound =
      Heap-Here (omega arith) sound.top
        (Heap-tail (Heap-tail (heap_after ((k, g) ∷ ((n, f) ∷ ((j, h) ∷ ys))) sound)))

  module _ (mid ys : Blocks) (sound : Sound s (xs ++ (mid ++ ys))) (c : ℕ)
      (ec : s.mem_start_brk + span xs + span mid ≡ c)
      (free : FreeRing s.mem s.flist_first (others s.mem_start_brk xs c ys)) where
    free₀ :
        FreeRing s.mem s.flist_first
          (others s.mem_start_brk xs (s.mem_start_brk + span xs + span mid) ys)
    free₀ = subst (λ t. FreeRing s.mem s.flist_first (others s.mem_start_brk xs t ys)) (sym ec) free

    -- The blocks of the range become one.
    pub merge_ends :
        (n : ℕ) (f : Bool)
        → n ≡ span mid
        → n % 8 ≡ 0
        → 16 ≤ n
        → 32 ≤ n + 16 * bit f
        → Ends
            (block_set_size_and_allocated (s.mem_start_brk + span xs) n (bit f) s)
            s
            (xs ++ ((n, f) ∷ ys))
            (others s.mem_start_brk xs c ys)
    merge_ends n f e aligned tags links =
        subst
          (λ t.
            Ends (block_set_size_and_allocated (s.mem_start_brk + span xs) n (bit f) s) s
              (xs ++ ((n, f) ∷ ys)) (others s.mem_start_brk xs t ys))
          ec (merged xs mid ys sound free₀ n f e aligned tags links)

  -- The flag of a block that is not in the free list is changed.
  pub flag_ends :
      (n : ℕ) (g : Bool) (ys : Blocks)
      → (sound : Sound s (xs ++ ((n, g) ∷ ys)))
      → FreeRing s.mem s.flist_first (others s.mem_start_brk xs (s.mem_start_brk + span xs + n) ys)
      → (f : Bool) → 32 ≤ n + 16 * bit f
      → Ends
          (block_set_allocated (s.mem_start_brk + span xs) (bit f) s)
          s
          (xs ++ ((n, f) ∷ ys))
          (others s.mem_start_brk xs (s.mem_start_brk + span xs + n) ys)
  flag_ends n g ys sound free f links =
      let q = s.mem_start_brk + span xs in
      let e : q + (n + 0) ≡ q + n = omega arith in
      let (m', run, t) = block_set_allocated_lem (first-Here n g ys sound) f in
      subst
        (λ t.
          Ends (block_set_allocated q (bit f) s) s (xs ++ ((n, f) ∷ ys))
            (others s.mem_start_brk xs t ys))
        e
        (retagged xs ((n, g) ∷ []) ys sound
          (subst (λ t. FreeRing s.mem s.flist_first (others s.mem_start_brk xs t ys)) (sym e) free)
          n f (omega arith) links m' run t)
