-- ===== src/Mm/Ends.antt =====
-- What a step of the allocator leaves behind, and the step that every operation shares: both tags
-- are written over a range that held one block or several.
use cs0330_fall2022_7_malloc.Base.{
  ℕ, ◌+◌, ◌-◌, ◌*◌, ◌%◌, ◌≤◌, ◌<◌, ◌≡◌, List, [], ◌∷◌, ◌++◌, Bool, arith, ◌⊎◌, inl, inr,
}
use cs0330_fall2022_7_malloc.Machine.{Mem, State, Run, ok, bit}
use cs0330_fall2022_7_malloc.Block.{block_set_size_and_allocated}
use cs0330_fall2022_7_malloc.Block.Write.{Tagged, block_set_size_and_allocated_lem}
use cs0330_fall2022_7_malloc.Layout.{Blocks, span, done, block}
use cs0330_fall2022_7_malloc.Layout.Payload.{payload_byte-append, payload_byte-range, KeepsPayload}
use cs0330_fall2022_7_malloc.Layout.Retile.{
  SameOutside, others, upto-le, Sound-retile, FreeRing-retile,
}
use cs0330_fall2022_7_malloc.Layout.Sound.{Sound}
use cs0330_fall2022_7_malloc.FreeList.Ring.{FreeRing}

-- The run ends well, in a state with the layout `bs` and the blocks `fs` in the free list, and no
-- payload of `bs` has changed.
pub record Ends (r : Run (Unit {0})) (s : State) (bs : Blocks) (fs : List ℕ) : Type 0 where
  pub mem : Mem
  pub first : ℕ
  pub run : r ≡ ok tt (record s { mem = mem; flist_first = first })
  pub sound : Sound (record s { mem = mem; flist_first = first }) bs
  pub free : FreeRing mem first fs
  pub keeps : KeepsPayload s.mem_start_brk bs s.mem mem

-- Writing tags changes no payload of the layout that they make.
pub Tagged-KeepsPayload :
    (p : ℕ) (xs ys : Blocks) (n : ℕ) (f : Bool) {m m' : Mem}
    → Tagged m m' (p + span xs) n f
    → KeepsPayload p (xs ++ ((n, f) ∷ ys)) m m'
Tagged-KeepsPayload p xs ys n f t a i =
    let split = payload_byte-append p xs ((n, f) ∷ ys) a in
    let front = payload_byte-range p xs a in
    let back = payload_byte-range (p + span xs + n) ys a in
    let away : ((a < p + span xs) ⊎ (p + span xs + 8 ≤ a))
        × ((a < p + span xs + n - 8) ⊎ (p + span xs + n ≤ a)) =
      ground arith in
    t.same a away.0 away.1

Tagged-SameOutside :
    {m m' : Mem} {q n : ℕ} {f : Bool} (c : ℕ) → Tagged m m' q n f → c ≡ q + n → SameOutside q c m m'
Tagged-SameOutside {n} c t e a (inl h) = let big = t.at.tags in t.same a (inl h) (inl (omega arith))
Tagged-SameOutside {n} c t e a (inr h) =
    let big = t.at.tags in t.same a (inr (omega arith)) (inr (omega arith))

module _ {s : State} (xs mid ys : Blocks) (sound : Sound s (xs ++ (mid ++ ys)))
    (free : FreeRing s.mem s.flist_first
      (others s.mem_start_brk xs (s.mem_start_brk + span xs + span mid) ys)) where
  -- From tags over the whole range to the new layout.
  pub retagged :
      (n : ℕ) (f : Bool) {r : Run (Unit {0})}
      → n ≡ span mid
      → 32 ≤ n + 16 * bit f
      → (m' : Mem) → (r ≡ ok tt (record s { mem = m' }))
      → Tagged s.mem m' (s.mem_start_brk + span xs) n f
      → Ends r s
          (xs ++ ((n, f) ∷ ys))
          (others s.mem_start_brk xs (s.mem_start_brk + span xs + span mid) ys)
  retagged n f e links m' run t =
      let q = s.mem_start_brk + span xs in
      let same = Tagged-SameOutside (q + span mid) t (omega arith) in
      let s' : State = record s { mem = m' } in
      let made : Sound s' (xs ++ (((n, f) ∷ []) ++ ys)) =
        Sound-retile xs mid ys sound ((n, f) ∷ []) m' same
          (block t.at links (done (omega arith))) in
      record {
        mem = m';
        first = s.flist_first;
        run = run;
        sound = made;
        free = FreeRing-retile xs mid ys sound m' same free;
        keeps = Tagged-KeepsPayload s.mem_start_brk xs ys n f t;
      }

  -- `block_set_size_and_allocated` over the whole range makes it one block.
  pub merged :
      (n : ℕ) (f : Bool)
      → n ≡ span mid
      → n % 8 ≡ 0
      → 16 ≤ n
      → 32 ≤ n + 16 * bit f
      → Ends
          (block_set_size_and_allocated (s.mem_start_brk + span xs) n (bit f) s)
          s
          (xs ++ ((n, f) ∷ ys))
          (others s.mem_start_brk xs (s.mem_start_brk + span xs + span mid) ys)
  merged n f e aligned tags links =
      let (m', run, t) =
        block_set_size_and_allocated_lem s (s.mem_start_brk + span xs) n f aligned tags
          (omega arith) (omega (arith, upto-le xs mid ys sound)) sound.top in
      retagged n f e links m' run t
