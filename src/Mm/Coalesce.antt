-- ===== src/Mm/Coalesce.antt =====
-- `coalescing`: a free block is joined with its free neighbours, on each of the four branches.
pub mod Branches
pub mod Joined
pub mod Result
use cs0330_fall2022_7_malloc.Base.{
  ℕ, ◌+◌, ◌-◌, ◌*◌, ◌%◌, ◌^◌, ◌≤◌, ◌<◌, ◌≡◌, refl, sym, subst, ap, List, [], ◌∷◌, ◌++◌, Bool, true,
  false, arith, ◌∙◌, count, count-append, count_self, SameItems, if◌then◌else◌, not, ◌||◌,
}
use cs0330_fall2022_7_malloc.Machine.{
  Mem, State, Run, Cmd, ok, proceed, ◌>>=◌, ◌>>◌, bit, add, is_set,
}
use cs0330_fall2022_7_malloc.Machine.Words.{add-small, is_set-bit}
use cs0330_fall2022_7_malloc.Block.{block_size, block_allocated, block_set_size_and_allocated}
use cs0330_fall2022_7_malloc.Block.Laws.{
  Here, block_allocated-eq, block_size-eq, block_next-eq, block_prev-eq,
}
use cs0330_fall2022_7_malloc.Layout.{Blocks, span, Heap-head, Heap-tail, Heap-end, frees}
use cs0330_fall2022_7_malloc.Layout.Payload.{payload_byte, payload_byte-append}
use cs0330_fall2022_7_malloc.Layout.Retile.{others, FreeRing-same}
use cs0330_fall2022_7_malloc.Layout.Sound.{Sound}
use cs0330_fall2022_7_malloc.FreeList.{insert_free_block, pull_free_block}
use cs0330_fall2022_7_malloc.FreeList.Ring.{FreeRing}
use cs0330_fall2022_7_malloc.FreeList.Insert.{Within}
use cs0330_fall2022_7_malloc.Mm.{absorb, absorb_next, coalesce_prev, coalesce_next, coalescing}
use cs0330_fall2022_7_malloc.Mm.Ends.{Ends}
use cs0330_fall2022_7_malloc.Mm.Steps.{
  state, Ends-then, Ends-cast, insert_ends, pull_ends, heap_after, first-Here, second-Here,
  third-Here, count-frees, count-others, merge_ends, flag_ends,
}

-- Two free blocks and one free block in their place have the same payloads around them.
pub free_payload :
    (p : ℕ) (xs ys : Blocks) (k n a : ℕ)
    → payload_byte p (xs ++ ((k + n, false) ∷ ys)) a ≡ true
    → payload_byte p (xs ++ ((k, false) ∷ ((n, false) ∷ ys))) a ≡ true
free_payload p xs ys k n a h =
    let e : p + span xs + (k + n) ≡ p + span xs + k + n = omega arith in
    ground (
      arith,
      payload_byte-append p xs ((k + n, false) ∷ ys) a,
      payload_byte-append p xs ((k, false) ∷ ((n, false) ∷ ys)) a,
      ap (λ q. payload_byte q ys a) e,
    )

module _ {s : State} (xs : Blocks) (k n : ℕ) (ys : Blocks)
    (sound : Sound s (xs ++ ((k, false) ∷ ((n, false) ∷ ys)))) where
  q : ℕ
  q = s.mem_start_brk + span xs

  rest : List ℕ
  rest = others s.mem_start_brk xs (s.mem_start_brk + span xs + k + n) ys

  sizes : (k % 8 ≡ 0) × (n % 8 ≡ 0) × (16 ≤ k) × (16 ≤ n) × (k + n < 2 ^ 64)
  sizes =
      let h = heap_after xs ((k, false) ∷ ((n, false) ∷ ys)) sound in
      let b₁ = Heap-head h in
      let b₂ = Heap-head (Heap-tail h) in
      let end = Heap-end (Heap-tail (Heap-tail h)) in
      (b₁.aligned, b₂.aligned, b₁.tags, b₂.tags, omega (arith, sound.top))

  within_two :
      (x : ℕ)
      → count x (frees s.mem_start_brk (xs ++ ((k, false) ∷ ((n, false) ∷ ys))))
        ≡ count x (q ∷ ((q + k) ∷ rest))
  unfolding q rest
  within_two x = omega (
    arith,
    count-frees xs x s.mem_start_brk ((k, false) ∷ ((n, false) ∷ ys)),
    count-others xs x s.mem_start_brk (s.mem_start_brk + span xs + k + n) ys,
  )

  two_in_one : s.mem_start_brk + span xs + k + n ≡ s.mem_start_brk + span xs + (k + n)
  two_in_one = omega arith

  -- Two free neighbours, neither of them in the list, become one block.
  join_ends :
      (t : State)
      → (sound' : Sound t (xs ++ ((k, false) ∷ ((n, false) ∷ ys))))
      → t.mem_start_brk ≡ s.mem_start_brk
      → FreeRing t.mem t.flist_first
          (others t.mem_start_brk xs (t.mem_start_brk + span xs + k + n) ys)
      → Ends
          (block_set_size_and_allocated (t.mem_start_brk + span xs) (k + n) 0 t)
          t
          (xs ++ ((k + n, false) ∷ ys))
          (others t.mem_start_brk xs (t.mem_start_brk + span xs + (k + n)) ys)
  join_ends t sound' e free =
      let (a₁, a₂, t₁, t₂, small) = sizes in
      let c : t.mem_start_brk + span xs + k + n ≡ t.mem_start_brk + span xs + (k + n) =
        omega arith in
      merge_ends {s = t} xs ((k, false) ∷ ((n, false) ∷ [])) ys sound'
        (t.mem_start_brk + span xs + (k + n)) (omega arith)
        (subst (λ u. FreeRing t.mem t.flist_first (others t.mem_start_brk xs u ys)) c free) (k + n)
        false (omega arith) (omega arith) (omega arith) (omega arith)

  -- The first of two free neighbours leaves the list and takes the second in.
  pub absorb_ends :
      FreeRing s.mem s.flist_first (
        (s.mem_start_brk + span xs)
        ∷ others s.mem_start_brk xs (s.mem_start_brk + span xs + k + n) ys)
      → Ends
          (absorb (s.mem_start_brk + span xs) (s.mem_start_brk + span xs + k) s)
          s
          (xs ++ ((k + n, false) ∷ ys))
          (others s.mem_start_brk xs (s.mem_start_brk + span xs + (k + n)) ys)
  unfolding absorb q rest
  absorb_ends free =
      let pulled = pull_ends sound q rest (λ x. omega (arith, within_two x)) free in
      let s₁ = state pulled in
      let (a₁, a₂, t₁, t₂, small) = sizes in
      Ends-then pulled
        (do a ← block_size q; b ← block_size (q + k); block_set_size_and_allocated q (add a b) 0)
        (λ a. free_payload s.mem_start_brk xs ys k n a)
        (rw
          (
            block_size-eq (first-Here {s = s₁} xs k false ((n, false) ∷ ys) pulled.sound),
            block_size-eq (second-Here {s = s₁} xs k false n false ys pulled.sound),
            add-small k n small,
          )
          (join_ends s₁ pulled.sound refl pulled.free))

  -- The second of two free neighbours leaves the list, and the first takes it in and goes back.
  pub absorb_next_ends :
      FreeRing s.mem s.flist_first (
        (s.mem_start_brk + span xs + k)
        ∷ others s.mem_start_brk xs (s.mem_start_brk + span xs + k + n) ys)
      → Ends
          (absorb_next (s.mem_start_brk + span xs + k) (s.mem_start_brk + span xs) s)
          s
          (xs ++ ((k + n, false) ∷ ys))
          (frees s.mem_start_brk (xs ++ ((k + n, false) ∷ ys)))
  unfolding absorb_next q rest
  absorb_next_ends free =
      let pulled = pull_ends sound (q + k) rest (λ x. omega (arith, within_two x)) free in
      let s₁ = state pulled in
      let (a₁, a₂, t₁, t₂, small) = sizes in
      let swapped : add n k ≡ k + n = omega arith in
      let c : ℕ = s.mem_start_brk + span xs + (k + n) in
      let same : (x : ℕ)
          → count x (q ∷ others s.mem_start_brk xs c ys)
            ≡ count x (frees s.mem_start_brk (xs ++ ((k + n, false) ∷ ys))) =
        λ x. omega (
          arith,
          count-frees xs x s.mem_start_brk ((k + n, false) ∷ ys),
          count-others xs x s.mem_start_brk c ys,
        ) in
      Ends-then pulled
        (do
          a ← block_size (q + k)
          b ← block_size q
          block_set_size_and_allocated q (add a b) 0
          insert_free_block q)
        (λ a. free_payload s.mem_start_brk xs ys k n a)
        (rw
          (
            block_size-eq (second-Here {s = s₁} xs k false n false ys pulled.sound),
            block_size-eq (first-Here {s = s₁} xs k false ((n, false) ∷ ys) pulled.sound),
            swapped,
          )
          (let joined = join_ends s₁ pulled.sound refl pulled.free in
            Ends-then joined (insert_free_block q) (λ a h. h)
              (Ends-cast (frees s.mem_start_brk (xs ++ ((k + n, false) ∷ ys))) refl refl same (
                insert_ends joined.sound q (others s.mem_start_brk xs c ys)
                  (λ x. omega (arith, same x)) joined.free))))
