-- ===== src/Repl/Session/Lines.antt =====
-- The lines of a session that allocate.
use cs0330_fall2022_7_malloc.Base.{
  ℕ, ◌+◌, ◌-◌, ◌%◌, ◌^◌, ◌≤◌, ◌<◌, ◌≡◌, ◌≢◌, refl, sym, subst, ap, List, ◌∷◌, true, false, ◌==◌,
  count, some, arith, ◌∙◌, ◌⊎◌, inl, inr, ne→==, Bool-cases, ==-cases,
}
use cs0330_fall2022_7_malloc.Machine.{Mem, State, Run, ok, null, memset}
use cs0330_fall2022_7_malloc.Driver.{Range, get_elem?, set_elem?, add_range, to_long}
use cs0330_fall2022_7_malloc.Driver.Checked.{Entry, all_held, all_ranges, indices}
use cs0330_fall2022_7_malloc.Driver.Checked.Listed.{add_range-accepts}
use cs0330_fall2022_7_malloc.Mm.{mm_malloc}
use cs0330_fall2022_7_malloc.Mm.Client.{Held}
use cs0330_fall2022_7_malloc.Mm.Client.Apart.{Backed-kept}
use cs0330_fall2022_7_malloc.Mm.Client.Calls.{malloc_step}
use cs0330_fall2022_7_malloc.Repl.{
  ReplBlock, Repl, Reply, done, bad_index, malloc_cmd, malloc_filled, repl_error,
}
use cs0330_fall2022_7_malloc.Repl.Session.{AllSlots, Agrees}
use cs0330_fall2022_7_malloc.Repl.Session.Slots.{
  AllSlots-AllPositive, AllSlots-split, entry_of, get_elem?-some, get_elem?-same,
}
use cs0330_fall2022_7_malloc.Repl.Session.Filled.{
  Serves, index_in_range, Agrees-counted, fill_entry, int_size, skips, malloc_zero,
}

fills :
    (r : Repl) (b : ReplBlock) (i ptr size : ℕ) (s : State) (ranges : List Range) (m' : Mem)
    (blocks : List ReplBlock)
    → size < 2 ^ 31
    → set_elem? r.blocks i (record b { is_valid = true; ptr = ptr; size = size }) ≡ some blocks
    → memset ptr (i % 256) size s ≡ ok tt (record s { mem = m' })
    → malloc_filled r b ranges ptr i size s
      ≡ ok (done (record r { ranges = ranges; blocks = blocks })) (record s { mem = m' })
unfolding malloc_filled
fills r b i ptr size s ranges m' blocks small set filled =
    rw (int_size size small, filled, set) refl

-- An entry that is not valid is not in use.
not_in_use :
    (s : State) (r : Repl) (live : List Entry)
    → Agrees s r live
    → (i : ℕ) (b : ReplBlock) → get_elem? r.blocks i ≡ some b
    → b.is_valid ≡ false
    → count i (indices live) ≡ 0
not_in_use s r live h i b at unused = elim (==-cases (count i (indices live)) 0) [
  | inl absent ↦ absent.0
  | inr present ↦
      let (xs, e, ys, cut, same) = entry_of live i (omega (arith, present.0)) in
      let ((x, get, used, _, _, _, _), _) =
        AllSlots-split r.blocks xs e ys (subst (AllSlots r.blocks) cut h.slots) in
      let get' : get_elem? r.blocks i ≡ some x = ap (get_elem? r.blocks) (sym same) ∙ get in
      let equal : b ≡ x = get_elem?-same at get' in
      absurd (differ (sym unused ∙ ap (λ y. y.is_valid) equal ∙ used))
]
  where
    differ : false ≡ true → ⊥
    differ e = cc

once_more :
    (live : List Entry) (i : ℕ)
    → count i (indices live) ≡ 0
    → ((j : ℕ) → count j (indices live) ≤ 1)
    → (j : ℕ) → count j (i ∷ indices live) ≤ 1
once_more live i absent h j = ground (arith, h j, absent)

module _ (s : State) (r : Repl) (live : List Entry) (h : Agrees s r live) where
  stays : (run : Run Reply) (refused : Type 0) → run ≡ ok (done r) s → Serves run r s refused
  stays run refused e = (r, s, live, e, h, inl refl)

  pub malloc_cmd_lem :
      (i size : ℕ)
      → i < 2 ^ 32
      → size + 64 < 2 ^ 31
      → Serves (malloc_cmd r (some (i, size)) s) r s (mm_malloc size s ≡ ok null s)
  unfolding malloc_cmd
  malloc_cmd_lem i size int small = elim (Bool-cases (bad_index r i)) [
    | inl bad ↦ stays (malloc_cmd r (some (i, size)) s) (mm_malloc size s ≡ ok null s) (rw bad refl)
    | inr good ↦
        let lt = index_in_range r i h.few int good in
        let (b, at) = get_elem?-some r.blocks i (omega (arith, lt, h.long)) in
        in_range lt good b at (Bool-cases b.is_valid)
  ]
    where
      wide : to_long size ≡ size
      wide = int_size size (omega arith)

      counted : Repl
      counted = record r { num_ops = r.num_ops + 1 }

      reaches_fill :
          {b : ReplBlock} {ptr : ℕ} {s' : State} {ranges : List Range}
          → bad_index r i ≡ false
          → get_elem? r.blocks i ≡ some b
          → b.is_valid ≡ false
          → mm_malloc size s ≡ ok ptr s'
          → ptr ≢ 0
          → (size == 0) ≡ false
          → add_range r.ranges ptr size s' ≡ ok (some ranges) s'
          → malloc_cmd r (some (i, size)) s ≡ malloc_filled counted b ranges ptr i size s'
      reaches_fill {ptr} good at unused run ne test listed =
          rw (good, at) (skips _ _ s unused ∙ rw (wide, run, ne→== ptr 0 ne, test, listed) refl)

      in_range :
          i < r.num_blocks
          → bad_index r i ≡ false
          → (b : ReplBlock) → get_elem? r.blocks i ≡ some b
          → (b.is_valid ≡ true) ⊎ (b.is_valid ≡ false)
          → Serves (malloc_cmd r (some (i, size)) s) r s (mm_malloc size s ≡ ok null s)
      in_range lt good b at (inl used) =
          stays (malloc_cmd r (some (i, size)) s) (mm_malloc size s ≡ ok null s)
            (rw (good, at, used) refl)
      in_range lt good b at (inr unused) = elim (==-cases size 0) [
        | inl (zero_size, test) ↦
            let nothing : mm_malloc size s ≡ ok null s =
              ap (λ n. mm_malloc n s) zero_size ∙ malloc_zero s in
            (
              record r { num_ops = r.num_ops + 1 },
              s,
              live,
              rw (good, at, unused, wide, nothing, test) refl,
              Agrees-counted s r live (r.num_ops + 1) r.errors h,
              inl refl,
            )
        | inr (some_size, test) ↦
            let pos : 0 < size = omega arith in
            elim (malloc_step s (all_held live) size h.backed pos (omega arith)) [
              | inr none ↦ (
                repl_error (record r { num_ops = r.num_ops + 1 }),
                s,
                live,
                rw (good, at, unused, wide, none, test) refl,
                Agrees-counted s r live (r.num_ops + 1) (r.errors + 1) h,
                inr (refl, none),
              )
              | inl (ptr, s', run, ne, backed) ↦
                  let p : Held = record {
                    addr = ptr;
                    size = size;
                    bytes = λ j. s'.mem (ptr + j);
                  } in
                  let (kept, apart) = Backed-kept s' (p ∷ all_held live) backed in
                  let listed =
                    ap (λ rs. add_range rs ptr size s') h.same_ranges
                    ∙ add_range-accepts s' p live pos (omega arith) kept.0
                        (AllSlots-AllPositive r.blocks live h.slots) apart.0 in
                  let (m', blocks, filled, set, agrees) =
                    fill_entry s' r p live i (record b { is_valid = true; ptr = ptr; size = size })
                      backed h.slots (λ j x ne' get used. h.no_others j x get used)
                      (once_more live i (not_in_use s r live h i b at unused) h.once) h.long h.few
                      lt refl refl refl pos small in
                  (
                    record r {
                      ranges = record { lo = ptr; hi = ptr + size - 1 } ∷ all_ranges live;
                      num_ops = r.num_ops + 1;
                      blocks = blocks;
                    },
                    record s' { mem = m' },
                    record { index = i; addr = ptr; size = size } ∷ live,
                    reaches_fill good at unused run ne test listed
                        ∙ fills counted b i ptr size s'
                            (record { lo = ptr; hi = ptr + size - 1 } ∷ all_ranges live) m' blocks
                            (omega arith) set filled,
                    Agrees-counted (record s' { mem = m' })
                        (record r {
                          ranges = record { lo = ptr; hi = ptr + size - 1 } ∷ all_ranges live;
                          blocks = blocks;
                        })
                        (record { index = i; addr = ptr; size = size } ∷ live) (r.num_ops + 1)
                        r.errors agrees,
                    inl refl,
                  )
            ]
      ]
