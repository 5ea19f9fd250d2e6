-- ===== src/Repl/Session/Moves.antt =====
-- The lines of a session that free or reallocate.
use cs0330_fall2022_7_malloc.Base.{
  ℕ, ◌+◌, ◌-◌, ◌%◌, ◌^◌, ◌<◌, ◌≡◌, ◌≢◌, refl, sym, subst, ap, List, ◌∷◌, ◌++◌, Bool, true, false,
  not, if◌then◌else◌, count, some, arith, ◌∙◌, inl, inr, ne→==, Bool-cases, ==-cases,
}
use cs0330_fall2022_7_malloc.Machine.{Cmd, State, ok, null}
use cs0330_fall2022_7_malloc.Driver.{get_elem?, add_range, remove_range}
use cs0330_fall2022_7_malloc.Driver.Checked.{Entry, held_of, all_held, all_ranges, indices}
use cs0330_fall2022_7_malloc.Driver.Checked.Arrays.{set_elem?-lem, all_held-append, count-indices}
use cs0330_fall2022_7_malloc.Driver.Checked.Listed.{add_range-accepts, remove_range-removes}
use cs0330_fall2022_7_malloc.Driver.Checked.Moves.{data_checked}
use cs0330_fall2022_7_malloc.Mm.Client.{Held, Backed}
use cs0330_fall2022_7_malloc.Mm.Client.Apart.{Backed-kept}
use cs0330_fall2022_7_malloc.Mm.Client.Calls.{resized, free_step, realloc_step}
use cs0330_fall2022_7_malloc.Mm.Realloc.{mm_realloc}
use cs0330_fall2022_7_malloc.Repl.{
  ReplBlock, Repl, Reply, done, bad_index, free_cmd, remalloc_cmd, remalloc_moved, repl_error,
}
use cs0330_fall2022_7_malloc.Repl.Session.{AllSlots, Agrees}
use cs0330_fall2022_7_malloc.Repl.Session.Filled.{
  Serves, index_in_range, Agrees-counted, fill_entry, int_size, skips,
}
use cs0330_fall2022_7_malloc.Repl.Session.Slots.{
  AllSlots-AllPositive, AllSlots-split, AllSlots-update, get_elem?-some, get_elem?-same,
}
use cs0330_fall2022_7_malloc.Repl.Session.Located.{entry_for, slot_of}

module _ (s : State) (r : Repl) (xs ys : List Entry) (i : ℕ) (b : ReplBlock)
    (h : Agrees s r (xs ++ (entry_for i b ∷ ys))) (at : get_elem? r.blocks i ≡ some b)
    (used : b.is_valid ≡ true) (int : i < 2 ^ 32) (good : bad_index r i ≡ false) where
  lt : i < r.num_blocks
  lt = index_in_range r i h.few int good

  all-Backed : Backed s (all_held xs ++ (held_of (entry_for i b) ∷ all_held ys))
  all-Backed = subst (Backed s) (all_held-append xs (entry_for i b ∷ ys)) h.backed

  positive : (0 < b.size) × (b.size + 64 < 2 ^ 31)
  positive =
      let ((x, get, valid, ptr, size, pos, small), _) =
        AllSlots-split r.blocks xs (entry_for i b) ys h.slots in
      (pos, small)

  slots_left : AllSlots r.blocks (xs ++ ys)
  slots_left = (AllSlots-split r.blocks xs (entry_for i b) ys h.slots).1

  absent_left : count i (indices (xs ++ ys)) ≡ 0
  absent_left = ground (arith, h.once i, count-indices i xs (entry_for i b) ys)

  others_left :
      (j : ℕ) (x : ReplBlock)
      → j ≢ i
      → get_elem? r.blocks j ≡ some x
      → x.is_valid ≡ true
      → 0 < count j (indices (xs ++ ys))
  others_left j x ne get valid =
      ground (arith, h.no_others j x get valid, count-indices j xs (entry_for i b) ys, ne)

  ranges_left : remove_range r.ranges b.ptr ≡ all_ranges (xs ++ ys)
  ranges_left =
      let (kept, apart) = Backed-kept s (all_held (xs ++ (entry_for i b ∷ ys))) h.backed in
      ap (λ rs. remove_range rs b.ptr) h.same_ranges
      ∙ remove_range-removes xs (entry_for i b) ys
          (AllSlots-AllPositive r.blocks (xs ++ (entry_for i b ∷ ys)) h.slots) apart

  free_used : (refused : Type 0) → Serves (free_cmd r (some i) s) r s refused
  unfolding free_cmd
  free_used refused =
      let (s', run, backed) =
        free_step s (all_held xs) (held_of (entry_for i b)) (all_held ys) all-Backed in
      let (blocks, set, new, same, length_same) =
        set_elem?-lem r.blocks i (record b { is_valid = false }) (omega (arith, lt, h.long)) in
      (
        record r { ranges = remove_range r.ranges b.ptr; num_ops = r.num_ops + 1; blocks = blocks },
        s',
        xs ++ ys,
        rw (good, at) (skips _ _ s (ap not used) ∙ rw (run, set) refl),
        record {
          backed = subst (Backed s') (sym (all_held-append xs ys)) backed;
          same_ranges = ranges_left;
          slots = AllSlots-update r.blocks blocks i (xs ++ ys) absent_left same slots_left;
          no_others = λ j x get valid. elim (==-cases j i) [
            | inl here ↦
                let freed : record b { is_valid = false } ≡ x =
                  get_elem?-same new (ap (get_elem? blocks) (sym here.0) ∙ get) in
                absurd (differ (ap (λ y. y.is_valid) freed ∙ valid))
            | inr other ↦ others_left j x other.0 (sym (same j other.0) ∙ get) valid
          ];
          once = λ j. ground (arith, h.once j, count-indices j xs (entry_for i b) ys);
          long = length_same ∙ h.long;
          few = h.few;
        },
        inl refl,
      )
    where
      differ : false ≡ true → ⊥
      differ e = cc

  -- The data of the moved block pass the check, and the block is filled again.
  moved_lem :
      (size ptr : ℕ) (s' : State)
      → i % 256 < 128
      → 0 < size
      → size + 64 < 2 ^ 31
      → Backed s' (resized (held_of (entry_for i b)) ptr size s' ∷ all_held (xs ++ ys))
      → (r' : Repl) × (s'' : State) × (live : List Entry) × (remalloc_moved
            (record r { ranges = record { lo = ptr; hi = ptr + size - 1 } ∷ all_ranges (xs ++ ys) })
            b
            ptr
            i
            size
            s'
          ≡ ok (done r') s'')
        × Agrees s'' r' live
        × (r'.errors ≡ r.errors)
  unfolding remalloc_moved
  moved_lem size ptr s' low pos small backed =
      let p : Held = resized (held_of (entry_for i b)) ptr size s' in
      let (kept, apart) = Backed-kept s' (p ∷ all_held (xs ++ ys)) backed in
      let (old_pos, old_small) = positive in
      let checked =
        data_checked s' (entry_for i b) ptr size kept.0 low pos (omega arith) old_pos
          (omega arith) in
      let (m', blocks, filled, set, agrees) =
        fill_entry s' r p (xs ++ ys) i (record b { ptr = ptr; size = size }) backed slots_left
          others_left (λ j. ground (arith, h.once j, count-indices j xs (entry_for i b) ys)) h.long
          h.few lt used refl refl pos small in
      (
        record r {
          ranges = record { lo = ptr; hi = ptr + size - 1 } ∷ all_ranges (xs ++ ys);
          blocks = blocks;
        },
        record s' { mem = m' },
        record { index = i; addr = ptr; size = size } ∷ (xs ++ ys),
        rw (checked, int_size size (omega arith), filled, set) refl,
        agrees,
        refl,
      )

  remalloc_used :
      (size : ℕ)
      → i % 256 < 128
      → 0 < size
      → size + 64 < 2 ^ 31
      → Serves (remalloc_cmd r (some (i, size)) s) r s (mm_realloc b.ptr size s ≡ ok null s)
  unfolding remalloc_cmd
  remalloc_used size low pos small =
      let wide = int_size size (omega arith) in
      let some_size = ne→== size 0 (omega arith) in
      elim (realloc_step s (all_held xs) (held_of (entry_for i b)) (all_held ys) size all-Backed pos
        small) [
          | inr none ↦ (
            repl_error r,
            s,
            xs ++ (entry_for i b ∷ ys),
            rw (good, at, wide, none, some_size) refl,
            Agrees-counted s r (xs ++ (entry_for i b ∷ ys)) r.num_ops (r.errors + 1) h,
            inr (refl, none),
          )
          | inl (ptr, s', run, ne, backed) ↦
              let p : Held = resized (held_of (entry_for i b)) ptr size s' in
              let backed' : Backed s' (p ∷ all_held (xs ++ ys)) =
                subst (λ l. Backed s' (p ∷ l)) (sym (all_held-append xs ys)) backed in
              let (kept, apart) = Backed-kept s' (p ∷ all_held (xs ++ ys)) backed' in
              let listed =
                ap (λ rs. add_range rs ptr size s') ranges_left
                ∙ add_range-accepts s' p (xs ++ ys) pos (omega arith) kept.0
                    (AllSlots-AllPositive r.blocks (xs ++ ys) slots_left) apart.0 in
              let (r', s'', live, moved, agrees, same) =
                moved_lem size ptr s' low pos small backed' in
              (
                r',
                s'',
                live,
                rw (good, at, wide, run, ne→== ptr 0 ne, some_size, listed) refl ∙ moved,
                agrees,
                inl same,
              )
        ]

module _ (s : State) (r : Repl) (live : List Entry) (h : Agrees s r live) where
  -- `f` with any index.
  pub free_cmd_lem :
      (i : ℕ) (refused : Type 0) → i < 2 ^ 32 → Serves (free_cmd r (some i) s) r s refused
  unfolding free_cmd
  free_cmd_lem i refused int = elim (Bool-cases (bad_index r i)) [
    | inl bad ↦ (r, s, live, rw bad refl, h, inl refl)
    | inr good ↦
        let lt = index_in_range r i h.few int good in
        let (b, at) = get_elem?-some r.blocks i (omega (arith, lt, h.long)) in
        elim (Bool-cases b.is_valid) [
          | inr unused ↦ (r, s, live, rw (good, at) (takes _ _ s (ap not unused)), h, inl refl)
          | inl used ↦
              let (xs, ys, cut) = slot_of s r live i b h at used in
              free_used s r xs ys i b (subst (Agrees s r) cut h) at used int good refused
        ]
  ]
    where
      takes : {c : Bool} (x y : Cmd Reply) (s : State) → c ≡ true → (if c then x else y) s ≡ x s
      takes x y s e = ap (λ c. (if c then x else y) s) e

  -- `r` with an index in use.
  pub remalloc_cmd_lem :
      (i size : ℕ) (b : ReplBlock)
      → i < 2 ^ 32
      → get_elem? r.blocks i ≡ some b
      → b.is_valid ≡ true
      → i % 256 < 128
      → 0 < size
      → size + 64 < 2 ^ 31
      → Serves (remalloc_cmd r (some (i, size)) s) r s (mm_realloc b.ptr size s ≡ ok null s)
  unfolding remalloc_cmd
  remalloc_cmd_lem i size b int at used low pos small = elim (Bool-cases (bad_index r i)) [
    | inl bad ↦ (r, s, live, rw bad refl, h, inl refl)
    | inr good ↦
        let (xs, ys, cut) = slot_of s r live i b h at used in
        remalloc_used s r xs ys i b (subst (Agrees s r) cut h) at used int good size low pos small
  ]
