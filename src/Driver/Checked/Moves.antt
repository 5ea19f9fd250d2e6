-- ===== src/Driver/Checked/Moves.antt =====
-- The requests of a trace that free or reallocate a block, in `eval_mm_valid`.
use cs0330_fall2022_7_malloc.Base.{
  ℕ, ◌+◌, ◌%◌, ◌^◌, ◌≤◌, ◌<◌, ◌≡◌, refl, sym, subst, ap, List, ◌∷◌, ◌++◌, true, if◌then◌else◌,
  arith, ◌∙◌, ◌⊎◌, inl, inr, ne→==, lt→ltb, ltb,
}
use cs0330_fall2022_7_malloc.Machine.{State, ok, null}
use cs0330_fall2022_7_malloc.Machine.Words.{less-small}
use cs0330_fall2022_7_malloc.Memlib.{to_int}
use cs0330_fall2022_7_malloc.Driver.{
  Track, malloc_error, add_range, remove_range, to_long, rounds, holds_index, less_int,
}
use cs0330_fall2022_7_malloc.Driver.Checked.{Entry, held_of, all_held, all_ranges, Tracks}
use cs0330_fall2022_7_malloc.Driver.Checked.Arrays.{
  AllFiled-AllPositive, AllFiled-split, AllFiled-ranges, all_held-append, count-indices,
}
use cs0330_fall2022_7_malloc.Driver.Checked.Listed.{add_range-accepts, remove_range-removes}
use cs0330_fall2022_7_malloc.Driver.Checked.Requests.{Goes, remember_lem}
use cs0330_fall2022_7_malloc.Driver.Data.{all_bytes, all_bytes-all, holds_index-low}
use cs0330_fall2022_7_malloc.Driver.Valid.{invalid, valid_moved, valid_realloc, valid_free}
use cs0330_fall2022_7_malloc.Mm.Client.{Held, Backed}
use cs0330_fall2022_7_malloc.Mm.Client.Apart.{IsKept, Backed-kept}
use cs0330_fall2022_7_malloc.Mm.Client.Calls.{resized, free_step, realloc_step}
use cs0330_fall2022_7_malloc.Mm.Realloc.{mm_realloc}

int_size : (n : ℕ) → n < 2 ^ 31 → to_long n ≡ n
int_size n small = rw (lt→ltb n (2 ^ 31) small) refl

-- The check of the data of a moved block succeeds.
pub data_checked :
    (s : State) (e : Entry) (ptr size : ℕ)
    → IsKept s (resized (held_of e) ptr size s)
    → e.index % 256 < 128
    → 0 < size
    → size < 2 ^ 31
    → 0 < e.size
    → e.size < 2 ^ 31
    → holds_index
        (rounds (if less_int size (to_int e.size) then size else to_int e.size))
        ptr
        e.index
        s
      ≡ ok true s
data_checked s e ptr size kept low pos small pos' small' =
    let n : ℕ = if ltb size e.size then size else e.size in
    let narrow : to_int e.size ≡ e.size = omega arith in
    let short : less_int size e.size ≡ ltb size e.size =
      rw (int_size size small, int_size e.size small')
        (less-small size e.size (omega arith) (omega arith)) in
    let within : (n ≤ size) × (n ≤ e.size) × (0 < n) = ground arith in
    let looped : rounds n ≡ n =
      rw
        (
          int_size n (omega (arith, within.0)),
          less-small 0 n (omega arith) (omega (arith, within.0)),
          lt→ltb 0 n within.2,
        )
        refl in
    let bytes : all_bytes s n ptr (e.index % 256) ≡ true =
      all_bytes-all s n ptr (e.index % 256) (λ j lt.
        kept.holds j (omega (arith, lt, within.0))
        ∙ rw (lt→ltb j e.size (omega (arith, lt, within.1))) refl) in
    rw
      (
        narrow,
        short,
        looped,
        holds_index-low s n ptr e.index low kept.low (omega (arith, kept.high, within.0)),
        bytes,
      )
      refl

module _ (ids : ℕ) (s : State) (t : Track) (xs : List Entry) (e : Entry) (ys : List Entry)
    (h : Tracks ids s t (xs ++ (e ∷ ys))) where
  old-Backed : Backed s (all_held xs ++ (held_of e ∷ all_held ys))
  old-Backed = subst (Backed s) (all_held-append xs (e ∷ ys)) h.backed

  ranges_left : remove_range t.ranges e.addr ≡ all_ranges (xs ++ ys)
  ranges_left =
      let (kept, apart) = Backed-kept s (all_held (xs ++ (e ∷ ys))) h.backed in
      ap (λ r. remove_range r e.addr) h.same_ranges
      ∙ remove_range-removes xs e ys (AllFiled-AllPositive t (xs ++ (e ∷ ys)) h.filed) apart

  pub valid_free_lem : Goes ids (valid_free t e.index s) t (xs ++ ys)
  unfolding valid_free
  valid_free_lem =
      let ((block, size, pos, small), filed) = AllFiled-split t xs e ys h.filed in
      let (s', run, backed) = free_step s (all_held xs) (held_of e) (all_held ys) old-Backed in
      (
        record t { ranges = remove_range t.ranges e.addr },
        s',
        rw (block, run) refl,
        record {
          backed = subst (Backed s') (sym (all_held-append xs ys)) backed;
          same_ranges = ranges_left;
          filed = AllFiled-ranges t (remove_range t.ranges e.addr) (xs ++ ys) filed;
          once = λ j. ground (arith, h.once j, count-indices j xs e ys);
          blocks_long = h.blocks_long;
          sizes_long = h.sizes_long;
        },
        refl,
      )

  pub valid_realloc_lem :
      (size : ℕ)
      → e.index < ids
      → e.index % 256 < 128
      → 0 < size
      → size + 64 < 2 ^ 31
      → ((ptr : ℕ) × Goes ids
            (valid_realloc t e.index size s)
            t
            (record { index = e.index; addr = ptr; size = size } ∷ (xs ++ ys)))
        ⊎ ((mm_realloc e.addr size s ≡ ok null s)
            × (valid_realloc t e.index size s ≡ ok (invalid (malloc_error t)) s))
  unfolding valid_realloc valid_moved
  valid_realloc_lem size lt low pos small =
      let ((block, old, pos', small'), filed) = AllFiled-split t xs e ys h.filed in
      let wide = int_size size (omega arith) in
      let some_size = ne→== size 0 (omega arith) in
      elim (realloc_step s (all_held xs) (held_of e) (all_held ys) size old-Backed pos small) [
        | inr none ↦ inr (none, rw (block, wide, none, some_size) refl)
        | inl (ptr, s', run, ne, backed) ↦
            let b : Held = resized (held_of e) ptr size s' in
            let backed' : Backed s' (b ∷ all_held (xs ++ ys)) =
              subst (λ l. Backed s' (b ∷ l)) (sym (all_held-append xs ys)) backed in
            let (kept, apart) = Backed-kept s' (b ∷ all_held (xs ++ ys)) backed' in
            let listed =
              ap (λ r. add_range r ptr size s') ranges_left
              ∙ add_range-accepts s' b (xs ++ ys) pos (omega arith) kept.0
                  (AllFiled-AllPositive t (xs ++ ys) filed) apart.0 in
            let checked =
              data_checked s' e ptr size kept.0 low pos (omega arith) pos' (omega arith) in
            let (t', s'', run', tracks, same) =
              remember_lem ids s' t b (xs ++ ys) e.index backed' filed
                (λ j. ground (arith, h.once j, count-indices j xs e ys)) h.blocks_long h.sizes_long
                lt pos small in
            inl (
              ptr,
              (
                t',
                s'',
                rw (block, wide, run, ne→== ptr 0 ne, some_size, listed, old, checked) refl ∙ run',
                tracks,
                same,
              ),
            )
      ]
