-- ===== src/Driver/Checked/Requests.antt =====
-- Each request of a trace in `eval_mm_valid`: the checks of the driver succeed on what mm.c returns.
use cs0330_fall2022_7_malloc.Base.{
  ℕ, ◌+◌, ◌-◌, ◌%◌, ◌^◌, ◌≤◌, ◌<◌, ◌≡◌, refl, subst, ap, List, ◌∷◌, length, count, arith, ◌∙◌, ◌⊎◌,
  inl, inr, ne→==, lt→ltb,
}
use cs0330_fall2022_7_malloc.Machine.{State, Run, ok, null}
use cs0330_fall2022_7_malloc.Driver.{Range, Track, malloc_error, add_range, to_long}
use cs0330_fall2022_7_malloc.Driver.Checked.{Entry, all_held, all_ranges, indices, AllFiled, Tracks}
use cs0330_fall2022_7_malloc.Driver.Checked.Arrays.{
  set_elem?-lem, AllFiled-AllPositive, AllFiled-update,
}
use cs0330_fall2022_7_malloc.Driver.Checked.Listed.{add_range-accepts}
use cs0330_fall2022_7_malloc.Driver.Valid.{Verdict, valid, invalid, remember, valid_alloc}
use cs0330_fall2022_7_malloc.Mm.{mm_malloc}
use cs0330_fall2022_7_malloc.Mm.Client.{Held, Backed}
use cs0330_fall2022_7_malloc.Mm.Client.Apart.{Backed-kept}
use cs0330_fall2022_7_malloc.Mm.Client.Calls.{malloc_step, fill_step}

-- The run goes on, with these blocks in use.
abbrev pub Goes : ℕ → Run Verdict → Track → List Entry → Type 0
Goes ids r t live =
    (t' : Track) × (s' : State) × (r ≡ ok (valid t') s')
    × Tracks ids s' t' live
    × (t'.errors ≡ t.errors)

-- A payload that was just returned is filled and filed.
pub remember_lem :
    (ids : ℕ) (s : State) (t : Track) (b : Held) (live : List Entry) (i : ℕ)
    → Backed s (b ∷ all_held live)
    → AllFiled t live
    → ((j : ℕ) → count j (i ∷ indices live) ≤ 1)
    → length t.blocks ≡ ids
    → length t.block_sizes ≡ ids
    → i < ids
    → 0 < b.size
    → b.size + 64 < 2 ^ 31
    → Goes ids
        (remember t
          (record { lo = b.addr; hi = b.addr + b.size - 1 } ∷ all_ranges live)
          b.addr
          i
          b.size
          s)
        t
        (record { index = i; addr = b.addr; size = b.size } ∷ live)
unfolding remember
remember_lem ids s t b live i backed filed once long long' lt pos small =
    let (m', run, backed') = fill_step s b (all_held live) (i % 256) backed in
    let (blocks, e, at, others, same) = set_elem?-lem t.blocks i b.addr (omega arith) in
    let (sizes, e', at', others', same') = set_elem?-lem t.block_sizes i b.size (omega arith) in
    let wide : to_long b.size ≡ b.size = rw (lt→ltb b.size (2 ^ 31) (omega arith)) refl in
    let rs : List Range = record { lo = b.addr; hi = b.addr + b.size - 1 } ∷ all_ranges live in
    let t' : Track = record t { ranges = rs; blocks = blocks; block_sizes = sizes } in
    let byte : i % 256 % 256 ≡ i % 256 = omega arith in
    let absent : count i (indices live) ≡ 0 = ground (arith, once i) in
    (
      t',
      record s { mem = m' },
      rw (wide, run, e, e') refl,
      record {
        backed =
            subst
              (λ v. Backed (record s { mem = m' }) (record b { bytes = λ _. v } ∷ all_held live))
              byte backed';
        same_ranges = refl;
        filed = ((at, at', pos, small), AllFiled-update t t' i live absent others others' filed);
        once = once;
        blocks_long = same ∙ long;
        sizes_long = same' ∙ long';
      },
      refl,
    )

module _ (ids : ℕ) (s : State) (t : Track) (live : List Entry) (h : Tracks ids s t live) where
  pub valid_alloc_lem :
      (i size : ℕ)
      → i < ids
      → count i (indices live) ≡ 0
      → 0 < size
      → size + 64 < 2 ^ 31
      → ((ptr : ℕ) × Goes ids
            (valid_alloc t i size s)
            t
            (record { index = i; addr = ptr; size = size } ∷ live))
        ⊎ ((mm_malloc size s ≡ ok null s)
            × (valid_alloc t i size s ≡ ok (invalid (malloc_error t)) s))
  unfolding valid_alloc
  valid_alloc_lem i size lt absent pos small =
      let wide : to_long size ≡ size = rw (lt→ltb size (2 ^ 31) (omega arith)) refl in
      let some_size = ne→== size 0 (omega arith) in
      elim (malloc_step s (all_held live) size h.backed pos (omega arith)) [
        | inr none ↦ inr (none, rw (wide, none, some_size) refl)
        | inl (ptr, s', run, ne, backed) ↦
            let b : Held = record { addr = ptr; size = size; bytes = λ j. s'.mem (ptr + j) } in
            let (kept, apart) = Backed-kept s' (b ∷ all_held live) backed in
            let listed =
              ap (λ r. add_range r ptr size s') h.same_ranges
              ∙ add_range-accepts s' b live pos (omega arith) kept.0
                  (AllFiled-AllPositive t live h.filed) apart.0 in
            let (t', s'', run', tracks, same) =
              remember_lem ids s' t b live i backed h.filed (λ j. ground (arith, h.once j, absent))
                h.blocks_long h.sizes_long lt pos small in
            inl (
              ptr,
              (
                t',
                s'',
                rw (wide, run, ne→== ptr 0 ne, some_size, listed) refl ∙ run',
                tracks,
                same,
              ),
            )
      ]
