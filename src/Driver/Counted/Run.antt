-- ===== src/Driver/Counted/Run.antt =====
-- Whole traces in `eval_mm_util`: the largest total that it counts is that of the trace.
use cs0330_fall2022_7_malloc.Base.{
  ℕ, ◌%◌, ◌^◌, ◌<◌, ◌≡◌, refl, sym, subst, ap, List, [], ◌∷◌, ◌++◌, length, count, Option, none,
  some, zero, suc, arith, ◌∙◌, inl,
}
use cs0330_fall2022_7_malloc.Machine.{State, ok}
use cs0330_fall2022_7_malloc.Memlib.{mem_heapsize, mem_reset_brk}
use cs0330_fall2022_7_malloc.Driver.{Track, get_elem?, clear_ranges}
use cs0330_fall2022_7_malloc.Driver.Checked.{
  WellUsed, no_more, allocates, reallocates, frees, Entry, indices,
}
use cs0330_fall2022_7_malloc.Driver.Checked.Arrays.{entry_at, indices-append, AllFiled-split}
use cs0330_fall2022_7_malloc.Driver.Counted.{highest_of, set_size, total, peak, none_in_use}
use cs0330_fall2022_7_malloc.Driver.Counted.Steps.{Measures}
use cs0330_fall2022_7_malloc.Driver.Counted.Sums.{total-none}
use cs0330_fall2022_7_malloc.Driver.Trace.{alloc, free, realloc, TraceOp, Trace}
use cs0330_fall2022_7_malloc.Driver.Utilization.{Totals, ratio, util_ops, eval_mm_util}
use cs0330_fall2022_7_malloc.Driver.Valid.{valid_ops, eval_mm_valid}
use cs0330_fall2022_7_malloc.Driver.Reset.{Ready, fresh}
use cs0330_fall2022_7_malloc.Mm.Init.{bare}
use cs0330_fall2022_7_malloc.Driver.Counted.Requests.{
  Measured, Point, Rest, alloc-Measured, realloc-Measured, free-Measured, peak-tail,
}

get_elem?-short : (xs : List ℕ) (i : ℕ) {a : ℕ} → get_elem? xs i ≡ some a → i < length xs
get_elem?-short [] i e = absurd (none_some e)
  where
    none_some : {a : ℕ} → ◌≡◌ {A = Option ℕ} none (some a) → ⊥
    none_some e = cc
get_elem?-short (x ∷ xs) zero e = omega arith
get_elem?-short (x ∷ xs) (suc i) e = let rest = get_elem?-short xs i e in omega (arith, rest)

-- The block in use at an index is in range of the arrays.
in_range :
    (ids : ℕ) (f : ℕ → ℕ) (s : State) (t : Track) (n : Totals) (xs : List Entry) (e : Entry)
    (ys : List Entry)
    → Point ids f s t n (xs ++ (e ∷ ys))
    → e.index < ids
in_range ids f s t n xs e ys h =
    let ((block, _, _, _), _) = AllFiled-split t xs e ys h.tracks.filed in
    subst (λ l. e.index < l) h.tracks.blocks_long (get_elem?-short t.blocks e.index block)

left_indices :
    (xs' ys' : List Entry) (xs ys : List ℕ)
    → indices xs' ≡ xs
    → indices ys' ≡ ys
    → indices (xs' ++ ys') ≡ xs ++ ys
left_indices xs' ys' xs ys front back =
    indices-append xs' ys' ∙ ap (λ l. l ++ indices ys') front ∙ ap (λ l. xs ++ l) back

measured_lem :
    (ids : ℕ) {used : List ℕ} {ops : List TraceOp}
    → WellUsed ids used ops
    → (f : ℕ → ℕ) → peak ids f ops < 2 ^ 31
    → (live : List Entry) → indices live ≡ used
    → Rest ids f ops live
unfolding Measured Rest util_ops valid_ops peak
measured_lem ids no_more f fits live e s t n h =
    let most = h.counts.most in
    let same : n.max_total_size ≡ highest_of n.max_total_size (total ids f) =
      ground (arith, most) in
    inl (t, s, ap (λ m. ok (ratio m (mem_heapsize s)) s) same, refl)
measured_lem ids (allocates {used} {ops} i size lt absent pos small rest) f fits live e s t n h =
    alloc-Measured ids f s t n live ops i size h lt (ap (count i) e ∙ absent) pos small fits (λ ptr.
      measured_lem ids rest (set_size f i size)
        (peak-tail ids f (record { type_of = alloc; index = i; size = size }) ops fits)
        (record { index = i; addr = ptr; size = size } ∷ live) (ap (λ l. i ∷ l) e))
measured_lem ids (reallocates {ops} xs i ys size lt low pos small rest) f fits live e s t n h =
    let (xs', b, ys', at, same, front, back) = entry_at live xs i ys e in
    let op : ℕ → TraceOp = λ j. record { type_of = realloc; index = j; size = size } in
    let h' = subst (Point ids f s t n) at h in
    subst (λ j. Measured ids f (op j ∷ ops) t n s) same
      (realloc-Measured ids f s t n xs' b ys' ops h' (in_range ids f s t n xs' b ys' h') size
        (subst (λ j. j % 256 < 128) (sym same) low) pos small
        (subst (λ j. peak ids f (op j ∷ ops) < 2 ^ 31) (sym same) fits)
        (λ ptr.
          measured_lem ids rest (set_size f b.index size)
            (subst (λ j. peak ids (set_size f j size) ops < 2 ^ 31) (sym same)
              (peak-tail ids f (op i) ops fits))
            (record { index = b.index; addr = ptr; size = size } ∷ (xs' ++ ys'))
            (ap (λ j. j ∷ indices (xs' ++ ys')) same
              ∙ ap (λ l. i ∷ l) (left_indices xs' ys' xs ys front back))))
measured_lem ids (frees {ops} xs i ys size rest) f fits live e s t n h =
    let (xs', b, ys', at, same, front, back) = entry_at live xs i ys e in
    let op : ℕ → TraceOp = λ j. record { type_of = free; index = j; size = size } in
    let h' = subst (Point ids f s t n) at h in
    subst (λ j. Measured ids f (op j ∷ ops) t n s) same
      (free-Measured ids f s t n xs' b ys' ops h' (in_range ids f s t n xs' b ys' h') size
        (subst (λ j. peak ids f (op j ∷ ops) < 2 ^ 31) (sym same) fits)
        (measured_lem ids rest (set_size f b.index 0)
          (subst (λ j. peak ids (set_size f j 0) ops < 2 ^ 31) (sym same)
            (peak-tail ids f (op i) ops fits))
          (xs' ++ ys') (left_indices xs' ys' xs ys front back)))

-- On a heap with room for prologue and epilogue, whatever it holds, with arrays as long as the
-- number of ids: on a trace that uses its indices as it may, has positive sizes below 2 ^ 31 - 64 in
-- all its allocations and reallocations, reallocates only indices whose low byte is below 128, and has
-- less than 2 ^ 31 bytes in use at any time, `eval_mm_util` and
-- `eval_mm_valid` run without a fault and end in the same state. Either `eval_mm_valid` accepts the
-- trace, and the utilization is the largest number of bytes that the trace has in use, over the size
-- of the heap at the end; or `eval_mm_valid` reports an error and there is no utilization.
pub eval_mm_util_lem :
    (s : State) (trace : Trace) (t : Track) (ids : ℕ)
    → Ready s
    → WellUsed ids [] trace.ops
    → length t.blocks ≡ ids
    → length t.block_sizes ≡ ids
    → peak ids none_in_use trace.ops < 2 ^ 31
    → Measures (eval_mm_util trace t s) (eval_mm_valid trace t s) (peak ids none_in_use trace.ops)
unfolding eval_mm_util eval_mm_valid clear_ranges mem_reset_brk Measured Rest
eval_mm_util_lem s trace t ids ready used long long' fits =
    let (s₀, run, inv, start, limit) = fresh s ready in
    let t₀ : Track = record t { ranges = [] } in
    let n : Totals = record { total_size = 0; max_total_size = 0 } in
    let nothing = total-none ids none_in_use (λ j. refl) in
    let first : highest_of 0 (peak ids none_in_use trace.ops) ≡ peak ids none_in_use trace.ops =
      ground arith in
    rw run (
      subst (Measures (util_ops trace.ops t₀ n s₀) (valid_ops trace.ops t₀ s₀)) first (
        measured_lem ids used none_in_use fits [] refl s₀ t₀ n (record {
          tracks = record {
            backed = ([], (bare, inv, refl), refl);
            same_ranges = refl;
            filed = tt;
            once = λ j. omega arith;
            blocks_long = long;
            sizes_long = long';
          };
          sized = record { sizes = tt; others = λ j none. refl };
          counts = record { now = sym nothing; most = omega (arith, nothing); fits = omega arith };
        })))
