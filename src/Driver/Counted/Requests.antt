-- ===== src/Driver/Counted/Requests.antt =====
-- Each request of a trace in `eval_mm_util`, together with what `eval_mm_valid` keeps track of.
use cs0330_fall2022_7_malloc.Base.{
  ℕ, ◌+◌, ◌%◌, ◌^◌, ◌<◌, ◌≡◌, ◌≢◌, sym, subst, ap, List, ◌∷◌, ◌++◌, count, arith, inl, inr, ne→==,
}
use cs0330_fall2022_7_malloc.Machine.{State}
use cs0330_fall2022_7_malloc.Memlib.{to_int}
use cs0330_fall2022_7_malloc.Driver.{Track, sub_int}
use cs0330_fall2022_7_malloc.Driver.Checked.{Entry, indices, Tracks}
use cs0330_fall2022_7_malloc.Driver.Checked.Arrays.{AllFiled-split, count-indices}
use cs0330_fall2022_7_malloc.Driver.Checked.Moves.{valid_free_lem, valid_realloc_lem}
use cs0330_fall2022_7_malloc.Driver.Checked.Requests.{valid_alloc_lem}
use cs0330_fall2022_7_malloc.Driver.Counted.{highest_of, set_size, after, peak}
use cs0330_fall2022_7_malloc.Driver.Counted.Same.{
  util_alloc-counted, util_realloc-counted, util_free-counted,
}
use cs0330_fall2022_7_malloc.Driver.Counted.Steps.{
  Measures, Counts, Counted, grows, shrinks, count_on, refuse, alloc-exits, realloc-exits,
}
use cs0330_fall2022_7_malloc.Driver.Counted.Sums.{
  total-peak, AllSized-split, Sized, Sized-cons, Sized-drop,
}
use cs0330_fall2022_7_malloc.Driver.Trace.{alloc, free, realloc, TraceOp}
use cs0330_fall2022_7_malloc.Driver.Utilization.{Totals, grow_totals, util_op, util_ops}
use cs0330_fall2022_7_malloc.Driver.Valid.{valid_op, valid_ops}

-- The trace is measured from a point in between.
unfoldable pub Measured : ℕ → (ℕ → ℕ) → List TraceOp → Track → Totals → State → Type 0
Measured ids f ops t n s =
    Measures (util_ops ops t n s) (valid_ops ops t s) (highest_of n.max_total_size (peak ids f ops))

pub Counts-next :
    (ids : ℕ) (f g : ℕ → ℕ) (n n' : Totals) (ops : List TraceOp)
    → Counts ids f n
    → Counted ids g n n'
    → peak ids g ops < 2 ^ 31
    → Counts ids g n'
Counts-next ids f g n n' ops counts next fits =
    let most = next.most in
    let bound = counts.fits in
    let now = next.now in
    let top = total-peak ids g ops in
    record { now = now; most = ground (arith, most); fits = ground (arith, most, bound, top, fits) }

pub peak-tail :
    (ids : ℕ) (f : ℕ → ℕ) (op : TraceOp) (ops : List TraceOp)
    → peak ids f (op ∷ ops) < 2 ^ 31
    → peak ids (after op f) ops < 2 ^ 31
unfolding peak
peak-tail ids f op ops fits = ground (arith, fits)

-- What stands at a request.
pub record Point (ids : ℕ) (f : ℕ → ℕ) (s : State) (t : Track) (n : Totals) (live : List Entry)
    : Type 0 where
  pub tracks : Tracks ids s t live
  pub sized : Sized f live
  pub counts : Counts ids f n

-- The rest of the trace, from where a request leaves off.
unfoldable pub Rest : ℕ → (ℕ → ℕ) → List TraceOp → List Entry → Type 0
Rest ids f ops live =
    (s : State) (t : Track) (n : Totals) → Point ids f s t n live → Measured ids f ops t n s

pub alloc-Measured :
    (ids : ℕ) (f : ℕ → ℕ) (s : State) (t : Track) (n : Totals) (live : List Entry)
    (ops : List TraceOp) (i size : ℕ)
    → Point ids f s t n live
    → i < ids
    → count i (indices live) ≡ 0
    → 0 < size
    → size + 64 < 2 ^ 31
    → peak ids f (record { type_of = alloc; index = i; size = size } ∷ ops) < 2 ^ 31
    → ((ptr : ℕ)
        → Rest ids (set_size f i size) ops (record { index = i; addr = ptr; size = size } ∷ live))
    → Measured ids f (record { type_of = alloc; index = i; size = size } ∷ ops) t n s
unfolding Measured Rest valid_op util_op
alloc-Measured ids f s t n live ops i size h lt none pos small fits rest =
    let op : TraceOp = record { type_of = alloc; index = i; size = size } in
    let top = highest_of n.max_total_size (peak ids f (op ∷ ops)) in
    let f' = set_size f i size in
    elim (valid_alloc_lem ids s t live h.tracks i size lt none pos small) [
      | inr (refused, run) ↦
          refuse op ops n top t _ s run (alloc-exits t n i size s pos (omega arith) refused)
      | inl (ptr, (t₁, s₁, run, tracks, same)) ↦
          let n' = grow_totals n size in
          let nothing = h.sized.others i none in
          let fits' = peak-tail ids f op ops fits in
          let below = total-peak ids f' ops in
          let next : Counted ids f' n n' =
            grows ids f n h.counts i lt size size (omega arith) (omega (arith, nothing))
              (omega (arith, below, fits')) (omega (arith, nothing)) in
          count_on ids f n n' op ops t t₁ s s₁ h.counts next run
            (util_alloc-counted t t₁ n i size s s₁ (ne→== size 0 (omega arith)) run)
            (rest ptr s₁ t₁ n' (record {
              tracks = tracks;
              sized =
                  Sized-cons f live i ptr size none h.sized.sizes
                    (λ j ne absent. h.sized.others j absent);
              counts = Counts-next ids f f' n n' ops h.counts next fits';
            }))
    ]

module _ (ids : ℕ) (f : ℕ → ℕ) (s : State) (t : Track) (n : Totals) (xs : List Entry) (e : Entry)
    (ys : List Entry) (ops : List TraceOp) (h : Point ids f s t n (xs ++ (e ∷ ys)))
    (lt : e.index < ids) where
  absent : count e.index (indices (xs ++ ys)) ≡ 0
  absent = ground (arith, h.tracks.once e.index, count-indices e.index xs e ys)

  others : (j : ℕ) → j ≢ e.index → count j (indices (xs ++ ys)) ≡ 0 → f j ≡ 0
  others j ne none = h.sized.others j (ground (arith, ne, none, count-indices j xs e ys))

  pub realloc-Measured :
      (size : ℕ)
      → e.index % 256 < 128
      → 0 < size
      → size + 64 < 2 ^ 31
      → peak ids f (record { type_of = realloc; index = e.index; size = size } ∷ ops) < 2 ^ 31
      → ((ptr : ℕ)
          → Rest ids
              (set_size f e.index size)
              ops
              (record { index = e.index; addr = ptr; size = size } ∷ (xs ++ ys)))
      → Measured ids f (record { type_of = realloc; index = e.index; size = size } ∷ ops) t n s
  unfolding Measured Rest valid_op util_op
  realloc-Measured size low pos small fits rest =
      let op : TraceOp = record { type_of = realloc; index = e.index; size = size } in
      let top = highest_of n.max_total_size (peak ids f (op ∷ ops)) in
      let ((block, known, pos', small'), _) = AllFiled-split t xs e ys h.tracks.filed in
      let (old, sizes) = AllSized-split f xs e ys h.sized.sizes in
      elim (valid_realloc_lem ids s t xs e ys h.tracks size lt low pos small) [
        | inr (refused, run) ↦
            refuse op ops n top t _ s run
              (realloc-exits t n e.index size e.addr e.size s pos (omega arith) known block refused)
        | inl (ptr, (t₁, s₁, run, tracks, same)) ↦
            let more = sub_int size (to_int e.size) in
            let n' = grow_totals n more in
            let f' = set_size f e.index size in
            let fits' = peak-tail ids f op ops fits in
            let below = total-peak ids f' ops in
            let next : Counted ids f' n n' =
              grows ids f n h.counts e.index lt size more (omega arith) (omega (arith, old, small'))
                (omega (arith, below, fits')) (ap (λ o. sub_int size (to_int o)) (sym old)) in
            count_on ids f n n' op ops t t₁ s s₁ h.counts next run
              (util_realloc-counted t t₁ n e.index size e.size s s₁ (ne→== size 0 (omega arith))
                known run)
              (rest ptr s₁ t₁ n' (record {
                tracks = tracks;
                sized = Sized-cons f (xs ++ ys) e.index ptr size absent sizes others;
                counts = Counts-next ids f f' n n' ops h.counts next fits';
              }))
      ]

  pub free-Measured :
      (size : ℕ)
      → peak ids f (record { type_of = free; index = e.index; size = size } ∷ ops) < 2 ^ 31
      → Rest ids (set_size f e.index 0) ops (xs ++ ys)
      → Measured ids f (record { type_of = free; index = e.index; size = size } ∷ ops) t n s
  unfolding Measured Rest valid_op util_op
  free-Measured size fits rest =
      let op : TraceOp = record { type_of = free; index = e.index; size = size } in
      let ((block, known, pos, small), _) = AllFiled-split t xs e ys h.tracks.filed in
      let (old, sizes) = AllSized-split f xs e ys h.sized.sizes in
      let (t₁, s₁, run, tracks, same) = valid_free_lem ids s t xs e ys h.tracks in
      let n' : Totals = record n { total_size = sub_int n.total_size (to_int e.size) } in
      let f' = set_size f e.index 0 in
      let next : Counted ids f' n n' =
        subst (λ o. Counted ids f' n (record n { total_size = sub_int n.total_size (to_int o) }))
          old (shrinks ids f n h.counts e.index lt (omega (arith, old, small))) in
      count_on ids f n n' op ops t t₁ s s₁ h.counts next run
        (util_free-counted t t₁ n e.index e.size s s₁ known run)
        (rest s₁ t₁ n' (record {
          tracks = tracks;
          sized = Sized-drop f (xs ++ ys) e.index absent sizes others;
          counts = Counts-next ids f f' n n' ops h.counts next (peak-tail ids f op ops fits);
        }))
