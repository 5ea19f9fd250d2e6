-- ===== src/Driver/Counted/Steps.antt =====
-- One request of a trace in `eval_mm_util`: the counts follow the total of the trace.
use cs0330_fall2022_7_malloc.Base.{
  ℕ, ◌^◌, ◌≤◌, ◌<◌, ◌≡◌, refl, subst, ap, List, ◌∷◌, some, arith, ◌∙◌, ◌⊎◌, inr, ne→==, lt→ltb,
}
use cs0330_fall2022_7_malloc.Machine.{State, Run, ok, null}
use cs0330_fall2022_7_malloc.Memlib.{mem_heapsize, to_int}
use cs0330_fall2022_7_malloc.Driver.{Track, get_elem?, sub_int, to_long}
use cs0330_fall2022_7_malloc.Mm.{mm_malloc}
use cs0330_fall2022_7_malloc.Mm.Realloc.{mm_realloc}
use cs0330_fall2022_7_malloc.Driver.Counted.{highest_of, set_size, after, total, peak}
use cs0330_fall2022_7_malloc.Driver.Counted.Sums.{
  total-set, total-peak, highest_of-shift, grow_totals_lem,
}
use cs0330_fall2022_7_malloc.Driver.Trace.{TraceOp}
use cs0330_fall2022_7_malloc.Driver.Utilization.{
  Totals, counted, exited, Utilization, ratio, no_util, grow_totals, util_alloc, util_realloc,
  util_op, util_ops,
}
use cs0330_fall2022_7_malloc.Driver.Valid.{Verdict, valid, invalid, valid_op, valid_ops}

-- Both functions end in the same state: the trace is accepted and its largest total is counted, or
-- a request is refused and there is no utilization.
abbrev pub Measures : Run Utilization → Run Verdict → ℕ → Type 0
Measures util verdict highest =
    ((t' : Track) × (s' : State) × (util ≡ ok (ratio highest (mem_heapsize s')) s')
      × (verdict ≡ ok (valid t') s'))
    ⊎ ((t' : Track) × (s' : State) × (util ≡ ok no_util s') × (verdict ≡ ok (invalid t') s'))

-- The counts before a request.
pub record Counts (ids : ℕ) (f : ℕ → ℕ) (n : Totals) : Type 0 where
  pub now : n.total_size ≡ total ids f
  pub most : total ids f ≤ n.max_total_size
  pub fits : n.max_total_size < 2 ^ 31

-- The counts after it.
pub record Counted (ids : ℕ) (f : ℕ → ℕ) (n n' : Totals) : Type 0 where
  pub now : n'.total_size ≡ total ids f
  pub most : n'.max_total_size ≡ highest_of n.max_total_size (total ids f)

module _ (ids : ℕ) (f : ℕ → ℕ) (n : Totals) (counts : Counts ids f n) (i : ℕ) (lt : i < ids) where
  pub grows :
      (size more : ℕ)
      → size < 2 ^ 31
      → f i < 2 ^ 31
      → total ids (set_size f i size) < 2 ^ 31
      → (more ≡ sub_int size (to_int (f i)))
      → Counted ids (set_size f i size) n (grow_totals n more)
  grows size more small small' fits e =
      let sum = total-set ids f i size lt in
      let now = counts.now in
      let most = counts.most in
      let bound = counts.fits in
      let t = total ids (set_size f i size) in
      let run = grow_totals_lem n more t (omega (arith, sum, now, e, most, bound)) fits bound in
      record { now = ap (λ m. m.total_size) run; most = ap (λ m. m.max_total_size) run }

  pub shrinks :
      f i < 2 ^ 31
      → Counted ids
          (set_size f i 0)
          n
          (record n { total_size = sub_int n.total_size (to_int (f i)) })
  shrinks small =
      let sum = total-set ids f i 0 lt in
      let now = counts.now in
      let most = counts.most in
      let bound = counts.fits in
      record { now = omega (arith, sum, now, most, bound); most = ground (arith, sum, most) }

-- A request was counted, and the rest of the trace is measured.
pub count_on :
    (ids : ℕ) (f : ℕ → ℕ) (n n' : Totals) (op : TraceOp) (ops : List TraceOp) (t t₁ : Track)
    (s s₁ : State)
    → Counts ids f n
    → Counted ids (after op f) n n'
    → valid_op t op s ≡ ok (valid t₁) s₁
    → util_op t n op s ≡ ok (counted t₁ n') s₁
    → Measures
        (util_ops ops t₁ n' s₁)
        (valid_ops ops t₁ s₁)
        (highest_of n'.max_total_size (peak ids (after op f) ops))
    → Measures
        (util_ops (op ∷ ops) t n s)
        (valid_ops (op ∷ ops) t s)
        (highest_of n.max_total_size (peak ids f (op ∷ ops)))
unfolding util_ops valid_ops peak
count_on ids f n n' op ops t t₁ s s₁ counts next run run' rest =
    let rest_peak = peak ids (after op f) ops in
    let same : highest_of n'.max_total_size rest_peak
        ≡ highest_of n.max_total_size (highest_of (total ids f) rest_peak) =
      ap (λ m. highest_of m rest_peak) next.most
      ∙ highest_of-shift n.max_total_size (total ids f) (total ids (after op f)) rest_peak
          counts.most (total-peak ids (after op f) ops) in
    rw (run, run') (subst (Measures (util_ops ops t₁ n' s₁) (valid_ops ops t₁ s₁)) same rest)

pub refuse :
    (op : TraceOp) (ops : List TraceOp) (n : Totals) (highest : ℕ) (t t₁ : Track) (s : State)
    → valid_op t op s ≡ ok (invalid t₁) s
    → util_op t n op s ≡ ok exited s
    → Measures (util_ops (op ∷ ops) t n s) (valid_ops (op ∷ ops) t s) highest
unfolding util_ops valid_ops
refuse op ops n highest t t₁ s run run' = inr (t₁, s, rw run' refl, rw run refl)

int_size : (n : ℕ) → n < 2 ^ 31 → to_long n ≡ n
int_size n small = rw (lt→ltb n (2 ^ 31) small) refl

pub alloc-exits :
    (t : Track) (n : Totals) (i size : ℕ) (s : State)
    → 0 < size
    → size < 2 ^ 31
    → mm_malloc size s ≡ ok null s
    → util_alloc t n i size s ≡ ok exited s
unfolding util_alloc
alloc-exits t n i size s pos small none =
    rw (int_size size small, none, ne→== size 0 (omega arith)) refl

pub realloc-exits :
    (t : Track) (n : Totals) (i size p old : ℕ) (s : State)
    → 0 < size
    → size < 2 ^ 31
    → get_elem? t.block_sizes i ≡ some old
    → get_elem? t.blocks i ≡ some p
    → mm_realloc p size s ≡ ok null s
    → util_realloc t n i size s ≡ ok exited s
unfolding util_realloc
realloc-exits t n i size p old s pos small known block none =
    rw (known, block, int_size size small, none, ne→== size 0 (omega arith)) refl
