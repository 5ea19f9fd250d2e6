-- ===== src/Driver/Checked/Run.antt =====
-- Whole traces in `eval_mm_valid`: with mm.c, the driver reports no error but a refused request.
use cs0330_fall2022_7_malloc.Base.{
  ℕ, ◌<◌, ◌≡◌, refl, sym, subst, ap, List, [], ◌∷◌, ◌++◌, length, count, some, arith, ◌∙◌, ◌⊎◌, inl,
  inr, ◌%◌,
}
use cs0330_fall2022_7_malloc.Machine.{State, ok, null}
use cs0330_fall2022_7_malloc.Driver.{Track, malloc_error, get_elem?}
use cs0330_fall2022_7_malloc.Driver.Checked.{
  WellUsed, no_more, allocates, reallocates, frees, Entry, indices, Tracks,
}
use cs0330_fall2022_7_malloc.Driver.Checked.Arrays.{entry_at, indices-append, AllFiled-split}
use cs0330_fall2022_7_malloc.Driver.Checked.Moves.{valid_free_lem, valid_realloc_lem}
use cs0330_fall2022_7_malloc.Driver.Checked.Requests.{Goes, valid_alloc_lem}
use cs0330_fall2022_7_malloc.Driver.Reset.{Ready, eval_mm_valid_start}
use cs0330_fall2022_7_malloc.Driver.Trace.{OpType, alloc, free, realloc, TraceOp, Trace}
use cs0330_fall2022_7_malloc.Driver.Valid.{
  valid, invalid, valid_op, valid_ops, valid_realloc, valid_free, eval_mm_valid,
}
use cs0330_fall2022_7_malloc.Mm.{mm_malloc}
use cs0330_fall2022_7_malloc.Mm.Init.{bare}
use cs0330_fall2022_7_malloc.Mm.Realloc.{mm_realloc}

-- The allocator returns NULL for this request.
abbrev pub IsRefused : OpType → (index size : ℕ) → Track → State → Type 0
IsRefused alloc i size t s = mm_malloc size s ≡ ok null s
IsRefused realloc i size t s =
    (p : ℕ) × (get_elem? t.blocks i ≡ some p) × (mm_realloc p size s ≡ ok null s)
IsRefused free i size t s = ⊥

-- The run ends at a request that was refused, with one more error.
abbrev pub Stops : List TraceOp → Track → State → Type 0
Stops ops t s =
    (before : List TraceOp) × (op : TraceOp) × (after : List TraceOp) × (t₁ : Track) × (s₁ : State)
    × (ops ≡ before ++ (op ∷ after))
    × (valid_ops before t s ≡ ok (valid t₁) s₁)
    × IsRefused op.type_of op.index op.size t₁ s₁
    × (valid_ops ops t s ≡ ok (invalid (malloc_error t₁)) s₁)
    × (t₁.errors ≡ t.errors)

-- The run ends well, or at a refused request.
abbrev pub Finishes : ℕ → List TraceOp → Track → State → Type 0
Finishes ids ops t s = ((live : List Entry) × Goes ids (valid_ops ops t s) t live) ⊎ Stops ops t s

step-valid :
    (op : TraceOp) (ops : List TraceOp) (t t₁ : Track) (s s₁ : State)
    → valid_op t op s ≡ ok (valid t₁) s₁
    → valid_ops (op ∷ ops) t s ≡ valid_ops ops t₁ s₁
unfolding valid_ops
step-valid op ops t t₁ s s₁ run = rw run refl

stop_here :
    (op : TraceOp) (ops : List TraceOp) (t : Track) (s : State)
    → IsRefused op.type_of op.index op.size t s
    → valid_op t op s ≡ ok (invalid (malloc_error t)) s
    → Stops (op ∷ ops) t s
unfolding valid_ops
stop_here op ops t s refused run = ([], op, ops, t, s, refl, refl, refused, rw run refl, refl)

go_on :
    (ids : ℕ) (op : TraceOp) (ops : List TraceOp) (t t₁ : Track) (s s₁ : State)
    → valid_op t op s ≡ ok (valid t₁) s₁
    → t₁.errors ≡ t.errors
    → Finishes ids ops t₁ s₁
    → Finishes ids (op ∷ ops) t s
go_on ids op ops t t₁ s s₁ run same (inl (live, (t₂, s₂, rest, tracks, same'))) =
    inl (live, (t₂, s₂, step-valid op ops t t₁ s s₁ run ∙ rest, tracks, same' ∙ same))
go_on ids op ops t t₁ s s₁ run same
      (inr (before, op', after, t₂, s₂, e, start, refused, rest, same')) =
    inr (
      op ∷ before,
      op',
      after,
      t₂,
      s₂,
      ap (λ l. op ∷ l) e,
      step-valid op before t t₁ s s₁ run ∙ start,
      refused,
      step-valid op ops t t₁ s s₁ run ∙ rest,
      same' ∙ same,
    )

valid_ops_lem :
    (ids : ℕ) {used : List ℕ} {ops : List TraceOp}
    → WellUsed ids used ops
    → (s : State) (t : Track) (live : List Entry) → indices live ≡ used
    → Tracks ids s t live
    → Finishes ids ops t s
unfolding valid_ops valid_op
valid_ops_lem ids no_more s t live e h = inl (live, (t, s, refl, h, refl))
valid_ops_lem ids (allocates {used} {ops} i size lt absent pos small rest) s t live e h =
    let op : TraceOp = record { type_of = alloc; index = i; size = size } in
    elim (valid_alloc_lem ids s t live h i size lt (ap (count i) e ∙ absent) pos small) [
      | inr (refused, run) ↦ inr (stop_here op ops t s refused run)
      | inl (ptr, (t₁, s₁, run, tracks, same)) ↦ go_on ids op ops t t₁ s s₁ run same (
          valid_ops_lem ids rest s₁ t₁ (record { index = i; addr = ptr; size = size } ∷ live)
            (ap (λ l. i ∷ l) e) tracks)
    ]
valid_ops_lem ids (reallocates {ops} xs i ys size lt low pos small rest) s t live e h =
    let op : TraceOp = record { type_of = realloc; index = i; size = size } in
    let (xs', b, ys', at, same_index, front, back) = entry_at live xs i ys e in
    let h' = subst (Tracks ids s t) at h in
    let ((block, _, _, _), _) = AllFiled-split t xs' b ys' h'.filed in
    elim (valid_realloc_lem ids s t xs' b ys' h' size (subst (λ j. j < ids) (sym same_index) lt)
      (subst (λ j. j % 256 < 128) (sym same_index) low) pos small) [
        | inr (refused, run) ↦ inr (
            stop_here op ops t s (b.addr, ap (get_elem? t.blocks) (sym same_index) ∙ block, refused)
              (ap (λ j. valid_realloc t j size s) (sym same_index) ∙ run))
        | inl (ptr, (t₁, s₁, run, tracks, same)) ↦
            go_on ids op ops t t₁ s s₁ (ap (λ j. valid_realloc t j size s) (sym same_index) ∙ run)
              same
              (valid_ops_lem ids rest s₁ t₁
                (record { index = b.index; addr = ptr; size = size } ∷ (xs' ++ ys'))
                (ap (λ j. j ∷ indices (xs' ++ ys')) same_index
                  ∙ ap (λ l. i ∷ l)
                      (indices-append xs' ys'
                        ∙ ap (λ l. l ++ indices ys') front
                        ∙ ap (λ l. xs ++ l) back))
                tracks)
      ]
valid_ops_lem ids (frees {ops} xs i ys size rest) s t live e h =
    let op : TraceOp = record { type_of = free; index = i; size = size } in
    let (xs', b, ys', at, same_index, front, back) = entry_at live xs i ys e in
    let (t₁, s₁, run, tracks, same) =
      valid_free_lem ids s t xs' b ys' (subst (Tracks ids s t) at h) in
    go_on ids op ops t t₁ s s₁ (ap (λ j. valid_free t j s) (sym same_index) ∙ run) same (
      valid_ops_lem ids rest s₁ t₁ (xs' ++ ys')
        (indices-append xs' ys' ∙ ap (λ l. l ++ indices ys') front ∙ ap (λ l. xs ++ l) back) tracks)

-- On a heap with room for prologue and epilogue, whatever it holds, and with arrays as long as the
-- number of ids: `eval_mm_valid` on a trace that uses its indices as it may, has positive sizes below
-- 2 ^ 31 - 64 in all its allocations and reallocations, and reallocates only indices whose low byte is
-- below 128, runs without a fault. It accepts the trace, and reports no error; or it reports one
-- error, at a request for which `mm_malloc` or `mm_realloc` returns NULL, and accepts all requests
-- before that one.
pub eval_mm_valid_lem :
    (s : State) (trace : Trace) (t : Track) (ids : ℕ)
    → Ready s
    → WellUsed ids [] trace.ops
    → length t.blocks ≡ ids
    → length t.block_sizes ≡ ids
    → (s₀ : State) × (eval_mm_valid trace t s ≡ valid_ops trace.ops (record t { ranges = [] }) s₀)
      × Finishes ids trace.ops (record t { ranges = [] }) s₀
eval_mm_valid_lem s trace t ids ready used long long' =
    let (s₀, run, inv, limit) = eval_mm_valid_start s ready trace t in
    (
      s₀,
      run,
      valid_ops_lem ids used s₀ (record t { ranges = [] }) [] refl
          (record {
            backed = ([], (bare, inv, refl), refl);
            same_ranges = refl;
            filed = tt;
            once = λ j. omega arith;
            blocks_long = long;
            sizes_long = long';
          }),
    )
