-- ===== src/Driver/Counted/Sums.antt =====
-- The totals of a trace when one index changes, and the sums of `int`s that follow them.
use cs0330_fall2022_7_malloc.Base.{
  ℕ, zero, suc, ◌+◌, ◌^◌, ◌≤◌, ◌<◌, ◌≡◌, ◌≢◌, refl, ap, List, [], ◌∷◌, ◌++◌, count, arith, ◌∙◌, inl,
  inr, lt-cases, ==-cases, eq→==, ne→==, lt→ltb,
}
use cs0330_fall2022_7_malloc.Machine.Words.{less-small}
use cs0330_fall2022_7_malloc.Driver.{add_int, to_long}
use cs0330_fall2022_7_malloc.Driver.Checked.{Entry, indices}
use cs0330_fall2022_7_malloc.Driver.Counted.{highest_of, set_size, total, peak}
use cs0330_fall2022_7_malloc.Driver.Trace.{TraceOp}
use cs0330_fall2022_7_malloc.Driver.Utilization.{Totals, grow_totals}

set_here : (f : ℕ → ℕ) (i v : ℕ) → set_size f i v i ≡ v
set_here f i v = rw (eq→== i i refl) refl

set_other : (f : ℕ → ℕ) (i v j : ℕ) → j ≢ i → set_size f i v j ≡ f j
set_other f i v j ne = rw (ne→== j i ne) refl

total-outside : (ids : ℕ) (f : ℕ → ℕ) (i v : ℕ) → ids ≤ i → total ids (set_size f i v) ≡ total ids f
unfolding total
total-outside zero f i v le = refl
total-outside (suc ids) f i v le =
    rw (set_other f i v ids (λ e. omega arith), total-outside ids f i v (omega arith)) refl

pub total-set :
    (ids : ℕ) (f : ℕ → ℕ) (i v : ℕ) → i < ids → total ids (set_size f i v) + f i ≡ total ids f + v
unfolding total
total-set zero f i v lt = absurd (omega arith)
total-set (suc ids) f i v lt = elim (lt-cases i ids) [
  | inl below ↦
      let rest = total-set ids f i v below in
      let same = set_other f i v ids (λ e. omega (arith, below)) in omega (arith, rest, same)
  | inr last ↦
      let top : ids ≡ i = omega arith in
      let rest = total-outside ids f i v (omega arith) in
      let here : set_size f i v ids ≡ v = ap (set_size f i v) top ∙ set_here f i v in
      let old : f ids ≡ f i = ap f top in omega (arith, rest, here, old)
]

pub total-none : (ids : ℕ) (f : ℕ → ℕ) → ((j : ℕ) → f j ≡ 0) → total ids f ≡ 0
unfolding total
total-none zero f h = refl
total-none (suc ids) f h =
    let rest = total-none ids f h in let here = h ids in omega (arith, rest, here)

pub total-peak : (ids : ℕ) (f : ℕ → ℕ) (ops : List TraceOp) → total ids f ≤ peak ids f ops
unfolding peak
total-peak ids f [] = omega arith
total-peak ids f (op ∷ ops) = ground arith

-- A maximum over the whole trace, taken in another order.
pub highest_of-shift :
    (m a b c : ℕ) → a ≤ m → b ≤ c → highest_of (highest_of m b) c ≡ highest_of m (highest_of a c)
highest_of-shift m a b c h h' = ground (arith, h, h')

-- The counts after a request whose total fits an `int`.
pub grow_totals_lem :
    (n : Totals) (more t : ℕ)
    → add_int n.total_size more ≡ t
    → t < 2 ^ 31
    → n.max_total_size < 2 ^ 31
    → grow_totals n more ≡ record { total_size = t; max_total_size = highest_of n.max_total_size t }
grow_totals_lem n more t e small small' =
    let wide : to_long n.max_total_size ≡ n.max_total_size =
      rw (lt→ltb n.max_total_size (2 ^ 31) small') refl in
    let wide' : to_long t ≡ t = rw (lt→ltb t (2 ^ 31) small) refl in
    rw (e, wide, wide', less-small n.max_total_size t (omega arith) (omega arith)) refl

-- The entries in use have their sizes, and all other indices have none.
abbrev pub AllSized : (ℕ → ℕ) → List Entry → Type 0
AllSized f [] = Unit {0}
AllSized f (e ∷ live) = (f e.index ≡ e.size) × AllSized f live

pub AllSized-split :
    (f : ℕ → ℕ) (xs : List Entry) (e : Entry) (ys : List Entry)
    → AllSized f (xs ++ (e ∷ ys))
    → (f e.index ≡ e.size) × AllSized f (xs ++ ys)
AllSized-split f [] e ys h = h
AllSized-split f (x ∷ xs) e ys h =
    let (here, rest) = AllSized-split f xs e ys h.1 in (here, (h.0, rest))

pub AllSized-update :
    (f : ℕ → ℕ) (i v : ℕ) (live : List Entry)
    → count i (indices live) ≡ 0
    → AllSized f live
    → AllSized (set_size f i v) live
AllSized-update f i v [] absent h = tt
AllSized-update f i v (e ∷ live) absent h =
    let ne : e.index ≢ i = λ same. ground (arith, same, absent) in
    let rest : count i (indices live) ≡ 0 = ground (arith, absent) in
    (set_other f i v e.index ne ∙ h.0, AllSized-update f i v live rest h.1)

pub record Sized (f : ℕ → ℕ) (live : List Entry) : Type 0 where
  pub sizes : AllSized f live
  pub others : (j : ℕ) → count j (indices live) ≡ 0 → f j ≡ 0

-- An index that is not in use gets a block.
pub Sized-cons :
    (f : ℕ → ℕ) (live : List Entry) (i ptr size : ℕ)
    → count i (indices live) ≡ 0
    → AllSized f live
    → ((j : ℕ) → j ≢ i → count j (indices live) ≡ 0 → f j ≡ 0)
    → Sized (set_size f i size) (record { index = i; addr = ptr; size = size } ∷ live)
Sized-cons f live i ptr size absent sizes others = record {
  sizes = (set_here f i size, AllSized-update f i size live absent sizes);
  others = λ j none. elim (==-cases j i) [
    | inl here ↦ absurd (ground (arith, here.0, none))
    | inr other ↦ set_other f i size j other.0 ∙ others j other.0 (ground (arith, none, other.0))
  ];
}

-- The block of an index goes.
pub Sized-drop :
    (f : ℕ → ℕ) (live : List Entry) (i : ℕ)
    → count i (indices live) ≡ 0
    → AllSized f live
    → ((j : ℕ) → j ≢ i → count j (indices live) ≡ 0 → f j ≡ 0)
    → Sized (set_size f i 0) live
Sized-drop f live i absent sizes others = record {
  sizes = AllSized-update f i 0 live absent sizes;
  others = λ j none. elim (==-cases j i) [
    | inl here ↦ ap (set_size f i 0) here.0 ∙ set_here f i 0
    | inr other ↦ set_other f i 0 j other.0 ∙ others j other.0 none
  ];
}
