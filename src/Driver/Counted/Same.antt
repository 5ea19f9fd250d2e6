-- ===== src/Driver/Counted/Same.antt =====
-- Where `eval_mm_valid` accepts a request, `eval_mm_util` makes the same calls.
use cs0330_fall2022_7_malloc.Base.{
  ℕ, zero, suc, ◌+◌, ◌%◌, ◌≡◌, refl, ap, Bool, true, false, not, ◌&&◌, ◌==◌, if◌then◌else◌, List,
  Option, none, some, ◌∙◌,
}
use cs0330_fall2022_7_malloc.Machine.{
  Cmd, State, Run, ok, fault, aborted, out_of_fuel, proceed, null, memset, in_heap,
}
use cs0330_fall2022_7_malloc.Memlib.{to_int}
use cs0330_fall2022_7_malloc.Driver.{
  Range, Track, defined, get_elem?, set_elem?, add_range, remove_range, to_long, sub_int, rounds,
  holds_index, less_int, load_char, char_is,
}
use cs0330_fall2022_7_malloc.Driver.Utilization.{
  Totals, UtilStep, counted, grow_totals, util_remember, util_alloc, util_realloc, util_free,
}
use cs0330_fall2022_7_malloc.Driver.Valid.{
  Verdict, valid, invalid, remember, valid_moved, valid_alloc, valid_realloc, valid_free,
}
use cs0330_fall2022_7_malloc.Mm.{mm_malloc, mm_free}
use cs0330_fall2022_7_malloc.Mm.Realloc.{mm_realloc}

-- A command that ends well ended well in its first part.
proceed-ok :
    {A B : Type 0} (r : Run A) (k : A → Cmd B) {y : B} {s' : State}
    → proceed r k ≡ ok y s'
    → (x : A) × (s₁ : State) × (r ≡ ok x s₁) × (k x s₁ ≡ ok y s')
proceed-ok (ok x s₁) k e = (x, s₁, refl, e)
proceed-ok fault k e = absurd (differ e)
  where
    differ : {B : Type 0} {y : B} {s' : State} → ◌≡◌ {A = Run B} fault (ok y s') → ⊥
    differ e = cc
proceed-ok aborted k e = absurd (differ e)
  where
    differ : {B : Type 0} {y : B} {s' : State} → ◌≡◌ {A = Run B} aborted (ok y s') → ⊥
    differ e = cc
proceed-ok out_of_fuel k e = absurd (differ e)
  where
    differ : {B : Type 0} {y : B} {s' : State} → ◌≡◌ {A = Run B} out_of_fuel (ok y s') → ⊥
    differ e = cc

-- A run of `eval_mm_valid` that went on, as one of `eval_mm_util`.
abbrev counting : Totals → Run Verdict → Run UtilStep
counting n (ok (valid t) s) = ok (counted t n) s
counting n (ok (invalid t) s) = fault
counting n fault = fault
counting n aborted = fault
counting n out_of_fuel = fault

refuses : {t t' : Track} {s s' : State} → ok (invalid t) s ≡ ok (valid t') s' → ⊥
refuses e = cc

-- A test that leads to an error was not met.
passes :
    (c : Bool) (t : Track) (y : Cmd Verdict) (s : State) {t' : Track} {s' : State}
    → (if c then (λ s. ok (invalid t) s) else y) s ≡ ok (valid t') s'
    → (c ≡ false) × (y s ≡ ok (valid t') s')
passes true t y s e = absurd (refuses e)
passes false t y s e = (refl, e)

-- A size that is not 0 leads on.
enters :
    (c : Bool) (x y : Cmd Verdict) (s : State) {r : Run Verdict}
    → c ≡ false
    → (if c then x else y) s ≡ r
    → y s ≡ r
enters true x y s zero_size e = absurd (differ zero_size)
  where
    differ : true ≡ false → ⊥
    differ e = cc
enters false x y s zero_size e = e

util_remember-counted :
    (t t' : Track) (ranges : List Range) (n : Totals) (p i size : ℕ) (s s' : State)
    → remember t ranges p i size s ≡ ok (valid t') s'
    → util_remember t ranges n p i size s ≡ ok (counted t' n) s'
unfolding remember util_remember
util_remember-counted t t' ranges n p i size s s' e =
    let (_, s₁, e₁, r₁) = proceed-ok (memset p (i % 256) (to_long size) s) _ e in
    let (blocks, s₂, e₂, r₂) = proceed-ok (defined (set_elem? t.blocks i p) s₁) _ r₁ in
    let (sizes, s₃, e₃, r₃) =
      proceed-ok (defined (set_elem? t.block_sizes i (to_long size)) s₂) _ r₂ in
    rw (e₁, e₂, e₃) (ap (counting n) r₃)

-- The result of `add_range` is a list.
listed :
    (t : Track) (k : List Range → Cmd Verdict) (o : Option (List Range)) (s : State) {t' : Track}
    {s' : State}
    → (elim o as (λ _. Cmd Verdict) [ none ↦ (λ s. ok (invalid t) s) | some ranges ↦ k ranges ]) s
      ≡ ok (valid t') s'
    → (ranges : List Range) × (o ≡ some ranges) × (k ranges s ≡ ok (valid t') s')
listed t k none s e = absurd (refuses e)
listed t k (some ranges) s e = (ranges, refl, e)

pub util_alloc-counted :
    (t t' : Track) (n : Totals) (i size : ℕ) (s s' : State)
    → (size == 0) ≡ false
    → valid_alloc t i size s ≡ ok (valid t') s'
    → util_alloc t n i size s ≡ ok (counted t' (grow_totals n size)) s'
unfolding valid_alloc util_alloc
util_alloc-counted t t' n i size s s' some_size e =
    let (p, s₁, e₁, r₁) = proceed-ok (mm_malloc (to_long size) s) _ e in
    let (test, r₂) = passes (p == null && not (size == 0)) _ _ s₁ r₁ in
    let r₃ = enters (size == 0) _ _ s₁ some_size r₂ in
    let (added, s₂, e₂, r₄) = proceed-ok (add_range t.ranges p size s₁) _ r₃ in
    let (ranges, e₃, r₅) = listed _ (λ ranges. remember t ranges p i size) added s₂ r₄ in
    rw (e₁, test, some_size, e₂, e₃)
      (util_remember-counted t t' ranges (grow_totals n size) p i size s₂ s' r₅)

abbrev state_of : {A : Type 0} → State → Run A → State
state_of s (ok x s') = s'
state_of s fault = s
state_of s aborted = s
state_of s out_of_fuel = s

-- The check of the data only reads.
holds_index-same :
    (n p i : ℕ) (s : State) {b : Bool} {s' : State} → holds_index n p i s ≡ ok b s' → s ≡ s'
unfolding holds_index
holds_index-same zero p i s e = ap (state_of s) e
holds_index-same (suc n) p i s {b} {s'} e =
    let (byte, s₁, e₁, r₁) = proceed-ok (load_char p s) _ e in
    same_byte (in_heap s p 1) e₁
    ∙ rest (char_is byte i) s₁ (λ e'. holds_index-same n (p + 1) i s₁ e') r₁
  where
    same_byte :
        (c : Bool) {byte : ℕ} {s₁ : State}
        → (if c then ok (s.mem p) s else fault) ≡ ok byte s₁
        → s ≡ s₁
    same_byte true e = ap (state_of s) e
    same_byte false e = ap (state_of s) e

    rest :
        (c : Bool) (s₁ : State)
        → (holds_index n (p + 1) i s₁ ≡ ok b s' → s₁ ≡ s')
        → (if c then holds_index n (p + 1) i else (λ s. ok false s)) s₁ ≡ ok b s'
        → s₁ ≡ s'
    rest true s₁ again e = again e
    rest false s₁ again e = ap (state_of s₁) e

kept_data :
    (c : Bool) (t : Track) (y : Cmd Verdict) (s : State) {t' : Track} {s' : State}
    → (if c then y else (λ s. ok (invalid t) s)) s ≡ ok (valid t') s'
    → y s ≡ ok (valid t') s'
kept_data true t y s e = e
kept_data false t y s e = absurd (refuses e)

util_moved-counted :
    (t t' : Track) (ranges : List Range) (n : Totals) (p i size : ℕ) (s s' : State)
    → valid_moved t ranges p i size s ≡ ok (valid t') s'
    → util_remember t ranges n p i size s ≡ ok (counted t' n) s'
unfolding valid_moved
util_moved-counted t t' ranges n p i size s s' e =
    let (old, s₁, e₁, r₁) = proceed-ok (defined (get_elem? t.block_sizes i) s) _ e in
    let (kept, s₂, e₂, r₂) =
      proceed-ok
        (holds_index (rounds (if less_int size (to_int old) then size else to_int old)) p i s₁) _
        r₁ in
    let r₃ = kept_data kept _ (remember t ranges p i size) s₂ r₂ in
    let same : s ≡ s₂ = unchanged (get_elem? t.block_sizes i) e₁ ∙ holds_index-same _ p i s₁ e₂ in
    util_remember-counted t t' ranges n p i size s s' (ap (remember t ranges p i size) same ∙ r₃)
  where
    unchanged : (o : Option ℕ) {x : ℕ} {s₁ : State} → defined o s ≡ ok x s₁ → s ≡ s₁
    unchanged none e = ap (state_of s) e
    unchanged (some x) e = ap (state_of s) e

pub util_realloc-counted :
    (t t' : Track) (n : Totals) (i size old : ℕ) (s s' : State)
    → (size == 0) ≡ false
    → get_elem? t.block_sizes i ≡ some old
    → valid_realloc t i size s ≡ ok (valid t') s'
    → util_realloc t n i size s ≡ ok (counted t' (grow_totals n (sub_int size (to_int old)))) s'
unfolding valid_realloc util_realloc
util_realloc-counted t t' n i size old s s' some_size known e =
    let (oldp, s₁, e₁, r₁) = proceed-ok (defined (get_elem? t.blocks i) s) _ e in
    let (p, s₂, e₂, r₂) = proceed-ok (mm_realloc oldp (to_long size) s₁) _ r₁ in
    let (test, r₃) = passes (p == null && not (size == 0)) _ _ s₂ r₂ in
    let r₄ = enters (size == 0) _ _ s₂ some_size r₃ in
    let (added, s₃, e₃, r₅) = proceed-ok (add_range (remove_range t.ranges oldp) p size s₂) _ r₄ in
    let (ranges, e₄, r₆) = listed _ (λ ranges. valid_moved t ranges p i size) added s₃ r₅ in
    rw (known, e₁, e₂, test, some_size, e₃, e₄)
      (util_moved-counted t t' ranges (grow_totals n (sub_int size (to_int old))) p i size s₃ s' r₆)

pub util_free-counted :
    (t t' : Track) (n : Totals) (i old : ℕ) (s s' : State)
    → get_elem? t.block_sizes i ≡ some old
    → valid_free t i s ≡ ok (valid t') s'
    → util_free t n i s
      ≡ ok (counted t' (record n { total_size = sub_int n.total_size (to_int old) })) s'
unfolding valid_free util_free
util_free-counted t t' n i old s s' known e =
    let (p, s₁, e₁, r₁) = proceed-ok (defined (get_elem? t.blocks i) s) _ e in
    let (_, s₂, e₂, r₂) = proceed-ok (mm_free p s₁) _ r₁ in
    rw (known, e₁, e₂)
      (ap (counting (record n { total_size = sub_int n.total_size (to_int old) })) r₂)
