-- ===== src/Mm/Malloc/Search.antt =====
-- The loop of `mm_malloc` finds the first block of the free list with room, if there is one.
use cs0330_fall2022_7_malloc.Base.{
  ℕ, zero, suc, ◌-◌, ◌^◌, ◌≤◌, ◌<◌, ◌≡◌, ◌≢◌, refl, sym, subst, ap, List, [], ◌∷◌, Bool, true,
  false, arith, ◌∙◌, count, count_self, count-ne, length, length_le_of_count_le, SameItems,
  if◌then◌else◌, leb, ◌==◌, eq→==, ne→==, lt-cases, le→leb, lt→leb, ==-cases, ◌⊎◌, inl, inr,
}
use cs0330_fall2022_7_malloc.Machine.{Mem, State, ok, pure, read_long, clear_low, null}
use cs0330_fall2022_7_malloc.Machine.Words.{less-lt, less-le, clear_low-tag}
use cs0330_fall2022_7_malloc.Block.Laws.{FreeHere, block_size-eq, block_flink-eq}
use cs0330_fall2022_7_malloc.Layout.{Blocks, span, Heap-end, frees}
use cs0330_fall2022_7_malloc.Layout.Place.{length-frees, frees-once}
use cs0330_fall2022_7_malloc.Layout.Sound.{Sound, IsFree, IsFree-here, IsFree-small}
use cs0330_fall2022_7_malloc.FreeList.Ring.{flink, Seg, IsRing, FreeRing}
use cs0330_fall2022_7_malloc.Memlib.{mem_heapsize}
use cs0330_fall2022_7_malloc.Mm.{search_free}

-- The first block of a list whose header gives it at least `b_size` bytes, or NULL.
unfoldable pub first_fit : Mem → (b_size : ℕ) → List ℕ → ℕ
first_fit m b_size [] = null
first_fit m b_size (x ∷ xs) =
    if leb b_size (clear_low (read_long m x)) then x else first_fit m b_size xs

module _ (m : Mem) (b_size x : ℕ) (xs : List ℕ) where
  first_fit-cons_fits : b_size ≤ clear_low (read_long m x) → first_fit m b_size (x ∷ xs) ≡ x
  unfolding first_fit
  first_fit-cons_fits big = rw (le→leb b_size _ big)

  first_fit-cons_small :
      clear_low (read_long m x) < b_size → first_fit m b_size (x ∷ xs) ≡ first_fit m b_size xs
  unfolding first_fit
  first_fit-cons_small small = rw (lt→leb b_size _ small)

first_fit-nil : (m : Mem) (b_size : ℕ) → first_fit m b_size [] ≡ null
unfolding first_fit
first_fit-nil m b_size = refl

header_size : {s : State} {q : ℕ} (h : FreeHere s q) → clear_low (read_long s.mem q) ≡ h.size
header_size h = ap clear_low h.here.at.header ∙ clear_low-tag h.size false h.here.at.aligned

module _ {s : State} {bs : Blocks} (sound : Sound s bs) (b_size : ℕ) (room : b_size < 2 ^ 63) where
  -- One round at a block that is large enough, and at one that is not.
  round_fits :
      (fuel curr : ℕ)
      → IsFree s bs curr
      → b_size ≤ clear_low (read_long s.mem curr)
      → search_free (suc fuel) b_size curr s ≡ ok curr s
  unfolding search_free
  round_fits fuel curr free big =
      let here = IsFree-here sound curr free in
      let pos = (IsFree-small sound curr free).0 in
      let big' : b_size ≤ here.size = omega (arith, header_size here) in
      rw (
        ne→== curr null (omega arith),
        block_size-eq here.here,
        less-le here.size b_size big' (omega (arith, here.here.hi, here.here.top)),
      )

  round_small :
      (fuel curr : ℕ)
      → IsFree s bs curr
      → clear_low (read_long s.mem curr) < b_size
      → search_free (suc fuel) b_size curr s ≡ (
          if flink s.mem curr == s.flist_first
          then ok null s
          else search_free fuel b_size (flink s.mem curr) s)
  unfolding search_free
  round_small fuel curr free small =
      let here = IsFree-here sound curr free in
      let pos = (IsFree-small sound curr free).0 in
      let small' : here.size < b_size = omega (arith, header_size here) in
      rw
        (
          ne→== curr null (omega arith),
          block_size-eq here.here,
          less-lt here.size b_size small' room,
          block_flink-eq here,
        )
        (split (flink s.mem curr == s.flist_first))
    where
      split :
          (b : Bool)
          → (if b then pure null else search_free fuel b_size (flink s.mem curr)) s
            ≡ (if b then ok null s else search_free fuel b_size (flink s.mem curr) s)
      split true = refl
      split false = refl

  -- The round after a block that is too small: the end of the circle, or the next block.
  turn_end :
      (fuel curr : ℕ)
      → flink s.mem curr ≡ s.flist_first
      → (if flink s.mem curr == s.flist_first
          then ok null s
          else search_free fuel b_size (flink s.mem curr) s)
        ≡ ok null s
  turn_end fuel curr e = rw (eq→== (flink s.mem curr) s.flist_first e)

  turn_on :
      (fuel curr b : ℕ) (rest : List ℕ)
      → flink s.mem curr ≡ b
      → count s.flist_first (b ∷ rest) ≡ 0
      → (if flink s.mem curr == s.flist_first
          then ok null s
          else search_free fuel b_size (flink s.mem curr) s)
        ≡ search_free fuel b_size b s
  turn_on fuel curr b rest e once =
      let ne : flink s.mem curr ≢ s.flist_first = λ h. absurd (
        omega (
          arith,
          once,
          subst (λ t. 0 < count t (b ∷ rest)) (sym e ∙ h) (omega (arith, count_self b rest)),
        )) in
      rw (ne→== (flink s.mem curr) s.flist_first ne) (ap (λ t. search_free fuel b_size t s) e)

  search_empty :
      (fuel : ℕ)
      → s.flist_first ≡ null
      → search_free (suc fuel) b_size s.flist_first s ≡ ok (first_fit s.mem b_size []) s
  unfolding search_free first_fit
  search_empty fuel e = rw (eq→== s.flist_first null e)

  search_from :
      (fuel curr : ℕ) (rest : List ℕ)
      → length rest < fuel
      → ((x : ℕ) → 0 < count x (curr ∷ rest) → IsFree s bs x)
      → count s.flist_first rest ≡ 0
      → Seg s.mem curr rest s.flist_first
      → search_free fuel b_size curr s ≡ ok (first_fit s.mem b_size (curr ∷ rest)) s
  search_from zero curr rest enough all once links = absurd (omega arith)
  search_from (suc fuel) curr [] enough all once links =
      let free = all curr (omega (arith, count_self curr [])) in
      elim (lt-cases (clear_low (read_long s.mem curr)) b_size) [
        | inl small ↦
            round_small fuel curr free small
            ∙ turn_end fuel curr links.0
            ∙ ap (λ t. ok t s)
                (sym (first_fit-cons_small s.mem b_size curr [] small ∙ first_fit-nil s.mem b_size))
        | inr big ↦
            round_fits fuel curr free big
            ∙ ap (λ t. ok t s) (sym (first_fit-cons_fits s.mem b_size curr [] big))
      ]
  search_from (suc fuel) curr (b ∷ rest) enough all once links =
      let free = all curr (omega (arith, count_self curr (b ∷ rest))) in
      elim (lt-cases (clear_low (read_long s.mem curr)) b_size) [
        | inl small ↦
            round_small fuel curr free small
            ∙ turn_on fuel curr b rest links.0 once
            ∙ search_from fuel b rest (omega arith) (λ x i. all x (omega arith))
                (omega (arith, once)) links.2
            ∙ ap (λ t. ok t s) (sym (first_fit-cons_small s.mem b_size curr (b ∷ rest) small))
        | inr big ↦
            round_fits fuel curr free big
            ∙ ap (λ t. ok t s) (sym (first_fit-cons_fits s.mem b_size curr (b ∷ rest) big))
      ]

  search_ring :
      (fuel : ℕ) (ring : List ℕ)
      → length ring ≤ fuel
      → 0 < fuel
      → SameItems ring (frees s.mem_start_brk bs)
      → IsRing s.mem s.flist_first ring
      → search_free fuel b_size s.flist_first s ≡ ok (first_fit s.mem b_size ring) s
  search_ring zero ring enough pos same is = absurd (omega arith)
  search_ring (suc fuel) [] enough pos same is = search_empty fuel is
  search_ring (suc fuel) (r ∷ rs) enough pos same is =
      let first = s.flist_first in
      let same' = subst (λ t. SameItems (t ∷ rs) (frees s.mem_start_brk bs)) (sym is.0) same in
      let links = subst (λ t. Seg s.mem t rs t) (sym is.0) is.1 in
      search_from (suc fuel) first rs (omega arith) (λ x i. omega (arith, same' x))
        (omega (arith, same' first, count_self first rs, frees-once first sound.heap)) links
      ∙ ap (λ t. ok (first_fit s.mem b_size (t ∷ rs)) s) is.0

-- On a sound heap that is not empty and whose free blocks are those of the list, and for a size below
-- 2 ^ 63, the search ends within as many rounds as
-- the heap has bytes, changes nothing, and returns the first block of the list with room.
pub search_free_lem :
    {s : State} {bs : Blocks} (sound : Sound s bs) (b_size : ℕ)
    → b_size < 2 ^ 63
    → 0 < span bs
    → (free : FreeRing s.mem s.flist_first (frees s.mem_start_brk bs))
    → search_free (mem_heapsize s) b_size s.flist_first s ≡ ok (first_fit s.mem b_size free.ring) s
unfolding mem_heapsize
search_free_lem {s} {bs} sound b_size room pos free =
    let few : length free.ring ≤ span bs =
      let a =
        length_le_of_count_le free.ring (frees s.mem_start_brk bs)
          (λ x. omega (arith, free.same x)) in
      omega (arith, length-frees sound.heap) in
    search_ring sound b_size room (s.mem_brk - s.mem_start_brk) free.ring
      (omega (arith, Heap-end sound.heap)) (omega (arith, Heap-end sound.heap)) free.same
      free.is_ring

-- No block of the list has room and the result is NULL, or it is a block of the list that has.
abbrev pub Fits : Mem → (b_size : ℕ) → List ℕ → ℕ → Type 0
Fits m b_size xs v =
    ((v ≡ null) × ((x : ℕ) → 0 < count x xs → clear_low (read_long m x) < b_size))
    ⊎ ((0 < count v xs) × (b_size ≤ clear_low (read_long m v)))

pub first_fit-Fits : (m : Mem) (b_size : ℕ) (xs : List ℕ) → Fits m b_size xs (first_fit m b_size xs)
unfolding first_fit
first_fit-Fits m b_size [] = inl (refl, λ x i. absurd (omega arith))
first_fit-Fits m b_size (x ∷ xs) = elim (lt-cases (clear_low (read_long m x)) b_size) [
  | inl small ↦
      subst (Fits m b_size (x ∷ xs)) (sym (first_fit-cons_small m b_size x xs small))
        (later small (first_fit-Fits m b_size xs))
  | inr big ↦
      subst (Fits m b_size (x ∷ xs)) (sym (first_fit-cons_fits m b_size x xs big))
        (inr (omega (arith, count_self x xs), big))
]
  where
    later :
        clear_low (read_long m x) < b_size
        → Fits m b_size xs (first_fit m b_size xs)
        → Fits m b_size (x ∷ xs) (first_fit m b_size xs)
    later small (inl nothing) = inl (
      nothing.0,
      λ y i. elim (==-cases y x) [
        | inl here ↦ subst (λ t. clear_low (read_long m t) < b_size) (sym here.0) small
        | inr there ↦ nothing.1 y (omega (arith, count-ne y x xs there.0))
      ],
    )
    later small (inr found) = inr (omega (arith, found.0), found.1)
