-- ===== src/Driver/Ranges.antt =====
-- The range list of mdriver.c: what `add_range` accepts, and what it keeps.
use cs0330_fall2022_7_malloc.Base.{
  ℕ, ◌+◌, ◌-◌, ◌%◌, ◌^◌, ◌≤◌, ◌<◌, ◌≡◌, refl, Bool, true, false, not, ◌&&◌, ◌==◌, if◌then◌else◌,
  List, [], ◌∷◌, none, some, arith, ◌∙◌, ◌⊎◌, inl, inr, ne→==, eq→==, lt→ltb, ◌≢◌, ap, ◌++◌,
  lt-cases, Bool-cases,
}
use cs0330_fall2022_7_malloc.Machine.{State, ok, add, sub}
use cs0330_fall2022_7_malloc.Machine.Words.{less-lt}
use cs0330_fall2022_7_malloc.Memlib.{mem_heap_lo, mem_heap_hi}
use cs0330_fall2022_7_malloc.Driver.{
  Range, overlaps, overlaps_any, in_extent, add_range, remove_range, to_long,
}

-- No byte belongs to both.
abbrev pub Apart : Range → Range → Type 0
Apart a b = (a.hi < b.lo) ⊎ (b.hi < a.lo)

abbrev pub ApartFrom : Range → List Range → Type 0
ApartFrom a [] = Unit {0}
ApartFrom a (b ∷ rest) = Apart a b × ApartFrom a rest

-- The ranges of the list are apart, two by two.
abbrev pub AllApart : List Range → Type 0
AllApart [] = Unit {0}
AllApart (a ∷ rest) = ApartFrom a rest × AllApart rest

-- No range of the list lies strictly between two addresses.
abbrev pub NoneInside : (lo hi : ℕ) → List Range → Type 0
NoneInside lo hi [] = Unit {0}
NoneInside lo hi (p ∷ rest) = ((p.lo ≤ lo) ⊎ (hi ≤ p.hi)) × NoneInside lo hi rest

accepted_apart :
    (lo hi : ℕ) (ranges : List Range)
    → lo ≤ hi
    → overlaps_any lo hi ranges ≡ false
    → NoneInside lo hi ranges
    → ApartFrom (record { lo = lo; hi = hi }) ranges
accepted_apart lo hi [] order clear out = tt
accepted_apart lo hi (p ∷ rest) order clear out =
    (ground (arith, out.0), accepted_apart lo hi rest order (ground arith) out.1)

-- A range of the list has a byte between the two addresses.
abbrev pub Meets : (lo hi : ℕ) → List Range → Type 0
Meets lo hi ranges =
    (xs : List Range) × (p : Range) × (ys : List Range) × (ranges ≡ xs ++ (p ∷ ys))
    × (p.lo ≤ hi)
    × (lo ≤ p.hi)

refused-Meets :
    (lo hi : ℕ) (ranges : List Range)
    → lo ≤ hi
    → overlaps_any lo hi ranges ≡ true
    → Meets lo hi ranges
refused-Meets lo hi [] order e = absurd (differ e)
  where
    differ : false ≡ true → ⊥
    differ e = cc
refused-Meets lo hi (p ∷ rest) order e = elim (Bool-cases (overlaps lo hi p)) [
  | inl here ↦ ([], p, rest, refl, ground (arith, here), ground (arith, here))
  | inr other ↦
      let (xs, q, ys, cut, low, high) = refused-Meets lo hi rest order (ground (arith, other)) in
      (p ∷ xs, q, ys, ap (λ l. p ∷ l) cut, low, high)
]

-- Why `add_range` refuses a payload.
abbrev pub Unfit : State → (lo hi : ℕ) → List Range → Type 0
Unfit s lo hi ranges =
    (lo % 8 ≢ 0) ⊎ (lo < mem_heap_lo s) ⊎ (mem_heap_hi s < hi) ⊎ Meets lo hi ranges

module _ (s : State) (lo size : ℕ) (pos : 0 < size) (int : size < 2 ^ 31)
    (ptr : lo + size < 2 ^ 64) where
  abbrev hi : ℕ
  hi = lo + size - 1

  -- `add_range` at a positive `int`, with its pointers that do not wrap.
  pub add_range-eq :
      (ranges : List Range)
      → add_range ranges lo size s
        ≡ ok
            (if not (lo % 8 == 0)
              then none
              else if not (in_extent s lo && in_extent s hi)
              then none
              else if overlaps_any lo hi ranges
              then none
              else some (record { lo = lo; hi = hi } ∷ ranges))
            s
  unfolding add_range
  add_range-eq ranges =
      let long : to_long size ≡ size = rw (lt→ltb size (2 ^ 31) int) refl in
      let end : sub (add lo size) 1 ≡ lo + size - 1 = omega arith in
      rw (ne→== size 0 (omega arith), long, less-lt 0 size pos (omega arith), end) refl

  -- On a list of ranges that are apart, of which none lies strictly inside the new payload, at a
  -- positive size below 2 ^ 31 and an address from which it does not wrap: `add_range` either returns
  -- 0, and the payload is not aligned, not in the heap, or has a byte in a range of the list; or it
  -- puts the payload in front of the list: then it is aligned, lies in the heap, and is apart from all
  -- others, and `remove_range` at its address gives the old list again.
  pub add_range_lem :
      (ranges : List Range)
      → AllApart ranges
      → NoneInside lo (lo + size - 1) ranges
      → ((add_range ranges lo size s ≡ ok none s) × Unfit s lo (lo + size - 1) ranges)
        ⊎ ((after : List Range) × (add_range ranges lo size s ≡ ok (some after) s)
            × (lo % 8 ≡ 0)
            × (mem_heap_lo s ≤ lo)
            × (lo + size - 1 ≤ mem_heap_hi s)
            × AllApart after
            × (remove_range after lo ≡ ranges))
  unfolding remove_range
  add_range_lem ranges apart out =
      tests (lo % 8 == 0) (in_extent s lo && in_extent s hi) (overlaps_any lo hi ranges) refl refl
        refl
    where
      outside :
          (in_extent s lo && in_extent s hi) ≡ false
          → (lo < mem_heap_lo s) ⊎ (mem_heap_hi s < hi) ⊎ Meets lo hi ranges
      outside e = elim (lt-cases lo (mem_heap_lo s)) [
        | inl low ↦ inl low
        | inr ok_low ↦ inr (inl (ground (arith, e, ok_low)))
      ]

      tests :
          (a b c : Bool)
          → (lo % 8 == 0) ≡ a
          → (in_extent s lo && in_extent s hi) ≡ b
          → overlaps_any lo hi ranges ≡ c
          → ((add_range ranges lo size s ≡ ok none s) × Unfit s lo (lo + size - 1) ranges)
            ⊎ ((after : List Range) × (add_range ranges lo size s ≡ ok (some after) s)
                × (lo % 8 ≡ 0)
                × (mem_heap_lo s ≤ lo)
                × (lo + size - 1 ≤ mem_heap_hi s)
                × AllApart after
                × (remove_range after lo ≡ ranges))
      tests false b c ea eb ec =
          inl (add_range-eq ranges ∙ rw ea refl, inl (λ e. ground (arith, ea, e)))
      tests true false c ea eb ec = inl (add_range-eq ranges ∙ rw (ea, eb) refl, inr (outside eb))
      tests true true true ea eb ec = inl (
        add_range-eq ranges ∙ rw (ea, eb, ec) refl,
        inr (inr (inr (refused-Meets lo hi ranges (omega arith) ec))),
      )
      tests true true false ea eb ec = inr (
        record { lo = lo; hi = hi } ∷ ranges,
        add_range-eq ranges ∙ rw (ea, eb, ec) refl,
        ground (arith, ea),
        ground (arith, eb),
        ground (arith, eb),
        (accepted_apart lo hi ranges (omega arith) ec out, apart),
        rw (eq→== lo lo refl) refl,
      )

  -- `add_range` accepts an aligned payload of the heap, of positive size, in which another one lies strictly inside, although the two
  -- overlap: neither end of the new payload is in the old one.
  pub add_range_misses :
      (p : Range)
      → lo % 8 ≡ 0
      → mem_heap_lo s ≤ lo
      → lo + size - 1 ≤ mem_heap_hi s
      → lo < p.lo
      → p.hi < lo + size - 1
      → add_range (p ∷ []) lo size s
        ≡ ok (some (record { lo = lo; hi = lo + size - 1 } ∷ (p ∷ []))) s
  add_range_misses p aligned low high before after =
      let a : (lo % 8 == 0) ≡ true = eq→== (lo % 8) 0 aligned in
      let b : (in_extent s lo && in_extent s (lo + size - 1)) ≡ true = ground arith in
      let c : overlaps_any lo (lo + size - 1) (p ∷ []) ≡ false = ground arith in
      add_range-eq (p ∷ []) ∙ rw (a, b, c) refl
