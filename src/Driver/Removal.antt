-- ===== src/Driver/Removal.antt =====
-- `remove_range` of mdriver.c on a list of ranges that are apart.
use cs0330_fall2022_7_malloc.Base.{
  ℕ, ◌≤◌, ◌≡◌, ◌≢◌, refl, subst, ap, List, [], ◌∷◌, ◌++◌, ◌⊎◌, inl, inr, arith, ==-cases,
}
use cs0330_fall2022_7_malloc.Driver.{Range, remove_range}
use cs0330_fall2022_7_malloc.Driver.Ranges.{ApartFrom, AllApart}

-- Every range has a byte.
abbrev pub AllFilled : List Range → Type 0
AllFilled [] = Unit {0}
AllFilled (p ∷ rest) = (p.lo ≤ p.hi) × AllFilled rest

-- No range starts at the address.
abbrev pub NoneAt : ℕ → List Range → Type 0
NoneAt lo [] = Unit {0}
NoneAt lo (p ∷ rest) = (p.lo ≢ lo) × NoneAt lo rest

apart_starts :
    (p : Range) (rest : List Range)
    → p.lo ≤ p.hi
    → AllFilled rest
    → ApartFrom p rest
    → NoneAt p.lo rest
apart_starts p [] filled rest_filled apart = tt
apart_starts p (x ∷ rest) filled (x_filled, rest_filled) (here, apart) =
    (λ same. ground (arith, here, same), apart_starts p rest filled rest_filled apart)

ApartFrom-without :
    (a : Range) (xs : List Range) (p : Range) (ys : List Range)
    → ApartFrom a (xs ++ (p ∷ ys))
    → ApartFrom a (xs ++ ys)
ApartFrom-without a [] p ys h = h.1
ApartFrom-without a (x ∷ xs) p ys h = (h.0, ApartFrom-without a xs p ys h.1)

-- The run takes one range out, or there is none that starts at the address.
abbrev pub Removes : List Range → (lo : ℕ) → Type 0
Removes ranges lo =
    ((xs : List Range) × (p : Range) × (ys : List Range) × (ranges ≡ xs ++ (p ∷ ys))
      × (p.lo ≡ lo)
      × (remove_range ranges lo ≡ xs ++ ys)
      × AllApart (xs ++ ys)
      × NoneAt lo (xs ++ ys))
    ⊎ (NoneAt lo ranges × (remove_range ranges lo ≡ ranges))

-- On ranges that have a byte each and are apart two by two, `remove_range` takes out the one that
-- starts at the address, where there is one, and leaves the others in their order: they are apart, and
-- none of them starts there. Where there is none, it changes nothing.
pub remove_range_lem :
    (ranges : List Range) (lo : ℕ) → AllFilled ranges → AllApart ranges → Removes ranges lo
unfolding remove_range
remove_range_lem [] lo filled apart = inr (tt, refl)
remove_range_lem (p ∷ rest) lo (p_filled, filled) (from, apart) = elim (==-cases p.lo lo) [
  | inl (here, test) ↦ inl (
    [],
    p,
    rest,
    refl,
    here,
    rw test refl,
    apart,
    subst (λ a. NoneAt a rest) here (apart_starts p rest p_filled filled from),
  )
  | inr (ne, test) ↦ elim (remove_range_lem rest lo filled apart) [
    | inl (xs, q, ys, cut, at, run, left, none) ↦ inl (
      p ∷ xs,
      q,
      ys,
      ap (λ l. p ∷ l) cut,
      at,
      rw test (ap (λ l. p ∷ l) run),
      (ApartFrom-without p xs q ys (subst (ApartFrom p) cut from), left),
      (ne, none),
    )
    | inr (none, run) ↦ inr ((ne, none), rw test (ap (λ l. p ∷ l) run))
  ]
]
