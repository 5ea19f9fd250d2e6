-- ===== src/Mm/Abstract/Find.antt =====
-- Where a block that was given out stands in the layout, and in two halves of a list.
use cs0330_fall2022_7_malloc.Base.{
  ℕ, ◌+◌, ◌≡◌, ◌≢◌, refl, sym, ap, List, [], ◌∷◌, ◌++◌, Bool, true, false, arith, ◌∙◌, ◌==◌,
  ==-cases, inl, inr, ◌⊎◌,
}
use cs0330_fall2022_7_malloc.Layout.{Blocks, span}
use cs0330_fall2022_7_malloc.Mm.Inv.{allocs}

-- The block stands in the layout, with the others before and after it.
abbrev pub Found : (p q n : ℕ) → Blocks → List (ℕ × ℕ) → List (ℕ × ℕ) → Type 0
Found p q n bs before after =
    (us : Blocks) × (vs : Blocks) × (bs ≡ us ++ ((n, true) ∷ vs))
    × (q ≡ p + span us)
    × (allocs p us ≡ before)
    × (allocs (p + span us + n) vs ≡ after)
    × (n ≢ 16)

Found-shift :
    (p q n m : ℕ) (f : Bool) (bs : Blocks) (before before' after : List (ℕ × ℕ))
    → ((us : Blocks) → allocs (p + m) us ≡ before → allocs p ((m, f) ∷ us) ≡ before')
    → Found (p + m) q n bs before after
    → Found p q n ((m, f) ∷ bs) before' after
Found-shift p q n m f bs before before' after front (us, vs, e, at, b, a, big) =
    let shift : p + (m + span us) + n ≡ p + m + span us + n = omega arith in
    (
      (m, f) ∷ us,
      vs,
      ap (λ t. (m, f) ∷ t) e,
      omega arith,
      front us b,
      ap (λ t. allocs t vs) shift ∙ a,
      big,
    )

pub allocs_find :
    (p q n : ℕ) (bs : Blocks) (before after : List (ℕ × ℕ))
    → allocs p bs ≡ before ++ ((q, n) ∷ after)
    → Found p q n bs before after
allocs_find p q n [] [] after e = absurd (nil_cons e)
  where
    nil_cons : ◌≡◌ {A = List (ℕ × ℕ)} [] ((q, n) ∷ after) → ⊥
    nil_cons e = cc
allocs_find p q n [] (b ∷ before) after e = absurd (nil_cons e)
  where
    nil_cons : ◌≡◌ {A = List (ℕ × ℕ)} [] (b ∷ (before ++ ((q, n) ∷ after))) → ⊥
    nil_cons e = cc
allocs_find p q n ((m, false) ∷ bs) before after e =
    Found-shift p q n m false bs before before after (λ us h. h)
      (allocs_find (p + m) q n bs before after e)
allocs_find p q n ((m, true) ∷ bs) [] after e = elim (==-cases m 16) [
  | inl tag ↦
      let test : (m == 16) ≡ true = tag.1 in
      Found-shift p q n m true bs [] [] after (λ us h. rw test h)
        (allocs_find (p + m) q n bs [] after (sym (rw test refl) ∙ e))
  | inr big ↦ let test : (m == 16) ≡ false = big.1 in here big.0 (sym (rw test refl) ∙ e)
]
  where
    here :
        m ≢ 16
        → ((p, m) ∷ allocs (p + m) bs) ≡ ((q, n) ∷ after)
        → Found p q n ((m, true) ∷ bs) [] after
    here big e =
        let at : p ≡ q = cc in
        let size : m ≡ n = cc in
        let rest : allocs (p + m) bs ≡ after = cc in
        let shift : p + 0 + n ≡ p + m = omega arith in
        (
          [],
          bs,
          ap (λ t. (t, true) ∷ bs) size,
          omega arith,
          refl,
          ap (λ t. allocs t bs) shift ∙ rest,
          λ e'. big (size ∙ e'),
        )
allocs_find p q n ((m, true) ∷ bs) (b ∷ before) after e = elim (==-cases m 16) [
  | inl tag ↦
      let test : (m == 16) ≡ true = tag.1 in
      Found-shift p q n m true bs (b ∷ before) (b ∷ before) after (λ us h. rw test h)
        (allocs_find (p + m) q n bs (b ∷ before) after (sym (rw test refl) ∙ e))
  | inr big ↦
      let test : (m == 16) ≡ false = big.1 in
      let e' : ((p, m) ∷ allocs (p + m) bs) ≡ (b ∷ (before ++ ((q, n) ∷ after))) =
        sym (rw test refl) ∙ e in
      let rest : allocs (p + m) bs ≡ before ++ ((q, n) ∷ after) = cc in
      let first : (p, m) ≡ b = cc in
      Found-shift p q n m true bs before (b ∷ before) after
        (λ us h. rw test (ap (λ t. (p, m) ∷ t) h ∙ ap (λ t. t ∷ before) first))
        (allocs_find (p + m) q n bs before after rest)
]

-- An element that stands in two joined lists stands in one of them.
pub split_join :
    (b : ℕ × ℕ) (xs ys before after : List (ℕ × ℕ))
    → xs ++ ys ≡ before ++ (b ∷ after)
    → ((mid : List (ℕ × ℕ)) × (xs ≡ before ++ (b ∷ mid)) × (after ≡ mid ++ ys))
      ⊎ ((mid : List (ℕ × ℕ)) × (before ≡ xs ++ mid) × (ys ≡ mid ++ (b ∷ after)))
split_join b [] ys before after e = inr (before, refl, e)
split_join b (x ∷ xs) ys [] after e =
    let first : x ≡ b = cc in
    let rest : xs ++ ys ≡ after = cc in inl (xs, ap (λ t. t ∷ xs) first, sym rest)
split_join b (x ∷ xs) ys (c ∷ before) after e =
    let first : x ≡ c = cc in
    let rest : xs ++ ys ≡ before ++ (b ∷ after) = cc in
    elim (split_join b xs ys before after rest) [
      | inl (mid, e₁, e₂) ↦
          inl (mid, ap (λ t. x ∷ t) e₁ ∙ ap (λ t. t ∷ (before ++ (b ∷ mid))) first, e₂)
      | inr (mid, e₁, e₂) ↦
          inr (mid, ap (λ t. c ∷ t) e₁ ∙ ap (λ t. t ∷ (xs ++ mid)) (sym first), e₂)
    ]
