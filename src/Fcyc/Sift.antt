-- ===== src/Fcyc/Sift.antt =====
-- The insertion sort of `add_sample`: its result is sorted, starts with the least value, and holds
-- only values that were there.
use cs0330_fall2022_7_malloc.Base.{
  ℕ, zero, suc, ◌+◌, ◌-◌, ◌≤◌, ◌<◌, ◌≡◌, refl, sym, subst, ap, Bool, true, false, arith, ◌∙◌, inl,
  inr, lt-cases, ==-cases, Bool-cases, eq→==, ne→==,
}
use cs0330_fall2022_7_malloc.Fcyc.{Doubles, swap_values, sift}

module _ {A : Type 0} (d : Doubles A) where
  -- `a <= b`
  abbrev pub AtMost : A → A → Type 0
  AtMost a b = d.less b a ≡ false

  pub AtMost-refl : (a : A) → AtMost a a
  AtMost-refl a = either (d.less a a) refl
    where
      either : (c : Bool) → d.less a a ≡ c → d.less a a ≡ false
      either true e = d.less-asym a a e
      either false e = e

  -- The first `n` values are sorted.
  abbrev pub Sorted : (n : ℕ) → (ℕ → A) → Type 0
  Sorted n vs = (i : ℕ) → i + 1 < n → AtMost (vs i) (vs (i + 1))

  pub Sorted-le :
      (n : ℕ) (vs : ℕ → A) → Sorted n vs → (i j : ℕ) → i + j < n → AtMost (vs i) (vs (i + j))
  Sorted-le n vs h i zero lt = subst (λ t. AtMost (vs i) (vs t)) (omega arith) (AtMost-refl (vs i))
  Sorted-le n vs h i (suc j) lt =
      d.less-cotrans (vs i) (vs (i + j)) (vs (i + suc j)) (Sorted-le n vs h i j (omega arith))
        (subst (λ t. AtMost (vs (i + j)) (vs t)) (omega arith) (h (i + j) (omega arith)))

  swap_at : (vs : ℕ → A) (p : ℕ) → swap_values d vs p p ≡ vs (p + 1)
  swap_at vs p = rw (ne→== p (p + 1) (omega arith), eq→== p p refl) refl

  swap_above : (vs : ℕ → A) (p : ℕ) → swap_values d vs p (p + 1) ≡ vs p
  swap_above vs p = rw (eq→== (p + 1) (p + 1) refl) refl

  swap_below : (vs : ℕ → A) (p i : ℕ) → i < p → swap_values d vs p i ≡ vs i
  swap_below vs p i lt = rw (ne→== i (p + 1) (omega arith), ne→== i p (omega arith)) refl

  swap_beyond : (vs : ℕ → A) (p i : ℕ) → p + 1 < i → swap_values d vs p i ≡ vs i
  swap_beyond vs p i lt = rw (ne→== i (p + 1) (omega arith), ne→== i p (omega arith)) refl

  sift_swaps :
      (p : ℕ) (vs : ℕ → A)
      → d.less (vs (p + 1)) (vs p) ≡ true
      → sift d (suc p) vs ≡ sift d p (swap_values d vs p)
  unfolding sift
  sift_swaps p vs e = rw e refl

  sift_stays : (p : ℕ) (vs : ℕ → A) → d.less (vs (p + 1)) (vs p) ≡ false → sift d (suc p) vs ≡ vs
  unfolding sift
  sift_stays p vs e = rw e refl

  -- What is above the slot is not touched.
  pub sift-above : (p : ℕ) (vs : ℕ → A) (i : ℕ) → p < i → sift d p vs i ≡ vs i
  unfolding sift
  sift-above zero vs i lt = refl
  sift-above (suc p) vs i lt = elim (Bool-cases (d.less (vs (p + 1)) (vs p))) [
    | inl e ↦
        ap (λ f. f i) (sift_swaps p vs e)
        ∙ sift-above p (swap_values d vs p) i (omega arith)
        ∙ swap_beyond vs p i (omega arith)
    | inr e ↦ ap (λ f. f i) (sift_stays p vs e)
  ]

  -- Every value of the result was there.
  pub sift-member :
      (p : ℕ) (vs : ℕ → A) (i : ℕ) → i ≤ p → (j : ℕ) × (j ≤ p) × (sift d p vs i ≡ vs j)
  unfolding sift
  sift-member zero vs i le = (i, le, refl)
  sift-member (suc p) vs i le = elim (Bool-cases (d.less (vs (p + 1)) (vs p))) [
    | inr e ↦ (i, le, ap (λ f. f i) (sift_stays p vs e))
    | inl e ↦ elim (lt-cases p i) [
      | inl last ↦ (
        p,
        omega arith,
        ap (λ f. f i) (sift_swaps p vs e)
            ∙ sift-above p (swap_values d vs p) i last
            ∙ ap (swap_values d vs p) (omega arith)
            ∙ swap_above vs p,
      )
      | inr lower ↦
          let (j, le', same) = sift-member p (swap_values d vs p) i lower in
          let run = ap (λ f. f i) (sift_swaps p vs e) ∙ same in
          elim (==-cases j p) [
            | inl here ↦ (p + 1, omega arith, run ∙ ap (swap_values d vs p) here.0 ∙ swap_at vs p)
            | inr other ↦
                (j, omega (arith, le'), run ∙ swap_below vs p j (omega (arith, le', other.0)))
          ]
    ]
  ]

  sift_bound :
      (p : ℕ) (vs : ℕ → A) (b : A)
      → ((i : ℕ) → i ≤ p → AtMost (vs i) b)
      → (i : ℕ) → i ≤ p
      → AtMost (sift d p vs i) b
  sift_bound p vs b h i le =
      let (j, le', same) = sift-member p vs i le in subst (λ t. AtMost t b) (sym same) (h j le')

  -- After a swap, what is below is still sorted, and at most the value that went up.
  swap_Sorted : (p : ℕ) (vs : ℕ → A) → Sorted (p + 1) vs → Sorted p (swap_values d vs p)
  swap_Sorted p vs h i lt =
      subst (λ t. AtMost t (swap_values d vs p (i + 1))) (sym (swap_below vs p i (omega arith)))
        (subst (AtMost (vs i)) (sym (swap_below vs p (i + 1) lt)) (h i (omega arith)))

  swap_bound :
      (p : ℕ) (vs : ℕ → A)
      → Sorted (p + 1) vs
      → d.less (vs (p + 1)) (vs p) ≡ true
      → (i : ℕ) → i ≤ p
      → AtMost (swap_values d vs p i) (vs p)
  swap_bound p vs h e i le = elim (==-cases i p) [
    | inl here ↦
        subst (λ t. AtMost t (vs p)) (sym (ap (swap_values d vs p) here.0 ∙ swap_at vs p))
          (d.less-asym (vs (p + 1)) (vs p) e)
    | inr other ↦
        subst (λ t. AtMost t (vs p)) (sym (swap_below vs p i (omega (arith, other.0))))
          (subst (λ t. AtMost (vs i) (vs t)) (omega arith)
            (Sorted-le (p + 1) vs h i (p - i) (omega arith)))
  ]

  pub sift-Sorted : (p : ℕ) (vs : ℕ → A) → Sorted p vs → Sorted (p + 1) (sift d p vs)
  sift-Sorted zero vs h i lt = absurd (omega arith)
  sift-Sorted (suc p) vs h i lt = elim (Bool-cases (d.less (vs (p + 1)) (vs p))) [
    | inr e ↦
        subst (λ f. AtMost (f i) (f (i + 1))) (sym (sift_stays p vs e))
          (elim (lt-cases i p) [
            | inl lower ↦ h i (omega arith)
            | inr last ↦
                let at : p ≡ i = omega arith in subst (λ t. AtMost (vs t) (vs (t + 1))) at e
          ])
    | inl e ↦
        let vs' = swap_values d vs p in
        let h' : Sorted (p + 1) vs = λ j lt'. h j (omega arith) in
        subst (λ f. AtMost (f i) (f (i + 1))) (sym (sift_swaps p vs e))
          (elim (lt-cases i p) [
            | inl lower ↦ sift-Sorted p vs' (swap_Sorted p vs h') i (omega arith)
            | inr last ↦
                subst (AtMost (sift d p vs' i))
                  (sym (
                    sift-above p vs' (i + 1) (omega arith)
                    ∙ ap (λ t. vs' (t + 1)) (omega arith)
                    ∙ swap_above vs p))
                  (sift_bound p vs' (vs p) (swap_bound p vs h' e) i (omega arith))
          ])
  ]

  -- The first value of the result is the least.
  pub sift-least :
      (p : ℕ) (vs : ℕ → A) → Sorted p vs → (i : ℕ) → i ≤ p → AtMost (sift d p vs 0) (vs i)
  unfolding sift
  sift-least zero vs h i le = subst (λ t. AtMost (vs 0) (vs t)) (omega arith) (AtMost-refl (vs 0))
  sift-least (suc p) vs h i le = elim (Bool-cases (d.less (vs (p + 1)) (vs p))) [
    | inr e ↦
        subst (λ f. AtMost (f 0) (vs i)) (sym (sift_stays p vs e))
          (subst (λ t. AtMost (vs 0) (vs t)) (omega arith)
            (Sorted-le (p + 2) vs
              (λ j lt'. elim (lt-cases j p) [
                | inl lower ↦ h j (omega arith)
                | inr last ↦
                    let at : p ≡ j = omega arith in subst (λ t. AtMost (vs t) (vs (t + 1))) at e
              ])
              0 i (omega arith)))
    | inl e ↦
        let vs' = swap_values d vs p in
        let h' : Sorted (p + 1) vs = λ j lt'. h j (omega arith) in
        let first : (j : ℕ) → j ≤ p → AtMost (sift d p vs' 0) (vs' j) =
          sift-least p vs' (swap_Sorted p vs h') in
        let top : AtMost (sift d p vs' 0) (vs (p + 1)) =
          subst (AtMost (sift d p vs' 0)) (swap_at vs p) (first p (omega arith)) in
        subst (λ f. AtMost (f 0) (vs i)) (sym (sift_swaps p vs e))
          (elim (lt-cases i p) [
            | inl lower ↦
                subst (AtMost (sift d p vs' 0)) (swap_below vs p i lower) (first i (omega arith))
            | inr upper ↦ elim (==-cases i p) [
              | inl here ↦
                  subst (λ t. AtMost (sift d p vs' 0) (vs t)) (sym here.0)
                    (d.less-cotrans (sift d p vs' 0) (vs (p + 1)) (vs p) top
                      (d.less-asym (vs (p + 1)) (vs p) e))
              | inr other ↦ subst (λ t. AtMost (sift d p vs' 0) (vs t)) (omega (arith, other.0)) top
            ]
          ])
  ]
