-- ===== src/Fcyc/Best.antt =====
-- The kept samples of fcyc.c are the best of all samples so far, and one more sample keeps that.
use cs0330_fall2022_7_malloc.Base.{
  ℕ, ◌+◌, ◌-◌, ◌≤◌, ◌<◌, ◌≡◌, refl, sym, subst, ap, true, ltb, if◌then◌else◌, arith, ◌∙◌, ◌⊎◌, inl,
  inr, lt-cases, ==-cases, eq→==, ne→==,
}
use cs0330_fall2022_7_malloc.Fcyc.{Doubles, set_value, sift}
use cs0330_fall2022_7_malloc.Fcyc.Sift.{
  AtMost, Sorted, Sorted-le, sift-Sorted, sift-least, sift-member,
}

-- How many of `n` samples are kept.
abbrev pub kept : (n k : ℕ) → ℕ
kept n k = if ltb n k then n else k

module _ {A : Type 0} (d : Doubles A) (k : ℕ) (cycles : ℕ → A) (pos_k : 0 < k) where
  -- The values after the first `n` samples.
  pub record Best (n : ℕ) (vs : ℕ → A) : Type 0 where
    pub sorted : Sorted d (kept n k) vs
    pub member : (i : ℕ) → i < kept n k → (j : ℕ) × (j < n) × (vs i ≡ cycles j)
    pub least : (j : ℕ) → j < n → AtMost d (vs 0) (cycles j)

  -- A sample is written at `p`: behind all values, or at the last place, if it is less.
  module _ (n p : ℕ) (vs : ℕ → A) (best : Best n vs) (fits : p + 1 ≡ kept (n + 1) k) (below : p ≤ n)
      (why : (p ≡ n) ⊎ ((p < n) × (d.less (cycles n) (vs p) ≡ true))) where
    abbrev pub new : ℕ → A
    new = set_value d vs p (cycles n)

    new_at : new p ≡ cycles n
    new_at = rw (eq→== p p refl) refl

    new_below : (i : ℕ) → i < p → new i ≡ vs i
    new_below i lt = rw (ne→== i p (omega arith)) refl

    few : p ≤ kept n k
    few = ground (arith, fits, why)

    new-Sorted : Sorted d p new
    new-Sorted i lt =
        subst (λ t. AtMost d t (new (i + 1))) (sym (new_below i (omega arith)))
          (subst (AtMost d (vs i)) (sym (new_below (i + 1) lt))
            (best.sorted i (omega (arith, few))))

    first : (i : ℕ) → i ≤ p → AtMost d (sift d p new 0) (new i)
    first = sift-least d p new new-Sorted

    first_new : AtMost d (sift d p new 0) (cycles n)
    first_new = subst (AtMost d (sift d p new 0)) new_at (first p (omega arith))

    first_old : 0 < n → AtMost d (sift d p new 0) (vs 0)
    first_old pos = elim (==-cases p 0) [
      | inr upper ↦
          subst (AtMost d (sift d p new 0)) (new_below 0 (omega (arith, upper.0)))
            (first 0 (omega arith))
      | inl lowest ↦ elim why [
        | inl end ↦ absurd (omega (arith, lowest.0, end))
        | inr less ↦ d.less-cotrans (sift d p new 0) (cycles n) (vs 0) first_new (
            d.less-asym (cycles n) (vs 0)
              (subst (λ t. d.less (cycles n) (vs t) ≡ true) lowest.0 less.1))
      ]
    ]

    pub placed : Best (n + 1) (sift d p new)
    placed = record {
      sorted = subst (λ t. Sorted d t (sift d p new)) fits (sift-Sorted d p new new-Sorted);
      member = λ i lt. from i (sift-member d p new i (omega (arith, fits)));
      least = λ j lt. elim (lt-cases j n) [
        | inl old ↦
            d.less-cotrans (sift d p new 0) (vs 0) (cycles j) (first_old (omega arith))
              (best.least j old)
        | inr last ↦ subst (λ t. AtMost d (sift d p new 0) (cycles t)) (omega arith) first_new
      ];
    }
      where
        from :
            (i : ℕ)
            → (j : ℕ) × (j ≤ p) × (sift d p new i ≡ new j)
            → (j : ℕ) × (j < n + 1) × (sift d p new i ≡ cycles j)
        from i (j, le, same) = elim (==-cases j p) [
          | inl here ↦ (n, omega arith, same ∙ ap new here.0 ∙ new_at)
          | inr other ↦
              let (j', lt, e) = best.member j (omega (arith, few, le, other.0)) in
              (j', omega (arith, lt), same ∙ new_below j (omega (arith, le, other.0)) ∙ e)
        ]

  -- The sample is passed over.
  pub passed :
      (n : ℕ) (vs : ℕ → A) → Best n vs → k ≤ n → AtMost d (vs (k - 1)) (cycles n) → Best (n + 1) vs
  passed n vs best full h =
      let same : kept n k ≡ kept (n + 1) k = ground arith in
      let all : kept n k ≡ k = ground arith in
      record {
        sorted = subst (λ t. Sorted d t vs) same best.sorted;
        member = λ i lt.
            let (j, lt', e) = best.member i (omega (arith, same)) in (j, omega (arith, lt'), e);
        least = λ j lt. elim (lt-cases j n) [
          | inl old ↦ best.least j old
          | inr last ↦
              subst (λ t. AtMost d (vs 0) (cycles t)) (omega arith)
                (d.less-cotrans (vs 0) (vs (k - 1)) (cycles n)
                  (subst (λ t. AtMost d (vs 0) (vs t)) (omega arith)
                    (Sorted-le d (kept n k) vs best.sorted 0 (k - 1) (omega (arith, all))))
                  h)
        ];
      }
