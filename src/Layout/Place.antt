-- ===== src/Layout/Place.antt =====
-- Where the free blocks of a layout stand: inside it, once each, and apart from one another.
use cs0330_fall2022_7_malloc.Base.{
  ℕ, ◌+◌, ◌≤◌, ◌<◌, ◌≡◌, refl, [], ◌∷◌, ◌++◌, true, false, ◌⊎◌, inl, inr, arith, ap, sym, subst,
  ◌∙◌, count, length, count-ne, ==-cases,
}
use cs0330_fall2022_7_malloc.Machine.{Mem}
use cs0330_fall2022_7_malloc.Layout.{
  Blocks, span, IsBlock, Heap, done, block, Heap-end, frees, link_byte,
}

-- Two blocks are one, or neither reaches into the first 32 bytes of the other.
abbrev pub Sep : ℕ → ℕ → Type 0
Sep q r = (q ≡ r) ⊎ ((q + 32 ≤ r) ⊎ (r + 32 ≤ q))

pub frees-append :
    (p : ℕ) (xs ys : Blocks) → frees p (xs ++ ys) ≡ frees p xs ++ frees (p + span xs) ys
frees-append p [] ys = ap (λ q. frees q ys) (omega arith)
frees-append p ((n, true) ∷ xs) ys =
    frees-append (p + n) xs ys ∙ ap (λ q. frees (p + n) xs ++ frees q ys) (omega arith)
frees-append p ((n, false) ∷ xs) ys =
    ap (λ t. p ∷ t)
      (frees-append (p + n) xs ys ∙ ap (λ q. frees (p + n) xs ++ frees q ys) (omega arith))

-- The bytes of the links of a free block.
pub link_byte-free :
    (q p : ℕ) (bs : Blocks) (a : ℕ)
    → 0 < count q (frees p bs)
    → q + 8 ≤ a
    → a < q + 24
    → link_byte p bs a ≡ true
link_byte-free q p [] a h lo hi = absurd (omega arith)
link_byte-free q p ((n, true) ∷ bs) a h lo hi = link_byte-free q (p + n) bs a h lo hi
link_byte-free q p ((n, false) ∷ bs) a h lo hi = ground (arith, link_byte-free q (p + n) bs a)

-- The layout is cut in two at a free block.
pub frees-split :
    (q p : ℕ) (bs : Blocks)
    → 0 < count q (frees p bs)
    → (xs : Blocks) × (n : ℕ) × (ys : Blocks) × (bs ≡ xs ++ ((n, false) ∷ ys)) × (q ≡ p + span xs)
frees-split q p [] h = absurd (omega arith)
frees-split q p ((n, true) ∷ bs) h =
    let (xs, k, ys, e, at) = frees-split q (p + n) bs h in
    ((n, true) ∷ xs, k, ys, ap (λ t. (n, true) ∷ t) e, omega arith)
frees-split q p ((n, false) ∷ bs) h = elim (==-cases q p) [
  | inl here ↦ ([], n, bs, refl, omega (arith, here.0))
  | inr there ↦
      let (xs, k, ys, e, at) =
        frees-split q (p + n) bs (omega (arith, count-ne q p (frees (p + n) bs) there.0)) in
      ((n, false) ∷ xs, k, ys, ap (λ t. (n, false) ∷ t) e, omega arith)
]

module _ {m : Mem} {e : ℕ} where
  -- No free block starts below the layout.
  pub frees-lower : (q : ℕ) {p : ℕ} {bs : Blocks} → Heap m e p bs → 0 < count q (frees p bs) → p ≤ q
  frees-lower q (done _) h = absurd (omega arith)
  frees-lower q (block {n} {f = true} b l r) h = omega (arith, frees-lower q r h)
  frees-lower q (block {p} {n} {f = false} {bs} b l r) h = elim (==-cases q p) [
    | inl here ↦ omega (arith, here.0)
    | inr there ↦
        omega (arith, frees-lower q r (omega (arith, count-ne q p (frees (p + n) bs) there.0)))
  ]

  -- A free block is a block of the layout.
  pub frees-block :
      (q : ℕ) {p : ℕ} {bs : Blocks}
      → Heap m e p bs
      → 0 < count q (frees p bs)
      → (n : ℕ) × IsBlock m q n false × (32 ≤ n) × (p ≤ q) × (q + n ≤ e)
  frees-block q (done _) h = absurd (omega arith)
  frees-block q (block {f = true} b l r) h =
      let (k, at, room, lo, hi) = frees-block q r h in (k, at, room, omega arith, hi)
  frees-block q (block {p} {n} {f = false} {bs} b l r) h = elim (==-cases q p) [
    | inl here ↦
        let end = Heap-end r in
        (
          n,
          subst (λ t. IsBlock m t n false) (sym here.0) b,
          omega arith,
          omega (arith, here.0),
          omega (arith, here.0),
        )
    | inr there ↦
        let (k, at, room, lo, hi) =
          frees-block q r (omega (arith, count-ne q p (frees (p + n) bs) there.0)) in
        (k, at, room, omega arith, hi)
  ]

  -- A free block is listed once.
  pub frees-once : (q : ℕ) {p : ℕ} {bs : Blocks} → Heap m e p bs → count q (frees p bs) ≤ 1
  frees-once q (done _) = omega arith
  frees-once q (block {f = true} b l r) = frees-once q r
  frees-once q (block {p} {n} {f = false} {bs} b l r) = elim (==-cases q p) [
    | inl here ↦ ground (arith, frees-lower q r, l)
    | inr there ↦ omega (arith, frees-once q r, count-ne q p (frees (p + n) bs) there.0)
  ]

  -- Two free blocks are apart.
  pub frees-Sep :
      (q t : ℕ) {p : ℕ} {bs : Blocks}
      → Heap m e p bs
      → 0 < count q (frees p bs)
      → 0 < count t (frees p bs)
      → Sep q t
  frees-Sep q t (done _) h k = absurd (omega arith)
  frees-Sep q t (block {f = true} b l r) h k = frees-Sep q t r h k
  frees-Sep q t (block {p} {n} {f = false} {bs} b l r) h k =
      let room = l in
      let below = frees-lower q r in
      let below' = frees-lower t r in
      elim (==-cases q p) [
        | inl here ↦ elim (==-cases t p) [
          | inl here' ↦ inl (omega (arith, here.0, here'.0))
          | inr there' ↦ inr (
              inl (
                omega (
                  arith,
                  here.0,
                  below' (omega (arith, count-ne t p (frees (p + n) bs) there'.0)),
                )))
        ]
        | inr there ↦ elim (==-cases t p) [
          | inl here' ↦ inr (
              inr (
                omega
                  (arith, here'.0, below (omega (arith, count-ne q p (frees (p + n) bs) there.0)))))
          | inr there' ↦
              frees-Sep q t r (omega (arith, count-ne q p (frees (p + n) bs) there.0))
                (omega (arith, count-ne t p (frees (p + n) bs) there'.0))
        ]
      ]

  -- There are fewer free blocks than bytes.
  pub length-frees : {p : ℕ} {bs : Blocks} → Heap m e p bs → length (frees p bs) ≤ span bs
  length-frees (done _) = omega arith
  length-frees (block {f = true} b l r) = omega (arith, length-frees r)
  length-frees (block {f = false} b l r) = omega (arith, length-frees r, b.tags)
