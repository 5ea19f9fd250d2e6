-- ===== src/FreeList/Splice.antt =====
-- The writes of `insert_free_block` on a ring of links.
use cs0330_fall2022_7_malloc.Base.{
  ℕ, ◌^◌, ◌≤◌, ◌<◌, ◌≡◌, ◌≢◌, refl, sym, subst, List, ◌∷◌, arith, ◌∙◌, count, count_self, inl,
}
use cs0330_fall2022_7_malloc.Machine.{Mem}
use cs0330_fall2022_7_malloc.Layout.Place.{Sep}
use cs0330_fall2022_7_malloc.FreeList.Ring.{
  flink, blink, set_flink, set_blink, flink-set_flink, blink-set_blink, flink-set_flink_ne,
  blink-set_blink_ne, flink-set_blink, blink-set_flink, Seg, last, count-last, Seg-last,
  Seg-retarget,
}

-- Blocks that are distinct, apart, and at addresses below 2 ^ 64.
pub record Spread (xs : List ℕ) : Type 0 where
  pub once : (x : ℕ) → count x xs ≤ 1
  pub apart : (x y : ℕ) → 0 < count x xs → 0 < count y xs → Sep x y
  pub small : (x : ℕ) → 0 < count x xs → x < 2 ^ 64

-- `fb` goes between the first block and the last.
abbrev pub spliced : Mem → ℕ → ℕ → Mem
spliced m fb first =
    let last = blink m first in
    let m₁ = set_flink m fb first in
    let m₂ = set_blink m₁ fb last in let m₃ = set_flink m₂ last fb in set_blink m₃ first fb

module _ (m : Mem) (fb first : ℕ) (rs : List ℕ) (spread : Spread (fb ∷ (first ∷ rs)))
    (links : Seg m first rs first) where
  old_last : ℕ
  old_last = blink m first

  old_last-eq : old_last ≡ last first rs
  unfolding old_last
  old_last-eq = (Seg-last m first rs first links).1

  fb_in : 0 < count fb (fb ∷ (first ∷ rs))
  fb_in = omega (arith, count_self fb (first ∷ rs))

  ring_in : (x : ℕ) → 0 < count x (first ∷ rs) → 0 < count x (fb ∷ (first ∷ rs))
  ring_in x i = omega arith

  first_in : 0 < count first (first ∷ rs)
  first_in = omega (arith, count_self first rs)

  last_in : 0 < count old_last (first ∷ rs)
  last_in = subst (λ t. 0 < count t (first ∷ rs)) (sym old_last-eq) (count-last first rs)

  -- A block of the ring is not the new block.
  not_fb : (x : ℕ) → 0 < count x (first ∷ rs) → x ≢ fb
  not_fb x i e =
      let i' : 0 < count fb (first ∷ rs) = subst (λ t. 0 < count t (first ∷ rs)) e i in
      absurd (omega (arith, spread.once fb, count_self fb (first ∷ rs)))

  m₁ : Mem
  m₁ = set_flink m fb first

  m₂ : Mem
  m₂ = set_blink m₁ fb old_last

  m₃ : Mem
  m₃ = set_flink m₂ old_last fb

  m₄ : Mem
  m₄ = set_blink m₃ first fb

  sep : (x y : ℕ) → 0 < count x (first ∷ rs) → 0 < count y (first ∷ rs) → Sep x y
  sep x y i j = spread.apart x y (ring_in x i) (ring_in y j)

  Sep-fb : (x : ℕ) → 0 < count x (first ∷ rs) → Sep fb x
  Sep-fb x i = spread.apart fb x fb_in (ring_in x i)

  flink-ring : (x : ℕ) → 0 < count x (first ∷ rs) → x ≢ old_last → flink m₄ x ≡ flink m x
  unfolding m₁ m₂ m₃ m₄
  flink-ring x i ne =
      flink-set_blink m₃ first fb x (sep first x first_in i)
      ∙ flink-set_flink_ne m₂ old_last fb x ne (sep old_last x last_in i)
      ∙ flink-set_blink m₁ fb old_last x (Sep-fb x i)
      ∙ flink-set_flink_ne m fb first x (not_fb x i) (Sep-fb x i)

  flink-last : flink m₄ old_last ≡ fb
  unfolding m₁ m₂ m₃ m₄
  flink-last =
      flink-set_blink m₃ first fb old_last (sep first old_last first_in last_in)
      ∙ flink-set_flink m₂ old_last fb (spread.small fb fb_in)

  flink-fb : flink m₄ fb ≡ first
  unfolding m₁ m₂ m₃ m₄
  flink-fb =
      flink-set_blink m₃ first fb fb (spread.apart first fb (ring_in first first_in) fb_in)
      ∙ flink-set_flink_ne m₂ old_last fb fb (λ e. not_fb old_last last_in (sym e))
          (spread.apart old_last fb (ring_in old_last last_in) fb_in)
      ∙ flink-set_blink m₁ fb old_last fb (inl refl)
      ∙ flink-set_flink m fb first (spread.small first (ring_in first first_in))

  blink-ring : (x : ℕ) → 0 < count x rs → blink m₄ x ≡ blink m x
  unfolding m₁ m₂ m₃ m₄
  blink-ring x i =
      let j : 0 < count x (first ∷ rs) = omega arith in
      blink-set_blink_ne m₃ first fb x (λ e. not_first e) (sep first x first_in j)
      ∙ blink-set_flink m₂ old_last fb x (sep old_last x last_in j)
      ∙ blink-set_blink_ne m₁ fb old_last x (not_fb x j) (Sep-fb x j)
      ∙ blink-set_flink m fb first x (Sep-fb x j)
    where
      not_first : x ≢ first
      not_first e =
          let i' : 0 < count first rs = subst (λ t. 0 < count t rs) e i in
          absurd (omega (arith, spread.once first, count_self first rs))

  blink-fb : blink m₄ fb ≡ old_last
  unfolding m₁ m₂ m₃ m₄
  blink-fb =
      blink-set_blink_ne m₃ first fb fb (λ e. not_fb first first_in (sym e))
        (spread.apart first fb (ring_in first first_in) fb_in)
      ∙ blink-set_flink m₂ old_last fb fb
          (spread.apart old_last fb (ring_in old_last last_in) fb_in)
      ∙ blink-set_blink m₁ fb old_last (spread.small old_last (ring_in old_last last_in))

  blink-first : blink m₄ first ≡ fb
  unfolding m₄
  blink-first = blink-set_blink m₃ first fb (spread.small fb fb_in)

  -- The result is a ring that begins with `fb` and goes on as before.
  pub Seg-spliced : Seg (spliced m fb first) fb (first ∷ rs) fb
  unfolding m₁ m₂ m₃ m₄ old_last
  Seg-spliced = (
    flink-fb,
    blink-first,
    Seg-retarget m m₄ first rs first fb (λ x. omega (arith, spread.once x))
        (λ x i ne. flink-ring x i (λ e. ne (e ∙ old_last-eq))) blink-ring
        (subst (λ t. flink m₄ t ≡ fb) old_last-eq flink-last) (blink-fb ∙ old_last-eq) links,
  )
