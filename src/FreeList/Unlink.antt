-- ===== src/FreeList/Unlink.antt =====
-- The links when a block is taken out of a ring, as `pull_free_block` sets them.
use cs0330_fall2022_7_malloc.Base.{
  ℕ, ◌<◌, ◌≡◌, ◌≢◌, sym, subst, List, ◌∷◌, arith, ◌∙◌, count, count_self,
}
use cs0330_fall2022_7_malloc.Machine.{Mem}
use cs0330_fall2022_7_malloc.Layout.Place.{Sep}
use cs0330_fall2022_7_malloc.FreeList.Ring.{
  flink, blink, set_flink, set_blink, flink-set_flink, blink-set_blink, flink-set_flink_ne,
  blink-set_blink_ne, flink-set_blink, blink-set_flink, Seg, last, count-last, Seg-last,
  Seg-retarget,
}
use cs0330_fall2022_7_malloc.FreeList.Splice.{Spread}

-- The block before `fb` and the block after it are linked to one another. The links of `fb` are
-- read once before the first write and once after it.
abbrev pub unlinked : Mem → ℕ → Mem
unlinked m fb =
    let m₁ = set_flink m (blink m fb) (flink m fb) in set_blink m₁ (flink m₁ fb) (blink m₁ fb)

module _ (m : Mem) (fb next : ℕ) (ws : List ℕ) (spread : Spread (fb ∷ (next ∷ ws)))
    (links : Seg m fb (next ∷ ws) fb) where
  end : ℕ
  end = last next ws

  end_facts : (flink m end ≡ fb) × (blink m fb ≡ end)
  unfolding end
  end_facts = Seg-last m next ws fb links.2

  fb_there : 0 < count fb (fb ∷ (next ∷ ws))
  fb_there = omega (arith, count_self fb (next ∷ ws))

  rest_there : (x : ℕ) → 0 < count x (next ∷ ws) → 0 < count x (fb ∷ (next ∷ ws))
  rest_there x i = omega arith

  next_in : 0 < count next (next ∷ ws)
  next_in = omega (arith, count_self next ws)

  end_in : 0 < count end (next ∷ ws)
  unfolding end
  end_in = count-last next ws

  rest_ne_fb : (x : ℕ) → 0 < count x (next ∷ ws) → x ≢ fb
  rest_ne_fb x i e =
      let i' : 0 < count fb (next ∷ ws) = subst (λ t. 0 < count t (next ∷ ws)) e i in
      absurd (omega (arith, spread.once fb, count_self fb (next ∷ ws)))

  Sep-rest : (x y : ℕ) → 0 < count x (next ∷ ws) → 0 < count y (next ∷ ws) → Sep x y
  Sep-rest x y i j = spread.apart x y (rest_there x i) (rest_there y j)

  Sep-end_fb : Sep end fb
  Sep-end_fb = spread.apart end fb (rest_there end end_in) fb_there

  n₁ : Mem
  n₁ = set_flink m end next

  n₂ : Mem
  n₂ = set_blink n₁ next end

  unlinked-eq : unlinked m fb ≡ n₂
  unfolding n₁ n₂
  unlinked-eq = rw (
    end_facts.1,
    links.0,
    flink-set_flink_ne m end next fb (λ e. rest_ne_fb end end_in (sym e)) Sep-end_fb,
    links.0,
    blink-set_flink m end next fb Sep-end_fb,
    end_facts.1,
  )

  -- The first write does not change the links that are read again.
  pub reread :
      let m₁ = set_flink m (blink m fb) (flink m fb) in
      (flink m₁ fb ≡ flink m fb) × (blink m₁ fb ≡ blink m fb)
  reread =
      let sep_last : Sep (blink m fb) fb = subst (λ t. Sep t fb) (sym end_facts.1) Sep-end_fb in
      let ne : fb ≢ blink m fb = λ e. rest_ne_fb end end_in (sym (e ∙ end_facts.1)) in
      (
        flink-set_flink_ne m (blink m fb) (flink m fb) fb ne sep_last,
        blink-set_flink m (blink m fb) (flink m fb) fb sep_last,
      )

  flink-rest : (x : ℕ) → 0 < count x (next ∷ ws) → x ≢ end → flink n₂ x ≡ flink m x
  unfolding n₁ n₂
  flink-rest x i ne =
      flink-set_blink n₁ next end x (Sep-rest next x next_in i)
      ∙ flink-set_flink_ne m end next x ne (Sep-rest end x end_in i)

  flink-end : flink n₂ end ≡ next
  unfolding n₁ n₂
  flink-end =
      flink-set_blink n₁ next end end (Sep-rest next end next_in end_in)
      ∙ flink-set_flink m end next (spread.small next (rest_there next next_in))

  blink-rest : (x : ℕ) → 0 < count x ws → blink n₂ x ≡ blink m x
  unfolding n₁ n₂
  blink-rest x i =
      let j : 0 < count x (next ∷ ws) = omega arith in
      blink-set_blink_ne n₁ next end x not_next (Sep-rest next x next_in j)
      ∙ blink-set_flink m end next x (Sep-rest end x end_in j)
    where
      not_next : x ≢ next
      not_next e =
          let i' : 0 < count next ws = subst (λ t. 0 < count t ws) e i in
          absurd (omega (arith, spread.once next, count_self next ws))

  blink-next : blink n₂ next ≡ end
  unfolding n₂
  blink-next = blink-set_blink n₁ next end (spread.small end (rest_there end end_in))

  -- What is left is a ring without `fb`.
  pub Seg-unlinked : Seg (unlinked m fb) next ws next
  unfolding n₁ n₂ end
  Seg-unlinked =
      subst (λ t. Seg t next ws next) (sym unlinked-eq)
        (Seg-retarget m n₂ next ws fb next (λ x. omega (arith, spread.once x)) flink-rest blink-rest
          flink-end blink-next links.2)
