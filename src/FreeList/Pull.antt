-- ===== src/FreeList/Pull.antt =====
-- `pull_free_block`: on a sound heap it ends well, and the block is out of the list.
use cs0330_fall2022_7_malloc.Base.{
  ℕ, ◌<◌, ◌≡◌, ◌≢◌, refl, sym, subst, List, [], ◌∷◌, ◌++◌, arith, ◌∙◌, count, count_self, count-ne,
  count-append, SameItems, inl, inr, eq→==, ne→==, ==-cases, split_at,
}
use cs0330_fall2022_7_malloc.Machine.{Mem, State, ok, null}
use cs0330_fall2022_7_malloc.Block.Laws.{
  require_free-eq, block_blink-eq, block_flink-eq, block_set_flink-eq, block_set_blink-eq,
}
use cs0330_fall2022_7_malloc.Layout.{Blocks, SameButLinks}
use cs0330_fall2022_7_malloc.Layout.Sound.{
  Sound, IsFree, IsFree-here, Sound-links, set_flink-SameButLinks, set_blink-SameButLinks,
  SameButLinks-trans,
}
use cs0330_fall2022_7_malloc.FreeList.{pull_free_block, pull_first, unlink}
use cs0330_fall2022_7_malloc.FreeList.Ring.{
  flink, blink, set_flink, Seg, IsRing, FreeRing, last, count-last, Seg-last, Seg-split, Seg-join,
}
use cs0330_fall2022_7_malloc.FreeList.Unlink.{unlinked, Seg-unlinked, reread}
use cs0330_fall2022_7_malloc.FreeList.Insert.{Within, Within-Spread}

-- What `pull_free_block` promises.
abbrev pub Pulls : State → Blocks → ℕ → List ℕ → Type 0
Pulls s bs fb gs =
    (m' : Mem) × (first : ℕ) × (pull_free_block fb s
      ≡ ok tt (record s { mem = m'; flist_first = first }))
    × SameButLinks s.mem_start_brk bs s.mem m'
    × FreeRing m' first gs

module _ {s : State} {bs : Blocks} (sound : Sound s bs) where
  -- The two writes, for a ring that is read from `fb` on.
  unlink_lem :
      (fb next : ℕ) (ws : List ℕ)
      → Within s bs (fb ∷ (next ∷ ws))
      → Seg s.mem fb (next ∷ ws) fb
      → (unlink fb s ≡ ok tt (record s { mem = unlinked s.mem fb }))
        × SameButLinks s.mem_start_brk bs s.mem (unlinked s.mem fb)
        × Seg (unlinked s.mem fb) next ws next
  unfolding unlink
  unlink_lem fb next ws sub links =
      let p = s.mem_start_brk in
      let m = s.mem in
      let free : IsFree s bs fb = omega (arith, sub fb, count_self fb (next ∷ ws)) in
      let free_rest : (x : ℕ) → 0 < count x (next ∷ ws) → IsFree s bs x =
        λ x i. omega (arith, sub x) in
      let free_next : IsFree s bs (flink m fb) =
        subst (IsFree s bs) (sym links.0) (free_rest next (omega (arith, count_self next ws))) in
      let free_last : IsFree s bs (blink m fb) =
        subst (IsFree s bs) (sym (Seg-last m next ws fb links.2).1)
          (free_rest (last next ws) (count-last next ws)) in
      let m₁ = set_flink m (blink m fb) (flink m fb) in
      let d₁ = set_flink-SameButLinks p bs (blink m fb) free_last m (flink m fb) in
      let sound₁ = Sound-links sound m₁ d₁ in
      let spread = Within-Spread sound (fb ∷ (next ∷ ws)) sub in
      let again = reread m fb next ws spread links in
      let free_next₁ : IsFree s bs (flink m₁ fb) = subst (IsFree s bs) (sym again.0) free_next in
      let free_last₁ : IsFree s bs (blink m₁ fb) = subst (IsFree s bs) (sym again.1) free_last in
      let d₂ =
        SameButLinks-trans p bs d₁
          (set_blink-SameButLinks p bs (flink m₁ fb) free_next₁ m₁ (blink m₁ fb)) in
      (
        rw (
          block_blink-eq (IsFree-here sound fb free),
          block_flink-eq (IsFree-here sound fb free),
          block_set_flink-eq (IsFree-here sound (blink m fb) free_last)
              (IsFree-here sound (flink m fb) free_next),
          block_flink-eq (IsFree-here sound₁ fb free),
          block_blink-eq (IsFree-here sound₁ fb free),
          block_set_blink-eq (IsFree-here sound₁ (flink m₁ fb) free_next₁)
              (IsFree-here sound₁ (blink m₁ fb) free_last₁),
        ),
        d₂,
        Seg-unlinked m fb next ws spread links,
      )

module _ {s : State} {bs : Blocks} (sound : Sound s bs) (fb : ℕ) (gs : List ℕ)
    (sub : Within s bs (fb ∷ gs)) where
  IsFree-fb : IsFree s bs fb
  IsFree-fb = omega (arith, sub fb, count_self fb gs)

  -- `fb` is the first block, and there are others.
  pull_first_lem :
      (next : ℕ) (ws : List ℕ)
      → s.flist_first ≡ fb
      → SameItems (next ∷ ws) gs
      → Seg s.mem fb (next ∷ ws) fb
      → Pulls s bs fb gs
  unfolding pull_free_block pull_first
  pull_first_lem next ws at same links =
      let first' = flink s.mem fb in
      let s' : State = record s { flist_first = first' } in
      let sound' : Sound s' bs = record { heap = sound.heap; low = sound.low; top = sound.top } in
      let sub' : Within s bs (fb ∷ (next ∷ ws)) = λ x. omega (arith, sub x, same x) in
      let (run, only, links') = unlink_lem sound' fb next ws sub' links in
      let once = (Within-Spread sound (fb ∷ (next ∷ ws)) sub').once fb in
      let ne : first' ≢ fb = λ e.
        let e' : fb ≡ next = sym e ∙ links.0 in
        absurd (
          omega (
            arith,
            once,
            count_self fb (next ∷ ws),
            subst (λ t. 0 < count t (next ∷ ws)) (sym e') (omega (arith, count_self next ws)),
          )) in
      (
        unlinked s.mem fb,
        first',
        rw (
          require_free-eq (IsFree-here sound fb IsFree-fb),
          eq→== s.flist_first fb at,
          block_flink-eq (IsFree-here sound fb IsFree-fb),
          ne→== first' fb ne,
          run,
        ),
        only,
        record { ring = next ∷ ws; is_ring = (links.0, links'); same = same },
      )

  -- `fb` is the only block.
  pull_only : s.flist_first ≡ fb → SameItems [] gs → Seg s.mem fb [] fb → Pulls s bs fb gs
  unfolding pull_free_block pull_first
  pull_only at same links = (
    s.mem,
    null,
    rw (
      require_free-eq (IsFree-here sound fb IsFree-fb),
      eq→== s.flist_first fb at,
      block_flink-eq (IsFree-here sound fb IsFree-fb),
      eq→== (flink s.mem fb) fb links.0,
    ),
    λ a out. refl,
    record { ring = []; is_ring = refl; same = same },
  )

  -- `fb` is a later block.
  pull_other :
      (next : ℕ) (ws : List ℕ)
      → s.flist_first ≢ fb
      → SameItems (next ∷ ws) gs
      → Seg s.mem fb (next ∷ ws) fb
      → (ring : List ℕ) → SameItems ring gs
      → (Seg (unlinked s.mem fb) next ws next → IsRing (unlinked s.mem fb) s.flist_first ring)
      → Pulls s bs fb gs
  unfolding pull_free_block
  pull_other next ws ne same links ring same' turn =
      let (run, only, links') =
        unlink_lem sound fb next ws (λ x. omega (arith, sub x, same x)) links in
      (
        unlinked s.mem fb,
        s.flist_first,
        rw (require_free-eq (IsFree-here sound fb IsFree-fb), ne→== s.flist_first fb ne, run),
        only,
        record { ring = ring; is_ring = turn links'; same = same' },
      )

  pull_later :
      (us vs : List ℕ)
      → s.flist_first ≢ fb
      → SameItems (s.flist_first ∷ (us ++ (fb ∷ vs))) (fb ∷ gs)
      → Seg s.mem s.flist_first (us ++ (fb ∷ vs)) s.flist_first
      → Pulls s bs fb gs
  pull_later us [] ne same links =
      let first = s.flist_first in
      let (front, back) = Seg-split s.mem first us fb [] first links in
      let same' : SameItems (first ∷ us) gs =
        λ x. omega (arith, same x, count-append x us (fb ∷ [])) in
      pull_other first us ne same' (back.0, back.1, front) (first ∷ us) same' (λ h. (refl, h))
  pull_later us (v ∷ vs) ne same links =
      let first = s.flist_first in
      let m' = unlinked s.mem fb in
      let (front, back) = Seg-split s.mem first us fb (v ∷ vs) first links in
      let same' : SameItems (first ∷ (us ++ (v ∷ vs))) gs =
        λ x. omega (arith, same x, count-append x us (fb ∷ (v ∷ vs)), count-append x us (v ∷ vs)) in
      pull_other v (vs ++ (first ∷ us)) ne
        (λ x. omega (arith, same' x, count-append x us (v ∷ vs), count-append x vs (first ∷ us)))
        (Seg-join s.mem fb (v ∷ vs) first us fb back front) (first ∷ (us ++ (v ∷ vs))) same'
        (λ h.
          let (a, b) = Seg-split m' v vs first us v h in
          (refl, Seg-join m' first us v vs first b a))

  pull_at_first :
      (rs : List ℕ)
      → s.flist_first ≡ fb
      → SameItems (fb ∷ rs) (fb ∷ gs)
      → Seg s.mem fb rs fb
      → Pulls s bs fb gs
  pull_at_first [] at same links = pull_only at (λ x. omega (arith, same x)) links
  pull_at_first (r ∷ rs) at same links = pull_first_lem r rs at (λ x. omega (arith, same x)) links

  pull_ring :
      (ring : List ℕ)
      → IsRing s.mem s.flist_first ring
      → SameItems ring (fb ∷ gs)
      → Pulls s bs fb gs
  pull_ring [] is same = absurd (omega (arith, same fb, count_self fb gs))
  pull_ring (r ∷ rs) is same = elim (==-cases fb r) [
    | inl here ↦
        pull_at_first rs (is.0 ∙ sym here.0)
          (subst (λ t. SameItems (t ∷ rs) (fb ∷ gs)) (sym here.0) same)
          (subst (λ t. Seg s.mem t rs t) (sym here.0) is.1)
    | inr there ↦
        let first = s.flist_first in
        let (us, vs, e) =
          split_at fb rs (omega (arith, same fb, count-ne fb r rs there.0, count_self fb gs)) in
        let same₁ = subst (λ t. SameItems (t ∷ rs) (fb ∷ gs)) (sym is.0) same in
        let links₁ = subst (λ t. Seg s.mem t rs t) (sym is.0) is.1 in
        pull_later us vs (λ h. there.0 (sym h ∙ is.0))
          (subst (λ t. SameItems (first ∷ t) (fb ∷ gs)) e same₁)
          (subst (λ t. Seg s.mem first t first) e links₁)
  ]

  -- On a sound heap, `pull_free_block` at a block of the list, which holds free blocks of the heap only,
  -- takes it out wherever it stands: it ends well, writes nothing but
  -- links of free blocks, and what is left is a ring of the other blocks.
  pub pull_free_block_lem : FreeRing s.mem s.flist_first (fb ∷ gs) → Pulls s bs fb gs
  pull_free_block_lem free = pull_ring free.ring free.is_ring free.same
