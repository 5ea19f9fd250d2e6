-- ===== src/FreeList/Insert.antt =====
-- `insert_free_block`: on a sound heap it ends well, and the block becomes the first of the list.
use cs0330_fall2022_7_malloc.Base.{
  ℕ, ◌≤◌, ◌<◌, ◌≡◌, ◌≢◌, refl, sym, subst, List, [], ◌∷◌, arith, ◌∙◌, count, count_self, SameItems,
  inl, eq→==, ne→==,
}
use cs0330_fall2022_7_malloc.Machine.{Mem, State, ok, null}
use cs0330_fall2022_7_malloc.Block.Laws.{
  require_free-eq, block_blink-eq, block_set_flink-eq, block_set_blink-eq,
}
use cs0330_fall2022_7_malloc.Layout.{Blocks, frees, SameButLinks}
use cs0330_fall2022_7_malloc.Layout.Place.{frees-once}
use cs0330_fall2022_7_malloc.Layout.Sound.{
  Sound, IsFree, IsFree-here, IsFree-Sep, IsFree-small, Sound-links, set_flink-SameButLinks,
  set_blink-SameButLinks, SameButLinks-trans,
}
use cs0330_fall2022_7_malloc.FreeList.{insert_free_block, link_before_first, link_alone}
use cs0330_fall2022_7_malloc.FreeList.Ring.{
  blink, set_flink, set_blink, flink-set_flink, blink-set_blink, flink-set_blink, Seg, IsRing,
  FreeRing, last, count-last, Seg-last,
}
use cs0330_fall2022_7_malloc.FreeList.Splice.{Spread, spliced, Seg-spliced}

-- The blocks of the list are free blocks of the layout.
abbrev pub Within : State → Blocks → List ℕ → Type 0
Within s bs fs = (x : ℕ) → count x fs ≤ count x (frees s.mem_start_brk bs)

module _ {s : State} {bs : Blocks} (sound : Sound s bs) where
  pub Within-Spread : (fs : List ℕ) → Within s bs fs → Spread fs
  Within-Spread fs sub = record {
    once = λ x. omega (arith, sub x, frees-once x sound.heap);
    apart = λ x y i j. IsFree-Sep sound x y (omega (arith, sub x)) (omega (arith, sub y));
    small = λ x i. (IsFree-small sound x (omega (arith, sub x))).1;
  }

  -- What `insert_free_block` promises.
  abbrev pub Inserts : ℕ → List ℕ → Type 0
  Inserts fb gs =
      (m' : Mem) × (insert_free_block fb s ≡ ok tt (record s { mem = m'; flist_first = fb }))
      × SameButLinks s.mem_start_brk bs s.mem m'
      × FreeRing m' fb (fb ∷ gs)

  insert_alone :
      (fb : ℕ) (gs : List ℕ)
      → IsFree s bs fb
      → s.flist_first ≡ null
      → SameItems [] gs
      → Inserts fb gs
  unfolding insert_free_block link_alone
  insert_alone fb gs free empty same =
      let m₁ = set_flink s.mem fb fb in
      let m₂ = set_blink m₁ fb fb in
      let s₁ : State = record s { mem = m₁ } in
      let d₁ = set_flink-SameButLinks s.mem_start_brk bs fb free s.mem fb in
      let d₂ = set_blink-SameButLinks s.mem_start_brk bs fb free m₁ fb in
      let h = IsFree-here sound fb free in
      let h₁ = IsFree-here (Sound-links sound m₁ d₁) fb free in
      let small = (IsFree-small sound fb free).1 in
      (
        m₂,
        rw (
          require_free-eq h,
          eq→== s.flist_first null empty,
          block_set_flink-eq h h,
          block_set_blink-eq h₁ h₁,
        ),
        SameButLinks-trans s.mem_start_brk bs d₁ d₂,
        record {
          ring = fb ∷ [];
          is_ring = (
            refl,
            (
              flink-set_blink m₁ fb fb fb (inl refl) ∙ flink-set_flink s.mem fb fb small,
              blink-set_blink m₁ fb fb small,
            ),
          );
          same = λ x. omega (arith, same x);
        },
      )

  insert_before :
      (fb : ℕ) (gs rs : List ℕ)
      → Within s bs (fb ∷ gs)
      → SameItems (s.flist_first ∷ rs) gs
      → Seg s.mem s.flist_first rs s.flist_first
      → Inserts fb gs
  unfolding insert_free_block link_before_first
  insert_before fb gs rs sub same links =
      let p = s.mem_start_brk in
      let first = s.flist_first in
      let old = blink s.mem first in
      let free : IsFree s bs fb = omega (arith, sub fb, count_self fb gs) in
      let free_ring : (x : ℕ) → 0 < count x (first ∷ rs) → IsFree s bs x =
        λ x i. omega (arith, sub x, same x) in
      let free_first : IsFree s bs first = free_ring first (omega (arith, count_self first rs)) in
      let e_old : old ≡ last first rs = (Seg-last s.mem first rs first links).1 in
      let free_old : IsFree s bs old =
        free_ring old (subst (λ t. 0 < count t (first ∷ rs)) (sym e_old) (count-last first rs)) in
      let m₁ = set_flink s.mem fb first in
      let m₂ = set_blink m₁ fb old in
      let m₃ = set_flink m₂ old fb in
      let d₁ = set_flink-SameButLinks p bs fb free s.mem first in
      let d₂ = SameButLinks-trans p bs d₁ (set_blink-SameButLinks p bs fb free m₁ old) in
      let d₃ = SameButLinks-trans p bs d₂ (set_flink-SameButLinks p bs old free_old m₂ fb) in
      let d₄ = SameButLinks-trans p bs d₃ (set_blink-SameButLinks p bs first free_first m₃ fb) in
      let sound₁ = Sound-links sound m₁ d₁ in
      let sound₂ = Sound-links sound m₂ d₂ in
      let sound₃ = Sound-links sound m₃ d₃ in
      let nonzero : first ≢ null = let h = (IsFree-small sound first free_first).0 in omega arith in
      (
        spliced s.mem fb first,
        rw (
          require_free-eq (IsFree-here sound fb free),
          ne→== first null nonzero,
          block_blink-eq (IsFree-here sound first free_first),
          block_set_flink-eq (IsFree-here sound fb free) (IsFree-here sound first free_first),
          block_set_blink-eq (IsFree-here sound₁ fb free) (IsFree-here sound₁ old free_old),
          block_set_flink-eq (IsFree-here sound₂ old free_old) (IsFree-here sound₂ fb free),
          block_set_blink-eq (IsFree-here sound₃ first free_first) (IsFree-here sound₃ fb free),
        ),
        d₄,
        record {
          ring = fb ∷ (first ∷ rs);
          is_ring = (
            refl,
            Seg-spliced s.mem fb first rs
                (Within-Spread (fb ∷ (first ∷ rs)) (λ x. omega (arith, sub x, same x))) links,
          );
          same = λ x. omega (arith, same x);
        },
      )

  insert_ring :
      (fb : ℕ) (gs ring : List ℕ)
      → Within s bs (fb ∷ gs)
      → IsRing s.mem s.flist_first ring
      → SameItems ring gs
      → Inserts fb gs
  insert_ring fb gs [] sub is same =
      insert_alone fb gs (omega (arith, sub fb, count_self fb gs)) is same
  insert_ring fb gs (r ∷ rs) sub is same =
      insert_before fb gs rs sub
        (λ x. subst (λ t. count x (t ∷ rs) ≡ count x gs) (sym is.0) (same x))
        (subst (λ t. Seg s.mem t rs t) (sym is.0) is.1)

  -- On a sound heap, `insert_free_block` at a free block that is not in the list, which holds other
  -- free blocks of the heap only, puts it in front of the list: it ends well,
  -- writes nothing but links of free blocks, and makes the block the first of a ring that holds
  -- the old blocks and the new one.
  pub insert_free_block_lem :
      (fb : ℕ) (gs : List ℕ)
      → Within s bs (fb ∷ gs)
      → FreeRing s.mem s.flist_first gs
      → Inserts fb gs
  insert_free_block_lem fb gs sub free = insert_ring fb gs free.ring sub free.is_ring free.same
