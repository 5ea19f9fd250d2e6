-- ===== src/Mm/Touch.antt =====
-- A write inside the payload of a block that was given out.
use cs0330_fall2022_7_malloc.Base.{
  ℕ, ◌+◌, ◌≤◌, ◌<◌, ◌≡◌, sym, subst, [], ◌∷◌, ◌++◌, true, arith, ◌⊎◌, inl, inr, SameItems,
}
use cs0330_fall2022_7_malloc.Machine.{Mem, State}
use cs0330_fall2022_7_malloc.Layout.{Blocks, frees, done, block}
use cs0330_fall2022_7_malloc.Layout.Frame.{IsBlock-frame}
use cs0330_fall2022_7_malloc.Layout.Payload.{payload_byte-range, KeepsPayload}
use cs0330_fall2022_7_malloc.Layout.Retile.{
  SameOutside, others, Sound-retile, FreeRing-retile, FreeRing-same,
}
use cs0330_fall2022_7_malloc.Layout.Sound.{Sound}
use cs0330_fall2022_7_malloc.FreeList.Ring.{FreeRing}
use cs0330_fall2022_7_malloc.Mm.Coalesce.Branches.{behind}
use cs0330_fall2022_7_malloc.Mm.Inv.{Inv}
use cs0330_fall2022_7_malloc.Mm.Steps.{first-Here, count-frees, count-others}

-- Nothing is changed but bytes of the payload of the block of `n` bytes at `q`.
abbrev pub Touched : (q n : ℕ) → Mem → Mem → Type 0
Touched q n m m' = (a : ℕ) → ((a < q + 8) ⊎ (q + n ≤ a + 8)) → m' a ≡ m a

module _ {s : State} (xs : Blocks) (n : ℕ) (ys : Blocks) (inv : Inv s (xs ++ ((n, true) ∷ ys)))
    (m' : Mem) (touched : Touched (behind s xs) n s.mem m') where
  q : ℕ
  q = behind s xs

  upto_same : q + (n + 0) ≡ q + n
  upto_same = omega arith

  touched_outside : SameOutside q (q + (n + 0)) s.mem m'
  unfolding q
  touched_outside a (inl h) = touched a (inl (omega arith))
  touched_outside a (inr h) = touched a (inr (omega arith))

  touched_Sound : Sound (record s { mem = m' }) (xs ++ ((n, true) ∷ ys))
  unfolding q
  touched_Sound =
      let here = first-Here {s = s} xs n true ys inv.sound in
      Sound-retile {s = s} xs ((n, true) ∷ []) ys inv.sound ((n, true) ∷ []) m' touched_outside (
        block
          (IsBlock-frame m' (λ a lo hi. touched a (inl (omega arith)))
            (λ a lo hi. touched a (inr (omega arith))) here.at)
          (omega (arith, here.at.tags)) (done (omega arith)))

  touched_FreeRing :
      FreeRing s.mem s.flist_first (others s.mem_start_brk xs (behind s xs + n) ys)
      → FreeRing m' s.flist_first (others s.mem_start_brk xs (behind s xs + n) ys)
  unfolding q
  touched_FreeRing free =
      let p = s.mem_start_brk in
      subst (λ t. FreeRing m' s.flist_first (others p xs t ys)) upto_same
        (FreeRing-retile {s = s} xs ((n, true) ∷ []) ys inv.sound m' touched_outside
          (subst (λ t. FreeRing s.mem s.flist_first (others p xs t ys)) (sym upto_same) free))

  same_frees :
      SameItems
        (frees s.mem_start_brk (xs ++ ((n, true) ∷ ys)))
        (others s.mem_start_brk xs (behind s xs + n) ys)
  same_frees x = omega (
    arith,
    count-frees xs x s.mem_start_brk ((n, true) ∷ ys),
    count-others xs x s.mem_start_brk (behind s xs + n) ys,
  )

  pub touched-Inv : Inv (record s { mem = m' }) (xs ++ ((n, true) ∷ ys))
  touched-Inv = record {
    sound = touched_Sound;
    free =
        FreeRing-same (frees s.mem_start_brk (xs ++ ((n, true) ∷ ys))) (λ x. sym (same_frees x))
          (touched_FreeRing
            (FreeRing-same (others s.mem_start_brk xs (behind s xs + n) ys) same_frees inv.free));
    shaped = inv.shaped;
    aligned = inv.aligned;
    epilogue = inv.epilogue;
    limit = inv.limit;
    top = inv.top;
  }

  -- The payloads before the block and after it are not touched.
  pub touched_before : KeepsPayload s.mem_start_brk xs s.mem m'
  touched_before a i =
      let range = payload_byte-range s.mem_start_brk xs a i in
      touched a (inl (omega (arith, range)))

  pub touched_after : (c : ℕ) (zs : Blocks) → behind s xs + n ≤ c → KeepsPayload c zs s.mem m'
  touched_after c zs far a i =
      let range = payload_byte-range c zs a i in touched a (inr (omega (arith, range)))
