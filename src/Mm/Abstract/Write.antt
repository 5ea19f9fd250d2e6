-- ===== src/Mm/Abstract/Write.antt =====
-- `memmove` and `memset` into the payload of a block that was given out, and the program's own writes.
use cs0330_fall2022_7_malloc.Base.{
  ℕ, ◌+◌, ◌%◌, ◌≤◌, ◌<◌, ◌≡◌, refl, sym, subst, ap, ◌∷◌, ◌++◌, true, arith, ◌∙◌, inl, inr, le→leb,
  lt→ltb, lt→leb, le→ltb,
}
use cs0330_fall2022_7_malloc.Machine.{Mem, State, ok, memmove, memset, copied, filled}
use cs0330_fall2022_7_malloc.Mm.Abstract.{Given, Owns, Keeps, Keeps-append, KeepsPayload-Keeps}
use cs0330_fall2022_7_malloc.Mm.Abstract.Facts.{Owns-place}
use cs0330_fall2022_7_malloc.Mm.Abstract.Find.{allocs_find}
use cs0330_fall2022_7_malloc.Mm.Coalesce.Branches.{behind}
use cs0330_fall2022_7_malloc.Mm.Inv.{Inv, allocs}
use cs0330_fall2022_7_malloc.Mm.Realloc.Regrown.{copied_in, copied_out}
use cs0330_fall2022_7_malloc.Mm.Touch.{Touched, touched-Inv, touched_before, touched_after}

module _ (s : State) (before : Given) (q k : ℕ) (after : Given)
    (owns : Owns s (before ++ ((q, k) ∷ after))) where
  -- A write inside the payload keeps what is given out, and all other payloads.
  pub Owns-Touched :
      (m' : Mem)
      → Touched q k s.mem m'
      → Owns (record s { mem = m' }) (before ++ ((q, k) ∷ after)) × Keeps (before ++ after) s.mem m'
  Owns-Touched m' touched =
      let (bs, inv, e) = owns in
      let (us, vs, layout, at, b, a, tag) = allocs_find s.mem_start_brk q k bs before after e in
      let inv' = subst (Inv s) layout inv in
      let touched' = subst (λ t. Touched t k s.mem m') at touched in
      let p = s.mem_start_brk in
      (
        (
          us ++ ((k, true) ∷ vs),
          touched-Inv {s = s} us k vs inv' m' touched',
          ap (allocs p) (sym layout) ∙ e,
        ),
        Keeps-append s.mem m' before after
            (subst (λ t. Keeps t s.mem m') b
              (KeepsPayload-Keeps s.mem m' p us (touched_before {s = s} us k vs inv' m' touched')))
            (subst (λ t. Keeps t s.mem m') a
              (KeepsPayload-Keeps s.mem m' (behind s us + k) vs (
                touched_after {s = s} us k vs inv' m' touched' (behind s us + k) vs
                  (omega arith)))),
      )

  pub copy_into :
      (src len : ℕ)
      → s.mem_start_brk ≤ src
      → src + len ≤ s.mem_brk
      → len + 16 ≤ k
      → (m' : Mem) × (memmove (q + 8) src len s ≡ ok tt (record s { mem = m' }))
        × Touched q k s.mem m'
        × ((i : ℕ) → i < len → m' (q + 8 + i) ≡ s.mem (src + i))
  unfolding memmove
  copy_into src len lo hi fits =
      let place = Owns-place s before after q k owns in
      (
        copied s.mem (q + 8) src len,
        rw
            (
              le→leb s.mem_start_brk (q + 8) (omega (arith, place.low)),
              le→leb (q + 8 + len) s.mem_brk (omega (arith, place.high, fits)),
              le→leb s.mem_start_brk src lo,
              le→leb (src + len) s.mem_brk hi,
            )
            refl,
        touches,
        copied_in s.mem (q + 8) src len,
      )
    where
      touches : Touched q k s.mem (copied s.mem (q + 8) src len)
      touches a (inl h) = copied_out s.mem (q + 8) src len a (inl (omega arith))
      touches a (inr h) = copied_out s.mem (q + 8) src len a (inr (omega (arith, fits)))

  pub fill_into :
      (v len : ℕ)
      → len + 16 ≤ k
      → (m' : Mem) × (memset (q + 8) v len s ≡ ok tt (record s { mem = m' }))
        × Touched q k s.mem m'
        × ((i : ℕ) → i < len → m' (q + 8 + i) ≡ v % 256)
  unfolding memset filled
  fill_into v len fits =
      let place = Owns-place s before after q k owns in
      (
        filled s.mem (q + 8) v len,
        rw
            (
              le→leb s.mem_start_brk (q + 8) (omega (arith, place.low)),
              le→leb (q + 8 + len) s.mem_brk (omega (arith, place.high, fits)),
            )
            refl,
        touches,
        λ i lt.
            rw
              (
                le→leb (q + 8) (q + 8 + i) (omega arith),
                lt→ltb (q + 8 + i) (q + 8 + len) (omega arith),
              )
              refl,
      )
    where
      touches : Touched q k s.mem (filled s.mem (q + 8) v len)
      touches a (inl h) = rw (lt→leb (q + 8) a (omega arith)) refl
      touches a (inr h) =
          rw
            (
              le→leb (q + 8) a (omega (arith, (Owns-place s before after q k owns).big)),
              le→ltb a (q + 8 + len) (omega (arith, fits)),
            )
            refl
