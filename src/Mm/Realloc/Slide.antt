-- ===== src/Mm/Realloc/Slide.antt =====
-- The `memmove` of `mm_realloc`, from inside a block that has grown to the front of its payload.
use cs0330_fall2022_7_malloc.Base.{
  ℕ, ◌+◌, ◌≤◌, ◌<◌, ◌≡◌, refl, ◌∷◌, ◌++◌, true, arith, inl, inr, le→leb,
}
use cs0330_fall2022_7_malloc.Machine.{State, ok, copied, memmove}
use cs0330_fall2022_7_malloc.Layout.{Blocks}
use cs0330_fall2022_7_malloc.Layout.Payload.{KeepsPayload}
use cs0330_fall2022_7_malloc.Mm.Coalesce.Branches.{behind}
use cs0330_fall2022_7_malloc.Mm.Inv.{Inv}
use cs0330_fall2022_7_malloc.Mm.Realloc.Regrown.{copied_in, copied_out}
use cs0330_fall2022_7_malloc.Mm.Touch.{Touched, touched-Inv, touched_before, touched_after}
use cs0330_fall2022_7_malloc.Mm.Steps.{first-Here}

-- The state after `len` bytes from `src` were moved to the payload behind `xs`.
module _ (t : State) (xs : Blocks) (src len : ℕ) where
  abbrev pub slid : State
  slid = record t { mem = copied t.mem (behind t xs + 8) src len }

  module _ (n : ℕ) (ys : Blocks) (inv : Inv t (xs ++ ((n, true) ∷ ys))) (fits : len + 16 ≤ n)
      (lo : t.mem_start_brk ≤ src) (hi : src + len ≤ t.mem_brk) where
    pub slide_run : memmove (behind t xs + 8) src len t ≡ ok tt slid
    unfolding memmove
    slide_run =
        let here = first-Here {s = t} xs n true ys inv.sound in
        rw
          (
            le→leb t.mem_start_brk (behind t xs + 8) (omega arith),
            le→leb (behind t xs + 8 + len) t.mem_brk (omega (arith, here.hi, fits)),
            le→leb t.mem_start_brk src lo,
            le→leb (src + len) t.mem_brk hi,
          )
          refl

    slide_touches : Touched (behind t xs) n t.mem slid.mem
    slide_touches a (inl h) = copied_out t.mem (behind t xs + 8) src len a (inl (omega arith))
    slide_touches a (inr h) =
        copied_out t.mem (behind t xs + 8) src len a (inr (omega (arith, fits)))

    pub slide-Inv : Inv slid (xs ++ ((n, true) ∷ ys))
    slide-Inv = touched-Inv {s = t} xs n ys inv slid.mem slide_touches

    pub slide_data : (i : ℕ) → i < len → slid.mem (behind t xs + 8 + i) ≡ t.mem (src + i)
    slide_data i lt = copied_in t.mem (behind t xs + 8) src len i lt

    -- The payloads before the block and after it are not touched.
    pub slide_before : KeepsPayload t.mem_start_brk xs t.mem slid.mem
    slide_before = touched_before {s = t} xs n ys inv slid.mem slide_touches

    pub slide_after : (c : ℕ) (zs : Blocks) → behind t xs + n ≤ c → KeepsPayload c zs t.mem slid.mem
    slide_after = touched_after {s = t} xs n ys inv slid.mem slide_touches
