-- ===== src/Layout/Sound.antt =====
-- A state whose heap has a layout, and what changes of the links keep of it.
use cs0330_fall2022_7_malloc.Base.{
  ℕ, ◌+◌, ◌^◌, ◌≤◌, ◌<◌, ◌≡◌, false, true, ◌⊎◌, inl, inr, arith, count, lt-cases, ◌∙◌, sym, ◌≢◌,
}
use cs0330_fall2022_7_malloc.Machine.{Mem, State}
use cs0330_fall2022_7_malloc.Machine.Bytes.{write_outside}
use cs0330_fall2022_7_malloc.Block.Laws.{FreeHere}
use cs0330_fall2022_7_malloc.Layout.{Blocks, Heap, frees, link_byte, SameButLinks}
use cs0330_fall2022_7_malloc.Layout.Frame.{Heap-links}
use cs0330_fall2022_7_malloc.Layout.Place.{Sep, frees-block, frees-Sep, link_byte-free}
use cs0330_fall2022_7_malloc.FreeList.Ring.{set_flink, set_blink}

-- The heap of the state has the layout `bs`, at addresses that pointer sums cannot wrap at.
pub record Sound (s : State) (bs : Blocks) : Type 0 where
  pub heap : Heap s.mem s.mem_brk s.mem_start_brk bs
  pub low : 0 < s.mem_start_brk
  pub top : s.mem_brk < 2 ^ 63

abbrev pub IsFree : State → Blocks → ℕ → Type 0
IsFree s bs q = 0 < count q (frees s.mem_start_brk bs)

module _ {s : State} {bs : Blocks} (ok : Sound s bs) where
  pub IsFree-here : (q : ℕ) → IsFree s bs q → FreeHere s q
  IsFree-here q f =
      let (n, at, links, lo, hi) = frees-block q ok.heap f in
      record { size = n; here = record { at = at; lo = lo; hi = hi; top = ok.top }; links = links }

  pub IsFree-Sep : (q r : ℕ) → IsFree s bs q → IsFree s bs r → Sep q r
  IsFree-Sep q r = frees-Sep q r ok.heap

  pub IsFree-small : (q : ℕ) → IsFree s bs q → (0 < q) × (q < 2 ^ 64)
  IsFree-small q f =
      let (n, at, links, lo, hi) = frees-block q ok.heap f in
      (omega (arith, ok.low), omega (arith, ok.top))

  pub Sound-links :
      (m' : Mem) → SameButLinks s.mem_start_brk bs s.mem m' → Sound (record s { mem = m' }) bs
  Sound-links m' same = record {
    heap = Heap-links m' (λ a lo out. same a out) ok.heap;
    low = ok.low;
    top = ok.top;
  }

-- Writes to the links of a free block.
module _ (p : ℕ) (bs : Blocks) (q : ℕ) (f : 0 < count q (frees p bs)) where
  off_links : (a : ℕ) → link_byte p bs a ≡ false → (a < q + 8) ⊎ (q + 24 ≤ a)
  off_links a out = elim (lt-cases a (q + 8)) [
    | inl below ↦ inl below
    | inr above ↦ elim (lt-cases a (q + 24)) [
      | inl inside ↦ absurd (false_ne_true (sym out ∙ link_byte-free q p bs a f above inside))
      | inr over ↦ inr over
    ]
  ]
    where
      false_ne_true : false ≢ true
      false_ne_true e = cc

  pub set_flink-SameButLinks : (m : Mem) (v : ℕ) → SameButLinks p bs m (set_flink m q v)
  set_flink-SameButLinks m v a out = write_outside 8 m (q + 8) v a (omega (arith, off_links a out))

  pub set_blink-SameButLinks : (m : Mem) (v : ℕ) → SameButLinks p bs m (set_blink m q v)
  set_blink-SameButLinks m v a out = write_outside 8 m (q + 16) v a (omega (arith, off_links a out))

pub SameButLinks-trans :
    (p : ℕ) (bs : Blocks) {m m' m'' : Mem}
    → SameButLinks p bs m m'
    → SameButLinks p bs m' m''
    → SameButLinks p bs m m''
SameButLinks-trans p bs h k a out = k a out ∙ h a out
