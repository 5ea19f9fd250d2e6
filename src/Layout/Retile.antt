-- ===== src/Layout/Retile.antt =====
-- Exchanging the blocks of a range for others that fill the same range.
use cs0330_fall2022_7_malloc.Base.{
  ℕ, ◌+◌, ◌≤◌, ◌<◌, ◌≡◌, List, [], ◌∷◌, ◌++◌, arith, ◌⊎◌, inl, inr, ◌∙◌, count, count-append,
  count_self, SameItems, lt-cases,
}
use cs0330_fall2022_7_malloc.Machine.{Mem, State}
use cs0330_fall2022_7_malloc.Machine.Bytes.{read_agree}
use cs0330_fall2022_7_malloc.Layout.{Blocks, span, Heap, Heap-end, Heap-split, Heap-join, frees}
use cs0330_fall2022_7_malloc.Layout.Frame.{Heap-frame}
use cs0330_fall2022_7_malloc.Layout.Place.{frees-block, frees-lower}
use cs0330_fall2022_7_malloc.Layout.Sound.{Sound}
use cs0330_fall2022_7_malloc.FreeList.Ring.{flink, blink, Seg-frame, IsRing, FreeRing}

-- The memories agree outside the bytes from `q` to `c`.
abbrev pub SameOutside : ℕ → ℕ → Mem → Mem → Type 0
SameOutside q c m m' = (a : ℕ) → ((a < q) ⊎ (c ≤ a)) → m' a ≡ m a

-- The free blocks before and after a range.
abbrev pub others : ℕ → Blocks → ℕ → Blocks → List ℕ
others p xs c ys = frees p xs ++ frees c ys

pub FreeRing-same :
    {m : Mem} {first : ℕ} {fs : List ℕ} (fs' : List ℕ)
    → SameItems fs fs'
    → FreeRing m first fs
    → FreeRing m first fs'
FreeRing-same fs' same r = record {
  ring = r.ring;
  is_ring = r.is_ring;
  same = λ x. r.same x ∙ same x;
}

-- A ring is kept by a change that spares the links of its blocks.
IsRing-frame :
    (m m' : Mem) (first : ℕ) (ring : List ℕ)
    → ((x : ℕ) → 0 < count x ring → (flink m' x ≡ flink m x) × (blink m' x ≡ blink m x))
    → IsRing m first ring
    → IsRing m' first ring
IsRing-frame m m' first [] same is = is
IsRing-frame m m' first (r ∷ rs) same is = (
  is.0,
  Seg-frame m m' r rs r (λ x i. (same x i).0) (λ x i. (same x (omega arith)).1)
      (same r (omega (arith, count_self r rs))).1 is.1,
)

pub FreeRing-frame :
    {m : Mem} (m' : Mem) {first : ℕ} {fs : List ℕ} (q c : ℕ)
    → SameOutside q c m m'
    → ((x : ℕ) → 0 < count x fs → ((x + 32 ≤ q) ⊎ (c ≤ x)))
    → FreeRing m first fs
    → FreeRing m' first fs
FreeRing-frame {m} m' {first} q c same out r = record {
  ring = r.ring;
  is_ring =
      IsRing-frame m m' first r.ring
        (λ x i.
          let away = out x (omega (arith, r.same x)) in
          (
            read_agree 8 m m' (x + 8)
                (λ a lo hi. same a (beside x a away (omega arith) (omega arith))),
            read_agree 8 m m' (x + 16)
                (λ a lo hi. same a (beside x a away (omega arith) (omega arith))),
          ))
        r.is_ring;
  same = r.same;
}
  where
    beside : (x a : ℕ) → ((x + 32 ≤ q) ⊎ (c ≤ x)) → x ≤ a → a < x + 32 → ((a < q) ⊎ (c ≤ a))
    beside x a (inl h) lo hi = inl (omega arith)
    beside x a (inr h) lo hi = inr (omega arith)

module _ {s : State} (xs mid ys : Blocks) (sound : Sound s (xs ++ (mid ++ ys))) where
  from : ℕ
  from = s.mem_start_brk + span xs

  upto : ℕ
  upto = from + span mid

  parts :
      Heap s.mem from s.mem_start_brk xs × Heap s.mem upto from mid × Heap s.mem s.mem_brk upto ys
  unfolding from upto
  parts =
      let (front, rest) = Heap-split s.mem_start_brk xs (mid ++ ys) sound.heap in
      let (middle, back) = Heap-split (s.mem_start_brk + span xs) mid ys rest in
      (front, middle, back)

  pub middle : Heap s.mem (s.mem_start_brk + span xs + span mid) (s.mem_start_brk + span xs) mid
  unfolding from upto
  middle = parts.1

  pub upto-le : s.mem_start_brk + span xs + span mid ≤ s.mem_brk
  unfolding from upto
  upto-le = omega (arith, Heap-end parts.2)

  pub others-outside :
      (x : ℕ)
      → 0 < count x (others s.mem_start_brk xs (s.mem_start_brk + span xs + span mid) ys)
      → (x + 32 ≤ s.mem_start_brk + span xs) ⊎ (s.mem_start_brk + span xs + span mid ≤ x)
  unfolding from upto
  others-outside x i =
      let p = s.mem_start_brk in
      elim (lt-cases 0 (count x (frees p xs))) [
        | inl front ↦ let (n, at, links, lo, hi) = frees-block x parts.0 front in inl (omega arith)
        | inr none ↦ inr (
            frees-lower x parts.2
              (omega (arith, count-append x (frees p xs) (frees (p + span xs + span mid) ys))))
      ]

  pub Sound-retile :
      (mid' : Blocks) (m' : Mem)
      → SameOutside (s.mem_start_brk + span xs) (s.mem_start_brk + span xs + span mid) s.mem m'
      → Heap m' (s.mem_start_brk + span xs + span mid) (s.mem_start_brk + span xs) mid'
      → Sound (record s { mem = m' }) (xs ++ (mid' ++ ys))
  unfolding from upto
  Sound-retile mid' m' same new = record {
    heap =
        Heap-join (Heap-frame m' (λ a lo hi. same a (inl hi)) parts.0)
          (Heap-join new (Heap-frame m' (λ a lo hi. same a (inr lo)) parts.2));
    low = sound.low;
    top = sound.top;
  }

  pub FreeRing-retile :
      (m' : Mem) {first : ℕ}
      → SameOutside (s.mem_start_brk + span xs) (s.mem_start_brk + span xs + span mid) s.mem m'
      → FreeRing s.mem first (others s.mem_start_brk xs (s.mem_start_brk + span xs + span mid) ys)
      → FreeRing m' first (others s.mem_start_brk xs (s.mem_start_brk + span xs + span mid) ys)
  FreeRing-retile m' same r =
      FreeRing-frame m' (s.mem_start_brk + span xs) (s.mem_start_brk + span xs + span mid) same
        others-outside r
