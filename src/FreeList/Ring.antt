-- ===== src/FreeList/Ring.antt =====
-- The links of the free list: segments that are linked both ways, and the ring that
-- `flist_first` heads.
use cs0330_fall2022_7_malloc.Base.{
  ℕ, ◌+◌, ◌^◌, ◌≤◌, ◌<◌, ◌≡◌, ◌≢◌, sym, subst, List, [], ◌∷◌, ◌++◌, arith, ◌∙◌, count, count_self,
  SameItems,
}
use cs0330_fall2022_7_malloc.Machine.{Mem, read_long, write_long, null}
use cs0330_fall2022_7_malloc.Machine.Bytes.{read-write_long, read-write_long_outside}
use cs0330_fall2022_7_malloc.Layout.Place.{Sep}

abbrev pub flink : Mem → ℕ → ℕ
flink m q = read_long m (q + 8)

abbrev pub blink : Mem → ℕ → ℕ
blink m q = read_long m (q + 16)

abbrev pub set_flink : Mem → ℕ → ℕ → Mem
set_flink m q v = write_long m (q + 8) v

abbrev pub set_blink : Mem → ℕ → ℕ → Mem
set_blink m q v = write_long m (q + 16) v

module _ (m : Mem) (q v : ℕ) where
  pub flink-set_flink : v < 2 ^ 64 → flink (set_flink m q v) q ≡ v
  flink-set_flink h = read-write_long m (q + 8) v h

  pub blink-set_blink : v < 2 ^ 64 → blink (set_blink m q v) q ≡ v
  blink-set_blink h = read-write_long m (q + 16) v h

  pub flink-set_flink_ne : (r : ℕ) → r ≢ q → Sep q r → flink (set_flink m q v) r ≡ flink m r
  flink-set_flink_ne r ne sep = read-write_long_outside m (q + 8) v (r + 8) (omega arith)

  pub blink-set_blink_ne : (r : ℕ) → r ≢ q → Sep q r → blink (set_blink m q v) r ≡ blink m r
  blink-set_blink_ne r ne sep = read-write_long_outside m (q + 16) v (r + 16) (omega arith)

  pub flink-set_blink : (r : ℕ) → Sep q r → flink (set_blink m q v) r ≡ flink m r
  flink-set_blink r sep = read-write_long_outside m (q + 16) v (r + 8) (omega arith)

  pub blink-set_flink : (r : ℕ) → Sep q r → blink (set_flink m q v) r ≡ blink m r
  blink-set_flink r sep = read-write_long_outside m (q + 8) v (r + 16) (omega arith)

-- From `a` the links lead through `rest` to `z`, and back.
abbrev pub Seg : Mem → ℕ → List ℕ → ℕ → Type 0
Seg m a [] z = (flink m a ≡ z) × (blink m z ≡ a)
Seg m a (b ∷ rest) z = (flink m a ≡ b) × (blink m b ≡ a) × Seg m b rest z

-- The blocks of the list `ring`, in order from `first`, are linked in a circle.
abbrev pub IsRing : Mem → ℕ → List ℕ → Type 0
IsRing m first [] = first ≡ null
IsRing m first (r ∷ rs) = (first ≡ r) × Seg m r rs r

-- The free list holds the blocks of `fs`, in some order.
pub record FreeRing (m : Mem) (first : ℕ) (fs : List ℕ) : Type 0 where
  pub ring : List ℕ
  pub is_ring : IsRing m first ring
  pub same : SameItems ring fs

abbrev pub last : ℕ → List ℕ → ℕ
last a [] = a
last a (b ∷ rest) = last b rest

pub count-last : (a : ℕ) (rest : List ℕ) → 0 < count (last a rest) (a ∷ rest)
count-last a [] = omega (arith, count_self a [])
count-last a (b ∷ rest) = ground (arith, count-last b rest)

pub Seg-last :
    (m : Mem) (a : ℕ) (rest : List ℕ) (z : ℕ)
    → Seg m a rest z
    → (flink m (last a rest) ≡ z) × (blink m z ≡ last a rest)
Seg-last m a [] z h = h
Seg-last m a (b ∷ rest) z h = Seg-last m b rest z h.2

pub Seg-split :
    (m : Mem) (a : ℕ) (us : List ℕ) (b : ℕ) (vs : List ℕ) (z : ℕ)
    → Seg m a (us ++ (b ∷ vs)) z
    → Seg m a us b × Seg m b vs z
Seg-split m a [] b vs z h = ((h.0, h.1), h.2)
Seg-split m a (u ∷ us) b vs z h =
    let (front, back) = Seg-split m u us b vs z h.2 in ((h.0, h.1, front), back)

pub Seg-join :
    (m : Mem) (a : ℕ) (us : List ℕ) (b : ℕ) (vs : List ℕ) (z : ℕ)
    → Seg m a us b
    → Seg m b vs z
    → Seg m a (us ++ (b ∷ vs)) z
Seg-join m a [] b vs z h k = (h.0, h.1, k)
Seg-join m a (u ∷ us) b vs z h k = (h.0, h.1, Seg-join m u us b vs z h.2 k)

pub Seg-frame :
    (m m' : Mem) (a : ℕ) (rest : List ℕ) (z : ℕ)
    → ((x : ℕ) → 0 < count x (a ∷ rest) → flink m' x ≡ flink m x)
    → ((x : ℕ) → 0 < count x rest → blink m' x ≡ blink m x)
    → blink m' z ≡ blink m z
    → Seg m a rest z
    → Seg m' a rest z
Seg-frame m m' a [] z f g e h = (f a (omega (arith, count_self a [])) ∙ h.0, e ∙ h.1)
Seg-frame m m' a (b ∷ rest) z f g e h = (
  f a (omega (arith, count_self a (b ∷ rest))) ∙ h.0,
  g b (omega (arith, count_self b rest)) ∙ h.1,
  Seg-frame m m' b rest z (λ x i. f x (omega arith)) (λ x i. g x (omega arith)) e h.2,
)

head_ne_last : (a b : ℕ) (rest : List ℕ) → count a (a ∷ (b ∷ rest)) ≤ 1 → a ≢ last b rest
head_ne_last a b rest once e =
    let there : 0 < count a (b ∷ rest) =
      subst (λ t. 0 < count t (b ∷ rest)) (sym e) (count-last b rest) in
    absurd (omega (arith, count_self a (b ∷ rest)))

-- The end of a segment is moved from `z` to `z'` by two writes at its last block and at `z'`.
pub Seg-retarget :
    (m m' : Mem) (a : ℕ) (rest : List ℕ) (z z' : ℕ)
    → ((x : ℕ) → count x (a ∷ rest) ≤ 1)
    → ((x : ℕ) → 0 < count x (a ∷ rest) → x ≢ last a rest → flink m' x ≡ flink m x)
    → ((x : ℕ) → 0 < count x rest → blink m' x ≡ blink m x)
    → flink m' (last a rest) ≡ z'
    → blink m' z' ≡ last a rest
    → Seg m a rest z
    → Seg m' a rest z'
Seg-retarget m m' a [] z z' once f g e e' h = (e, e')
Seg-retarget m m' a (b ∷ rest) z z' once f g e e' h = (
  f a (omega (arith, count_self a (b ∷ rest))) (head_ne_last a b rest (once a)) ∙ h.0,
  g b (omega (arith, count_self b rest)) ∙ h.1,
  Seg-retarget m m' b rest z z' (λ x. omega (arith, once x)) (λ x i ne. f x (omega arith) ne)
      (λ x i. g x (omega arith)) e e' h.2,
)
