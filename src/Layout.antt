-- ===== src/Layout.antt =====
-- What the bytes of a heap stand for: blocks in order of address, each with its size and with
-- `true` if it is allocated, the prologue first and the epilogue last.
pub mod Frame
pub mod Payload
pub mod Place
pub mod Retile
pub mod Shape
pub mod Sound
use cs0330_fall2022_7_malloc.Base.{
  ℕ, ◌+◌, ◌-◌, ◌*◌, ◌%◌, ◌≤◌, ◌<◌, ◌≡◌, refl, sym, subst, List, [], ◌∷◌, ◌++◌, Bool, true, false,
  not, ◌&&◌, ◌||◌, ltb, leb, if◌then◌else◌, arith, ◌⊎◌,
}
use cs0330_fall2022_7_malloc.Machine.{Mem, State, read_long, bit}

abbrev pub Blocks : Type 0
Blocks = List (ℕ × Bool)

-- The bytes that the blocks take up.
abbrev pub span : Blocks → ℕ
span [] = 0
span ((n, f) ∷ bs) = n + span bs

-- A block of `n` bytes at `p`: both tags hold its size and its flag.
pub record IsBlock (m : Mem) (p n : ℕ) (f : Bool) : Type 0 where
  pub header : read_long m p ≡ n + bit f
  pub footer : read_long m (p + n - 8) ≡ n + bit f
  pub aligned : n % 8 ≡ 0
  pub tags : 16 ≤ n

-- The blocks fill the addresses from `p` up to `e`, and a free one has room for its links.
pub data Heap (m : Mem) (e : ℕ) : ℕ → Blocks → Type 0 where
  done : {p : ℕ} → p ≡ e → Heap m e p []
  block :
      {p n : ℕ} {f : Bool} {bs : Blocks}
      → IsBlock m p n f
      → 32 ≤ n + 16 * bit f
      → Heap m e (p + n) bs
      → Heap m e p ((n, f) ∷ bs)

-- The addresses of the free blocks.
abbrev pub frees : ℕ → Blocks → List ℕ
frees p [] = []
frees p ((n, true) ∷ bs) = frees (p + n) bs
frees p ((n, false) ∷ bs) = p ∷ frees (p + n) bs

-- The byte lies in the links of a free block.
abbrev pub link_byte : ℕ → Blocks → ℕ → Bool
link_byte p [] a = false
link_byte p ((n, f) ∷ bs) a = (not f && (leb (p + 8) a && ltb a (p + 24))) || link_byte (p + n) bs a

-- The memories differ at most in the links of free blocks.
abbrev pub SameButLinks : ℕ → Blocks → Mem → Mem → Type 0
SameButLinks p bs m m' = (a : ℕ) → link_byte p bs a ≡ false → m' a ≡ m a

pub span-append : (xs ys : Blocks) → span (xs ++ ys) ≡ span xs + span ys
span-append [] ys = omega arith
span-append ((n, f) ∷ xs) ys = omega (arith, span-append xs ys)

module _ {m : Mem} {e : ℕ} where
  pub Heap-end : {p : ℕ} {bs : Blocks} → Heap m e p bs → p + span bs ≡ e
  Heap-end (done h) = omega arith
  Heap-end (block b l h) = omega (arith, Heap-end h)

  pub Heap-head : {p n : ℕ} {f : Bool} {bs : Blocks} → Heap m e p ((n, f) ∷ bs) → IsBlock m p n f
  Heap-head (block b l h) = b

  pub Heap-tail :
      {p n : ℕ} {f : Bool} {bs : Blocks} → Heap m e p ((n, f) ∷ bs) → Heap m e (p + n) bs
  Heap-tail (block b l h) = h

  pub Heap-split :
      (p : ℕ) (xs ys : Blocks)
      → Heap m e p (xs ++ ys)
      → Heap m (p + span xs) p xs × Heap m e (p + span xs) ys
  Heap-split p [] ys h = (done (omega arith), subst (λ q. Heap m e q ys) (omega arith) h)
  Heap-split p ((n, f) ∷ xs) ys (block b l h) =
      let (front, back) = Heap-split (p + n) xs ys h in
      let e₁ : p + n + span xs ≡ p + (n + span xs) = omega arith in
      (block b l (subst (λ q. Heap m q (p + n) xs) e₁ front), subst (λ q. Heap m e q ys) e₁ back)

  pub Heap-join : {q p : ℕ} {xs ys : Blocks} → Heap m q p xs → Heap m e q ys → Heap m e p (xs ++ ys)
  Heap-join {ys} (done h) k = subst (λ t. Heap m e t ys) (sym h) k
  Heap-join (block b l h) k = block b l (Heap-join h k)
