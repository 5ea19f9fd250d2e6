-- ===== src/Base/Lists.antt =====
-- Lists of numbers: length, and how often a number stands in one.
use Prim.Native.Nat.{ℕ, suc, ◌+◌, ◌≤◌, ◌<◌}
use mathlib.Core.Path.{◌≡◌, ap}
use mathlib.Core.Logic.{◌≢◌, inl, inr}
use mathlib.Core.List.{List, [], ◌∷◌, ◌++◌}
use native.Mathlib.Omega.{arith}
use cs0330_fall2022_7_malloc.Base.Tests.{◌==◌, if◌then◌else◌, ==-cases}

module _ {ℓ} {A : Type ℓ} where
  abbrev pub length : List A → ℕ
  length [] = 0
  length (_ ∷ xs) = suc (length xs)

  pub length-append : (xs ys : List A) → length (xs ++ ys) ≡ length xs + length ys
  length-append [] ys = omega arith
  length-append (x ∷ xs) ys = omega (arith, length-append xs ys)

-- How often `x` stands in a list.
abbrev pub count : (x : ℕ) → List ℕ → ℕ
count x [] = 0
count x (y ∷ ys) = (if x == y then 1 else 0) + count x ys

pub count_self : (a : ℕ) (xs : List ℕ) → count a (a ∷ xs) ≡ suc (count a xs)
count_self a xs = ground arith

pub count-ne : (a b : ℕ) (xs : List ℕ) → a ≢ b → count a (b ∷ xs) ≡ count a xs
count-ne a b xs ne = ground arith

module _ (x : ℕ) where
  pub count-append : (us vs : List ℕ) → count x (us ++ vs) ≡ count x us + count x vs
  count-append [] vs = omega arith
  count-append (u ∷ us) vs = omega (arith, count-append us vs)

-- A list with a member is cut in two at it.
pub split_at :
    (a : ℕ) (xs : List ℕ) → 0 < count a xs → (us : List ℕ) × (vs : List ℕ) × (xs ≡ us ++ (a ∷ vs))
split_at a [] h = absurd (omega arith)
split_at a (b ∷ bs) h = elim (==-cases a b) [
  | inl here ↦ ([], bs, rw here.0)
  | inr there ↦
      let (us, vs, e) = split_at a bs (omega (arith, count-ne a b bs there.0)) in
      (b ∷ us, vs, ap (λ t. b ∷ t) e)
]

-- The two lists hold the same numbers, as often.
abbrev pub SameItems : (us vs : List ℕ) → Type 0
SameItems us vs = (x : ℕ) → count x us ≡ count x vs

erase : ℕ → List ℕ → List ℕ
erase a [] = []
erase a (b ∷ bs) = if a == b then bs else b ∷ erase a bs

length-erase : (a : ℕ) (xs : List ℕ) → 0 < count a xs → length xs ≡ length (erase a xs) + 1
unfolding erase
length-erase a [] h = absurd (omega arith)
length-erase a (b ∷ bs) h = ground (arith, length-erase a bs)

count-erase :
    (a b : ℕ) (xs : List ℕ) → count b xs ≤ count b (erase a xs) + (if b == a then 1 else 0)
unfolding erase
count-erase a b [] = ground arith
count-erase a b (c ∷ cs) = ground (arith, count-erase a b cs)

-- A list whose members all stand in another, as often, is no longer than that one.
pub length_le_of_count_le :
    (xs ys : List ℕ) → ((a : ℕ) → count a xs ≤ count a ys) → length xs ≤ length ys
length_le_of_count_le [] ys sub = omega arith
length_le_of_count_le (x ∷ xs) ys sub = omega (
  arith,
  length-erase x ys (omega (arith, sub x, count_self x xs)),
  length_le_of_count_le xs (erase x ys) (λ a. ground (arith, sub a, count-erase x a ys)),
)
