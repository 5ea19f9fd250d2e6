-- ===== src/Layout/Shape.antt =====
-- The order in which blocks may follow one another: a prologue of 16 bytes, blocks of 32 bytes or
-- more of which no two free ones are neighbours, and an epilogue of 16 bytes.
use cs0330_fall2022_7_malloc.Base.{
  ℕ, ◌≤◌, ◌≡◌, ◌≢◌, refl, sym, [], ◌∷◌, ◌++◌, Bool, true, false, ◌&&◌, arith, ◌∙◌, leb, ◌==◌,
  if◌then◌else◌, ap, subst,
}
use cs0330_fall2022_7_malloc.Layout.{Blocks}

-- What stands before a block: nothing, a block in use, a free block, or the epilogue; `broken`
-- if the order was violated.
pub data Place : Type 0 where
  at_start after_used after_free at_end broken : Place

unfoldable pub next : Place → ℕ → Bool → Place
next at_start n f = if f && n == 16 then after_used else broken
next after_used n true = if n == 16 then at_end else if leb 32 n then after_used else broken
next after_used n false = if leb 32 n then after_free else broken
next after_free n true = if n == 16 then at_end else if leb 32 n then after_used else broken
next after_free n false = broken
next at_end n f = broken
next broken n f = broken

unfoldable pub walk : Place → Blocks → Place
walk p [] = p
walk p ((n, f) ∷ bs) = walk (next p n f) bs

abbrev pub IsShaped : Blocks → Type 0
IsShaped bs = walk at_start bs ≡ at_end

pub walk-append : (p : Place) (xs ys : Blocks) → walk p (xs ++ ys) ≡ walk (walk p xs) ys
unfolding walk
walk-append p [] ys = refl
walk-append p ((n, f) ∷ xs) ys = walk-append (next p n f) xs ys

walk-broken : (bs : Blocks) → walk broken bs ≡ broken
unfolding walk next
walk-broken [] = refl
walk-broken ((n, f) ∷ bs) = walk-broken bs

pub walk_end : (p : Place) (bs : Blocks) → walk p bs ≡ at_end → p ≢ broken
walk_end p bs h e = cc (walk-broken bs, ap (λ t. walk t bs) e)

-- The rest of a walk that ends well goes on from any place that is the same, if not broken.
pub walk_same :
    (p p' : Place) (bs : Blocks) → (p ≢ broken → p' ≡ p) → walk p bs ≡ at_end → walk p' bs ≡ at_end
walk_same p p' bs same h = ap (λ t. walk t bs) (same (walk_end p bs h)) ∙ h

-- In a shaped layout no free block stands next to another.
pub no_free_neighbours :
    (xs : Blocks) (k n : ℕ) (g : Bool) (ys : Blocks)
    → IsShaped (xs ++ ((k, false) ∷ ((n, g) ∷ ys)))
    → g ≡ true
unfolding walk next
no_free_neighbours xs k n true ys h = refl
no_free_neighbours xs k n false ys h =
    let p = walk at_start xs in
    let whole : walk (next (next p k false) n false) ys ≡ at_end =
      sym (walk-append at_start xs ((k, false) ∷ ((n, false) ∷ ys))) ∙ h in
    absurd (walk_end (next (next p k false) n false) ys whole (two_free p k n))
  where
    two_free : (p : Place) (k n : ℕ) → next (next p k false) n false ≡ broken
    two_free p k n = ground arith

-- A block of 32 bytes or more is not the first of a shaped layout, and not the last.
pub not_first : (n : ℕ) (f : Bool) (ys : Blocks) → 32 ≤ n → IsShaped ((n, f) ∷ ys) → ⊥
unfolding walk next
not_first n f ys big h = walk_end (next at_start n f) ys h (ground arith)

pub not_last : (xs : Blocks) (n : ℕ) (f : Bool) → 32 ≤ n → IsShaped (xs ++ ((n, f) ∷ [])) → ⊥
unfolding walk next
not_last xs n f big h =
    let p = walk at_start xs in
    let whole : next p n f ≡ at_end = sym (walk-append at_start xs ((n, f) ∷ [])) ∙ h in
    ends p n f big whole
  where
    ends : (p : Place) (n : ℕ) (f : Bool) → 32 ≤ n → next p n f ≡ at_end → ⊥
    ends p n f big e = ground arith

-- Two runs of blocks that lead to the same place can be exchanged.
pub walk-swap :
    (xs mid mid' ys : Blocks)
    → (walk (walk at_start xs) (mid ++ ys) ≡ at_end → walk (walk at_start xs) (mid' ++ ys) ≡ at_end)
    → IsShaped (xs ++ (mid ++ ys))
    → IsShaped (xs ++ (mid' ++ ys))
walk-swap xs mid mid' ys swap h =
    walk-append at_start xs (mid' ++ ys) ∙ swap (sym (walk-append at_start xs (mid ++ ys)) ∙ h)

-- A free block may be taken as a whole, or in part from its beginning.
pub walk_used_of_free : (ys : Blocks) → walk after_free ys ≡ at_end → walk after_used ys ≡ at_end
unfolding walk next
walk_used_of_free [] h = cc
walk_used_of_free ((j, true) ∷ ys) h = h
walk_used_of_free ((j, false) ∷ ys) h = absurd (walk_end broken ys h refl)

free_place :
    (p : Place) (n : ℕ)
    → next p n false ≢ broken
    → (p ≡ after_used) × (next p n false ≡ after_free) × (32 ≤ n)
unfolding next
free_place p n w = ground arith

pub IsShaped-take :
    (xs : Blocks) (n : ℕ) (ys : Blocks)
    → IsShaped (xs ++ ((n, false) ∷ ys))
    → IsShaped (xs ++ ((n, true) ∷ ys))
unfolding walk next
IsShaped-take xs n ys h =
    let p = walk at_start xs in
    let whole : walk (next p n false) ys ≡ at_end =
      sym (walk-append at_start xs ((n, false) ∷ ys)) ∙ h in
    let (at, to, big) = free_place p n (walk_end (next p n false) ys whole) in
    let used : next p n true ≡ after_used =
      used_next p n at big (walk_end (next p n false) ys whole) whole in
    walk-append at_start xs ((n, true) ∷ ys)
    ∙ ap (λ t. walk t ys) used
    ∙ walk_used_of_free ys (subst (λ t. walk t ys ≡ at_end) to whole)
  where
    used_next :
        (p : Place) (n : ℕ)
        → p ≡ after_used
        → 32 ≤ n
        → next p n false ≢ broken
        → walk (next p n false) ys ≡ at_end
        → next p n true ≡ after_used
    used_next p n at big w whole = ground arith

pub IsShaped-split :
    (xs : Blocks) (r k n : ℕ) (ys : Blocks)
    → 32 ≤ r
    → 32 ≤ k
    → IsShaped (xs ++ ((n, false) ∷ ys))
    → IsShaped (xs ++ ((r, true) ∷ ((k, false) ∷ ys)))
unfolding walk next
IsShaped-split xs r k n ys big big' h =
    let p = walk at_start xs in
    let whole : walk (next p n false) ys ≡ at_end =
      sym (walk-append at_start xs ((n, false) ∷ ys)) ∙ h in
    let w = walk_end (next p n false) ys whole in
    walk-append at_start xs ((r, true) ∷ ((k, false) ∷ ys))
    ∙ ap (λ t. walk t ys) (split_next p r k n big big' w)
    ∙ whole
  where
    split_next :
        (p : Place) (r k n : ℕ)
        → 32 ≤ r
        → 32 ≤ k
        → next p n false ≢ broken
        → next (next p r true) k false ≡ next p n false
    split_next p r k n big big' w = ground arith
