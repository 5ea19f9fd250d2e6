-- ===== src/Mm/Coalesce/Joined.antt =====
-- What joining the free neighbours of a freed block keeps: the order of the blocks, and the
-- allocated ones.
use cs0330_fall2022_7_malloc.Base.{
  ℕ, ◌+◌, ◌≤◌, ◌≡◌, ◌≢◌, refl, ap, ◌∷◌, Bool, true, false, arith, ◌==◌, if◌then◌else◌,
}
use cs0330_fall2022_7_malloc.Layout.{Blocks}
use cs0330_fall2022_7_malloc.Layout.Shape.{Place, at_end, broken, next, walk, walk_same}
use cs0330_fall2022_7_malloc.Mm.Coalesce.Branches.{joined}
use cs0330_fall2022_7_malloc.Mm.Coalesce.Result.{three}
use cs0330_fall2022_7_malloc.Mm.Inv.{allocs}

-- The order of the blocks is kept by joining the free neighbours of a freed block.
pub joined-walk :
    (p : Place) (k : ℕ) (g : Bool) (n j : ℕ) (h : Bool) (ys : Blocks)
    → 32 ≤ n
    → walk p ((k, g) ∷ ((n, true) ∷ ((j, h) ∷ ys))) ≡ at_end
    → walk p (joined k g n j h ys) ≡ at_end
unfolding walk next joined
joined-walk p k true n j true ys big e =
    walk_same (next (next (next p k true) n true) j true) _ ys (λ w. used_used p k n j big w) e
  where
    used_used :
        (p : Place) (k n j : ℕ)
        → 32 ≤ n
        → next (next (next p k true) n true) j true ≢ broken
        → next (next (next p k true) n false) j true ≡ next (next (next p k true) n true) j true
    used_used p k n j big w = ground arith
joined-walk p k false n j true ys big e =
    walk_same (next (next (next p k false) n true) j true) _ ys (λ w. free_used p k n j big w) e
  where
    free_used :
        (p : Place) (k n j : ℕ)
        → 32 ≤ n
        → next (next (next p k false) n true) j true ≢ broken
        → next (next p (k + n) false) j true ≡ next (next (next p k false) n true) j true
    free_used p k n j big w = ground arith
joined-walk p k true n j false ys big e =
    walk_same (next (next (next p k true) n true) j false) _ ys (λ w. used_free p k n j big w) e
  where
    used_free :
        (p : Place) (k n j : ℕ)
        → 32 ≤ n
        → next (next (next p k true) n true) j false ≢ broken
        → next (next p k true) (n + j) false ≡ next (next (next p k true) n true) j false
    used_free p k n j big w = ground arith
joined-walk p k false n j false ys big e =
    walk_same (next (next (next p k false) n true) j false) _ ys (λ w. free_free p k n j big w) e
  where
    free_free :
        (p : Place) (k n j : ℕ)
        → 32 ≤ n
        → next (next (next p k false) n true) j false ≢ broken
        → next p (k + n + j) false ≡ next (next (next p k false) n true) j false
    free_free p k n j big w = ground arith

-- The other allocated blocks are the same after the joining.
pub joined-allocs :
    (p k : ℕ) (g : Bool) (n j : ℕ) (h : Bool) (ys : Blocks)
    → allocs p (joined k g n j h ys) ≡ allocs p (three k g n j h ys)
unfolding joined
joined-allocs p k true n j true ys = refl
joined-allocs p k false n j true ys =
    let e : p + (k + n) ≡ p + k + n = omega arith in ap (λ q. allocs q ((j, true) ∷ ys)) e
joined-allocs p k true n j false ys =
    let e : p + k + (n + j) ≡ p + k + n + j = omega arith in
    ap (λ q. if k == 16 then allocs q ys else ((p, k) ∷ allocs q ys)) e
joined-allocs p k false n j false ys =
    let e : p + (k + n + j) ≡ p + k + n + j = omega arith in ap (λ q. allocs q ys) e
