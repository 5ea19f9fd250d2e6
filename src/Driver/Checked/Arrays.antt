-- ===== src/Driver/Checked/Arrays.antt =====
-- The two arrays of a trace, and the entries that stand in them.
use cs0330_fall2022_7_malloc.Base.{
  ℕ, zero, suc, ◌<◌, ◌≡◌, ◌≢◌, refl, ap, List, [], ◌∷◌, ◌++◌, length, count, some, arith, ◌∙◌,
}
use cs0330_fall2022_7_malloc.Driver.{Range, Track, get_elem?, set_elem?}
use cs0330_fall2022_7_malloc.Driver.Checked.{
  Entry, all_held, held_of, indices, Filed, AllFiled, AllPositive,
}

-- A write in range changes one element.
pub set_elem?-lem :
    {A : Type 0} (xs : List A) (i : ℕ) (a : A)
    → i < length xs
    → (ys : List A) × (set_elem? xs i a ≡ some ys)
      × (get_elem? ys i ≡ some a)
      × ((j : ℕ) → j ≢ i → get_elem? ys j ≡ get_elem? xs j)
      × (length ys ≡ length xs)
set_elem?-lem [] i a lt = absurd (omega arith)
set_elem?-lem (x ∷ xs) zero a lt = (a ∷ xs, refl, refl, others, refl)
  where
    others : (j : ℕ) → j ≢ 0 → get_elem? (a ∷ xs) j ≡ get_elem? (x ∷ xs) j
    others zero ne = absurd (ne refl)
    others (suc j) ne = refl
set_elem?-lem {A} (x ∷ xs) (suc i) a lt =
    let (ys, e, here, others, long) = set_elem?-lem xs i a (omega arith) in
    (x ∷ ys, rw e refl, here, shifted ys others, ap suc long)
  where
    shifted :
        (ys : List A)
        → ((j : ℕ) → j ≢ i → get_elem? ys j ≡ get_elem? xs j)
        → (j : ℕ) → j ≢ suc i
        → get_elem? (x ∷ ys) j ≡ get_elem? (x ∷ xs) j
    shifted ys h zero ne = refl
    shifted ys h (suc j) ne = h j (λ e. ne (ap suc e))

pub all_held-append : (xs ys : List Entry) → all_held (xs ++ ys) ≡ all_held xs ++ all_held ys
all_held-append [] ys = refl
all_held-append (x ∷ xs) ys = ap (λ t. held_of x ∷ t) (all_held-append xs ys)

pub indices-append : (xs ys : List Entry) → indices (xs ++ ys) ≡ indices xs ++ indices ys
indices-append [] ys = refl
indices-append (x ∷ xs) ys = ap (λ t. x.index ∷ t) (indices-append xs ys)

pub AllFiled-split :
    (t : Track) (xs : List Entry) (e : Entry) (ys : List Entry)
    → AllFiled t (xs ++ (e ∷ ys))
    → Filed t e × AllFiled t (xs ++ ys)
AllFiled-split t [] e ys h = h
AllFiled-split t (x ∷ xs) e ys h =
    let (here, rest) = AllFiled-split t xs e ys h.1 in (here, (h.0, rest))

-- A write at an index keeps the entries at all others.
pub AllFiled-update :
    (t t' : Track) (i : ℕ) (live : List Entry)
    → count i (indices live) ≡ 0
    → ((j : ℕ) → j ≢ i → get_elem? t'.blocks j ≡ get_elem? t.blocks j)
    → ((j : ℕ) → j ≢ i → get_elem? t'.block_sizes j ≡ get_elem? t.block_sizes j)
    → AllFiled t live
    → AllFiled t' live
AllFiled-update t t' i [] absent blocks sizes h = tt
AllFiled-update t t' i (e ∷ live) absent blocks sizes h =
    let ne : e.index ≢ i = λ same. ground (arith, same, absent) in
    let rest : count i (indices live) ≡ 0 = ground (arith, absent) in
    let ((block, size, pos, small), others) = h in
    (
      (blocks e.index ne ∙ block, sizes e.index ne ∙ size, pos, small),
      AllFiled-update t t' i live rest blocks sizes others,
    )

-- The entry of an index in use.
pub entry_at :
    (live : List Entry) (xs : List ℕ) (i : ℕ) (ys : List ℕ)
    → indices live ≡ xs ++ (i ∷ ys)
    → (xs' : List Entry) × (e : Entry) × (ys' : List Entry) × (live ≡ xs' ++ (e ∷ ys'))
      × (e.index ≡ i)
      × (indices xs' ≡ xs)
      × (indices ys' ≡ ys)
entry_at [] [] i ys e = absurd (nil_cons e)
  where
    nil_cons : ◌≡◌ {A = List ℕ} [] (i ∷ ys) → ⊥
    nil_cons e = cc
entry_at [] (x ∷ xs) i ys e = absurd (nil_cons e)
  where
    nil_cons : ◌≡◌ {A = List ℕ} [] (x ∷ (xs ++ (i ∷ ys))) → ⊥
    nil_cons e = cc
entry_at (b ∷ live) [] i ys e = ([], b, live, refl, cc, refl, cc)
entry_at (b ∷ live) (x ∷ xs) i ys e =
    let rest : indices live ≡ xs ++ (i ∷ ys) = cc in
    let first : b.index ≡ x = cc in
    let (xs', b', ys', at, same, front, back) = entry_at live xs i ys rest in
    (
      b ∷ xs',
      b',
      ys',
      ap (λ t. b ∷ t) at,
      same,
      ap (λ t. b.index ∷ t) front ∙ ap (λ t. t ∷ xs) first,
      back,
    )

pub AllFiled-ranges :
    (t : Track) (rs : List Range) (live : List Entry)
    → AllFiled t live
    → AllFiled (record t { ranges = rs }) live
AllFiled-ranges t rs [] h = tt
AllFiled-ranges t rs (e ∷ live) h = (h.0, AllFiled-ranges t rs live h.1)

-- The indices stay different when a block is taken out, or moved to the front.
pub count-indices :
    (j : ℕ) (xs : List Entry) (e : Entry) (ys : List Entry)
    → count j (indices (xs ++ (e ∷ ys))) ≡ count j (e.index ∷ indices (xs ++ ys))
count-indices j [] e ys = refl
count-indices j (x ∷ xs) e ys = omega (arith, count-indices j xs e ys)

pub AllFiled-AllPositive : (t : Track) (live : List Entry) → AllFiled t live → AllPositive live
AllFiled-AllPositive t [] h = tt
AllFiled-AllPositive t (e ∷ live) ((block, size, pos, small), h) =
    (pos, AllFiled-AllPositive t live h)
