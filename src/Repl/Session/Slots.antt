-- ===== src/Repl/Session/Slots.antt =====
-- The table of the interactive part, and the entries of the blocks in use.
use cs0330_fall2022_7_malloc.Base.{
  ℕ, zero, suc, ◌<◌, ◌≡◌, ◌≢◌, refl, List, [], ◌∷◌, ◌++◌, length, count, Option, some, arith, ◌∙◌,
  split_at,
}
use cs0330_fall2022_7_malloc.Driver.{get_elem?}
use cs0330_fall2022_7_malloc.Driver.Checked.{Entry, AllPositive, indices}
use cs0330_fall2022_7_malloc.Driver.Checked.Arrays.{entry_at}
use cs0330_fall2022_7_malloc.Repl.{ReplBlock}
use cs0330_fall2022_7_malloc.Repl.Session.{Slot, AllSlots}

pub AllSlots-AllPositive :
    (blocks : List ReplBlock) (live : List Entry) → AllSlots blocks live → AllPositive live
AllSlots-AllPositive blocks [] h = tt
AllSlots-AllPositive blocks (e ∷ live) ((b, at, used, ptr, size, pos, small), h) =
    (pos, AllSlots-AllPositive blocks live h)

pub AllSlots-split :
    (blocks : List ReplBlock) (xs : List Entry) (e : Entry) (ys : List Entry)
    → AllSlots blocks (xs ++ (e ∷ ys))
    → Slot blocks e × AllSlots blocks (xs ++ ys)
AllSlots-split blocks [] e ys h = h
AllSlots-split blocks (x ∷ xs) e ys h =
    let (here, rest) = AllSlots-split blocks xs e ys h.1 in (here, (h.0, rest))

-- A write at an index keeps the entries at all others.
pub AllSlots-update :
    (blocks blocks' : List ReplBlock) (i : ℕ) (live : List Entry)
    → count i (indices live) ≡ 0
    → ((j : ℕ) → j ≢ i → get_elem? blocks' j ≡ get_elem? blocks j)
    → AllSlots blocks live
    → AllSlots blocks' live
AllSlots-update blocks blocks' i [] absent others h = tt
AllSlots-update blocks blocks' i (e ∷ live) absent others
      ((b, at, used, ptr, size, pos, small), h) =
    let ne : e.index ≢ i = λ same. ground (arith, same, absent) in
    let rest : count i (indices live) ≡ 0 = ground (arith, absent) in
    (
      (b, others e.index ne ∙ at, used, ptr, size, pos, small),
      AllSlots-update blocks blocks' i live rest others h,
    )

-- The entry of an index in use.
pub entry_of :
    (live : List Entry) (i : ℕ)
    → 0 < count i (indices live)
    → (xs : List Entry) × (e : Entry) × (ys : List Entry) × (live ≡ xs ++ (e ∷ ys)) × (e.index ≡ i)
entry_of live i h =
    let (us, vs, cut) = split_at i (indices live) h in
    let (xs, e, ys, at, same, front, back) = entry_at live us i vs cut in (xs, e, ys, at, same)

-- In range there is an element.
pub get_elem?-some :
    {A : Type 0} (xs : List A) (i : ℕ) → i < length xs → (x : A) × (get_elem? xs i ≡ some x)
get_elem?-some [] i lt = absurd (omega arith)
get_elem?-some (x ∷ xs) zero lt = (x, refl)
get_elem?-some (x ∷ xs) (suc i) lt = get_elem?-some xs i (omega arith)

pub get_elem?-same : {A : Type 0} {x y : A} {r : Option A} → r ≡ some x → r ≡ some y → x ≡ y
get_elem?-same e e' = cc
