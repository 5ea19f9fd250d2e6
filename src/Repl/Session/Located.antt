-- ===== src/Repl/Session/Located.antt =====
-- Where an index of a session stands among the blocks in use.
use cs0330_fall2022_7_malloc.Base.{ℕ, ◌≡◌, sym, subst, ap, List, ◌∷◌, ◌++◌, true, some, ◌∙◌}
use cs0330_fall2022_7_malloc.Machine.{State}
use cs0330_fall2022_7_malloc.Driver.{get_elem?}
use cs0330_fall2022_7_malloc.Driver.Checked.{Entry}
use cs0330_fall2022_7_malloc.Repl.{ReplBlock, Repl}
use cs0330_fall2022_7_malloc.Repl.Session.{AllSlots, Agrees}
use cs0330_fall2022_7_malloc.Repl.Session.Slots.{AllSlots-split, entry_of, get_elem?-same}

entry-eq :
    (e : Entry) (i a n : ℕ)
    → e.index ≡ i
    → e.addr ≡ a
    → e.size ≡ n
    → e ≡ record { index = i; addr = a; size = n }
entry-eq e i a n p q r =
    ap (λ t. record { index = t; addr = e.addr; size = e.size }) p
    ∙ ap (λ t. record { index = i; addr = t; size = e.size }) q
    ∙ ap (λ t. record { index = i; addr = a; size = t }) r

-- What the table says of an index in use.
abbrev pub entry_for : ℕ → ReplBlock → Entry
entry_for i b = record { index = i; addr = b.ptr; size = b.size }

pub slot_of :
    (s : State) (r : Repl) (live : List Entry) (i : ℕ) (b : ReplBlock)
    → Agrees s r live
    → get_elem? r.blocks i ≡ some b
    → b.is_valid ≡ true
    → (xs : List Entry) × (ys : List Entry) × (live ≡ xs ++ (entry_for i b ∷ ys))
slot_of s r live i b h at used =
    let (xs, e, ys, cut, same) = entry_of live i (h.no_others i b at used) in
    let ((x, get, valid, ptr, size, pos, small), _) =
      AllSlots-split r.blocks xs e ys (subst (AllSlots r.blocks) cut h.slots) in
    let equal : x ≡ b = get_elem?-same (ap (get_elem? r.blocks) (sym same) ∙ get) at in
    let addr : e.addr ≡ b.ptr = sym ptr ∙ ap (λ y. y.ptr) equal in
    let bytes : e.size ≡ b.size = sym size ∙ ap (λ y. y.size) equal in
    (xs, ys, cut ∙ ap (λ t. xs ++ (t ∷ ys)) (entry-eq e i b.ptr b.size same addr bytes))
