-- ===== src/Repl/Session/Filled.antt =====
-- A payload that is new in a session is filled, and its entry in the table is set.
use cs0330_fall2022_7_malloc.Base.{
  ℕ, ◌+◌, ◌-◌, ◌%◌, ◌^◌, ◌≤◌, ◌<◌, ◌≡◌, ◌≢◌, refl, sym, subst, ap, List, ◌∷◌, Bool, true, false,
  if◌then◌else◌, length, count, some, arith, ◌∙◌, ◌⊎◌, inl, inr, lt→ltb, ==-cases,
}
use cs0330_fall2022_7_malloc.Machine.{Mem, Cmd, State, Run, ok, null, memset}
use cs0330_fall2022_7_malloc.Driver.{get_elem?, set_elem?, to_long}
use cs0330_fall2022_7_malloc.Driver.Checked.{Entry, all_held, all_ranges, indices}
use cs0330_fall2022_7_malloc.Driver.Checked.Arrays.{set_elem?-lem}
use cs0330_fall2022_7_malloc.Mm.{mm_malloc}
use cs0330_fall2022_7_malloc.Mm.Client.{Held, Backed}
use cs0330_fall2022_7_malloc.Mm.Client.Calls.{fill_step}
use cs0330_fall2022_7_malloc.Repl.{ReplBlock, Repl, Reply, done, bad_index}
use cs0330_fall2022_7_malloc.Repl.Session.{AllSlots, Agrees}
use cs0330_fall2022_7_malloc.Repl.Session.Slots.{AllSlots-update}

-- The line is done, and the table, the range list and the heap agree again.
abbrev pub Serves : Run Reply → Repl → State → (refused : Type 0) → Type 0
Serves run r s refused =
    (r' : Repl) × (s' : State) × (live : List Entry) × (run ≡ ok (done r') s')
    × Agrees s' r' live
    × ((r'.errors ≡ r.errors) ⊎ ((r'.errors ≡ r.errors + 1) × refused))

pub index_in_range :
    (r : Repl) (i : ℕ)
    → r.num_blocks < 2 ^ 31
    → i < 2 ^ 32
    → bad_index r i ≡ false
    → i < r.num_blocks
index_in_range r i few int e = ground (arith, few, e)

-- A field that only counts does not matter.
pub Agrees-counted :
    (s : State) (r : Repl) (live : List Entry) (num_ops errors : ℕ)
    → Agrees s r live
    → Agrees s (record r { num_ops = num_ops; errors = errors }) live
Agrees-counted s r live num_ops errors h = record {
  backed = h.backed;
  same_ranges = h.same_ranges;
  slots = h.slots;
  no_others = h.no_others;
  once = h.once;
  long = h.long;
  few = h.few;
}

pub malloc_zero : (s : State) → mm_malloc 0 s ≡ ok null s
unfolding mm_malloc
malloc_zero s = refl

-- A new payload is filled, and its entry in the table is set.
pub fill_entry :
    (s : State) (r : Repl) (b : Held) (live : List Entry) (i : ℕ) (old : ReplBlock)
    → Backed s (b ∷ all_held live)
    → AllSlots r.blocks live
    → ((j : ℕ) (x : ReplBlock)
        → j ≢ i
        → get_elem? r.blocks j ≡ some x
        → x.is_valid ≡ true
        → 0 < count j (indices live))
    → ((j : ℕ) → count j (i ∷ indices live) ≤ 1)
    → length r.blocks ≡ r.num_blocks
    → r.num_blocks < 2 ^ 31
    → i < r.num_blocks
    → old.is_valid ≡ true
    → old.ptr ≡ b.addr
    → old.size ≡ b.size
    → 0 < b.size
    → b.size + 64 < 2 ^ 31
    → (m' : Mem) × (blocks : List ReplBlock) × (memset b.addr (i % 256) b.size s
        ≡ ok tt (record s { mem = m' }))
      × (set_elem? r.blocks i old ≡ some blocks)
      × Agrees
          (record s { mem = m' })
          (record r {
            ranges = record { lo = b.addr; hi = b.addr + b.size - 1 } ∷ all_ranges live;
            blocks = blocks;
          })
          (record { index = i; addr = b.addr; size = b.size } ∷ live)
fill_entry s r b live i old backed slots others once long few lt used ptr size pos small =
    let (m', run, backed') = fill_step s b (all_held live) (i % 256) backed in
    let (blocks, e, at, same, length_same) = set_elem?-lem r.blocks i old (omega arith) in
    let byte : i % 256 % 256 ≡ i % 256 = omega arith in
    let absent : count i (indices live) ≡ 0 = ground (arith, once i) in
    (
      m',
      blocks,
      run,
      e,
      record {
        backed =
            subst
              (λ v. Backed (record s { mem = m' }) (record b { bytes = λ _. v } ∷ all_held live))
              byte backed';
        same_ranges = refl;
        slots = (
          (old, at, used, ptr, size, pos, small),
          AllSlots-update r.blocks blocks i live absent same slots,
        );
        no_others = λ j x get valid. elim (==-cases j i) [
          | inl here ↦ ground (arith, here.0)
          | inr other ↦
              let rest = others j x other.0 (sym (same j other.0) ∙ get) valid in
              omega (arith, rest)
        ];
        once = once;
        long = length_same ∙ long;
        few = few;
      },
    )

pub int_size : (n : ℕ) → n < 2 ^ 31 → to_long n ≡ n
int_size n small = rw (lt→ltb n (2 ^ 31) small) refl

pub skips : {c : Bool} (x y : Cmd Reply) (s : State) → c ≡ false → (if c then x else y) s ≡ y s
skips x y s e = ap (λ c. (if c then x else y) s) e
