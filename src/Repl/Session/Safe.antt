-- ===== src/Repl/Session/Safe.antt =====
-- What holds at every point of a session.
use cs0330_fall2022_7_malloc.Base.{
  ℕ, zero, suc, ◌+◌, ◌^◌, ◌<◌, ◌≡◌, refl, subst, ap, List, [], length, true, false, some, none,
  arith, ◌⊎◌, inl, inr, Option, ◌∙◌,
}
use cs0330_fall2022_7_malloc.Machine.{State, Run, ok, null}
use cs0330_fall2022_7_malloc.Driver.{get_elem?}
use cs0330_fall2022_7_malloc.Driver.Checked.{Entry, all_held, all_ranges}
use cs0330_fall2022_7_malloc.Driver.Reset.{reset_cmd_lem}
use cs0330_fall2022_7_malloc.Mm.{mm_malloc}
use cs0330_fall2022_7_malloc.Mm.Client.Apart.{AllKept, AllDisjoint, Backed-kept}
use cs0330_fall2022_7_malloc.Mm.Init.{bare}
use cs0330_fall2022_7_malloc.Mm.Realloc.{mm_realloc}
use cs0330_fall2022_7_malloc.Repl.{
  ReplBlock, Repl, Reply, done, fresh_blocks, make_repl_state, malloc_cmd, free_cmd, remalloc_cmd,
}
use cs0330_fall2022_7_malloc.Repl.Session.{
  Session, begun, malloc_line, free_line, remalloc_line, AllSlots, AllListed, Agrees,
}
use cs0330_fall2022_7_malloc.Repl.Session.Filled.{Serves}
use cs0330_fall2022_7_malloc.Repl.Session.Lines.{malloc_cmd_lem}
use cs0330_fall2022_7_malloc.Repl.Session.Moves.{free_cmd_lem, remalloc_cmd_lem}

fresh-length : (n i : ℕ) → length (fresh_blocks n i) ≡ n
unfolding fresh_blocks
fresh-length zero i = refl
fresh-length (suc n) i = ap suc (fresh-length n (i + 1))

fresh-unused :
    (n i j : ℕ) (b : ReplBlock) → get_elem? (fresh_blocks n i) j ≡ some b → b.is_valid ≡ true → ⊥
unfolding fresh_blocks
fresh-unused zero i j b get valid = nothing get
  where
    nothing : ◌≡◌ {A = Option ReplBlock} none (some b) → ⊥
    nothing e = cc
fresh-unused (suc n) i zero b get valid = differ (same get)
  where
    same :
        some (record { is_valid = false; ptr = 0; size = 0; index = i }) ≡ some b
        → record { is_valid = false; ptr = 0; size = 0; index = i } ≡ b
    same e = cc

    differ : record { is_valid = false; ptr = 0; size = 0; index = i } ≡ b → ⊥
    differ e = clash (ap (λ y. y.is_valid) e ∙ valid)
      where
        clash : false ≡ true → ⊥
        clash e' = cc
fresh-unused (suc n) i (suc j) b get valid = fresh-unused n (i + 1) j b get valid

done_same :
    {run : Run Reply} {r r' : Repl} {s s' : State}
    → run ≡ ok (done r) s
    → run ≡ ok (done r') s'
    → (r ≡ r') × (s ≡ s')
done_same e e' = (cc, cc)

abbrev Agreed : State → Repl → Type 0
Agreed s r = (live : List Entry) × Agrees s r live

served :
    (run : Run Reply) (r r' : Repl) (s s' : State) (refused : Type 0)
    → Serves run r s refused
    → run ≡ ok (done r') s'
    → Agreed s' r'
served run r r' s s' refused (r₁, s₁, live, run', agrees, errors) e =
    let (same, same') = done_same run' e in
    subst (λ t. Agreed t r') same' (subst (Agreed s₁) same (live, agrees))

Session-Agreed : {s : State} {r : Repl} → Session s r → Agreed s r
unfolding make_repl_state
Session-Agreed (begun {s} {s'} {r} n errors ready few run) =
    let start = make_repl_state n errors in
    let (s₁, run', inv, limit) = reset_cmd_lem s ready start in
    let (same, same') = done_same run' run in
    subst (λ t. Agreed t r) same'
      (subst (Agreed s₁) same (
        [],
        record {
          backed = ([], (bare, inv, refl), refl);
          same_ranges = refl;
          slots = tt;
          no_others = λ i b get valid. absurd (fresh-unused n 0 i b get valid);
          once = λ j. omega arith;
          long = fresh-length n 0;
          few = few;
        },
      ))
Session-Agreed (malloc_line {s} {s'} {r} {r'} i size h int small run) =
    let (live, agrees) = Session-Agreed h in
    served (malloc_cmd r (some (i, size)) s) r r' s s' (mm_malloc size s ≡ ok null s)
      (malloc_cmd_lem s r live agrees i size int small) run
Session-Agreed (free_line {s} {s'} {r} {r'} i h int run) =
    let (live, agrees) = Session-Agreed h in
    served (free_cmd r (some i) s) r r' s s' (Unit {0})
      (free_cmd_lem s r live agrees i (Unit {0}) int) run
Session-Agreed (remalloc_line {s} {s'} {r} {r'} i size b h int at used low pos small run) =
    let (live, agrees) = Session-Agreed h in
    served (remalloc_cmd r (some (i, size)) s) r r' s s' (mm_realloc b.ptr size s ≡ ok null s)
      (remalloc_cmd_lem s r live agrees i size b int at used low pos small) run

-- At every point of a session, which starts on a heap with room for prologue and epilogue and with
-- fewer than 2 ^ 31 blocks, and whose lines allocate at sizes that are not negative and below
-- 2 ^ 31 - 64, free any index, and reallocate an index in use whose low byte is below 128 at a positive
-- size below 2 ^ 31 - 64: the range list holds the payloads of some blocks; each of them is in use in
-- the table with this address and size, every entry of the table that is in use is one of them, and
-- they lie in the heap, are aligned and apart, and hold the low byte of their index. And the next line
-- does not fault: `malloc_cmd` with any index and such a size is done, and reports no error, or one
-- where `mm_malloc` returns NULL; `free_cmd` with any index is done and reports no error.
pub session_keeps :
    {s : State} {r : Repl} (i size : ℕ)
    → Session s r
    → i < 2 ^ 32
    → size + 64 < 2 ^ 31
    → ((live : List Entry) × (r.ranges ≡ all_ranges live)
        × AllSlots r.blocks live
        × AllKept s (all_held live)
        × AllDisjoint (all_held live)
        × AllListed r.blocks live)
      × ((r' : Repl) × (s' : State) × (malloc_cmd r (some (i, size)) s ≡ ok (done r') s')
          × ((r'.errors ≡ r.errors)
              ⊎ ((r'.errors ≡ r.errors + 1) × (mm_malloc size s ≡ ok null s))))
      × ((r' : Repl) × (s' : State) × (free_cmd r (some i) s ≡ ok (done r') s')
          × (r'.errors ≡ r.errors))
session_keeps {s} {r} i size h int small =
    let (live, agrees) = Session-Agreed h in
    let (kept, apart) = Backed-kept s (all_held live) agrees.backed in
    let (r₁, s₁, live₁, run₁, agrees₁, errors₁) = malloc_cmd_lem s r live agrees i size int small in
    let (r₂, s₂, live₂, run₂, agrees₂, errors₂) = free_cmd_lem s r live agrees i ⊥ int in
    (
      (live, agrees.same_ranges, agrees.slots, kept, apart, agrees.no_others),
      (r₁, s₁, run₁, errors₁),
      (r₂, s₂, run₂, no_error r₂ errors₂),
    )
  where
    no_error :
        (r' : Repl)
        → (r'.errors ≡ r.errors) ⊎ ((r'.errors ≡ r.errors + 1) × ⊥)
        → r'.errors ≡ r.errors
    no_error r' (inl e) = e
    no_error r' (inr bad) = absurd bad.1
