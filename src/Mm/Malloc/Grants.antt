-- ===== src/Mm/Malloc/Grants.antt =====
-- What `mm_malloc` promises of the block that it returns.
use cs0330_fall2022_7_malloc.Base.{
  ℕ, ◌+◌, ◌-◌, ◌≤◌, ◌<◌, ◌≡◌, ap, ◌∷◌, ◌++◌, true, false, arith, ◌⊎◌,
}
use cs0330_fall2022_7_malloc.Machine.{State, Run, ok}
use cs0330_fall2022_7_malloc.Layout.{Blocks, span}
use cs0330_fall2022_7_malloc.Layout.Payload.{
  payload_byte, payload_byte-append, payload_byte-range, KeepsPayload,
}
use cs0330_fall2022_7_malloc.Mm.Coalesce.Branches.{behind}
use cs0330_fall2022_7_malloc.Mm.Inv.{Inv, allocs}

-- The run returns the payload of a block of at least `b_size` bytes that was not allocated. All
-- other allocated blocks are the same, and their payloads are unchanged.
abbrev pub Grants : Run ℕ → State → Blocks → (b_size : ℕ) → Type 0
Grants r s old b_size =
    (s' : State) × (xs : Blocks) × (k : ℕ) × (ys : Blocks) × (r ≡ ok (behind s xs + 8) s')
    × Inv s' (xs ++ ((k, true) ∷ ys))
    × (b_size ≤ k)
    × (allocs s.mem_start_brk old ≡ allocs s.mem_start_brk xs ++ allocs (behind s xs + k) ys)
    × KeepsPayload s.mem_start_brk old s.mem s'.mem
    × (s'.mem_start_brk ≡ s.mem_start_brk)

-- The run returns the payload of the block of `k` bytes between `xs` and `ys`, with this break: the
-- payloads of the old layout are unchanged.
abbrev pub GrantsAt :
    Run ℕ → State → (old xs : Blocks) → (k : ℕ) → (ys : Blocks) → (brk : ℕ) → Type 0
GrantsAt r s old xs k ys brk =
    (s' : State) × (r ≡ ok (behind s xs + 8) s')
    × Inv s' (xs ++ ((k, true) ∷ ys))
    × KeepsPayload s.mem_start_brk old s.mem s'.mem
    × (s'.mem_start_brk ≡ s.mem_start_brk)
    × (s'.mem_brk ≡ brk)

-- Where the payloads of the old layout lie, and that they are payloads of the new one.
pub payload_outside :
    (p : ℕ) (xs : Blocks) (n : ℕ) (ys : Blocks) (a : ℕ)
    → payload_byte p (xs ++ ((n, false) ∷ ys)) a ≡ true
    → (a < p + span xs) ⊎ (p + span xs + n ≤ a)
payload_outside p xs n ys a h = ground (
  arith,
  payload_byte-append p xs ((n, false) ∷ ys) a,
  payload_byte-range p xs a,
  payload_byte-range (p + span xs + n) ys a,
)

pub payload_taken :
    (p : ℕ) (xs : Blocks) (n : ℕ) (ys : Blocks) (a : ℕ)
    → payload_byte p (xs ++ ((n, false) ∷ ys)) a ≡ true
    → payload_byte p (xs ++ ((n, true) ∷ ys)) a ≡ true
payload_taken p xs n ys a h = ground (
  arith,
  payload_byte-append p xs ((n, false) ∷ ys) a,
  payload_byte-append p xs ((n, true) ∷ ys) a,
)

pub payload_split :
    (p : ℕ) (xs : Blocks) (r n : ℕ) (ys : Blocks) (a : ℕ)
    → r ≤ n
    → payload_byte p (xs ++ ((n, false) ∷ ys)) a ≡ true
    → payload_byte p (xs ++ ((r, true) ∷ ((n - r, false) ∷ ys))) a ≡ true
payload_split p xs r n ys a fits h =
    let e : p + span xs + r + (n - r) ≡ p + span xs + n = omega arith in
    ground (
      arith,
      payload_byte-append p xs ((n, false) ∷ ys) a,
      payload_byte-append p xs ((r, true) ∷ ((n - r, false) ∷ ys)) a,
      ap (λ q. payload_byte q ys a) e,
    )
