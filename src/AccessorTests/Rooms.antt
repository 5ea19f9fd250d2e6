-- ===== src/AccessorTests/Rooms.antt =====
-- Two blocks of mminline-tests.c that do not overlap, with their tags.
use cs0330_fall2022_7_malloc.Base.{
  ℕ, ◌+◌, ◌-◌, ◌%◌, ◌^◌, ◌≤◌, ◌<◌, ◌≡◌, refl, Bool, true, false, arith, ◌⊎◌,
}
use cs0330_fall2022_7_malloc.Machine.{Mem, State, Run, ok, bit, low_bit}
use cs0330_fall2022_7_malloc.Block.{block_set_size_and_allocated}
use cs0330_fall2022_7_malloc.Block.Laws.{Here}
use cs0330_fall2022_7_malloc.Block.Write.{Tagged, block_set_size_and_allocated_lem}
use cs0330_fall2022_7_malloc.Layout.Frame.{IsBlock-frame}

-- The bytes that `malloc(8 * 2 + n)` returns: accessible, and below the addresses that could wrap.
pub record Room (s : State) (b n : ℕ) : Type 0 where
  pub lo : s.mem_start_brk ≤ b
  pub hi : b + (16 + n) ≤ s.mem_brk
  pub top : s.mem_brk < 2 ^ 63
  pub low : 0 < s.mem_start_brk

-- No byte belongs to both blocks.
abbrev pub Separate : (b n c k : ℕ) → Type 0
Separate b n c k = (b + (16 + n) ≤ c) ⊎ (c + (16 + k) ≤ b)

-- A block is kept by a write of the tags of another one.
pub tagged_Here :
    {s : State} {b n c k : ℕ} {f g : Bool} (m' : Mem)
    → Here s b n f
    → Tagged s.mem m' c k g
    → (b + n ≤ c) ⊎ (c + k ≤ b)
    → Here (record s { mem = m' }) b n f
tagged_Here {s} {b} {n} {c} {k} m' h t apart = record {
  at =
      IsBlock-frame m'
        (λ a lo hi.
          t.same a (before a lo (omega (arith, h.at.tags)))
            (behind a lo (omega (arith, h.at.tags))))
        (λ a lo hi.
          t.same a (before a (omega (arith, h.at.tags)) hi)
            (behind a (omega (arith, h.at.tags)) hi))
        h.at;
  lo = h.lo;
  hi = h.hi;
  top = h.top;
}
  where
    before : (a : ℕ) → b ≤ a → a < b + n → (a < c) ⊎ (c + 8 ≤ a)
    before a lo hi = ground (arith, apart, t.at.tags)

    behind : (a : ℕ) → b ≤ a → a < b + n → (a < c + k - 8) ⊎ (c + k ≤ a)
    behind a lo hi = ground (arith, apart, t.at.tags)

pub parity : (w : ℕ) → (low_bit w ≡ 0) ⊎ (low_bit w ≡ 1)
parity w = ground arith

pub clear : (f : Bool) → bit f ≡ 0 → f ≡ false
clear true e = absurd (omega arith)
clear false e = refl

pub set : (f : Bool) → bit f ≡ 1 → f ≡ true
set true e = refl
set false e = absurd (omega arith)

-- After both calls of `block_set_size_and_allocated`.
pub record TwoBlocks (s : State) (b n : ℕ) (f : Bool) (c k : ℕ) (g : Bool) : Type 0 where
  pub m₁ : Mem
  pub m₂ : Mem
  pub first : block_set_size_and_allocated b n (bit f) s ≡ ok tt (record s { mem = m₁ })
  pub second :
      block_set_size_and_allocated c k (bit g) (record s { mem = m₁ })
      ≡ ok tt (record s { mem = m₂ })
  pub left : Here (record s { mem = m₂ }) b n f
  pub right : Here (record s { mem = m₂ }) c k g

pub make_two :
    (s : State) (b n : ℕ) (f : Bool) (c k : ℕ) (g : Bool)
    → Room s b n
    → Room s c k
    → Separate b n c k
    → n % 8 ≡ 0
    → 16 ≤ n
    → k % 8 ≡ 0
    → 16 ≤ k
    → TwoBlocks s b n f c k g
make_two s b n f c k g room room' apart aligned tags aligned' tags' =
    let (m₁, run₁, t₁) =
      block_set_size_and_allocated_lem s b n f aligned tags room.lo (omega (arith, room.hi))
        room.top in
    let s₁ : State = record s { mem = m₁ } in
    let (m₂, run₂, t₂) =
      block_set_size_and_allocated_lem s₁ c k g aligned' tags' room'.lo (omega (arith, room'.hi))
        room'.top in
    let here : Here s₁ b n f = record {
      at = t₁.at;
      lo = room.lo;
      hi = omega (arith, room.hi);
      top = room.top;
    } in
    record {
      m₁ = m₁;
      m₂ = m₂;
      first = run₁;
      second = run₂;
      left = tagged_Here {s = s₁} m₂ here t₂ (ground (arith, apart));
      right = record { at = t₂.at; lo = room'.lo; hi = omega (arith, room'.hi); top = room'.top };
    }

-- The test ends without a failed assert.
abbrev pub Passes : ((addr : ℕ → ℕ) → State → Run (Unit {0})) → State → (ℕ → ℕ) → Type 0
Passes test s addr = (s' : State) × (test addr s ≡ ok tt s')

-- The state when the ends are made.
abbrev pub ends_made : State → (ℕ → ℕ) → State
ends_made s addr = record s { prologue = addr 0; epilogue = addr 1 }

pub Room-ends : (s : State) (addr : ℕ → ℕ) (b n : ℕ) → Room s b n → Room (ends_made s addr) b n
Room-ends s addr b n room = record { lo = room.lo; hi = room.hi; top = room.top; low = room.low }
