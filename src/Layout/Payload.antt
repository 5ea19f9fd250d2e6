-- ===== src/Layout/Payload.antt =====
-- The bytes that belong to the program: the payloads of the allocated blocks.
use cs0330_fall2022_7_malloc.Base.{
  ℕ, ◌+◌, ◌≤◌, ◌<◌, ◌≡◌, refl, [], ◌∷◌, ◌++◌, Bool, true, false, ◌&&◌, ◌||◌, ltb, leb, arith, ap,
}
use cs0330_fall2022_7_malloc.Machine.{Mem}
use cs0330_fall2022_7_malloc.Layout.{Blocks, span, Heap, done, block, link_byte, SameButLinks}
use cs0330_fall2022_7_malloc.Layout.Frame.{link_byte-below}

abbrev pub payload_byte : ℕ → Blocks → ℕ → Bool
payload_byte p [] a = false
payload_byte p ((n, f) ∷ bs) a =
    (f && (leb (p + 8) a && ltb (a + 8) (p + n))) || payload_byte (p + n) bs a

-- The payloads of the layout are the same in both memories.
abbrev pub KeepsPayload : ℕ → Blocks → Mem → Mem → Type 0
KeepsPayload p bs m m' = (a : ℕ) → payload_byte p bs a ≡ true → m' a ≡ m a

pub payload_byte-append :
    (p : ℕ) (xs ys : Blocks) (a : ℕ)
    → payload_byte p (xs ++ ys) a ≡ (payload_byte p xs a || payload_byte (p + span xs) ys a)
payload_byte-append p [] ys a = ap (λ q. payload_byte q ys a) (omega arith)
payload_byte-append p ((n, f) ∷ xs) ys a =
    let e : p + n + span xs ≡ p + (n + span xs) = omega arith in
    ground (arith, payload_byte-append (p + n) xs ys a, ap (λ q. payload_byte q ys a) e)

pub payload_byte-range :
    (p : ℕ) (bs : Blocks) (a : ℕ) → payload_byte p bs a ≡ true → (p ≤ a) × (a < p + span bs)
payload_byte-range p [] a h = absurd (ground arith)
payload_byte-range p ((n, f) ∷ bs) a h = ground (arith, payload_byte-range (p + n) bs a)

-- No payload holds a link of a free block.
pub payload-link_byte :
    {m : Mem} {e p : ℕ} {bs : Blocks} (a : ℕ)
    → Heap m e p bs
    → payload_byte p bs a ≡ true
    → link_byte p bs a ≡ false
payload-link_byte a (done _) h = refl
payload-link_byte a (block {p} {n} {f = true} {bs} b l r) h =
    ground (arith, payload-link_byte a r, link_byte-below (p + n) bs a)
payload-link_byte a (block {p} {n} {f = false} {bs} b l r) h =
    ground (arith, payload-link_byte a r, payload_byte-range (p + n) bs a)

pub links-KeepsPayload :
    {m₀ : Mem} {e p : ℕ} {bs : Blocks} (m m' : Mem)
    → Heap m₀ e p bs
    → SameButLinks p bs m m'
    → KeepsPayload p bs m m'
links-KeepsPayload m m' h same a i = same a (payload-link_byte a h i)
