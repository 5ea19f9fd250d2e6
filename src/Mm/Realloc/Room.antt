-- ===== src/Mm/Realloc/Room.antt =====
-- The tests of `mm_realloc` for room in the neighbours of a block.
use cs0330_fall2022_7_malloc.Base.{
  ℕ, ◌+◌, ◌^◌, ◌≤◌, ◌<◌, ◌≡◌, refl, ap, ◌∷◌, Bool, true, false, not, arith, inl, inr, ◌&&◌, leb,
  lt-cases, le→leb, lt→leb,
}
use cs0330_fall2022_7_malloc.Machine.{Mem, State, ok}
use cs0330_fall2022_7_malloc.Machine.Words.{add-small, less-le, less-lt}
use cs0330_fall2022_7_malloc.Block.Laws.{Here, block_size-eq, block_allocated-eq}
use cs0330_fall2022_7_malloc.Layout.{Blocks, Heap, block}
use cs0330_fall2022_7_malloc.Mm.Realloc.{has_room, has_room_both}

pub free_links : {m : Mem} {e p n : ℕ} {bs : Blocks} → Heap m e p ((n, false) ∷ bs) → 32 ≤ n
free_links (block b l h) = omega arith

-- What the tests for room answer, at blocks of the heap.
abbrev pub fits_one : Bool → (n k b_size : ℕ) → Bool
fits_one g n k b_size = not g && leb b_size (n + k)

pub has_room-eq :
    {s : State} {b k : ℕ} (g : Bool) (n b_size : ℕ)
    → Here s b k g
    → n + k < 2 ^ 63
    → b_size < 2 ^ 63
    → has_room b n b_size s ≡ ok (fits_one g n k b_size) s
unfolding has_room
has_room-eq {s} true n b_size here small small' = rw (block_allocated-eq here) refl
has_room-eq {s} {k} false n b_size here small small' =
    rw (block_allocated-eq here, block_size-eq here, add-small n k (omega arith))
      (ap (λ t. ok t s)
        (elim (lt-cases (n + k) b_size) [
          | inl short ↦ rw (less-lt (n + k) b_size short small', lt→leb b_size (n + k) short) refl
          | inr enough ↦ rw (less-le (n + k) b_size enough small, le→leb b_size (n + k) enough) refl
        ]))

abbrev pub fits_two : (g h : Bool) → (n k j b_size : ℕ) → Bool
fits_two g h n k j b_size = not g && (not h && leb b_size (n + k + j))

pub has_room_both-eq :
    {s : State} {b c k j : ℕ} (g h : Bool) (n b_size : ℕ)
    → Here s b k g
    → Here s c j h
    → n + k + j < 2 ^ 63
    → b_size < 2 ^ 63
    → has_room_both b c n b_size s ≡ ok (fits_two g h n k j b_size) s
unfolding has_room_both
has_room_both-eq {s} true h n b_size before after small small' = rw (block_allocated-eq before) refl
has_room_both-eq {s} false true n b_size before after small small' =
    rw (block_allocated-eq before, block_allocated-eq after) refl
has_room_both-eq {s} {k} {j} false false n b_size before after small small' =
    rw
      (
        block_allocated-eq before,
        block_allocated-eq after,
        block_size-eq before,
        block_size-eq after,
        add-small n k (omega arith),
        add-small (n + k) j (omega arith),
      )
      (ap (λ t. ok t s)
        (elim (lt-cases (n + k + j) b_size) [
          | inl short ↦
              rw (less-lt (n + k + j) b_size short small', lt→leb b_size (n + k + j) short) refl
          | inr enough ↦
              rw (less-le (n + k + j) b_size enough small, le→leb b_size (n + k + j) enough) refl
        ]))
