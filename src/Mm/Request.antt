-- ===== src/Mm/Request.antt =====
-- `align`, and the size of a block for a request.
use cs0330_fall2022_7_malloc.Base.{
  ℕ, ◌+◌, ◌%◌, ◌^◌, ◌≤◌, ◌<◌, ◌≡◌, arith, ltb, ◌∙◌, ◌⊎◌, inl, inr, lt-cases, le→ltb, lt→ltb, ap,
}
use cs0330_fall2022_7_malloc.Machine.{add, less}
use cs0330_fall2022_7_malloc.Machine.Words.{less-small}
use cs0330_fall2022_7_malloc.Block.{tags_size, min_block_size}
use cs0330_fall2022_7_malloc.Mm.{align, request_size}

-- `align` rounds a long, at most 2 ^ 63 - 8, up to the nearest multiple of 8.
pub align-nearest :
    (size : ℕ)
    → size + 7 < 2 ^ 63
    → (align size % 8 ≡ 0) × (size ≤ align size) × (align size < size + 8)
unfolding align
align-nearest size h = omega arith

request_cases :
    (size : ℕ)
    → size + 32 < 2 ^ 63
    → ((request_size size ≡ 32) × (align size + 16 < 32))
      ⊎ ((request_size size ≡ align size + 16) × (32 ≤ align size + 16))
unfolding request_size
request_cases size h =
    let (e, lo, hi) = align-nearest size (omega arith) in
    let sum : add (align size) tags_size ≡ align size + 16 = omega arith in
    let test : less (add (align size) tags_size) min_block_size ≡ ltb (align size + 16) 32 =
      ap (λ t. less t min_block_size) sum
      ∙ less-small (align size + 16) 32 (omega arith) (omega arith) in
    elim (lt-cases (align size + 16) 32) [
      | inl small ↦ inl (rw (test, lt→ltb (align size + 16) 32 small), small)
      | inr big ↦ inr (rw (test, le→ltb (align size + 16) 32 big) sum, big)
    ]

-- The size of a block for a positive request below 2 ^ 63 - 32 is a multiple of 8, no less than the
-- minimum, has room for the request and both tags, and exceeds the request by less than 32 bytes.
pub request_size_bounds :
    (size : ℕ)
    → 0 < size
    → size + 32 < 2 ^ 63
    → (request_size size % 8 ≡ 0)
      × (32 ≤ request_size size)
      × (size + 16 ≤ request_size size)
      × (request_size size < size + 32)
request_size_bounds size pos h =
    let (e, lo, hi) = align-nearest size (omega arith) in
    elim (request_cases size h) [
      | inl small ↦ (
        omega (arith, small.0),
        omega (arith, small.0),
        omega (arith, small.0, small.1),
        omega (arith, small.0),
      )
      | inr big ↦ (
        omega (arith, big.0),
        omega (arith, big.0, big.1),
        omega (arith, big.0),
        omega (arith, big.0),
      )
    ]
