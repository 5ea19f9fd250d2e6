-- ===== src/Machine/Words.antt =====
-- Longs in the range where neither a sum nor the sign bit matters, and the words of a tag.
use cs0330_fall2022_7_malloc.Base.{
  ℕ, ◌+◌, ◌-◌, ◌*◌, ◌/◌, ◌%◌, ◌^◌, ◌≤◌, ◌<◌, ◌≡◌, refl, Bool, true, false, arith, ltb,
}
use cs0330_fall2022_7_malloc.Machine.{
  wrap, add, sub, less, low_bit, clear_low, set_low, bit, is_set,
}

pub add-small : (a b : ℕ) → a + b < 2 ^ 64 → add a b ≡ a + b
add-small a b h = omega arith

pub sub-small : (a b : ℕ) → b ≤ a → a < 2 ^ 64 → sub a b ≡ a - b
sub-small a b h k = omega arith

wrap-half : (a : ℕ) → a < 2 ^ 63 → wrap (a + 2 ^ 63) ≡ a + 2 ^ 63
wrap-half a h = omega arith

pub less-small : (a b : ℕ) → a < 2 ^ 63 → b < 2 ^ 63 → less a b ≡ ltb a b
less-small a b h k = rw (wrap-half a h, wrap-half b k) (ground arith)

pub less-lt : (a b : ℕ) → a < b → b < 2 ^ 63 → less a b ≡ true
less-lt a b h k = rw (wrap-half a (omega arith), wrap-half b k) (ground arith)

pub less-le : (a b : ℕ) → b ≤ a → a < 2 ^ 63 → less a b ≡ false
less-le a b h k = rw (wrap-half a k, wrap-half b (omega arith)) (ground arith)

pub bit-le : (f : Bool) → bit f ≤ 1
bit-le true = omega arith
bit-le false = omega arith

pub is_set-bit : (f : Bool) → is_set (bit f) ≡ f
is_set-bit true = refl
is_set-bit false = refl

pub low_bit-tag : (n : ℕ) (f : Bool) → n % 8 ≡ 0 → low_bit (n + bit f) ≡ bit f
low_bit-tag n true h = omega arith
low_bit-tag n false h = omega arith

pub clear_low-tag : (n : ℕ) (f : Bool) → n % 8 ≡ 0 → clear_low (n + bit f) ≡ n
clear_low-tag n true h = omega arith
clear_low-tag n false h = omega arith

pub set_low-tag : (n : ℕ) (f : Bool) → n % 8 ≡ 0 → set_low (n + bit f) ≡ n + 1
set_low-tag n true h = omega arith
set_low-tag n false h = omega arith

-- The index of the end tag, from the size with the flag in it.
pub end_index :
    (q n : ℕ) (f : Bool) → n % 8 ≡ 0 → 16 ≤ n → q + 8 + 8 * ((n + bit f) / 8 - 2) ≡ q + n - 8
end_index q n true h k = omega arith
end_index q n false h k = omega arith
