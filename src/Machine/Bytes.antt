-- ===== src/Machine/Bytes.antt =====
-- Laws of the numbers that lie in memory byte by byte.
use cs0330_fall2022_7_malloc.Base.{
  ℕ, zero, suc, ◌+◌, ◌/◌, ◌%◌, ◌^◌, ◌≤◌, ◌<◌, ◌≡◌, ◌⊎◌, refl, ◌∙◌, arith,
}
use cs0330_fall2022_7_malloc.Machine.{Mem, set_byte, read, write, read_long, write_long}
use native.Mathlib.Nat.{pow-suc}

-- A write leaves the bytes outside its range alone.
pub write_outside : (n : ℕ) (m : Mem) (p v a : ℕ) → ((a < p) ⊎ (p + n ≤ a)) → write n m p v a ≡ m a
unfolding write
write_outside zero m p v a out = refl
write_outside (suc n) m p v a out =
    ground (arith, write_outside n (set_byte m p (v % 256)) (p + 1) (v / 256) a)

-- Memories that agree on a range hold the same number there.
pub read_agree :
    (n : ℕ) (m m' : Mem) (p : ℕ)
    → ((a : ℕ) → p ≤ a → a < p + n → m' a ≡ m a)
    → read n m' p ≡ read n m p
unfolding read
read_agree zero m m' p same = refl
read_agree (suc n) m m' p same = omega (
  arith,
  same p (omega arith) (omega arith),
  read_agree n m m' (p + 1) (λ a lo hi. same a (omega arith) (omega arith)),
)

set_byte_self : (m : Mem) (p v : ℕ) → set_byte m p v p ≡ v
set_byte_self m p v = ground arith

-- What is written is read back, modulo the width.
pub read-write : (n : ℕ) (m : Mem) (p v : ℕ) → v < 256 ^ n → read n (write n m p v) p ≡ v
unfolding read write
read-write zero m p v h = omega arith
read-write (suc n) m p v h = omega (
  arith,
  pow-suc 256 n,
  write_outside n (set_byte m p (v % 256)) (p + 1) (v / 256) p (omega arith)
      ∙ set_byte_self m p (v % 256),
  read-write n (set_byte m p (v % 256)) (p + 1) (v / 256) (omega (arith, pow-suc 256 n)),
)

-- A long is read back as it was written.
pub read-write_long : (m : Mem) (p v : ℕ) → v < 2 ^ 64 → read_long (write_long m p v) p ≡ v
read-write_long m p v h = read-write 8 m p v h

-- A write of a long elsewhere does not change what is read.
pub read-write_long_outside :
    (m : Mem) (p v q : ℕ)
    → ((q + 8 ≤ p) ⊎ (p + 8 ≤ q))
    → read_long (write_long m p v) q ≡ read_long m q
read-write_long_outside m p v q apart =
    read_agree 8 m (write_long m p v) q (λ a lo hi. write_outside 8 m p v a (omega arith))
