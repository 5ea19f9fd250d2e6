-- ===== src/Clock.antt =====
-- clock.c on i386: a cycle counter of two 32-bit words. What `rdtsc` gives is an argument, and so
-- is the arithmetic on `double`s.
mod Tests
use cs0330_fall2022_7_malloc.Base.{
  ℕ, ◌+◌, ◌-◌, ◌*◌, ◌%◌, ◌^◌, ◌≤◌, ◌<◌, ◌≡◌, refl, ap, Bool, true, false, ltb, if◌then◌else◌, arith,
  ◌∙◌,
}

-- `cyc_hi` and `cyc_lo`, or a value of the counter
pub record Counter : Type 0 where
  pub hi : ℕ
  pub lo : ℕ

-- `unsigned` values are below 2 ^ 32, and differences wrap.
abbrev pub sub_unsigned : ℕ → ℕ → ℕ
sub_unsigned a b = (a + 2 ^ 32 - b) % 2 ^ 32

unfoldable pub start_counter : (now : Counter) → Counter → Counter
start_counter now cyc = now

-- `double`: the conversion of a whole number, the product and the sum. Below 2 ^ 53 all whole numbers
-- are doubles, so the operations of the processor, which round the exact result, are exact there.
pub record Arithmetic (A : Type 0) : Type 0 where
  pub to_double : ℕ → A
  pub times : A → A → A
  pub plus : A → A → A
  pub times-exact :
      (a b : ℕ) → a * b < 2 ^ 53 → times (to_double a) (to_double b) ≡ to_double (a * b)
  pub plus-exact : (a b : ℕ) → a + b < 2 ^ 53 → plus (to_double a) (to_double b) ≡ to_double (a + b)

unfoldable pub get_counter : {A : Type 0} → Arithmetic A → (now : Counter) → Counter → A
get_counter d now cyc =
    let lo = sub_unsigned now.lo cyc.lo in
    let borrow = if ltb now.lo lo then 1 else 0 in
    let hi = sub_unsigned (sub_unsigned now.hi cyc.hi) borrow in
    d.plus (d.times (d.times (d.to_double hi) (d.to_double (2 ^ 30))) (d.to_double 4))
      (d.to_double lo)

abbrev pub value_of : Counter → ℕ
value_of c = c.hi * 2 ^ 32 + c.lo

abbrev pub IsWords : Counter → Type 0
IsWords c = (c.hi < 2 ^ 32) × (c.lo < 2 ^ 32)

-- What the 64-bit counter counted, also where it has wrapped.
abbrev pub cycles_between : (before now : Counter) → ℕ
cycles_between before now = (value_of now + 2 ^ 64 - value_of before) % 2 ^ 64

-- `get_counter` after `start_counter`, both at words below 2 ^ 32 and less than 2 ^ 53 cycles apart: the
-- difference of the two values of the 64-bit counter, also where the low word, or the counter, has
-- wrapped in between.
pub get_counter_lem :
    {A : Type 0} (d : Arithmetic A) (before now cyc : Counter)
    → IsWords before
    → IsWords now
    → cycles_between before now < 2 ^ 53
    → get_counter d now (start_counter before cyc) ≡ d.to_double (cycles_between before now)
unfolding get_counter start_counter
get_counter_lem d before now cyc h h' few =
    let lo = sub_unsigned now.lo before.lo in
    let borrow = if ltb now.lo lo then 1 else 0 in
    let hi = sub_unsigned (sub_unsigned now.hi before.hi) borrow in
    let exact : hi * 2 ^ 30 * 4 + lo ≡ cycles_between before now = ground (arith, h, h') in
    let scaled = d.times-exact hi (2 ^ 30) (omega (arith, exact, few)) in
    let high = d.times-exact (hi * 2 ^ 30) 4 (omega (arith, exact, few)) in
    ap (λ x. d.plus (d.times x (d.to_double 4)) (d.to_double lo)) scaled
    ∙ ap (λ x. d.plus x (d.to_double lo)) high
    ∙ d.plus-exact (hi * 2 ^ 30 * 4) lo (omega (arith, exact, few))
    ∙ ap d.to_double exact
