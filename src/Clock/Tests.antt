-- ===== src/Clock/Tests.antt =====
-- The counter of clock.c where its low word has wrapped.
use cs0330_fall2022_7_malloc.Base.{ℕ, ◌+◌, ◌*◌, ◌≡◌, refl, arith}
use cs0330_fall2022_7_malloc.Clock.{
  Counter, Arithmetic, start_counter, get_counter, cycles_between, get_counter_lem,
}

-- Whole numbers that are not rounded.
abbrev whole : Arithmetic ℕ
whole = record {
  to_double = λ n. n;
  times = λ a b. a * b;
  plus = λ a b. a + b;
  times-exact = λ a b few. refl;
  plus-exact = λ a b few. refl;
}

abbrev started : Counter
started = record { hi = 1; lo = 9 }

abbrev later : Counter
later = record { hi = 3; lo = 5 }

get_counter_example :
    get_counter whole later (start_counter started (record { hi = 0; lo = 0 }))
    ≡ cycles_between started later
get_counter_example =
    get_counter_lem whole started later (record { hi = 0; lo = 0 }) (omega arith, omega arith)
      (omega arith, omega arith) (omega arith)
