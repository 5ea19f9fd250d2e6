-- ===== src/Fcyc.antt =====
-- fcyc.c: the K-best scheme that times a function. A `double` is an element of a type with the
-- order of the processor; what the counter of clock.c measures, and whether two samples are within
-- the tolerance, are arguments. The cache is not modelled.
pub mod Best
pub mod Least
pub mod Sift
mod Tests
use cs0330_fall2022_7_malloc.Base.{
  ℕ, zero, suc, ◌+◌, ◌-◌, ◌≤◌, ◌<◌, ◌≡◌, Bool, true, false, not, ◌&&◌, ◌==◌, leb, ltb,
  if◌then◌else◌, Option, none, some,
}

-- `double`, without NaN: an order, and `(1 + epsilon) * a >= b`.
pub record Doubles (A : Type 0) : Type 0 where
  pub less : A → A → Bool
  pub within : A → A → Bool
  pub less-asym : (a b : A) → less a b ≡ true → less b a ≡ false
  pub less-cotrans : (a b c : A) → less b a ≡ false → less c b ≡ false → less c a ≡ false

module _ {A : Type 0} (d : Doubles A) where
  -- The statics of the file; `values` is an array of `kbest` elements.
  pub record Sampler : Type 0 where
    pub kbest : ℕ
    pub maxsamples : ℕ
    pub values : ℕ → A
    pub samplecount : ℕ

  -- `zeros` is the array that `calloc` returns.
  unfoldable pub init_sampler : (zeros : ℕ → A) → Sampler → Sampler
  init_sampler zeros s = record s { values = zeros; samplecount = 0 }

  abbrev pub set_value : (ℕ → A) → ℕ → A → ℕ → A
  set_value vs pos val i = if i == pos then val else vs i

  abbrev pub swap_values : (ℕ → A) → ℕ → ℕ → A
  swap_values vs pos = set_value (set_value vs pos (vs (pos + 1))) (pos + 1) (vs pos)

  -- The loop of the insertion sort, from `pos` down.
  unfoldable pub sift : (pos : ℕ) → (ℕ → A) → ℕ → A
  sift zero vs = vs
  sift (suc pos) vs =
      let rest = sift pos (swap_values vs pos) in
      if d.less (vs (pos + 1)) (vs pos) then rest else vs

  -- Where the sample is written; `none` leaves the values as they are.
  abbrev pub slot : Sampler → A → Option ℕ
  slot s val =
      if ltb s.samplecount s.kbest
      then some s.samplecount
      else if d.less val (s.values (s.kbest - 1))
      then some (s.kbest - 1)
      else none

  abbrev pub keep_value : Sampler → A → Option ℕ → Sampler
  keep_value s val none = record s { samplecount = s.samplecount + 1 }
  keep_value s val (some pos) = record s {
    values = sift pos (set_value s.values pos val);
    samplecount = s.samplecount + 1;
  }

  unfoldable pub add_sample : Sampler → A → Sampler
  add_sample s val = keep_value s val (slot s val)

  unfoldable pub has_converged : Sampler → Bool
  has_converged s = leb s.kbest s.samplecount && d.within (s.values 0) (s.values (s.kbest - 1))

  -- `do { ... } while (!has_converged() && samplecount < maxsamples)`; `cycles i` is what the counter
  -- gives for the `i`th call. The fuel is a bound on the calls.
  unfoldable pub sample_loop : (fuel : ℕ) → (cycles : ℕ → A) → Sampler → Option Sampler
  sample_loop zero cycles s = none
  sample_loop (suc fuel) cycles s =
      let s' = add_sample s (cycles s.samplecount) in
      let rest = sample_loop fuel cycles s' in
      if not (has_converged s') && ltb s'.samplecount s'.maxsamples then rest else some s'

  abbrev pub first_value : Option Sampler → Option (A × Sampler)
  first_value none = none
  first_value (some s) = some (s.values 0, s)

  -- The result, and the statics after the call.
  unfoldable pub fcyc : (fuel : ℕ) → (zeros cycles : ℕ → A) → Sampler → Option (A × Sampler)
  fcyc fuel zeros cycles s = first_value (sample_loop fuel cycles (init_sampler zeros s))

  unfoldable pub set_fcyc_k : ℕ → Sampler → Sampler
  set_fcyc_k k s = record s { kbest = k }

  unfoldable pub set_fcyc_maxsamples : ℕ → Sampler → Sampler
  set_fcyc_maxsamples maxsamples_arg s = record s { maxsamples = maxsamples_arg }
