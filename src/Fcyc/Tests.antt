-- ===== src/Fcyc/Tests.antt =====
-- `fcyc` on samples that are numbers.
use cs0330_fall2022_7_malloc.Base.{
  ℕ, ◌*◌, ◌≤◌, ◌<◌, ◌≡◌, refl, true, false, Option, none, some, leb, ltb, ◌==◌, if◌then◌else◌,
  arith, ◌⊎◌,
}
use cs0330_fall2022_7_malloc.Fcyc.{
  Doubles, Sampler, fcyc, has_converged, init_sampler, sample_loop, add_sample, sift,
}
use cs0330_fall2022_7_malloc.Fcyc.Least.{fcyc_lem}

-- Numbers of cycles, with a tolerance of one part in 100.
abbrev numbers : Doubles ℕ
numbers = record {
  less = ltb;
  within = λ a b. leb (100 * b) (101 * a);
  less-asym = λ a b e. ground (arith, e);
  less-cotrans = λ a b c e e'. ground (arith, e, e');
}

abbrev measured : ℕ → ℕ
measured i =
    if i == 0
    then 905
    else if i == 1
    then 700
    else if i == 2
    then 712
    else if i == 3
    then 699
    else 701

abbrev defaults : Sampler numbers
defaults = record { kbest = 3; maxsamples = 20; values = λ i. 0; samplecount = 0 }

abbrev samples : Option (ℕ × Sampler numbers) → Option (ℕ × ℕ)
samples none = none
samples (some (v, s)) = some (v, s.samplecount)

-- After five samples the three least are within the tolerance.
fcyc_runs : samples (fcyc numbers 20 (λ i. 0) measured defaults) ≡ some (699, 5)
unfolding fcyc has_converged init_sampler sample_loop add_sample sift
fcyc_runs = refl

fcyc_example :
    (v : ℕ) × (s' : Sampler numbers) × (fcyc numbers 20 (λ i. 0) measured defaults ≡ some (v, s'))
    × ((i : ℕ) × (i < s'.samplecount) × (v ≡ measured i))
    × ((i : ℕ) → i < s'.samplecount → ltb (measured i) v ≡ false)
    × (s'.samplecount ≤ 20)
    × ((has_converged numbers s' ≡ true) ⊎ (s'.samplecount ≡ 20))
fcyc_example = fcyc_lem numbers (λ i. 0) measured defaults (omega arith) (omega arith)
