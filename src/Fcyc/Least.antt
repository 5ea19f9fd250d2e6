-- ===== src/Fcyc/Least.antt =====
-- `fcyc` returns the least of its samples, after a bounded number of calls.
use cs0330_fall2022_7_malloc.Base.{
  ℕ, zero, suc, ◌+◌, ◌-◌, ◌≤◌, ◌<◌, ◌≡◌, refl, sym, subst, ap, Bool, true, false, not, ◌&&◌, ltb,
  none, some, arith, ◌∙◌, ◌⊎◌, inl, inr, lt-cases, Bool-cases, lt→ltb, le→ltb,
}
use cs0330_fall2022_7_malloc.Fcyc.{
  Doubles, Sampler, set_value, sift, slot, keep_value, first_value, add_sample, has_converged,
  init_sampler, sample_loop, fcyc,
}
use cs0330_fall2022_7_malloc.Fcyc.Best.{kept, Best, placed, passed}

module _ {A : Type 0} (d : Doubles A) (k : ℕ) (cycles : ℕ → A) (pos_k : 0 < k) where
  -- The statics during the loop.
  record Sampled (s : Sampler d) : Type 0 where
    size : s.kbest ≡ k
    best : Best d k cycles pos_k s.samplecount s.values

  -- One more sample was taken.
  Advances : (s s' : Sampler d) → Type 0
  Advances s s' = Sampled s' × (s'.samplecount ≡ s.samplecount + 1) × (s'.maxsamples ≡ s.maxsamples)

  add_at :
      (s : Sampler d) (p : ℕ)
      → slot d s (cycles s.samplecount) ≡ some p
      → add_sample d s (cycles s.samplecount) ≡ record s {
        values = sift d p (set_value d s.values p (cycles s.samplecount));
        samplecount = s.samplecount + 1;
      }
  unfolding add_sample
  add_at s p e = ap (keep_value d s (cycles s.samplecount)) e

  add_none :
      (s : Sampler d)
      → slot d s (cycles s.samplecount) ≡ none
      → add_sample d s (cycles s.samplecount) ≡ record s { samplecount = s.samplecount + 1 }
  unfolding add_sample
  add_none s e = ap (keep_value d s (cycles s.samplecount)) e

  Advances-at :
      (s : Sampler d) (p : ℕ)
      → Sampled s
      → slot d s (cycles s.samplecount) ≡ some p
      → p + 1 ≡ kept (s.samplecount + 1) k
      → p ≤ s.samplecount
      → (p ≡ s.samplecount)
        ⊎ ((p < s.samplecount) × (d.less (cycles s.samplecount) (s.values p) ≡ true))
      → Advances s (add_sample d s (cycles s.samplecount))
  unfolding Advances
  Advances-at s p h e fits below why = subst (Advances s) (sym (add_at s p e)) (
    record {
      size = h.size;
      best = placed d k cycles pos_k s.samplecount p s.values h.best fits below why;
    },
    refl,
    refl,
  )

  add_sample_lem : (s : Sampler d) → Sampled s → Advances s (add_sample d s (cycles s.samplecount))
  unfolding Advances
  add_sample_lem s h =
      let n = s.samplecount in
      let size = h.size in
      elim (lt-cases n k) [
        | inl room ↦
            Advances-at s n h (rw (size, lt→ltb n k room) refl) (ground arith) (omega arith)
              (inl refl)
        | inr full ↦ elim (Bool-cases (d.less (cycles n) (s.values (k - 1)))) [
          | inr more ↦
              subst (Advances s) (sym (add_none s (rw (size, le→ltb n k full, more) refl))) (
                record { size = size; best = passed d k cycles pos_k n s.values h.best full more },
                refl,
                refl,
              )
          | inl less ↦
              Advances-at s (k - 1) h (rw (size, le→ltb n k full, less) refl) (ground arith)
                (omega arith) (inr (omega arith, less))
        ]
      ]

  -- What the loop ends with: enough samples, or all of them.
  Ended : (s : Sampler d) → (n : ℕ) → Type 0
  Ended s n =
      (s' : Sampler d) × (sample_loop d n cycles s ≡ some s')
      × Sampled s'
      × (s.samplecount < s'.samplecount)
      × ((s'.samplecount ≡ s.samplecount + 1) ⊎ (s'.samplecount ≤ s.maxsamples))
      × ((has_converged d s' ≡ true) ⊎ (s.maxsamples ≤ s'.samplecount))

  goes_on : Sampler d → Bool
  goes_on s = not (has_converged d s) && ltb s.samplecount s.maxsamples

  loop_more :
      (fuel : ℕ) (s : Sampler d)
      → goes_on (add_sample d s (cycles s.samplecount)) ≡ true
      → sample_loop d (suc fuel) cycles s
        ≡ sample_loop d fuel cycles (add_sample d s (cycles s.samplecount))
  unfolding sample_loop goes_on
  loop_more fuel s e = rw e refl

  loop_stop :
      (fuel : ℕ) (s : Sampler d)
      → goes_on (add_sample d s (cycles s.samplecount)) ≡ false
      → sample_loop d (suc fuel) cycles s ≡ some (add_sample d s (cycles s.samplecount))
  unfolding sample_loop goes_on
  loop_stop fuel s e = rw e refl

  why_more : (s : Sampler d) → goes_on s ≡ true → s.samplecount < s.maxsamples
  unfolding goes_on
  why_more s e = ground (arith, e)

  why_stop :
      (s : Sampler d)
      → goes_on s ≡ false
      → (has_converged d s ≡ true) ⊎ (s.maxsamples ≤ s.samplecount)
  unfolding goes_on
  why_stop s e = ground (arith, e)

  sample_loop_lem :
      (fuel : ℕ) (s : Sampler d)
      → Sampled s
      → 0 < fuel
      → s.maxsamples ≤ s.samplecount + fuel
      → Ended s fuel
  unfolding Advances Ended
  sample_loop_lem zero s h pos enough = absurd (omega arith)
  sample_loop_lem (suc fuel) s h pos enough =
      let s' = add_sample d s (cycles s.samplecount) in
      let (h', count, limit) = add_sample_lem s h in
      elim (Bool-cases (goes_on s')) [
        | inr e ↦ (
          s',
          loop_stop fuel s e,
          h',
          omega (arith, count),
          inl count,
          elim (why_stop s' e) [ inl good ↦ inl good | inr all ↦ inr (omega (arith, all, limit)) ],
        )
        | inl e ↦
            let more = why_more s' e in
            let (s'', run, h'', up, few, end) =
              sample_loop_lem fuel s' h' (omega (arith, more, enough, count, limit))
                (omega (arith, enough, count, limit)) in
            (
              s'',
              loop_more fuel s e ∙ run,
              h'',
              omega (arith, up, count),
              elim few [
                | inl one ↦ inr (omega (arith, one, more, limit))
                | inr under ↦ inr (omega (arith, under, limit))
              ],
              elim end [ inl good ↦ inl good | inr all ↦ inr (omega (arith, all, limit)) ],
            )
      ]

-- For positive `kbest` and `maxsamples`, with fuel for `maxsamples` calls, `fcyc` ends: it returns
-- the least of the samples that it took. It took at most `maxsamples` of them, and fewer only if the
-- kept ones have converged.
pub fcyc_lem :
    {A : Type 0} (d : Doubles A) (zeros cycles : ℕ → A) (s : Sampler d)
    → 0 < s.kbest
    → 0 < s.maxsamples
    → (v : A) × (s' : Sampler d) × (fcyc d s.maxsamples zeros cycles s ≡ some (v, s'))
      × ((i : ℕ) × (i < s'.samplecount) × (v ≡ cycles i))
      × ((i : ℕ) → i < s'.samplecount → d.less (cycles i) v ≡ false)
      × (s'.samplecount ≤ s.maxsamples)
      × ((has_converged d s' ≡ true) ⊎ (s'.samplecount ≡ s.maxsamples))
unfolding fcyc init_sampler Ended
fcyc_lem d zeros cycles s pos some_calls =
    let start = init_sampler d zeros s in
    let begin : Sampled d s.kbest cycles pos start = record {
      size = refl;
      best = record {
        sorted = λ i lt. absurd (ground (arith, lt));
        member = λ i lt. absurd (ground (arith, lt));
        least = λ j lt. absurd (omega arith);
      };
    } in
    let (s', run, h, up, few, end) =
      sample_loop_lem d s.kbest cycles pos s.maxsamples start begin some_calls (omega arith) in
    let size : 0 < kept s'.samplecount s.kbest = ground (arith, up, pos) in
    (
      s'.values 0,
      s',
      ap (first_value d) run,
      h.best.member 0 size,
      h.best.least,
      ground (arith, few, some_calls),
      ground (arith, few, end, some_calls),
    )
