-- ===== src/Sampler/Result.antt =====
-- The result of `fcyc` (benchmark_base/malloc-lab/fcyc.c): the first of the smallest samples.
use jungle_malloc_benchmark.Base.{
  ℕ, zero, suc, ◌+◌, ◌<◌, ◌≤◌, ◌≡◌, ◌⊎◌, refl, inl, inr, Bool, true, lt→ltb, le→ltb, Bool-cases,
  le_or_lt, some, List, [], ◌∷◌, get_elem?, arith, ap, ◌∙◌, subst,
}
use jungle_malloc_benchmark.Sampler.{Sampler, init_sampler, has_converged, fcyc_loop, fcyc}
use jungle_malloc_benchmark.Doubles.{IsOrder}
use jungle_malloc_benchmark.Sampler.Ends.{has_converged-some}
use jungle_malloc_benchmark.Sampler.Best.{
  IsBest, add_sample-IsBest, length-IsBest, init_sampler-IsBest,
}

module _ {D : Type 0} where
  -- The times of the first runs, the last one first.
  abbrev pub times : (ℕ → D) → ℕ → List D
  times measure zero = []
  times measure (suc n) = measure n ∷ times measure n

  -- Where the loop stops.
  pub record Stops (lt close : D → D → Bool) (kbest maxsamples : ℕ) (measure : ℕ → D)
      (s : Sampler D) : Type 0 where
    pub best : IsBest lt kbest s (times measure s.samplecount)
    pub some_run : 0 < s.samplecount
    pub bound : (s.samplecount ≤ maxsamples) ⊎ (s.samplecount ≡ 1)
    pub stop : (has_converged close kbest s ≡ some true) ⊎ (maxsamples ≤ s.samplecount)

module _ {D : Type 0} (lt close : D → D → Bool) (kbest maxsamples : ℕ) (measure : ℕ → D) where
  pub fcyc_loop-Stops :
      IsOrder lt
      → 0 < kbest
      → (fuel : ℕ) (s : Sampler D) → IsBest lt kbest s (times measure s.samplecount)
      → (s.samplecount < maxsamples) ⊎ (s.samplecount ≡ 0)
      → maxsamples < s.samplecount + fuel
      → (s' : Sampler D) × (fcyc_loop lt close kbest maxsamples measure fuel s ≡ some s')
        × Stops lt close kbest maxsamples measure s'
  unfolding fcyc_loop
  fcyc_loop-Stops o pos zero s best early enough = elim early [
    | inl e ↦ absurd (omega (arith, e))
    | inr e ↦ absurd (omega (arith, e))
  ]
  fcyc_loop-Stops o pos (suc fuel) s best early enough =
      let (s1, added, count, best1) =
        add_sample-IsBest lt kbest o pos s (measure s.samplecount) (times measure s.samplecount)
          best in
      let next : suc s.samplecount ≡ s1.samplecount = omega (arith, count) in
      let times1 : IsBest lt kbest s1 (times measure s1.samplecount) =
        subst (λ n. IsBest lt kbest s1 (times measure n)) next best1 in
      let (converged, test) =
        has_converged-some close kbest s1 pos
          (length-IsBest lt kbest s1 (times measure s1.samplecount) times1) in
      let bound : (s1.samplecount ≤ maxsamples) ⊎ (s1.samplecount ≡ 1) = elim early [
        | inl e ↦ inl (omega arith)
        | inr e ↦ inr (omega arith)
      ] in
      let stops : (has_converged close kbest s1 ≡ some true) ⊎ (maxsamples ≤ s1.samplecount)
          → Stops lt close kbest maxsamples measure s1 =
        λ stop. record { best = times1; some_run = omega arith; bound = bound; stop = stop } in
      elim (Bool-cases converged) [
        | inl stopped ↦ (s1, rw (added, test, stopped) refl, stops (inl (test ∙ ap some stopped)))
        | inr goes ↦ elim (le_or_lt maxsamples s1.samplecount) [
          | inl done ↦ (
            s1,
            rw (added, test, goes, le→ltb s1.samplecount maxsamples done) refl,
            stops (inr done),
          )
          | inr more ↦
              let (s', runs, at_end) =
                fcyc_loop-Stops o pos fuel s1 times1 (inl more) (omega arith) in
              (s', rw (added, test, goes, lt→ltb s1.samplecount maxsamples more) runs, at_end)
        ]
      ]

  -- Where the comparison of times is an order (`x < y` excludes `y < x`, and not `x < y` and not
  -- `y < z` give not `x < z`) and at least one sample is kept, `fcyc` ends with the first element
  -- of its array, after at least one run and at most `maxsamples` (one, if `maxsamples` is 0),
  -- because the samples have converged or `maxsamples` is reached. The array then holds, in
  -- ascending order, the `kbest` least of the times of all runs, or all of them if there are
  -- fewer runs: kept and dropped times together are a permutation of them, none of the dropped is
  -- less than a kept one, and none is dropped before the array is full.
  pub fcyc-Stops :
      (z : D)
      → IsOrder lt
      → 0 < kbest
      → (s : Sampler D) × (fcyc z lt close kbest maxsamples measure ≡ get_elem? s.values 0)
        × Stops lt close kbest maxsamples measure s
  unfolding fcyc init_sampler
  fcyc-Stops z o pos =
      let (s, runs, at_end) =
        fcyc_loop-Stops o pos (suc maxsamples) (init_sampler z kbest)
          (init_sampler-IsBest lt kbest z) (inr refl) (omega arith) in
      (s, rw runs refl, at_end)
