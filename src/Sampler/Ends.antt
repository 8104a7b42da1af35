-- ===== src/Sampler/Ends.antt =====
-- The loops and array accesses of `fcyc` (benchmark_base/malloc-lab/fcyc.c).
use jungle_malloc_benchmark.Base.{
  ℕ, zero, suc, ◌+◌, ◌-◌, ◌<◌, ◌≤◌, ◌≡◌, ◌⊎◌, refl, inl, inr, Bool, true, false, ap, le_or_lt, not,
  ◌&&◌, ltb, leb, Bool-cases, some, List, length, length-set, get_elem?, get_elem?-some, set, arith,
  ◌∙◌,
}
use jungle_malloc_benchmark.Sampler.{
  Sampler, zeros, init_sampler, insertion, store_sample, add_sample, has_converged, fcyc_loop, fcyc,
}

module _ {D : Type 0} where
  pub length-zeros : (z : D) (k : ℕ) → length (zeros z k) ≡ k
  length-zeros z zero = refl
  length-zeros z (suc k) = omega (arith, length-zeros z k)

  insertion-length :
      (gt : D → D → Bool) (pos : ℕ) (values : List D)
      → pos < length values
      → (sorted : List D) × (insertion gt pos values ≡ some sorted)
        × (length sorted ≡ length values)
  unfolding insertion
  insertion-length gt zero values h = (values, refl, refl)
  insertion-length gt (suc pos) values h =
      let (x, left) = get_elem?-some values pos (omega arith) in
      let (y, right) = get_elem?-some values (suc pos) h in
      let swapped = set (set values pos y) (suc pos) x in
      let same : length swapped ≡ length values =
        length-set (set values pos y) (suc pos) x ∙ length-set values pos y in
      let (sorted, runs, len) = insertion-length gt pos swapped (omega arith) in
      elim (Bool-cases (gt x y)) [
        | inl e ↦ (sorted, rw (left, right, e) runs, len ∙ same)
        | inr e ↦ (values, rw (left, right, e) refl, refl)
      ]

  -- A sample is stored inside the array, whose size stays the same.
  pub add_sample-length :
      (lt : D → D → Bool) (kbest : ℕ) (s : Sampler D) (val : D)
      → 0 < kbest
      → length s.values ≡ kbest
      → (s' : Sampler D) × (add_sample lt kbest s val ≡ some s')
        × (length s'.values ≡ kbest)
        × (s'.samplecount ≡ s.samplecount + 1)
  unfolding add_sample store_sample
  add_sample-length lt kbest s val pos len = elim (Bool-cases (ltb s.samplecount kbest)) [
    | inl e ↦
        let stored = length-set s.values s.samplecount val in
        let inside : s.samplecount < length (set s.values s.samplecount val) = ground arith in
        let (sorted, runs, same) =
          insertion-length (λ x y. lt y x) s.samplecount (set s.values s.samplecount val) inside in
        (
          record { values = sorted; samplecount = s.samplecount + 1 },
          rw (e, runs) refl,
          same ∙ stored ∙ len,
          refl,
        )
    | inr e ↦
        let (worst, last) = get_elem?-some s.values (kbest - 1) (omega arith) in
        elim (Bool-cases (lt val worst)) [
          | inl f ↦
              let stored = length-set s.values (kbest - 1) val in
              let inside : kbest - 1 < length (set s.values (kbest - 1) val) = omega arith in
              let (sorted, runs, same) =
                insertion-length (λ x y. lt y x) (kbest - 1) (set s.values (kbest - 1) val)
                  inside in
              (
                record { values = sorted; samplecount = s.samplecount + 1 },
                rw (e, last, f, runs) refl,
                same ∙ stored ∙ len,
                refl,
              )
          | inr f ↦
              let (sorted, runs, same) =
                insertion-length (λ x y. lt y x) 0 s.values (omega arith) in
              (
                record { values = sorted; samplecount = s.samplecount + 1 },
                rw (e, last, f, runs) refl,
                same ∙ len,
                refl,
              )
        ]
  ]

  pub has_converged-some :
      (close : D → D → Bool) (kbest : ℕ) (s : Sampler D)
      → 0 < kbest
      → length s.values ≡ kbest
      → (b : Bool) × (has_converged close kbest s ≡ some b)
  unfolding has_converged
  has_converged-some close kbest s pos len =
      let (best, first) = get_elem?-some s.values 0 (omega arith) in
      let (worst, last) = get_elem?-some s.values (kbest - 1) (omega arith) in
      elim (Bool-cases (leb kbest s.samplecount)) [
        | inl e ↦ (close best worst, rw (e, first, last) refl)
        | inr e ↦ (false, rw e refl)
      ]

  fcyc_loop-ends :
      (lt close : D → D → Bool) (kbest maxsamples : ℕ) (measure : ℕ → D) (fuel : ℕ) (s : Sampler D)
      → 0 < kbest
      → length s.values ≡ kbest
      → 0 < fuel
      → maxsamples < s.samplecount + fuel
      → (s' : Sampler D) × (fcyc_loop lt close kbest maxsamples measure fuel s ≡ some s')
        × (length s'.values ≡ kbest)
        × (s.samplecount < s'.samplecount)
        × ((s'.samplecount ≤ maxsamples) ⊎ (s'.samplecount ≡ s.samplecount + 1))
        × ((has_converged close kbest s' ≡ some true) ⊎ (maxsamples ≤ s'.samplecount))
  unfolding fcyc_loop
  fcyc_loop-ends lt close kbest maxsamples measure zero s pos len some_fuel enough =
      absurd (omega arith)
  fcyc_loop-ends lt close kbest maxsamples measure (suc fuel) s pos len some_fuel enough =
      let (s1, added, len1, count) = add_sample-length lt kbest s (measure s.samplecount) pos len in
      let (b, test) = has_converged-some close kbest s1 pos len1 in
      elim (Bool-cases (not b && ltb s1.samplecount maxsamples)) [
        | inl e ↦
            let some_left : 0 < fuel = ground arith in
            let (s', runs, len', more, bound, stop) =
              fcyc_loop-ends lt close kbest maxsamples measure fuel s1 pos len1 some_left
                (omega arith) in
            let early : s1.samplecount < maxsamples = ground arith in
            let last : s'.samplecount ≤ maxsamples = elim bound [
              | inl le ↦ le
              | inr one ↦ omega arith
            ] in
            (s', rw (added, test, e) runs, len', omega (arith, count), inl last, stop)
        | inr e ↦ elim (le_or_lt maxsamples s1.samplecount) [
          | inl full ↦
              (s1, rw (added, test, e) refl, len1, omega (arith, count), inr count, inr full)
          | inr early ↦
              let done : b ≡ true = ground (arith, e, early) in
              (
                s1,
                rw (added, test, e) refl,
                len1,
                omega (arith, count),
                inr count,
                inl (test ∙ ap some done),
              )
        ]
      ]

  -- With at least one sample to keep, the loop of `fcyc` ends, whatever the measured times are,
  -- however they compare and whichever of them count as converged: after at least one round and
  -- at most `maxsamples` (one, if `maxsamples` is 0), because the samples have converged or
  -- `maxsamples` is reached. No read or write is outside of the array, and the result of `fcyc`
  -- is the array's first element at the end.
  pub fcyc-ends :
      (z : D) (lt close : D → D → Bool) (kbest maxsamples : ℕ) (measure : ℕ → D)
      → 0 < kbest
      → (s : Sampler D) × (t : D) × (fcyc z lt close kbest maxsamples measure ≡ some t)
        × (fcyc_loop lt close kbest maxsamples measure (suc maxsamples) (init_sampler z kbest)
            ≡ some s)
        × (get_elem? s.values 0 ≡ some t)
        × (0 < s.samplecount)
        × ((s.samplecount ≤ maxsamples) ⊎ (s.samplecount ≡ 1))
        × ((has_converged close kbest s ≡ some true) ⊎ (maxsamples ≤ s.samplecount))
  unfolding fcyc init_sampler
  fcyc-ends z lt close kbest maxsamples measure pos =
      let (s, runs, len, more, bound, stop) =
        fcyc_loop-ends lt close kbest maxsamples measure (suc maxsamples) (init_sampler z kbest) pos
          (length-zeros z kbest) (omega arith) (omega arith) in
      let (t, first) = get_elem?-some s.values 0 (omega arith) in
      (s, t, rw (runs, first) refl, runs, first, more, bound, stop)
