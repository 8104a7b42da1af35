-- ===== src/Sampler/Fcyc/Runs.antt =====
-- What a whole `fcyc` (benchmark_base/malloc-lab/fcyc.c) returns, and how often it calls the function.
use jungle_malloc_benchmark.Base.{
  ℕ, zero, suc, ◌<◌, ◌≡◌, ◌⊎◌, refl, inl, inr, Bool, false, not, ◌&&◌, ltb, ◌==◌, Bool-cases,
  if◌then◌else◌, some, get_elem?, get_elem?-some, [], length, subst, arith, ap, ◌∙◌, sym,
}
use jungle_malloc_benchmark.Doubles.{Doubles, IsOrder}
use jungle_malloc_benchmark.Clock.{Counter, start_counter, get_counter}
use jungle_malloc_benchmark.Clock.Compensated.{
  Compensation, zero_rate, start_comp_counter, get_comp_counter, start_now,
}
use jungle_malloc_benchmark.Sampler.{Sampler, init_sampler, add_sample, has_converged, fcyc_loop}
use jungle_malloc_benchmark.Sampler.Cache.{Cache}
use jungle_malloc_benchmark.Sampler.Cache.Sweep.{IsCache, clear-IsCache}
use jungle_malloc_benchmark.Sampler.Ends.{add_sample-length, has_converged-some}
use jungle_malloc_benchmark.Sampler.Result.{Stops, times, fcyc_loop-Stops}
use jungle_malloc_benchmark.Sampler.Best.{length-IsBest, init_sampler-IsBest}
use jungle_malloc_benchmark.Sampler.Fcyc.{
  Params, Bench, close, clear_first, start_cycles, get_cycles, run_once, sample_loop, fcyc_bench,
}

-- The calls of a function, one after the other.
abbrev pub iterate : {A : Type 0} → (A → A) → ℕ → A → A
iterate f zero x = x
iterate f (suc k) x = f (iterate f k x)

module _ {D : Type 0} (n : Doubles D) (access_counter : ℕ → Counter) (utime : ℕ → ℕ)
    (p : Params D) where
  -- One measurement with counters that are calibrated, if `compensate` is set.
  abbrev pub begin : Compensation D → Compensation D
  begin g =
      if p.compensate == 0
      then record g { clock = start_counter (λ k. n.of_int k 0) access_counter g.clock }
      else start_now n access_counter utime g

  abbrev pub once : Compensation D → D × Compensation D
  once g = get_cycles n access_counter utime p (begin g)

  -- The time that the i-th measurement shows.
  abbrev pub time_of : Compensation D → ℕ → D
  time_of g i = (once (iterate (λ x. (once x).1) i g)).0

  -- The counters do not have to be calibrated.
  abbrev pub IsReady : Compensation D → Type 0
  IsReady g = (p.compensate ≡ 0) ⊎ (n.equal g.cyc_per_tick (zero_rate n) ≡ false)

  start_cycles-begin :
      (calls : ℕ) (g : Compensation D)
      → IsReady g
      → start_cycles n access_counter utime p calls g ≡ some (begin g)
  unfolding start_cycles start_comp_counter
  start_cycles-begin calls g ready = elim (Bool-cases (p.compensate == 0)) [
    | inl e ↦ rw e refl
    | inr e ↦ elim ready [ inl h ↦ absurd (ground (arith, e, h)) | inr h ↦ rw (e, h) refl ]
  ]

  once-rate : (g : Compensation D) → (once g).1.cyc_per_tick ≡ g.cyc_per_tick
  unfolding get_cycles get_comp_counter get_counter
  once-rate g = elim (Bool-cases (p.compensate == 0)) [ inl e ↦ rw e refl | inr e ↦ rw e refl ]

  iterate-IsReady :
      (k : ℕ) (g : Compensation D) → IsReady g → IsReady (iterate (λ x. (once x).1) k g)
  iterate-IsReady zero g ready = ready
  iterate-IsReady (suc k) g ready = elim (iterate-IsReady k g ready) [
    | inl e ↦ inl e
    | inr e ↦ inr (rw (once-rate (iterate (λ x. (once x).1) k g)) e)
  ]

clear_first-IsCache :
    (c : Cache) → IsCache c → (c' : Cache) × (clear_first c ≡ some c') × IsCache c'
unfolding clear_first
clear_first-IsCache c ok = elim (Bool-cases (c.clear_cache == 0)) [
  | inl e ↦ (c, rw e refl, ok)
  | inr e ↦ let (c', runs, ok') = clear-IsCache c ok in (c', rw e runs, ok')
]

module _ {D S : Type 0} (n : Doubles D) (access_counter : ℕ → Counter) (utime : ℕ → ℕ)
    (p : Params D) (f : S → S) (calls : ℕ) (b0 : Bench D S) where
  -- After `k` runs.
  record Ran (k : ℕ) (b : Bench D S) : Type 0 where
    cached : IsCache b.cache
    counted : b.counters ≡ iterate (λ x. (once n access_counter utime p x).1) k b0.counters
    called : b.state ≡ iterate f k b0.state

  run_once-Ran :
      (k : ℕ) (b : Bench D S)
      → IsReady n access_counter utime p b0.counters
      → Ran k b
      → (b1 : Bench D S) × (run_once n access_counter utime p f calls b
          ≡ some (time_of n access_counter utime p b0.counters k, b1))
        × Ran (suc k) b1
  unfolding run_once
  run_once-Ran k b ready r =
      let (cache, cleared, cached) = clear_first-IsCache b.cache r.cached in
      let g = iterate (λ x. (once n access_counter utime p x).1) k b0.counters in
      let started =
        start_cycles-begin n access_counter utime p calls g
          (iterate-IsReady n access_counter utime p k b0.counters ready) in
      (
        record { cache = cache; counters = (once n access_counter utime p g).1; state = f b.state },
        rw (cleared, r.counted, started) refl,
        record { cached = cached; counted = refl; called = ap f r.called },
      )

  fcyc_loop-step :
      (measure : ℕ → D) (fuel : ℕ) (s s1 : Sampler D) (done : Bool)
      → add_sample n.less p.kbest s (measure s.samplecount) ≡ some s1
      → has_converged (close n p) p.kbest s1 ≡ some done
      → fcyc_loop n.less (close n p) p.kbest p.maxsamples measure (suc fuel) s ≡ (
          if not done && ltb s1.samplecount p.maxsamples
          then fcyc_loop n.less (close n p) p.kbest p.maxsamples measure fuel s1
          else some s1)
  unfolding fcyc_loop
  fcyc_loop-step measure fuel s s1 done added test = rw (added, test) refl

  sample_loop-step :
      (fuel : ℕ) (s s1 : Sampler D) (b b1 : Bench D S) (cyc : D) (done : Bool)
      → run_once n access_counter utime p f calls b ≡ some (cyc, b1)
      → add_sample n.less p.kbest s cyc ≡ some s1
      → has_converged (close n p) p.kbest s1 ≡ some done
      → sample_loop n access_counter utime p f calls (suc fuel) s b ≡ (
          if not done && ltb s1.samplecount p.maxsamples
          then sample_loop n access_counter utime p f calls fuel s1 b1
          else some (s1, b1))
  unfolding sample_loop
  sample_loop-step fuel s s1 b b1 cyc done ran added test = rw (ran, added, test) refl

  -- Where the abstract loop ends, this one ends with the same samples.
  sample_loop-Ran :
      (fuel : ℕ) (s : Sampler D) (b : Bench D S) (s' : Sampler D)
      → IsReady n access_counter utime p b0.counters
      → 0 < p.kbest
      → length s.values ≡ p.kbest
      → Ran s.samplecount b
      → fcyc_loop n.less
          (close n p)
          p.kbest
          p.maxsamples
          (time_of n access_counter utime p b0.counters)
          fuel
          s
        ≡ some s'
      → (b' : Bench D S) × (sample_loop n access_counter utime p f calls fuel s b ≡ some (s', b'))
        × Ran s'.samplecount b'
  unfolding fcyc_loop
  sample_loop-Ran zero s b s' ready pos len r e = absurd (cc e)
  sample_loop-Ran (suc fuel) s b s' ready pos len r e =
      let time = time_of n access_counter utime p b0.counters in
      let (b1, ran, r1) = run_once-Ran s.samplecount b ready r in
      let (s1, added, len1, count) =
        add_sample-length n.less p.kbest s (time s.samplecount) pos len in
      let (done, test) = has_converged-some (close n p) p.kbest s1 pos len1 in
      let r2 : Ran s1.samplecount b1 = subst (λ k. Ran k b1) (omega (arith, count)) r1 in
      let here = sym (fcyc_loop-step time fuel s s1 done added test) ∙ e in
      let there = sample_loop-step fuel s s1 b b1 (time s.samplecount) done ran added test in
      elim (Bool-cases (not done && ltb s1.samplecount p.maxsamples)) [
        | inl on ↦
            let (b', runs, r') =
              sample_loop-Ran fuel s1 b1 s' ready pos len1 r2 (sym (rw on refl) ∙ here) in
            (b', there ∙ rw on runs, r')
        | inr off ↦
            let last : s1 ≡ s' = cc (off, here) in
            (b1, there ∙ rw (off, last) refl, subst (λ x. Ran x.samplecount b1) last r2)
      ]

  -- Where the comparison of times is an order, at least one sample is kept, the cache block has
  -- at least 4 bytes, the cache's buffer, if it is allocated, has `cache_bytes` bytes, and
  -- `compensate` is 0 or `cyc_per_tick` is not 0.0, a whole `fcyc` ends within one round more
  -- than `maxsamples`. It calls the function once for each sample, and returns the first element
  -- of an array that holds, in ascending order, the `kbest` least of the times that the chosen
  -- counter showed for these calls, or all of them if there are fewer; it stops because the
  -- samples have converged, with `(1 + epsilon)*values[0] >= values[kbest-1]`, or because
  -- `maxsamples` is reached. The conditions on the cache hold again.
  pub fcyc_bench-Stops :
      IsOrder n.less
      → 0 < p.kbest
      → IsCache b0.cache
      → IsReady n access_counter utime p b0.counters
      → (s : Sampler D) × (t : D) × (b' : Bench D S) × (fcyc_bench n access_counter utime p f calls
            b0
          ≡ some (t, b'))
        × (get_elem? s.values 0 ≡ some t)
        × Stops n.less
            (close n p)
            p.kbest
            p.maxsamples
            (time_of n access_counter utime p b0.counters)
            s
        × (b'.state ≡ iterate f s.samplecount b0.state)
        × IsCache b'.cache
  unfolding fcyc_bench init_sampler
  fcyc_bench-Stops o pos cached ready =
      let z = n.decimal 0 1 in
      let start = init_sampler z p.kbest in
      let time = time_of n access_counter utime p b0.counters in
      let empty = init_sampler-IsBest n.less p.kbest z in
      let (s, ends, stops) =
        fcyc_loop-Stops n.less (close n p) p.kbest p.maxsamples time o pos (suc p.maxsamples) start
          empty (inr refl) (omega arith) in
      let (b', runs, r) =
        sample_loop-Ran (suc p.maxsamples) start b0 s ready pos
          (length-IsBest n.less p.kbest start [] empty)
          (record { cached = cached; counted = refl; called = refl }) ends in
      let full = length-IsBest n.less p.kbest s (times time s.samplecount) stops.best in
      let (t, first) = get_elem?-some s.values 0 (omega (arith, full)) in
      (s, t, b', rw (runs, first) refl, first, stops, r.called, r.cached)
