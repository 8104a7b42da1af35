-- ===== src/Tests/Cache.antt =====
-- Two sweeps of the cache with a change of its size between, and a whole `fcyc`.
use jungle_malloc_benchmark.Base.{
  ℕ, suc, ltb, get_elem?, ◌≡◌, refl, inl, none, some, List, [], ◌∷◌, arith,
}
use jungle_malloc_benchmark.Sampler.{Sampler}
use jungle_malloc_benchmark.Sampler.Result.{Stops}
use jungle_malloc_benchmark.Sampler.Fcyc.{Params, Bench, close, fcyc_bench}
use jungle_malloc_benchmark.Sampler.Fcyc.Runs.{iterate, time_of, fcyc_bench-Stops}
use jungle_malloc_benchmark.Tests.Main.{whole}
use jungle_malloc_benchmark.Tests.Checks.{ltb-IsOrder}
use jungle_malloc_benchmark.Tests.Clock.{steps, uncompensated}
use jungle_malloc_benchmark.Sampler.Cache.{Cache}
use jungle_malloc_benchmark.Sampler.Cache.Sweep.{Call, calls, IsCache, calls-IsCache}

abbrev small : Cache
small = record { clear_cache = 1; cache_bytes = 64; cache_block = 16; cache_buf = none }

abbrev sequence : List Call
sequence = Call.clearing ∷ Call.cache_size 128 ∷ Call.block_size 8 ∷ Call.clearing ∷ []

calls-IsCache_example : (c : Cache) × (calls sequence small ≡ some c) × IsCache c
calls-IsCache_example =
    calls-IsCache sequence small (tt, (tt, (omega arith, (tt, tt))))
      (record { sized = inl refl; block = omega arith })

abbrev kept : Params ℕ
kept = record { kbest = 3; maxsamples = 20; epsilon = 0; compensate = 0 }

abbrev bench : Bench ℕ ℕ
bench = record { cache = small; counters = uncompensated; state = 0 }

fcyc_bench-Stops_example :
    (s : Sampler ℕ) × (t : ℕ) × (b' : Bench ℕ ℕ) × (fcyc_bench whole steps (λ i. i) kept suc 0 bench
      ≡ some (t, b'))
    × (get_elem? s.values 0 ≡ some t)
    × Stops ltb (close whole kept) 3 20 (time_of whole steps (λ i. i) kept uncompensated) s
    × (b'.state ≡ iterate suc s.samplecount 0)
    × IsCache b'.cache
fcyc_bench-Stops_example =
    fcyc_bench-Stops whole steps (λ i. i) kept suc 0 bench ltb-IsOrder (omega arith)
      (record { sized = inl refl; block = omega arith }) (inl refl)
