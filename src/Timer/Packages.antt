-- ===== src/Timer/Packages.antt =====
-- benchmark_base/malloc-lab/fsecs.c for each of the packages that config.h can select. With a state
-- that a run can fail in, a timed function goes on from a state that is still `going`.
use jungle_malloc_benchmark.Base.{ℕ, Option, none, some, ◌≡◌, refl}
use jungle_malloc_benchmark.Doubles.{Doubles}
use jungle_malloc_benchmark.Clock.{Counter}
use jungle_malloc_benchmark.Clock.Compensated.{Compensation, mhz}
use jungle_malloc_benchmark.Sampler.Cache.{Cache, set_fcyc_clear_cache}
use jungle_malloc_benchmark.Sampler.Fcyc.{
  Params, Bench, set_fcyc_compensate, set_fcyc_k, set_fcyc_maxsamples, set_fcyc_epsilon, fcyc_bench,
}
use jungle_malloc_benchmark.Timer.{Timeval, Timed, ftimer_itimer, ftimer_gettod, fsecs}
use jungle_malloc_benchmark.Driver.{Step, going, unfinished, then_step}

-- USE_FCYC, USE_ITIMER, USE_GETTOD.
pub data Package : Type 0 where
  use_fcyc use_itimer use_gettod : Package

-- The globals of fsecs.c, fcyc.c and clock.c.
pub record Timing (D : Type 0) : Type 0 where
  pub mhz : D
  pub params : Params D
  pub cache : Cache
  pub counters : Compensation D

module _ {D : Type 0} (n : Doubles D) (access_counter : ℕ → Counter) (utime : ℕ → ℕ) where
  abbrev fcyc_params : Params D → Params D
  fcyc_params p =
      set_fcyc_k 3
        (set_fcyc_epsilon (n.decimal 1 100) (set_fcyc_compensate 1 (set_fcyc_maxsamples 20 p)))

  unfoldable pub init_fsecs : Package → Timing D → Timing D
  init_fsecs use_fcyc t =
      let (rate, clock) = mhz n access_counter utime t.counters.clock in
      record {
        mhz = rate;
        params = fcyc_params t.params;
        cache = set_fcyc_clear_cache 1 t.cache;
        counters = record t.counters { clock = clock };
      }
  init_fsecs use_itimer t = record t { mhz = n.decimal 0 1 }
  init_fsecs use_gettod t = record t { mhz = n.decimal 0 1 }

  -- The cycles of `fcyc` in seconds.
  abbrev of_cycles :
      {S : Type 0} → Timing D → ℕ → Option (D × Bench D (Step S)) → Step (Timed D S × Timing D)
  of_cycles t readings none = unfinished
  of_cycles t readings (some (cycles, b)) = then_step b.state λ s. going (
    record {
      time = n.div cycles (n.mul t.mhz (n.decimal 1000000 1));
      state = s;
      readings = readings;
    },
    record t { cache = b.cache; counters = b.counters },
  )

  -- `calls` bounds the loop of `callibrate`.
  unfoldable pub fsecs_with :
      {S : Type 0}
      → Package
      → (calls : ℕ) → (getitimer gettimeofday : ℕ → Timeval) → (S → Step S)
      → S
      → (readings : ℕ) → Timing D
      → Step (Timed D S × Timing D)
  fsecs_with use_fcyc calls getitimer gettimeofday f s readings t = of_cycles t readings (
      fcyc_bench n access_counter utime t.params (λ x. then_step x f) calls
        (record { cache = t.cache; counters = t.counters; state = going s }))
  fsecs_with use_itimer calls getitimer gettimeofday f s readings t =
      then_step (ftimer_itimer n getitimer f 10 s readings) λ timed. going (timed, t)
  fsecs_with use_gettod calls getitimer gettimeofday f s readings t =
      then_step (ftimer_gettod n gettimeofday f 10 s readings) λ timed. going (timed, t)

  -- The package that config.h selects is the one of `fsecs`.
  fsecs_with-gettod :
      {S : Type 0} (calls : ℕ) (getitimer gettimeofday : ℕ → Timeval) (f : S → Step S) (s : S)
      (readings : ℕ) (t : Timing D)
      → fsecs_with use_gettod calls getitimer gettimeofday f s readings t
        ≡ then_step (fsecs n gettimeofday f s readings) λ timed. going (timed, t)
  unfolding fsecs_with fsecs
  fsecs_with-gettod calls getitimer gettimeofday f s readings t = refl
