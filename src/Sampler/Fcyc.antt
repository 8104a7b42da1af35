-- ===== src/Sampler/Fcyc.antt =====
-- benchmark_base/malloc-lab/fcyc.c: `fcyc` with its counters and the sweep of the cache, and the
-- setters of its parameters. The function that is timed is a parameter.
pub mod Runs
use jungle_malloc_benchmark.Base.{
  ℕ, zero, suc, Bool, true, false, not, ◌&&◌, ltb, ◌==◌, if◌then◌else◌, Option, none, some,
  get_elem?,
}
use jungle_malloc_benchmark.Doubles.{Doubles}
use jungle_malloc_benchmark.Clock.{Counter, start_counter, get_counter}
use jungle_malloc_benchmark.Clock.Compensated.{Compensation, start_comp_counter, get_comp_counter}
use jungle_malloc_benchmark.Sampler.{◌>>=◌, Sampler, init_sampler, add_sample, has_converged}
use jungle_malloc_benchmark.Sampler.Cache.{Cache, clear}

pub record Params (D : Type 0) : Type 0 where
  pub kbest : ℕ
  pub maxsamples : ℕ
  pub epsilon : D
  pub compensate : ℕ

abbrev pub default_params : {D : Type 0} → Doubles D → Params D
default_params n = record { kbest = 3; maxsamples = 20; epsilon = n.decimal 1 100; compensate = 0 }

unfoldable pub set_fcyc_compensate : {D : Type 0} → ℕ → Params D → Params D
set_fcyc_compensate compensate_arg p = record p { compensate = compensate_arg }

unfoldable pub set_fcyc_k : {D : Type 0} → ℕ → Params D → Params D
set_fcyc_k k p = record p { kbest = k }

unfoldable pub set_fcyc_maxsamples : {D : Type 0} → ℕ → Params D → Params D
set_fcyc_maxsamples maxsamples_arg p = record p { maxsamples = maxsamples_arg }

unfoldable pub set_fcyc_epsilon : {D : Type 0} → D → Params D → Params D
set_fcyc_epsilon epsilon_arg p = record p { epsilon = epsilon_arg }

-- The cache, the counters, and what the function works on.
pub record Bench (D S : Type 0) : Type 0 where
  pub cache : Cache
  pub counters : Compensation D
  pub state : S

-- `(1 + epsilon)*values[0] >= values[kbest-1]`
abbrev pub close : {D : Type 0} → Doubles D → Params D → D → D → Bool
close n p best worst = n.at_least (n.mul (n.add (n.of_int 1 0) p.epsilon) best) worst

unfoldable pub clear_first : Cache → Option Cache
clear_first c = if c.clear_cache == 0 then some c else clear c

-- The calls around `f(argp)`, in both loops of `fcyc`.
module _ {D : Type 0} (n : Doubles D) (access_counter : ℕ → Counter) (utime : ℕ → ℕ)
    (p : Params D) where
  unfoldable pub start_cycles : (calls : ℕ) → Compensation D → Option (Compensation D)
  start_cycles calls g =
      if p.compensate == 0
      then some (record g { clock = start_counter (λ k. n.of_int k 0) access_counter g.clock })
      else start_comp_counter n access_counter utime calls g

  abbrev get_plain : Compensation D → D × Compensation D
  get_plain g =
      let (cyc, clock) = get_counter (λ k. n.of_int k 0) access_counter g.clock in
      (cyc, record g { clock = clock })

  unfoldable pub get_cycles : Compensation D → D × Compensation D
  get_cycles g =
      if p.compensate == 0 then get_plain g else get_comp_counter n access_counter utime g

module _ {D S : Type 0} (n : Doubles D) (access_counter : ℕ → Counter) (utime : ℕ → ℕ)
    (p : Params D) (f : S → S) where
  unfoldable pub run_once : (calls : ℕ) → Bench D S → Option (D × Bench D S)
  run_once calls b = do
    cache ← clear_first b.cache
    started ← start_cycles n access_counter utime p calls b.counters
    let (cyc, counters) = get_cycles n access_counter utime p started in
        some (cyc, record { cache = cache; counters = counters; state = f b.state })

  -- `fuel` bounds the runs, `calls` the loop of `callibrate`.
  unfoldable pub sample_loop :
      (calls fuel : ℕ) → Sampler D → Bench D S → Option (Sampler D × Bench D S)
  sample_loop calls zero s b = none
  sample_loop calls (suc fuel) s b = do
    (cyc, b1) ← run_once calls b
    s1 ← add_sample n.less p.kbest s cyc
    converged ← has_converged (close n p) p.kbest s1
    let rest = sample_loop calls fuel s1 b1 in
        if not converged && ltb s1.samplecount p.maxsamples then rest else some (s1, b1)

  unfoldable pub fcyc_bench : (calls : ℕ) → Bench D S → Option (D × Bench D S)
  fcyc_bench calls b = do
    (s, b1) ← sample_loop calls (suc p.maxsamples) (init_sampler (n.decimal 0 1) p.kbest) b
    result ← get_elem? s.values 0
    some (result, b1)
