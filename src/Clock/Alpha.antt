-- ===== src/Clock/Alpha.antt =====
-- The Alpha version in benchmark_base/malloc-lab/clock.c: the counter has 32 bits.
use jungle_malloc_benchmark.Base.{ℕ, ◌+◌}
use jungle_malloc_benchmark.Clock.{Counter, Clock, subtract}

module _ {D : Type 0} (nearest : ℕ → D) (counter : ℕ → ℕ) where
  unfoldable pub start_alpha : Clock → Clock
  start_alpha c = record {
    counter = record { cyc_hi = 0; cyc_lo = counter c.readings };
    readings = c.readings + 1;
  }

  unfoldable pub get_alpha : Clock → D × Clock
  get_alpha c =
      let ncyc : Counter = record { cyc_hi = 0; cyc_lo = counter c.readings } in
      (nearest (subtract ncyc c.counter), record c { readings = c.readings + 1 })
