-- ===== src/Clock.antt =====
-- benchmark_base/malloc-lab/clock.c: the cycle counters. The instruction that reads the counter is
-- a parameter, a `double` too.
pub mod Alpha
pub mod Elapsed
pub mod Compensated
pub mod Least
pub mod Callibrate
use jungle_malloc_benchmark.Base.{ℕ, zero, suc, ◌+◌, ◌-◌, ◌*◌, ◌%◌, ◌^◌, ltb, if◌then◌else◌}

-- `unsigned` subtraction.
unfoldable pub sub32 : ℕ → ℕ → ℕ
sub32 a b = (a + 2 ^ 32 - b) % 2 ^ 32

-- `cyc_hi` and `cyc_lo`, and the two halves that `access_counter` stores.
pub record Counter : Type 0 where
  pub cyc_hi : ℕ
  pub cyc_lo : ℕ

-- The double precision subtraction, the two versions alike. `(double) hi * (1 << 30) * 4` is exact.
unfoldable pub subtract : Counter → Counter → ℕ
subtract ncyc cyc =
    let lo = sub32 ncyc.cyc_lo cyc.cyc_lo in
    let borrow = if ltb ncyc.cyc_lo lo then 1 else 0 in
    let hi = sub32 (sub32 ncyc.cyc_hi cyc.cyc_hi) borrow in hi * (2 ^ 30 * 4) + lo

-- What the counter shows at its i-th reading, and the number of readings so far.
pub record Clock : Type 0 where
  pub counter : Counter
  pub readings : ℕ

-- `double` is a parameter: `nearest` is the double that a natural number is rounded to.
module _ {D : Type 0} (nearest : ℕ → D) (access_counter : ℕ → Counter) where
  unfoldable pub start_counter : Clock → Clock
  start_counter c = record { counter = access_counter c.readings; readings = c.readings + 1 }

  -- A negative result only prints a message; here there is none.
  unfoldable pub get_counter : Clock → D × Clock
  get_counter c = (
    nearest (subtract (access_counter c.readings) c.counter),
    record c { readings = c.readings + 1 },
  )

  -- The loop of `ovhd` on `i` rounds, of which the last sets the result.
  unfoldable pub ovhd_rounds : (i : ℕ) → D → Clock → D × Clock
  ovhd_rounds zero result c = (result, c)
  ovhd_rounds (suc i) result c =
      let (result1, c1) = get_counter (start_counter c) in ovhd_rounds i result1 c1

  unfoldable pub ovhd : D → Clock → D × Clock
  ovhd unset c = ovhd_rounds 2 unset c
