-- ===== src/Clock/Compensated.antt =====
-- The counters of benchmark_base/malloc-lab/clock.c that compensate for timer interrupts, and `mhz`.
-- What `times` stores in `tms_utime` at its i-th call is a parameter.
use jungle_malloc_benchmark.Base.{
  ℕ, zero, suc, ◌+◌, ◌&&◌, ◌||◌, ltb, if◌then◌else◌, Option, none, some,
}
use mathlib.Core.Option.{map as option_map}
use jungle_malloc_benchmark.Doubles.{Doubles}
use jungle_malloc_benchmark.Clock.{Counter, Clock, start_counter, get_counter}

abbrev pub nevent : ℕ
nevent = 100

-- `cyc_per_tick` and `start_tick`, the clock, and the number of calls of `times` so far.
pub record Compensation (D : Type 0) : Type 0 where
  pub clock : Clock
  pub ticks : ℕ
  pub cyc_per_tick : D
  pub start_tick : ℕ

-- The local variables of `callibrate`.
pub record Calibration (D : Type 0) : Type 0 where
  pub globals : Compensation D
  pub oldt : D
  pub oldc : ℕ
  pub e : ℕ

module _ {D : Type 0} (n : Doubles D) where
  abbrev pub zero_rate : D
  zero_rate = n.decimal 0 1

  -- RECORDTHRESH.
  abbrev pub record_thresh : D
  record_thresh = n.of_int 3000 0

  -- `cyc_per_tick` after an event of `cpt` cycles per tick.
  unfoldable pub lower_rate : D → D → D
  lower_rate cyc_per_tick cpt =
      if (n.equal cyc_per_tick zero_rate || n.less cpt cyc_per_tick) && n.less record_thresh cpt
      then cpt
      else cyc_per_tick

module _ {D : Type 0} (n : Doubles D) (access_counter : ℕ → Counter) (utime : ℕ → ℕ) where
  -- `times(&t)` where the counter jumped from `oldt` to `newt`.
  abbrev pub look : D → Calibration D → Calibration D
  look newt c =
      let newc = utime c.globals.ticks in
      let read = record c.globals { ticks = c.globals.ticks + 1 } in
      if ltb c.oldc newc
      then record c {
        globals = record read {
          cyc_per_tick =
              lower_rate n read.cyc_per_tick (n.div (n.sub newt c.oldt) (n.of_int newc c.oldc));
        };
        oldc = newc;
        e = c.e + 1;
      }
      else record c { globals = read }

  -- The body of the loop.
  unfoldable pub round : Calibration D → Calibration D
  round c =
      let (newt, clock) = get_counter (λ k. n.of_int k 0) access_counter c.globals.clock in
      let c1 = record c { globals = record c.globals { clock = clock } } in
      if n.at_least (n.sub newt c.oldt) (n.of_int 1000 0)
      then record (look newt c1) { oldt = newt }
      else c1

  -- The loop, on fuel.
  unfoldable pub rounds : (fuel : ℕ) → Calibration D → Option (Calibration D)
  rounds zero c = none
  rounds (suc fuel) c = let rest = rounds fuel (round c) in if ltb c.e nevent then rest else some c

  -- Before the loop.
  abbrev pub calibration : Compensation D → Calibration D
  calibration g =
      let (oldt, clock) =
        get_counter (λ k. n.of_int k 0) access_counter
          (start_counter (λ k. n.of_int k 0) access_counter g.clock) in
      record {
        globals = record g { clock = clock; ticks = g.ticks + 1 };
        oldt = oldt;
        oldc = utime g.ticks;
        e = 0;
      }

  unfoldable pub callibrate : (fuel : ℕ) → Compensation D → Option (Compensation D)
  callibrate fuel g = option_map (λ (c : Calibration D). c.globals) (rounds fuel (calibration g))

  abbrev pub start_now : Compensation D → Compensation D
  start_now g = record g {
    ticks = g.ticks + 1;
    start_tick = utime g.ticks;
    clock = start_counter (λ k. n.of_int k 0) access_counter g.clock;
  }

  unfoldable pub start_comp_counter : (fuel : ℕ) → Compensation D → Option (Compensation D)
  start_comp_counter fuel g =
      if n.equal g.cyc_per_tick (zero_rate n)
      then option_map start_now (callibrate fuel g)
      else some (start_now g)

  unfoldable pub get_comp_counter : Compensation D → D × Compensation D
  get_comp_counter g =
      let (time, clock) = get_counter (λ k. n.of_int k 0) access_counter g.clock in
      let ticks = n.of_int (utime g.ticks) g.start_tick in
      (n.sub time (n.mul ticks g.cyc_per_tick), record g { clock = clock; ticks = g.ticks + 1 })

  -- The rate is measured over `sleeptime` seconds.
  unfoldable pub mhz_full : (sleeptime : ℕ) → Clock → D × Clock
  mhz_full sleeptime c =
      let (cycles, clock) =
        get_counter (λ k. n.of_int k 0) access_counter
          (start_counter (λ k. n.of_int k 0) access_counter c) in
      (n.div cycles (n.mul (n.decimal 1000000 1) (n.of_int sleeptime 0)), clock)

  unfoldable pub mhz : Clock → D × Clock
  mhz c = mhz_full 2 c
