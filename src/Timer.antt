-- ===== src/Timer.antt =====
-- benchmark_base/malloc-lab/ftimer.c and fsecs.c: the time of a function, as an average of several
-- runs. What the system's clocks show at the i-th reading is a parameter.
pub mod Packages
use jungle_malloc_benchmark.Base.{ℕ, zero, suc, ◌+◌}
use jungle_malloc_benchmark.Doubles.{Doubles}
use jungle_malloc_benchmark.Driver.{Step, going, then_step}

pub record Timeval : Type 0 where
  pub tv_sec : ℕ
  pub tv_usec : ℕ

-- The loop around the calls of the function.
unfoldable pub repeat_calls : {S : Type 0} → ℕ → (S → Step S) → S → Step S
repeat_calls zero f s = going s
repeat_calls (suc n) f s = then_step (f s) (repeat_calls n f)

abbrev pub max_etime : ℕ
max_etime = 86400

-- The value that all three interval timers start from.
abbrev pub init_etime : Timeval
init_etime = record { tv_sec = max_etime; tv_usec = 0 }

-- A time, the state after the calls, and the number of readings of the clock so far.
pub record Timed (D S : Type 0) : Type 0 where
  pub time : D
  pub state : S
  pub readings : ℕ

module _ {D : Type 0} (n : Doubles D) where
  -- `getitimer(ITIMER_REAL)` is `r_curr`; the other two timers are read and not used.
  unfoldable pub get_etime : Timeval → D
  get_etime r_curr =
      n.add (n.of_int init_etime.tv_sec r_curr.tv_sec)
        (n.mul (n.of_int init_etime.tv_usec r_curr.tv_usec) (n.decimal 1 1000000))

  unfoldable pub ftimer_itimer :
      {S : Type 0}
      → (getitimer : ℕ → Timeval) → (S → Step S)
      → ℕ
      → S
      → (readings : ℕ) → Step (Timed D S)
  ftimer_itimer getitimer f runs s readings =
      let start = get_etime (getitimer readings) in
      then_step (repeat_calls runs f s) λ s1.
        let tmeas = n.sub (get_etime (getitimer (readings + 1))) start in
        going (record { time = n.div tmeas (n.of_int runs 0); state = s1; readings = readings + 2 })

  -- `diff`, in milliseconds, becomes the seconds of one run.
  abbrev pub mean_time : (runs : ℕ) (stv etv : Timeval) → D
  mean_time runs stv etv =
      let diff =
        n.add (n.mul (n.decimal 1000 1) (n.of_int etv.tv_sec stv.tv_sec))
          (n.mul (n.decimal 1 1000) (n.of_int etv.tv_usec stv.tv_usec)) in
      n.mul (n.decimal 1 1000) (n.div diff (n.of_int runs 0))

  unfoldable pub ftimer_gettod :
      {S : Type 0}
      → (gettimeofday : ℕ → Timeval) → (S → Step S)
      → ℕ
      → S
      → (readings : ℕ) → Step (Timed D S)
  ftimer_gettod gettimeofday f runs s readings =
      let stv = gettimeofday readings in
      then_step (repeat_calls runs f s) λ s1.
        let etv = gettimeofday (readings + 1) in
        going (record { time = mean_time runs stv etv; state = s1; readings = readings + 2 })

  -- With USE_GETTOD of config.h.
  unfoldable pub fsecs :
      {S : Type 0} → (gettimeofday : ℕ → Timeval) → (S → Step S) → S → ℕ → Step (Timed D S)
  fsecs gettimeofday f s readings = ftimer_gettod gettimeofday f 10 s readings
