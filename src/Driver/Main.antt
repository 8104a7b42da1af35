-- ===== src/Driver/Main.antt =====
-- The evaluation of an allocator by `main` (benchmark_base/malloc-lab/mdriver.c): each trace is read,
-- checked, measured and timed, and the results become a score.
pub mod Passes
pub mod Succeeds
pub mod Whole
use jungle_malloc_benchmark.Base.{
  ℕ, suc, ◌+◌, Bool, true, false, ltb, ◌==◌, ◌&&◌, ◌^◌, if◌then◌else◌, Option, none, some, List, [],
  ◌∷◌, ◌++◌, length,
}
use jungle_malloc_benchmark.Doubles.{Doubles}
use jungle_malloc_benchmark.Timer.{Timeval, Timed, fsecs}
use jungle_malloc_benchmark.Memory.{Ptr}
use jungle_malloc_benchmark.Memlib.{Memlib, mem_init}
use jungle_malloc_benchmark.Machine.{State}
use jungle_malloc_benchmark.Driver.{
  Allocator, Traceop, Trace, Driver, Step, going, invalid, exited, crashed, unfinished, then_step,
}
use jungle_malloc_benchmark.Driver.Options.{Chars, maxline}
use jungle_malloc_benchmark.Driver.Reader.{Scanner, read_trace}
use jungle_malloc_benchmark.Driver.Valid.{eval_mm_valid}
use jungle_malloc_benchmark.Driver.Util.{int_zero, eval_mm_util}
use jungle_malloc_benchmark.Driver.Speed.{eval_mm_speed}

-- `stats_t`.
pub record Stats (D : Type 0) : Type 0 where
  pub ops : D
  pub valid : Bool
  pub secs : D
  pub util : D

-- The driver, and the number of readings of the clock.
pub record Session : Type 0 where
  pub driver : Driver
  pub readings : ℕ

-- The globals of the driver behind `mem_init`.
abbrev pub start_session : State → Memlib → Session
start_session initial lib = record {
  driver = record {
    machine = record initial { lib = lib };
    ranges = [];
    errors = 0;
    blocks = [];
    block_sizes = [];
  };
  readings = 0;
}

-- `strcpy` and `strcat` of the path, and `fopen`.
unfoldable pub open_trace : {F : Type 0} → (Chars → Option F) → (tracedir filename : Chars) → Step F
open_trace fopen tracedir filename =
    let path = tracedir ++ filename in
    if ltb (length path) maxline
    then elim (fopen path) [ none ↦ exited | some f ↦ going f ]
    else crashed

-- The `int` that `eval_mm_valid` returns.
abbrev pub verdict : Step Driver → Step (Bool × Driver)
verdict (going d) = going (true, d)
verdict (invalid d) = going (false, d)
verdict exited = exited
verdict crashed = crashed
verdict unfinished = unfinished

-- The trace with the arrays that the driver holds now.
abbrev pub carried : Trace → Driver → Trace
carried trace d = record trace { blocks = d.blocks; block_sizes = d.block_sizes }

-- No number of a request is negative.
abbrev pub natural_ops : List Traceop → Bool
natural_ops [] = true
natural_ops (op ∷ ops) = ltb op.index (2 ^ 31) && ltb op.size (2 ^ 31) && natural_ops ops

-- The trace, where the model follows its runs.
abbrev pub followed : Trace → Step Trace
followed trace = if natural_ops trace.ops then going trace else unfinished

-- The sums over the traces, and the number of valid ones.
pub record Totals (D : Type 0) : Type 0 where
  pub secs : D
  pub ops : D
  pub util : D
  pub numcorrect : ℕ

-- What `main` prints at the end: the two parts of the index and the index, or the errors.
pub data Score (D : Type 0) : Type 0 where
  perf_index : (p1 p2 perfindex : D) → Score D
  terminated : (errors : ℕ) → Score D

-- A row of `printresults`: util, ops, secs and Kops of a valid trace, or none of these.
pub data Row (D : Type 0) : Type 0 where
  figures : (util ops secs kops : D) → Row D
  dashes : Row D

module _ {D : Type 0} (n : Doubles D) where
  abbrev pub zero_double : D
  zero_double = n.decimal 0 1

  -- The division at the end of `eval_mm_util`.
  abbrev pub utilisation : (max_total_size heapsize : ℕ) → D
  utilisation max_total_size heapsize =
      n.div (n.of_int max_total_size int_zero) (n.of_int heapsize 0)

  abbrev pub no_totals : Totals D
  no_totals = record { secs = zero_double; ops = zero_double; util = zero_double; numcorrect = 0 }

  unfoldable pub accumulate : List (Stats D) → Totals D → Totals D
  accumulate [] t = t
  accumulate (s ∷ stats) t = accumulate stats (record {
    secs = n.add t.secs s.secs;
    ops = n.add t.ops s.ops;
    util = n.add t.util s.util;
    numcorrect = if s.valid then t.numcorrect + 1 else t.numcorrect;
  })

  abbrev pub util_weight : D
  util_weight = n.decimal 60 100

  abbrev pub avg_libc_thruput : D
  avg_libc_thruput = n.decimal 600000 1

  -- The share of the throughput.
  unfoldable pub thru_part : D → D
  thru_part throughput =
      let rest = n.sub (n.decimal 1 1) util_weight in
      if n.less avg_libc_thruput throughput
      then rest
      else n.mul rest (n.div throughput avg_libc_thruput)

  unfoldable pub score : Totals D → (num_tracefiles errors : ℕ) → Score D
  score t num_tracefiles errors =
      let avg_mm_util = n.div t.util (n.of_int num_tracefiles 0) in
      if errors == 0
      then (let p1 = n.mul util_weight avg_mm_util in
          let p2 = thru_part (n.div t.ops t.secs) in
          perf_index p1 p2 (n.mul (n.add p1 p2) (n.decimal 100 1)))
      else terminated errors

  -- `printresults`: the rows of the traces, with the sums over the valid ones.
  unfoldable pub print_rows : List (Stats D) → Totals D → List (Row D) × Totals D
  print_rows [] t = ([], t)
  print_rows (s ∷ stats) t =
      let row =
        if s.valid
        then figures (n.mul s.util (n.decimal 100 1)) s.ops s.secs
            (n.div (n.div s.ops (n.decimal 1000 1)) s.secs)
        else dashes in
      let t1 =
        if s.valid
        then record {
          secs = n.add t.secs s.secs;
          ops = n.add t.ops s.ops;
          util = n.add t.util s.util;
          numcorrect = t.numcorrect;
        }
        else t in
      let (rows, t2) = print_rows stats t1 in (row ∷ rows, t2)

  unfoldable pub printresults : (errors : ℕ) → List (Stats D) → List (Row D) × Row D
  printresults errors stats =
      let (rows, t) = print_rows stats no_totals in
      (
        rows,
        if errors == 0
            then figures (n.mul (n.div t.util (n.of_int (length stats) 0)) (n.decimal 100 1)) t.ops
                t.secs (n.div (n.div t.ops (n.decimal 1000 1)) t.secs)
            else dashes,
      )

  module _ (gettimeofday : ℕ → Timeval) (a : Allocator) where
    -- `eval_mm_util` and `fsecs(eval_mm_speed, &speed_params)`. Each run starts with the arrays that
    -- the run before it has left in the trace.
    unfoldable pub measure : Trace → D → Session → Step (Stats D × Session)
    measure trace ops s =
        then_step (eval_mm_util a (carried trace s.driver) s.driver)
          λ (max_total_size, heapsize, d).
            then_step
              (fsecs n gettimeofday (λ d1. eval_mm_speed a (carried trace d1) d1) d s.readings)
              λ timed. going (
                record {
                  ops = ops;
                  valid = true;
                  secs = timed.time;
                  util = utilisation max_total_size heapsize;
                },
                record { driver = timed.state; readings = timed.readings },
              )

  module _ {F : Type 0} (scan : Scanner F) (fopen : Chars → Option F) (garbage : ℕ → ℕ) (fuel : ℕ)
      (gettimeofday : ℕ → Timeval) (char_signed : Bool) (a : Allocator) where
    -- One round of the loop; the statistics are zero from `calloc`.
    unfoldable pub eval_trace : (tracedir filename : Chars) → Session → Step (Stats D × Session)
    eval_trace tracedir filename s = then_step (open_trace fopen tracedir filename) λ file.
        then_step (then_step (read_trace scan fuel garbage file) followed) λ trace.
          then_step (verdict (eval_mm_valid a char_signed trace s.driver)) λ (valid, d).
            let ops = n.of_int (length trace.ops) 0 in
            let s1 = record s { driver = d } in
            let measured = measure gettimeofday a trace ops s1 in
            if valid
            then measured
            else going
                (record { ops = ops; valid = false; secs = zero_double; util = zero_double }, s1)

    unfoldable pub eval_traces :
        (tracedir : Chars) → List Chars → Session → Step (List (Stats D) × Session)
    eval_traces tracedir [] s = going ([], s)
    eval_traces tracedir (filename ∷ filenames) s =
        then_step (eval_trace tracedir filename s) λ (stats, s1).
          then_step (eval_traces tracedir filenames s1) λ (rest, s2). going (stats ∷ rest, s2)

    -- The loop, the sums and the score.
    unfoldable pub evaluate_from :
        (tracedir : Chars) → List Chars → Session → Step (List (Stats D) × Totals D × Score D)
    evaluate_from tracedir filenames s = then_step (eval_traces tracedir filenames s) λ (stats, s1).
        let totals = accumulate stats no_totals in
        going (stats, totals, score totals (length filenames) s1.driver.errors)

    -- From `mem_init` on; `storage` is what its `malloc` returned.
    unfoldable pub evaluate :
        (storage : Ptr) (initial : State) (tracedir : Chars)
        → List Chars
        → Step (List (Stats D) × Totals D × Score D)
    evaluate storage initial tracedir filenames = elim (mem_init storage) [
      | none ↦ exited
      | some lib ↦ evaluate_from tracedir filenames (start_session initial lib)
    ]
