-- ===== src/Driver/Main/Whole.antt =====
-- `main` (benchmark_base/malloc-lab/mdriver.c) behind the command line: with -l the C library's
-- allocator first, then the allocator of mm.h, and the tables that -v prints.
pub mod Ends
use jungle_malloc_benchmark.Base.{
  ℕ, ◌+◌, ◌==◌, Bool, true, false, if◌then◌else◌, Option, none, some, List, [], ◌∷◌, length,
}
use jungle_malloc_benchmark.Doubles.{Doubles}
use jungle_malloc_benchmark.Timer.{Timeval, fsecs}
use jungle_malloc_benchmark.Memory.{Ptr}
use jungle_malloc_benchmark.Machine.{State}
use jungle_malloc_benchmark.Driver.{Allocator, Trace, Driver, Step, going, then_step}
use jungle_malloc_benchmark.Driver.Options.{Chars, Options, Team, command_line}
use jungle_malloc_benchmark.Driver.Reader.{Scanner, read_trace}
use jungle_malloc_benchmark.Driver.Libc.{eval_libc_valid, eval_libc_speed}
use jungle_malloc_benchmark.Driver.Main.{
  followed, Stats, Session, Totals, Score, perf_index, terminated, Row, open_trace, printresults,
  evaluate, zero_double,
}

-- The tables, where they are printed, and the results for mm.c.
pub record Report (D : Type 0) : Type 0 where
  pub libc_table : Option (List (Row D) × Row D)
  pub mm_table : Option (List (Row D) × Row D)
  pub stats : List (Stats D)
  pub totals : Totals D
  pub score : Score D
  pub autograder_lines : Option (ℕ × D)

-- The global `errors` and `perfindex` at the end.
abbrev pub errors_of : {D : Type 0} → Score D → ℕ
errors_of (perf_index p1 p2 perfindex) = 0
errors_of (terminated errors) = errors

abbrev pub perfindex_of : {D : Type 0} → Doubles D → Score D → D
perfindex_of n (perf_index p1 p2 perfindex) = perfindex
perfindex_of n (terminated errors) = zero_double n

-- The driver before `mem_init`.
abbrev pub first_session : State → Session
first_session initial = record {
  driver = record { machine = initial; ranges = []; errors = 0; blocks = []; block_sizes = [] };
  readings = 0;
}

abbrev pub paths_of : Option (List Chars) → List Chars
paths_of none = []
paths_of (some paths) = paths

module _ {D : Type 0} (n : Doubles D) {F : Type 0} (scan : Scanner F) (fopen : Chars → Option F)
    (garbage : ℕ → ℕ) (fuel : ℕ) (gettimeofday : ℕ → Timeval) where
  -- One round of the first loop. `eval_libc_valid` returns 1 or ends the program.
  unfoldable pub libc_trace :
      (libc : Allocator) (tracedir filename : Chars) → Session → Step (Stats D × Session)
  libc_trace libc tracedir filename s = then_step (open_trace fopen tracedir filename) λ file.
      then_step (then_step (read_trace scan fuel garbage file) followed) λ trace.
        let d : Driver = record s.driver {
          blocks = trace.blocks;
          block_sizes = trace.block_sizes;
        } in
        then_step (eval_libc_valid libc trace.ops d) λ d1.
          then_step (fsecs n gettimeofday (eval_libc_speed libc trace.ops) d1 s.readings) λ timed.
            going (
              record {
                ops = n.of_int (length trace.ops) 0;
                valid = true;
                secs = timed.time;
                util = zero_double n;
              },
              record { driver = timed.state; readings = timed.readings },
            )

  unfoldable pub libc_traces :
      (libc : Allocator) (tracedir : Chars) → List Chars → Session → Step (List (Stats D) × Session)
  libc_traces libc tracedir [] s = going ([], s)
  libc_traces libc tracedir (filename ∷ filenames) s =
      then_step (libc_trace libc tracedir filename s) λ (stats, s1).
        then_step (libc_traces libc tracedir filenames s1) λ (rest, s2). going (stats ∷ rest, s2)

  -- The first loop, where -l asks for it.
  unfoldable pub run_libc :
      (o : Options) (libc : Allocator)
      → List Chars
      → Session
      → Step (Option (List (Row D) × Row D) × Session)
  run_libc o libc filenames s =
      let measured = then_step (libc_traces libc o.tracedir filenames s) λ (stats, s1).
        let table = if o.verbose == 0 then none else some (printresults n s1.driver.errors stats) in
        going (table, s1) in
      if o.run_libc then measured else going (none, s)

  -- `main`. Behind `command_line` the options hold trace files.
  unfoldable pub main_program :
      (team : Team) (default_tracefiles : List Chars) (args : List (ℕ × Chars))
      → (libc a : Allocator) (char_signed : Bool) (storage : Ptr) (initial : State)
      → Step (Report D)
  main_program team default_tracefiles args libc a char_signed storage initial =
      then_step (command_line team default_tracefiles args) λ o.
        let files = paths_of o.tracefiles in
        then_step (run_libc o libc files (first_session initial)) λ (libc_table, s1).
          let later : ℕ → Timeval = λ i. gettimeofday (s1.readings + i) in
          then_step
            (evaluate n scan fopen garbage fuel later char_signed a storage s1.driver.machine
              o.tracedir files)
            λ (stats, totals, score). going (record {
              libc_table = libc_table;
              mm_table =
                  if o.verbose == 0 then none else some (printresults n (errors_of score) stats);
              stats = stats;
              totals = totals;
              score = score;
              autograder_lines =
                  if o.autograder then some (totals.numcorrect, perfindex_of n score) else none;
            })
