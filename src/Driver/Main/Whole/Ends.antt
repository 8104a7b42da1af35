-- ===== src/Driver/Main/Whole/Ends.antt =====
-- `main` (benchmark_base/malloc-lab/mdriver.c) on mm.c, from its arguments to the score.
use jungle_malloc_benchmark.Base.{
  ℕ, ◌+◌, ◌%◌, ◌-◌, ◌^◌, ◌<◌, ◌≡◌, ◌≢◌, refl, Bool, false, Option, none, some, List, All, ap,
  if◌then◌else◌, length, ◌==◌,
}
use jungle_malloc_benchmark.Memory.{Ptr, null}
use jungle_malloc_benchmark.Memlib.{max_heap}
use jungle_malloc_benchmark.Machine.{State}
use jungle_malloc_benchmark.Doubles.{Doubles}
use jungle_malloc_benchmark.Timer.{Timeval}
use jungle_malloc_benchmark.Driver.{Allocator, going, mm}
use jungle_malloc_benchmark.Driver.Options.{Chars, Options, Team, command_line}
use jungle_malloc_benchmark.Driver.Reader.{Scanner}
use jungle_malloc_benchmark.Driver.Reader.RoundTrip.{Token, IsScanner}
use jungle_malloc_benchmark.Driver.Main.{accumulate, no_totals, perf_index, printresults}
use jungle_malloc_benchmark.Driver.Main.Passes.{Holds}
use jungle_malloc_benchmark.Driver.Main.Succeeds.{Succeeds, evaluate-Succeeds}
use jungle_malloc_benchmark.Driver.Main.Whole.{
  Report, paths_of, perfindex_of, first_session, run_libc, main_program,
}

module _ {F D : Type 0} (scan : Scanner F) (file : List Token → F) (fopen : Chars → Option F)
    (garbage : ℕ → ℕ) (fuel : ℕ) (char_signed : Bool) (n : Doubles D) (gettimeofday : ℕ → Timeval)
    (libc : Allocator) (storage : Ptr) (initial : State) where
  run_libc-skipped :
      (o : Options) (files : List Chars)
      → o.run_libc ≡ false
      → run_libc n scan fopen garbage fuel gettimeofday o libc files (first_session initial)
        ≡ going (none, first_session initial)
  unfolding run_libc
  run_libc-skipped o files off = rw off refl

  -- Where the command line chose the options `o` with the trace files `files` and without -l, and
  -- `malloc` in `mem_init` returned an address other than NULL that is a multiple of 8 and leaves
  -- room for MAX_HEAP bytes below 2 ^ 64 - 1, `main` evaluates mm.c to its end and prints a
  -- performance index, not the number of errors: there is one entry of statistics for each trace
  -- file, each is valid, all are counted as correct, and each utilisation is the quotient of a
  -- peak and a heap size, where the peak is at most the heap size, which is positive and at most
  -- MAX_HEAP. No table of the C library is printed, and with -g the line of correct traces shows
  -- the number of files. The files: each path, in the directory of the options, is below 1024
  -- characters, `fopen` opens it, and `fscanf` reads it as the text of fewer requests than the
  -- fuel, whose numbers are below 2 ^ 31, with their number and a `num_ids` that is one more,
  -- modulo 2 ^ 32, than the highest index of an `alloc` or a `realloc`; and the requests are
  -- proper and fit in the arena. A trace is proper if each `alloc` names an index below `num_ids`
  -- that is not in use, each `realloc` and `free` one that is, a `realloc` does not grow the
  -- block and either `char` is unsigned or its pattern is below 128, each size is positive, below
  -- 2 ^ 31 - 16 and has an adjusted size that is a multiple of 16; it fits if 16 + 4096 bytes,
  -- and for each `alloc` and `realloc` the larger of its adjusted size and 4096, are at most
  -- MAX_HEAP.
  pub main_program-Succeeds :
      (team : Team) (default_tracefiles : List Chars) (args : List (ℕ × Chars)) (o : Options)
      (files : List Chars)
      → command_line team default_tracefiles args ≡ going o
      → o.tracefiles ≡ some files
      → o.run_libc ≡ false
      → IsScanner scan file
      → storage % 8 ≡ 0
      → storage + max_heap < 2 ^ 64 - 1
      → storage ≢ null
      → All (Holds scan file fopen garbage fuel char_signed o.tracedir) files
      → (r : Report D) × (main_program n scan fopen garbage fuel gettimeofday team
            default_tracefiles args libc mm char_signed storage initial
          ≡ going r)
        × Succeeds n files (going (r.stats, r.totals, r.score))
        × (r.libc_table ≡ none)
        × (r.autograder_lines
            ≡ (if o.autograder then some (length files, perfindex_of n r.score) else none))
  unfolding main_program
  main_program-Succeeds team default_tracefiles args o files chosen at off s aligned room ne holds =
      let z =
        evaluate-Succeeds scan file fopen garbage fuel char_signed o.tracedir n
          (λ i. gettimeofday (0 + i)) storage initial files s aligned room ne holds in
      let totals = accumulate n z.stats (no_totals n) in
      let score = perf_index z.p1 z.p2 (n.mul (n.add z.p1 z.p2) (n.decimal 100 1)) in
      let same : paths_of o.tracefiles ≡ files = ap paths_of at in
      (
        record {
          libc_table = none;
          mm_table = if o.verbose == 0 then none else some (printresults n 0 z.stats);
          stats = z.stats;
          totals = totals;
          score = score;
          autograder_lines =
              if o.autograder then some (totals.numcorrect, perfindex_of n score) else none;
        },
        rw (chosen, same, run_libc-skipped o files off, z.runs) refl,
        record {
          stats = z.stats;
          p1 = z.p1;
          p2 = z.p2;
          runs = refl;
          each = z.each;
          passed = z.passed;
          all_correct = z.all_correct;
        },
        refl,
        ap (λ k. if o.autograder then some (k, perfindex_of n score) else none) z.all_correct,
      )
