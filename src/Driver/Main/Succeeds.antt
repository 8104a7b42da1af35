-- ===== src/Driver/Main/Succeeds.antt =====
-- `main` (benchmark_base/malloc-lab/mdriver.c) from `mem_init` to the score.
use jungle_malloc_benchmark.Base.{
  ℕ, ◌+◌, ◌-◌, ◌%◌, ◌^◌, ◌<◌, ◌≡◌, ◌≢◌, refl, Bool, if◌then◌else◌, ne→==, Option, some, List, [],
  ◌∷◌, length, arith, All,
}
use jungle_malloc_benchmark.Memory.{Ptr, null}
use jungle_malloc_benchmark.Memlib.{Memlib, Errno, mem_init, max_heap}
use jungle_malloc_benchmark.Memlib.Bounds.{IsArena, mem_init-IsArena}
use jungle_malloc_benchmark.Machine.{State}
use jungle_malloc_benchmark.Doubles.{Doubles}
use jungle_malloc_benchmark.Timer.{Timeval}
use jungle_malloc_benchmark.Driver.{Step, going, mm}
use jungle_malloc_benchmark.Driver.Options.{Chars}
use jungle_malloc_benchmark.Driver.Reader.{Scanner}
use jungle_malloc_benchmark.Driver.Reader.RoundTrip.{Token, IsScanner}
use jungle_malloc_benchmark.Driver.Main.{
  Stats, Totals, Score, perf_index, no_totals, accumulate, util_weight, thru_part, score,
  start_session, evaluate_from, evaluate,
}
use jungle_malloc_benchmark.Driver.Main.Passes.{Passed, Holds, eval_traces-Passed}

accumulate-numcorrect :
    {D : Type 0} (n : Doubles D) (stats : List (Stats D)) (t : Totals D)
    → All (Passed n) stats
    → (accumulate n stats t).numcorrect ≡ t.numcorrect + length stats
unfolding accumulate
accumulate-numcorrect n [] t all = omega arith
accumulate-numcorrect n (s ∷ stats) t (p, all) =
    let t1 : Totals _ = record {
      secs = n.add t.secs s.secs;
      ops = n.add t.ops s.ops;
      util = n.add t.util s.util;
      numcorrect = if s.valid then t.numcorrect + 1 else t.numcorrect;
    } in
    let one : t1.numcorrect ≡ t.numcorrect + 1 = rw p.valid refl in
    omega (arith, accumulate-numcorrect n stats t1 all)

mem_init-started :
    (storage : Ptr)
    → storage % 8 ≡ 0
    → storage + max_heap < 2 ^ 64 - 1
    → storage ≢ null
    → (lib : Memlib) × (mem_init storage ≡ some lib) × IsArena lib
unfolding mem_init
mem_init-started storage aligned room ne =
    let lib : Memlib = record {
      start_brk = storage;
      brk = storage;
      max_addr = storage + max_heap;
      errno = Errno.unset;
    } in
    let started : mem_init storage ≡ some lib = rw (ne→== storage null ne) refl in
    (lib, started, (mem_init-IsArena storage aligned room started).0)

-- What `main` has computed at its end.
pub record Succeeds {D : Type 0} (n : Doubles D) (filenames : List Chars)
    (result : Step (List (Stats D) × Totals D × Score D)) : Type 0 where
  pub stats : List (Stats D)
  pub p1 : D
  pub p2 : D
  pub runs :
      result
      ≡ going (
        stats,
        accumulate n stats (no_totals n),
        perf_index p1 p2 (n.mul (n.add p1 p2) (n.decimal 100 1)),
      )
  pub each : length stats ≡ length filenames
  pub passed : All (Passed n) stats
  pub all_correct : (accumulate n stats (no_totals n)).numcorrect ≡ length filenames

-- From `mem_init` on, where its `malloc` returned an address other than NULL that is a multiple
-- of 8 and leaves room for MAX_HEAP bytes below 2 ^ 64 - 1, `main` evaluates mm.c to its end and
-- prints a performance index, not the number of errors: there is one entry of statistics for each
-- trace file, each is valid, all are counted as correct, and each utilisation is the quotient of
-- a peak and a heap size, where the peak is at most the heap size, which is positive and at most
-- MAX_HEAP. The files: each path is below 1024 characters, `fopen` opens it, and `fscanf` reads
-- it as the text of fewer requests than the fuel, with their number and a `num_ids` that is one
-- more, modulo 2 ^ 32, than the highest index of an `alloc` or a `realloc`; and the requests are
-- proper and fit in the arena. A trace is proper if each `alloc` names an index below `num_ids`
-- that is not in use, each `realloc` and `free` one that is, a `realloc` does not grow the block
-- and either `char` is unsigned or its pattern is below 128, each size is positive, below 2 ^ 31
-- - 16 and has an adjusted size that is a multiple of 16; it fits if 16 + 4096 bytes, and for
-- each `alloc` and `realloc` the larger of its adjusted size and 4096, are at most MAX_HEAP.
pub evaluate-Succeeds :
    {F D : Type 0} (scan : Scanner F) (file : List Token → F) (fopen : Chars → Option F)
    (garbage : ℕ → ℕ) (fuel : ℕ) (char_signed : Bool) (tracedir : Chars) (n : Doubles D)
    (gettimeofday : ℕ → Timeval) (storage : Ptr) (initial : State) (filenames : List Chars)
    → IsScanner scan file
    → storage % 8 ≡ 0
    → storage + max_heap < 2 ^ 64 - 1
    → storage ≢ null
    → All (Holds scan file fopen garbage fuel char_signed tracedir) filenames
    → Succeeds n filenames (
        evaluate n scan fopen garbage fuel gettimeofday char_signed mm storage initial tracedir
          filenames)
unfolding evaluate evaluate_from score
evaluate-Succeeds scan file fopen garbage fuel char_signed tracedir n gettimeofday storage initial
      filenames s aligned room ne holds =
    let (lib, started, arena) = mem_init-started storage aligned room ne in
    let (stats, z, runs, each, passed, errors) =
      eval_traces-Passed scan file fopen garbage fuel char_signed tracedir n gettimeofday s
        filenames holds (start_session initial lib) arena in
    let totals = accumulate n stats (no_totals n) in
    record {
      stats = stats;
      p1 = n.mul (util_weight n) (n.div totals.util (n.of_int (length filenames) 0));
      p2 = thru_part n (n.div totals.ops totals.secs);
      runs = rw (evaluate, started) (rw (evaluate_from, runs) (rw (score, errors) refl));
      each = each;
      passed = passed;
      all_correct =
          let count = accumulate-numcorrect n stats (no_totals n) passed in
          omega (arith, count, each);
    }
