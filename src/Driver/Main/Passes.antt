-- ===== src/Driver/Main/Passes.antt =====
-- The evaluation of mm.c by `main` (benchmark_base/malloc-lab/mdriver.c) on files of proper traces.
use jungle_malloc_benchmark.Base.{
  ℕ, zero, suc, ◌+◌, ◌-◌, ◌%◌, ◌^◌, ◌≤◌, ◌<◌, ◌≡◌, refl, Bool, true, lt→ltb, Option, some, List, [],
  ◌∷◌, ◌++◌, map, length, ap, sym, subst, ◌∙◌, All,
}
use jungle_malloc_benchmark.Doubles.{Doubles}
use jungle_malloc_benchmark.Timer.{Timeval, repeat_calls, mean_time, ftimer_gettod, fsecs}
use jungle_malloc_benchmark.Memlib.{max_heap}
use jungle_malloc_benchmark.Memlib.Bounds.{IsArena}
use jungle_malloc_benchmark.Mm.{chunksize}
use jungle_malloc_benchmark.Driver.{Trace, Driver, Traceop, Step, going, mm}
use jungle_malloc_benchmark.Driver.Options.{Chars, maxline}
use jungle_malloc_benchmark.Driver.Reader.{Scanner, fresh_array}
use jungle_malloc_benchmark.Driver.Reader.RoundTrip.{
  Token, IsScanner, IsInt, print_trace, stored, highest, read_trace-print,
}
use jungle_malloc_benchmark.Driver.Valid.Proper.{Proper, cost}
use jungle_malloc_benchmark.Driver.Valid.Passes.{eval_mm_valid-Sound}
use jungle_malloc_benchmark.Driver.Util.{int_zero}
use jungle_malloc_benchmark.Driver.Util.Passes.{eval_mm_util-Measured}
use jungle_malloc_benchmark.Driver.Speed.{eval_mm_speed}
use jungle_malloc_benchmark.Driver.Speed.Follows.{eval_mm_speed-follows}
use jungle_malloc_benchmark.Driver.Main.{
  Stats, Session, open_trace, carried, natural_ops, utilisation, measure, eval_trace, eval_traces,
}

-- A trace that mm.c serves in the arena.
pub record Serves (char_signed : Bool) (trace : Trace) : Type 0 where
  pub arrays : length trace.block_sizes ≡ length trace.blocks
  pub proper : Proper char_signed (length trace.blocks) [] trace.ops
  pub room : 16 + chunksize + cost trace.ops ≤ max_heap

-- The driver before and behind a run, with arrays of the size that the trace names.
record Runs (trace : Trace) (d d' : Driver) : Type 0 where
  arena : IsArena d'.machine.lib
  errors : d'.errors ≡ d.errors
  in_blocks : length d'.blocks ≡ length trace.blocks
  in_sizes : length d'.block_sizes ≡ length trace.blocks

carried-Serves :
    {char_signed : Bool} (trace : Trace) {before d : Driver}
    → Serves char_signed trace
    → Runs trace before d
    → Serves char_signed (carried trace d)
carried-Serves {char_signed} trace t r = record {
  arrays = r.in_sizes ∙ sym r.in_blocks;
  proper = subst (λ k. Proper char_signed k [] trace.ops) (sym r.in_blocks) t.proper;
  room = t.room;
}

module _ {char_signed : Bool} (trace : Trace) (t : Serves char_signed trace) where
  abbrev speed_run : Driver → Step Driver
  speed_run d = eval_mm_speed mm (carried trace d) d

  speed-Runs :
      (before d : Driver)
      → Runs trace before d
      → (d' : Driver) × (speed_run d ≡ going d') × Runs trace before d'
  speed-Runs before d r =
      let now = carried-Serves trace t r in
      let m = eval_mm_util-Measured (carried trace d) d r.arena now.arrays now.proper now.room in
      (
        record d { machine = m.final.machine; blocks = m.final.blocks },
        eval_mm_speed-follows mm (carried trace d) d (int_zero + m.high) m.heapsize m.final m.runs,
        record {
          arena = m.arena;
          errors = r.errors;
          in_blocks = m.in_blocks ∙ r.in_blocks;
          in_sizes = r.in_sizes;
        },
      )

  repeat-Runs :
      (k : ℕ) (before d : Driver)
      → Runs trace before d
      → (d' : Driver) × (repeat_calls k speed_run d ≡ going d') × Runs trace before d'
  unfolding repeat_calls
  repeat-Runs zero before d r = (d, refl, r)
  repeat-Runs (suc k) before d r =
      let (d1, first, r1) = speed-Runs before d r in
      let (d', rest, r') = repeat-Runs k before d1 r1 in (d', rw first rest, r')

-- The statistics of a trace that passed: its utilisation is a quotient of at most 1.
pub record Passed {D : Type 0} (n : Doubles D) (stats : Stats D) : Type 0 where
  pub valid : stats.valid ≡ true
  pub high : ℕ
  pub heapsize : ℕ
  pub util : stats.util ≡ utilisation n (int_zero + high) heapsize
  pub at_most_one : high ≤ heapsize
  pub nonzero : 0 < heapsize
  pub in_arena : heapsize ≤ max_heap

module _ {D : Type 0} (n : Doubles D) (gettimeofday : ℕ → Timeval) {char_signed : Bool}
    (trace : Trace) (t : Serves char_signed trace) where
  measure-Passed :
      (ops : D) (before : Driver) (s : Session)
      → Runs trace before s.driver
      → (stats : Stats D) × (s' : Session) × (measure n gettimeofday mm trace ops s
          ≡ going (stats, s'))
        × Passed n stats
        × Runs trace before s'.driver
  unfolding measure fsecs ftimer_gettod
  measure-Passed ops before s r =
      let now = carried-Serves trace t r in
      let m =
        eval_mm_util-Measured (carried trace s.driver) s.driver r.arena now.arrays now.proper
          now.room in
      let measured : Runs trace before m.final = record {
        arena = m.arena;
        errors = m.errors ∙ r.errors;
        in_blocks = m.in_blocks ∙ r.in_blocks;
        in_sizes = m.in_sizes ∙ r.in_blocks;
      } in
      let (d, runs, r') = repeat-Runs trace t 10 before m.final measured in
      (
        record {
          ops = ops;
          valid = true;
          secs = mean_time n 10 (gettimeofday s.readings) (gettimeofday (s.readings + 1));
          util = utilisation n (int_zero + m.high) m.heapsize;
        },
        record { driver = d; readings = s.readings + 2 },
        rw (m.runs, runs) refl,
        record {
          valid = refl;
          high = m.high;
          heapsize = m.heapsize;
          util = refl;
          at_most_one = m.at_most_one;
          nonzero = m.nonzero;
          in_arena = m.in_arena;
        },
        r',
      )

IsInt-natural_ops : (ops : List Traceop) → All IsInt ops → natural_ops ops ≡ true
IsInt-natural_ops [] ints = refl
IsInt-natural_ops (op ∷ ops) ((index, size), ints) =
    rw (lt→ltb op.index (2 ^ 31) index, lt→ltb op.size (2 ^ 31) size) (IsInt-natural_ops ops ints)

length-fresh_array : (garbage : ℕ → ℕ) (k : ℕ) → length (fresh_array garbage k) ≡ k
length-fresh_array garbage zero = refl
length-fresh_array garbage (suc k) = ap suc (length-fresh_array garbage k)

module _ {F : Type 0} (scan : Scanner F) (file : List Token → F) (fopen : Chars → Option F)
    (garbage : ℕ → ℕ) (fuel : ℕ) (char_signed : Bool) (tracedir : Chars) where
  -- The file holds a trace that mm.c serves.
  pub record Holds (filename : Chars) : Type 0 where
    pub sugg_heapsize : ℕ
    pub num_ids : ℕ
    pub weight : ℕ
    pub ops : List Traceop
    pub fits : length (tracedir ++ filename) < maxline
    pub opens :
        fopen (tracedir ++ filename)
        ≡ some (file (print_trace sugg_heapsize num_ids (length ops) weight ops))
    pub enough : length ops < fuel
    pub ints : All IsInt (map stored ops)
    pub index : highest 0 ops ≡ (num_ids + 2 ^ 32 - 1) % 2 ^ 32
    pub proper : Proper char_signed num_ids [] (map stored ops)
    pub room : 16 + chunksize + cost (map stored ops) ≤ max_heap

  module _ {D : Type 0} (n : Doubles D) (gettimeofday : ℕ → Timeval) (s : IsScanner scan file) where
    eval_trace-Passed :
        (filename : Chars)
        → Holds filename
        → (z : Session) → IsArena z.driver.machine.lib
        → (stats : Stats D) × (z' : Session) × (eval_trace n scan fopen garbage fuel gettimeofday
              char_signed mm tracedir filename z
            ≡ going (stats, z'))
          × Passed n stats
          × IsArena z'.driver.machine.lib
          × (z'.driver.errors ≡ z.driver.errors)
    unfolding eval_trace open_trace
    eval_trace-Passed filename h z arena =
        let trace : Trace = record {
          ops = map stored h.ops;
          blocks = fresh_array garbage h.num_ids;
          block_sizes = fresh_array garbage h.num_ids;
        } in
        let ids = length-fresh_array garbage h.num_ids in
        let t : Serves char_signed trace = record {
          arrays = refl;
          proper = subst (λ k. Proper char_signed k [] (map stored h.ops)) (sym ids) h.proper;
          room = h.room;
        } in
        let reads =
          read_trace-print scan file s h.sugg_heapsize h.num_ids h.weight h.ops fuel garbage
            h.enough h.ints h.index in
        let (d, bs, live, valid, errors, sound) =
          eval_mm_valid-Sound char_signed trace z.driver arena refl t.proper h.room in
        let start : Runs trace z.driver d = record {
          arena = sound.steady.heap.arena;
          errors = errors;
          in_blocks = sound.steady.in_blocks;
          in_sizes = sound.steady.in_sizes;
        } in
        let (stats, z', runs, passed, r) =
          measure-Passed n gettimeofday trace t (n.of_int (length (map stored h.ops)) 0) z.driver
            (record z { driver = d }) start in
        let natural = IsInt-natural_ops (map stored h.ops) h.ints in
        (
          stats,
          z',
          rw (lt→ltb (length (tracedir ++ filename)) maxline h.fits, h.opens, reads, natural, valid)
              runs,
          passed,
          r.arena,
          r.errors,
        )

    pub eval_traces-Passed :
        (filenames : List Chars)
        → All Holds filenames
        → (z : Session) → IsArena z.driver.machine.lib
        → (stats : List (Stats D)) × (z' : Session) × (eval_traces n scan fopen garbage fuel
              gettimeofday char_signed mm tracedir filenames z
            ≡ going (stats, z'))
          × (length stats ≡ length filenames)
          × All (Passed n) stats
          × (z'.driver.errors ≡ z.driver.errors)
    unfolding eval_traces
    eval_traces-Passed [] holds z arena = ([], z, refl, refl, tt, refl)
    eval_traces-Passed (filename ∷ filenames) (h, holds) z arena =
        let (stats, z1, first, passed, arena1, errors1) = eval_trace-Passed filename h z arena in
        let (rest, z', runs, same, all, errors') = eval_traces-Passed filenames holds z1 arena1 in
        (stats ∷ rest, z', rw (first, runs) refl, ap suc same, (passed, all), errors' ∙ errors1)
