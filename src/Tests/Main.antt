-- ===== src/Tests/Main.antt =====
-- `main` on one trace, with whole numbers in place of doubles.
use jungle_malloc_benchmark.Base.{
  ℕ, ◌+◌, ◌-◌, ◌*◌, ◌/◌, refl, true, Option, none, some, ◌≡◌, ltb, leb, ◌==◌, List, All, [], ◌∷◌,
  arith,
}
use jungle_malloc_benchmark.Doubles.{Doubles}
use jungle_malloc_benchmark.Timer.{Timeval}
use jungle_malloc_benchmark.Driver.{going, mm}
use jungle_malloc_benchmark.Driver.Options.{
  Chars, trace_dir, Options, default_options, options, option, check_team, choose_files,
  command_line,
}
use jungle_malloc_benchmark.Driver.Reader.RoundTrip.{Token, IsInt, print_trace}
use jungle_malloc_benchmark.Driver.Main.Passes.{Holds}
use jungle_malloc_benchmark.Driver.Main.Succeeds.{Succeeds}
use jungle_malloc_benchmark.Driver.Main.Whole.{Report, perfindex_of, main_program}
use jungle_malloc_benchmark.Driver.Main.Whole.Ends.{main_program-Succeeds}
use jungle_malloc_benchmark.Tests.Options.{team}
use jungle_malloc_benchmark.Tests.Allocator.{boot}
use jungle_malloc_benchmark.Tests.Reader.{tokens, tokens-IsScanner}
use jungle_malloc_benchmark.Tests.Traces.{shrinking, shrinking-Proper, shrinking-room}

abbrev pub whole : Doubles ℕ
whole = record {
  decimal = λ a b. a / b;
  of_int = λ a b. a - b;
  add = λ a b. a + b;
  mul = λ a b. a * b;
  div = λ a b. a / b;
  sub = λ a b. a - b;
  less = ltb;
  at_least = λ a b. leb b a;
  equal = λ a b. a == b;
}

abbrev names : List Chars
names = (b'a' ∷ []) ∷ []

abbrev text : Chars → Option (List Token)
text path = some (print_trace 20000 2 4 1 shrinking.ops)

abbrev hourly : ℕ → Timeval
hourly i = record { tv_sec = 3600 * i; tv_usec = 0 }

ints_hold : All IsInt shrinking.ops
ints_hold = (
  (omega arith, omega arith),
  ((omega arith, omega arith), ((omega arith, omega arith), ((omega arith, omega arith), tt))),
)

shrinking-Holds : Holds tokens (λ ts. ts) text (λ i. 0) 5 true trace_dir (b'a' ∷ [])
shrinking-Holds = record {
  sugg_heapsize = 20000;
  num_ids = 2;
  weight = 1;
  ops = shrinking.ops;
  fits = omega arith;
  opens = refl;
  enough = omega arith;
  ints = ints_hold;
  index = refl;
  proper = shrinking-Proper;
  room = shrinking-room;
}

-- mdriver -g, with the default trace files.
abbrev chosen : Options
chosen = record default_options { autograder = true; tracefiles = some names; num_tracefiles = 1 }

only_autograder : command_line team names ((b'g', []) ∷ []) ≡ going chosen
unfolding command_line options option check_team choose_files
only_autograder = refl

main_program-Succeeds_example :
    (r : Report ℕ) × (main_program whole tokens text
        (λ i. 0)
        5
        hourly
        team
        names
        ((b'g', []) ∷ [])
        mm
        mm
        true
        64
        boot
      ≡ going r)
    × Succeeds whole names (going (r.stats, r.totals, r.score))
    × (r.libc_table ≡ none)
    × (r.autograder_lines ≡ some (1, perfindex_of whole r.score))
main_program-Succeeds_example =
    main_program-Succeeds tokens (λ ts. ts) text (λ i. 0) 5 true whole hourly mm 64 boot team names
      ((b'g', []) ∷ []) chosen names only_autograder refl refl tokens-IsScanner refl (omega arith)
      (omega arith) (shrinking-Holds, tt)
