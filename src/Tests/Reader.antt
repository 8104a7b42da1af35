-- ===== src/Tests/Reader.antt =====
-- A file with one request, one move and one release.
use jungle_malloc_benchmark.Base.{ℕ, ◌≡◌, refl, Option, none, some, List, [], ◌∷◌, arith, map}
use jungle_malloc_benchmark.Driver.{Kind, Traceop, going, crashed}
use jungle_malloc_benchmark.Driver.Reader.{Scanner, fresh_array, read_trace}
use jungle_malloc_benchmark.Driver.Reader.RoundTrip.{
  Token, IsScanner, print_trace, stored, read_trace-print, read_trace-overflow,
}

abbrev pub next_word : List Token → Option ℕ × List Token
next_word [] = (none, [])
next_word (Token.word c ∷ ts) = (some c, ts)
next_word (Token.number n ∷ ts) = (some 48, ts)

abbrev pub next_number : List Token → Option ℕ × List Token
next_number [] = (none, [])
next_number (Token.word c ∷ ts) = (none, Token.word c ∷ ts)
next_number (Token.number n ∷ ts) = (some n, ts)

abbrev pub tokens : Scanner (List Token)
tokens = record { word = next_word; number = next_number; literal_d = λ ts. ts }

pub tokens-IsScanner : IsScanner tokens (λ ts. ts)
tokens-IsScanner = record {
  at_end = refl;
  at_word = λ c ts. refl;
  at_number = λ n ts. refl;
  no_d = λ ts. refl;
}

abbrev requests : List Traceop
requests =
    record { kind = Kind.alloc; index = 0; size = 24 }
    ∷ record { kind = Kind.alloc; index = 1; size = 40 }
    ∷ record { kind = Kind.realloc; index = 0; size = 16 }
    ∷ record { kind = Kind.free; index = 1; size = 0 }
    ∷ []

read_trace-print_example :
    read_trace tokens 5 (λ n. n) (print_trace 20000 2 4 1 requests)
    ≡ going (record {
      ops = map stored requests;
      blocks = fresh_array (λ n. n) 2;
      block_sizes = fresh_array (λ n. n) 2;
    })
read_trace-print_example =
    read_trace-print tokens (λ ts. ts) tokens-IsScanner 20000 2 1 requests 5 (λ n. n) (omega arith)
      (
        (omega arith, omega arith),
        (
          (omega arith, omega arith),
          ((omega arith, omega arith), ((omega arith, omega arith), tt)),
        ),
      )
      refl

read_trace-overflow_example :
    read_trace tokens 5 (λ n. n) (print_trace 20000 2 3 1 requests) ≡ crashed
read_trace-overflow_example =
    read_trace-overflow tokens (λ ts. ts) tokens-IsScanner 20000 2 3 1 requests 5 (λ n. n)
      (omega arith) (omega arith)
