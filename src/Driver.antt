-- ===== src/Driver.antt =====
-- benchmark_base/malloc-lab/mdriver.c: a trace of requests, and the state of a run of it against
-- an allocator. The driver is written against mm.h, so the allocator is a parameter.
pub mod Inversion
pub mod Slots
pub mod Valid
pub mod Speed
pub mod Libc
pub mod Util
pub mod Reader
pub mod Options
pub mod Main
use jungle_malloc_benchmark.Base.{
  ℕ, ◌+◌, ◌<◌, Bool, Option, none, some, ltb, if◌then◌else◌, List, length, get_elem?, set,
}
use jungle_malloc_benchmark.Memory.{Ptr}
use jungle_malloc_benchmark.Machine.{State, Run, ok, fault, out_of_fuel, Cmd}
use jungle_malloc_benchmark.Ranges.{Range}
use jungle_malloc_benchmark.Mm.{mm_init, mm_malloc, mm_free, mm_realloc}

-- The functions that mm.h declares; `init` is true where `mm_init` returns 0.
pub record Allocator : Type 0 where
  pub init : Cmd Bool
  pub malloc : ℕ → Cmd Ptr
  pub free : Ptr → Cmd (Unit {0})
  pub realloc : Ptr → ℕ → Cmd Ptr

abbrev pub mm : Allocator
mm = record { init = mm_init; malloc = mm_malloc; free = mm_free; realloc = mm_realloc }

pub data Kind : Type 0 where
  alloc free realloc : Kind

-- An index and a size are the bits of an `int`, which is negative from 2 ^ 31 on. The runs of a trace
-- are written for numbers that are not negative.
pub record Traceop : Type 0 where
  pub kind : Kind
  pub index : ℕ
  pub size : ℕ

-- `num_ops` is the length of `ops`, as `read_trace` asserts; the arrays have `num_ids` entries.
pub record Trace : Type 0 where
  pub ops : List Traceop
  pub blocks : List Ptr
  pub block_sizes : List ℕ

-- The machine, the range list, the global `errors`, and the two arrays of the trace.
pub record Driver : Type 0 where
  pub machine : State
  pub ranges : List Range
  pub errors : ℕ
  pub blocks : List Ptr
  pub block_sizes : List ℕ

-- How a piece of the driver ends: `going` with a result, `invalid` is a `return 0` behind a
-- `malloc_error`, `exited` is an `exit` or a failed `assert`, `crashed` is undefined behaviour,
-- `unfinished` a run that the model does not follow: the fuel is used up, or a request of the trace
-- has a negative number.
pub data Step (A : Type 0) : Type 0 where
  going : A → Step A
  invalid : Driver → Step A
  exited : Step A
  crashed : Step A
  unfinished : Step A

abbrev pub then_step : {A B : Type 0} → Step A → (A → Step B) → Step B
then_step (going a) k = k a
then_step (invalid d) k = invalid d
then_step exited k = exited
then_step crashed k = crashed
then_step unfinished k = unfinished

-- A call on the machine of `d`.
abbrev pub call : {A B : Type 0} → Driver → Run A → (A → Driver → Step B) → Step B
call d (ok a s) k = k a (record d { machine = s })
call d fault k = crashed
call d out_of_fuel k = unfinished

-- `xs[index]`, undefined outside of the array.
abbrev pub at_index : {B : Type 0} → List ℕ → ℕ → (ℕ → Step B) → Step B
at_index xs index k = elim (get_elem? xs index) [ none ↦ crashed | some x ↦ k x ]

-- `trace->blocks[index] = p; trace->block_sizes[index] = size`.
abbrev pub remember : ℕ → Ptr → ℕ → Driver → Step Driver
remember index p size d =
    if ltb index (length d.blocks)
    then if ltb index (length d.block_sizes)
      then going
          (record d { blocks = set d.blocks index p; block_sizes = set d.block_sizes index size })
      else crashed
    else crashed

-- `malloc_error` counts; its message is left out.
abbrev pub malloc_error : Driver → Step Driver
malloc_error d = invalid (record d { errors = d.errors + 1 })
