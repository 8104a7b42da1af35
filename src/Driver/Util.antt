-- ===== src/Driver/Util.antt =====
-- `eval_mm_util`: the trace is run to compare the bytes in use with the size of the heap.
pub mod Numerator
pub mod Calls
pub mod Next
pub mod Requests
pub mod Passes
use jungle_malloc_benchmark.Base.{
  ℕ, ◌+◌, ◌-◌, ◌^◌, not, ltb, leb, ◌==◌, if◌then◌else◌, List, [], ◌∷◌,
}
use jungle_malloc_benchmark.Memory.{null}
use jungle_malloc_benchmark.Memlib.{mem_reset_brk, mem_heapsize}
use jungle_malloc_benchmark.Driver.{
  Allocator, Kind, Traceop, Trace, Driver, Step, going, exited, crashed, then_step, call, at_index,
  remember,
}

-- An `int` is kept as its distance from INT_MIN. A sum outside of the `int`s is undefined.
abbrev pub int_zero : ℕ
int_zero = 2 ^ 31

-- `total_size += (plus - minus)` on such a number; `plus` and `minus` are `int`s, not negative.
abbrev pub add_int : {B : Type 0} → ℕ → (plus minus : ℕ) → (ℕ → Step B) → Step B
add_int total plus minus k =
    if ltb (total + plus) minus
    then crashed
    else if leb (2 ^ 32) (total + plus - minus)
    then crashed
    else k (total + plus - minus)

-- The locals `total_size` and `max_total_size`, beside the driver.
pub record Tally : Type 0 where
  pub driver : Driver
  pub total_size : ℕ
  pub max_total_size : ℕ

-- `max_total_size = (total_size > max_total_size) ? total_size : max_total_size`.
abbrev pub raise : Driver → ℕ → ℕ → Step Tally
raise d total high = going (record {
  driver = d;
  total_size = total;
  max_total_size = if ltb high total then total else high;
})

-- `mem_reset_brk`, and the arrays of the trace.
abbrev pub reset : Trace → Driver → Driver
reset trace d = record d {
  machine = record d.machine { lib = mem_reset_brk d.machine.lib };
  blocks = trace.blocks;
  block_sizes = trace.block_sizes;
}

abbrev pub start_tally : Driver → Tally
start_tally d = record { driver = d; total_size = int_zero; max_total_size = int_zero }

-- The two operands of the division at the end, and the driver.
abbrev pub quotient : Tally → Step (ℕ × ℕ × Driver)
quotient t = going (t.max_total_size, mem_heapsize t.driver.machine.lib, t.driver)

module _ (a : Allocator) where
  unfoldable pub util_op : Traceop → Tally → Step Tally
  util_op op t = elim op.kind [
    | Kind.alloc ↦ call t.driver (a.malloc op.size t.driver.machine) λ p d1.
        if p == null
        then exited
        else then_step (remember op.index p op.size d1)
            λ d2. add_int t.total_size op.size 0 λ total. raise d2 total t.max_total_size
    | Kind.realloc ↦ at_index t.driver.block_sizes op.index λ oldsize.
        at_index t.driver.blocks op.index λ oldp.
          call t.driver (a.realloc oldp op.size t.driver.machine) λ newp d1.
            if newp == null
            then exited
            else then_step (remember op.index newp op.size d1)
                λ d2. add_int t.total_size op.size oldsize λ total. raise d2 total t.max_total_size
    | Kind.free ↦ at_index t.driver.block_sizes op.index λ size.
        at_index t.driver.blocks op.index λ p. call t.driver (a.free p t.driver.machine) λ _ d1.
          add_int t.total_size 0 size λ total. going (record t { driver = d1; total_size = total })
  ]

  unfoldable pub util_ops : List Traceop → Tally → Step Tally
  util_ops [] t = going t
  util_ops (op ∷ ops) t = then_step (util_op op t) (util_ops ops)

  -- The numerator and the denominator of the result, the numerator as its distance from INT_MIN.
  unfoldable pub eval_mm_util : Trace → Driver → Step (ℕ × ℕ × Driver)
  eval_mm_util trace d =
      let d1 = reset trace d in
      call d1 (a.init d1.machine) λ done d2.
        if not done then exited else then_step (util_ops trace.ops (start_tally d2)) quotient
