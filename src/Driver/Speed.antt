-- ===== src/Driver/Speed.antt =====
-- `eval_mm_speed`: the trace is run with no checks, to be timed.
pub mod Follows
use jungle_malloc_benchmark.Base.{not, ◌==◌, if◌then◌else◌, ℕ, ltb, length, set, List, [], ◌∷◌}
use jungle_malloc_benchmark.Memory.{Ptr, null}
use jungle_malloc_benchmark.Memlib.{mem_reset_brk}
use jungle_malloc_benchmark.Driver.{
  Allocator, Kind, Traceop, Trace, Driver, Step, going, exited, crashed, then_step, call, at_index,
}

-- `trace->blocks[index] = p`.
abbrev pub remember_block : ℕ → Ptr → Driver → Step Driver
remember_block index p d =
    if ltb index (length d.blocks)
    then going (record d { blocks = set d.blocks index p })
    else crashed

module _ (a : Allocator) where
  unfoldable pub speed_op : Traceop → Driver → Step Driver
  speed_op op d = elim op.kind [
    | Kind.alloc ↦
        call d (a.malloc op.size d.machine)
          λ p d1. if p == null then exited else remember_block op.index p d1
    | Kind.realloc ↦ at_index d.blocks op.index λ oldp.
        call d (a.realloc oldp op.size d.machine)
          λ newp d1. if newp == null then exited else remember_block op.index newp d1
    | Kind.free ↦
        at_index d.blocks op.index λ block. call d (a.free block d.machine) λ _ d1. going d1
  ]

  unfoldable pub speed_ops : List Traceop → Driver → Step Driver
  speed_ops [] d = going d
  speed_ops (op ∷ ops) d = then_step (speed_op op d) (speed_ops ops)

  unfoldable pub eval_mm_speed : Trace → Driver → Step Driver
  eval_mm_speed trace d =
      let machine = record d.machine { lib = mem_reset_brk d.machine.lib } in
      let d1 = record d {
        machine = machine;
        blocks = trace.blocks;
        block_sizes = trace.block_sizes;
      } in
      call d1 (a.init machine) λ done d2. if not done then exited else speed_ops trace.ops d2
