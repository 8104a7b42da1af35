-- ===== src/Driver/Libc.antt =====
-- `eval_libc_valid` and `eval_libc_speed`: the same loop over the C library's allocator, which is a
-- parameter. A request that fails ends the program, after `malloc_error` in the first function.
use jungle_malloc_benchmark.Base.{◌==◌, if◌then◌else◌, List, [], ◌∷◌}
use jungle_malloc_benchmark.Memory.{null}
use jungle_malloc_benchmark.Driver.{
  Allocator, Kind, Traceop, Driver, Step, going, exited, then_step, call, at_index,
}
use jungle_malloc_benchmark.Driver.Speed.{remember_block}

-- `libc` holds `malloc`, `free` and `realloc`; its `init` is not called.
module _ (libc : Allocator) where
  unfoldable pub libc_op : Traceop → Driver → Step Driver
  libc_op op d = elim op.kind [
    | Kind.alloc ↦
        call d (libc.malloc op.size d.machine)
          λ p d1. if p == null then exited else remember_block op.index p d1
    | Kind.realloc ↦ at_index d.blocks op.index λ oldp.
        call d (libc.realloc oldp op.size d.machine)
          λ newp d1. if newp == null then exited else remember_block op.index newp d1
    | Kind.free ↦
        at_index d.blocks op.index λ block. call d (libc.free block d.machine) λ _ d1. going d1
  ]

  unfoldable pub eval_libc_valid : List Traceop → Driver → Step Driver
  eval_libc_valid [] d = going d
  eval_libc_valid (op ∷ ops) d = then_step (libc_op op d) (eval_libc_valid ops)

  -- The body of `eval_libc_speed`'s loop.
  unfoldable pub libc_speed_op : Traceop → Driver → Step Driver
  libc_speed_op op d = elim op.kind [
    | Kind.alloc ↦
        call d (libc.malloc op.size d.machine)
          λ p d1. if p == null then exited else remember_block op.index p d1
    | Kind.realloc ↦ at_index d.blocks op.index λ oldp.
        call d (libc.realloc oldp op.size d.machine)
          λ newp d1. if newp == null then exited else remember_block op.index newp d1
    | Kind.free ↦
        at_index d.blocks op.index λ block. call d (libc.free block d.machine) λ _ d1. going d1
  ]

  unfoldable pub eval_libc_speed : List Traceop → Driver → Step Driver
  eval_libc_speed [] d = going d
  eval_libc_speed (op ∷ ops) d = then_step (libc_speed_op op d) (eval_libc_speed ops)
