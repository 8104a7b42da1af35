-- ===== src/Tests/Traces.antt =====
-- A trace of three requests.
use jungle_malloc_benchmark.Base.{
  ℕ, inr, All, List, ◌<◌, ◌≤◌, ◌+◌, ◌^◌, ◌≡◌, ◌⊎◌, inl, refl, arith, true, [], ◌∷◌,
}
use jungle_malloc_benchmark.Memory.{Ptr, word, put, copy, fill}
use jungle_malloc_benchmark.Memory.Laws.{fill-inside, fill-outside}
use jungle_malloc_benchmark.Mm.Malloc.{growth}
use jungle_malloc_benchmark.Mm.Payload.{Heap-payload}
use jungle_malloc_benchmark.Ranges.{remove_range}
use jungle_malloc_benchmark.Driver.Valid.Slots.{Tracked}
use jungle_malloc_benchmark.Driver.Valid.Move.{Moves, valid_realloc-Moves}
use jungle_malloc_benchmark.Memlib.{max_heap}
use jungle_malloc_benchmark.Driver.Valid.Proper.{cost, Proper, finished}
use jungle_malloc_benchmark.Driver.Valid.Passes.{eval_mm_valid-passes}
use jungle_malloc_benchmark.Ranges.Guarded.{Parted}
use jungle_malloc_benchmark.Driver.Valid.Balanced.{Balanced}
use jungle_malloc_benchmark.Driver.Valid.Represents.{Represents, eval_mm_valid-Represents}
use jungle_malloc_benchmark.Memlib.{mem_reset_brk, mem_sbrk, mem_heapsize}
use jungle_malloc_benchmark.Machine.{
  load, store, load_size_t, sbrk, memcpy, set_heap_listp, get_heap_listp,
}
use jungle_malloc_benchmark.Mm.{
  chunksize, pack, align, size_t_size, get_size, get_alloc, ftrp, next_blkp, prev_blkp, join_next,
  join_prev, join_both, coalesce_case, coalesce, extend_heap, find_fit_loop, fit_fuel, find_fit,
  place, adjust, mm_init, mm_malloc, mm_free, mm_realloc,
}
use jungle_malloc_benchmark.Driver.{Kind, Traceop, Trace, Driver, going, mm, malloc_error}
use jungle_malloc_benchmark.Driver.Util.{util_op, util_ops, eval_mm_util}
use jungle_malloc_benchmark.Driver.Util.Numerator.{demand, idle, demand-eval_mm_util}
use jungle_malloc_benchmark.Driver.Speed.{eval_mm_speed}
use jungle_malloc_benchmark.Driver.Speed.Follows.{eval_mm_speed-follows}
use jungle_malloc_benchmark.Driver.Util.Passes.{Measured, eval_mm_util-Measured}
use jungle_malloc_benchmark.Tests.Allocator.{
  boot-IsArena, boot, initial, booted, adjust_24, one_used, one_used-Heap,
}
use jungle_malloc_benchmark.Machine.Access.{refused}
use jungle_malloc_benchmark.Mm.Block.{Block, used, free, with_bytes}
use jungle_malloc_benchmark.Mm.Heap.{Heap, first}
use jungle_malloc_benchmark.Ranges.Checks.{range}
use jungle_malloc_benchmark.Driver.Valid.{valid_alloc, valid_realloc, eval_mm_valid}
use jungle_malloc_benchmark.Driver.Valid.Accept.{Accepts, valid_alloc-Accepts}
use jungle_malloc_benchmark.Driver.Valid.Release.{Releases, valid_free-Releases}

abbrev pub op : Kind → ℕ → ℕ → Traceop
op kind index size = record { kind = kind; index = index; size = size }

abbrev trace : Trace
trace = record {
  ops = op Kind.alloc 0 24 ∷ op Kind.alloc 1 100 ∷ op Kind.free 0 0 ∷ [];
  blocks = 0 ∷ 0 ∷ [];
  block_sizes = 0 ∷ 0 ∷ [];
}

abbrev idle_driver : Driver
idle_driver = record { machine = boot; ranges = []; errors = 0; blocks = []; block_sizes = [] }

-- At the peak 124 bytes are in use, on a heap of 4112 bytes.
trace_runs :
    (final : Driver) × (eval_mm_util mm trace idle_driver ≡ going (2 ^ 31 + 124, 4112, final))
unfolding load store load_size_t sbrk memcpy set_heap_listp get_heap_listp mem_sbrk mem_reset_brk
    mem_heapsize word put copy pack align size_t_size get_size get_alloc ftrp next_blkp prev_blkp
    join_next join_prev join_both coalesce_case coalesce extend_heap find_fit_loop fit_fuel find_fit
    place adjust mm_init mm_malloc mm_free mm_realloc util_op util_ops eval_mm_util
trace_runs = (_, refl)

demand-eval_mm_util_example : 2 ^ 31 + 124 ≡ (demand trace.ops (idle trace.block_sizes)).peak
demand-eval_mm_util_example =
    demand-eval_mm_util mm trace idle_driver (2 ^ 31 + 124) 4112 trace_runs.0 trace_runs.1

abbrev ready : Driver
ready = record {
  machine = booted;
  ranges = [];
  errors = 0;
  blocks = 0 ∷ 0 ∷ [];
  block_sizes = 0 ∷ 0 ∷ [];
}

valid_alloc-Accepts_example :
    ((at : Ptr) × Accepts true ready (free chunksize ∷ []) 0 24 at)
    ⊎ ((valid_alloc mm true 0 24 ready ≡ malloc_error (record ready { machine = refused booted }))
        × (booted.lib.max_addr < booted.lib.brk + growth (adjust 24)))
valid_alloc-Accepts_example =
    valid_alloc-Accepts true 0 24 initial.2 tt (omega arith) (omega arith)
      (rw adjust_24 ((omega arith, tt), omega arith)) (omega arith) (omega arith)

-- The driver with one block of 24 bytes.
abbrev holding : Driver
holding = record {
  machine = one_used;
  ranges = range (first one_used) (first one_used + 23) ∷ [];
  errors = 0;
  blocks = first one_used ∷ [];
  block_sizes = 24 ∷ [];
}

valid_free-Releases_example : Releases true holding (used 32 ∷ free 4064 ∷ []) 0 (first one_used)
valid_free-Releases_example =
    valid_free-Releases true 0 32 (first one_used) one_used-Heap
      ((32, inl (refl, refl), omega arith, omega arith), tt) (tt, tt) refl (inl (refl, refl))

adjust_20 : adjust 20 ≡ 32
unfolding adjust
adjust_20 = refl

adjust_100 : adjust 100 ≡ 112
unfolding adjust
adjust_100 = refl

-- The same with its payload filled for index 0.
abbrev patterned : Driver
patterned = record holding {
  machine = with_bytes one_used (fill one_used.bytes (first one_used) 0 24);
}

patterned-Heap : Heap patterned.machine (used 32 ∷ free 4064 ∷ [])
patterned-Heap =
    Heap-payload (fill one_used.bytes (first one_used) 0 24) (first one_used) 32 24 one_used-Heap
      (inl (refl, refl)) (omega arith) (fill-outside one_used.bytes (first one_used) 0 24)

none_left :
    All
      (Tracked (first patterned.machine) (used 32 ∷ free 4064 ∷ []))
      (remove_range patterned.ranges (first one_used))
unfolding remove_range
none_left = tt

valid_realloc-Moves_example :
    ((at : Ptr) × Moves true patterned (used 32 ∷ free 4064 ∷ []) 0 20 (first one_used) at)
    ⊎ ((valid_realloc mm true 0 20 patterned
          ≡ malloc_error (record patterned { machine = refused patterned.machine }))
        × (patterned.machine.lib.max_addr < patterned.machine.lib.brk + growth (adjust 20)))
valid_realloc-Moves_example =
    valid_realloc-Moves true 0 32 24 20 (first one_used) patterned-Heap (inl (refl, refl))
      (omega arith) (omega arith) (omega arith) (omega arith)
      (rw adjust_20 ((tt, (omega arith, tt)), omega arith)) none_left refl refl (omega arith)
      (omega arith) (inr (omega arith))
      (λ j lt.
        fill-inside one_used.bytes (first one_used) 0 24 (first one_used + j) (omega arith)
          (omega arith))

-- Two blocks, the first shrunk, the second freed.
abbrev pub shrinking : Trace
shrinking = record {
  ops = op Kind.alloc 0 24 ∷ op Kind.alloc 1 100 ∷ op Kind.realloc 0 20 ∷ op Kind.free 1 0 ∷ [];
  blocks = 0 ∷ 0 ∷ [];
  block_sizes = 0 ∷ 0 ∷ [];
}

pub shrinking-Proper : Proper true 2 [] shrinking.ops
shrinking-Proper =
    Proper.alloc refl (omega arith) tt (omega arith, omega arith, rw adjust_24 refl)
      (Proper.alloc refl (omega arith) (omega arith, tt)
        (omega arith, omega arith, rw adjust_100 refl)
        (Proper.realloc ((1, 100) ∷ []) 24 [] refl refl
          (omega arith, omega arith, rw adjust_20 refl) (omega arith) (inr (omega arith))
          (Proper.free ((0, 20) ∷ []) 100 [] refl refl finished)))

pub shrinking-room : 16 + chunksize + cost shrinking.ops ≤ max_heap
shrinking-room = rw (adjust_24, adjust_100, adjust_20) (omega arith)

eval_mm_valid-passes_example :
    (d' : Driver) × (bs : List Block) × (eval_mm_valid mm true shrinking idle_driver ≡ going d')
    × (d'.errors ≡ 0)
    × Heap d'.machine bs
eval_mm_valid-passes_example =
    eval_mm_valid-passes true shrinking idle_driver boot-IsArena refl shrinking-Proper
      shrinking-room

shrinking-Balanced : Balanced [] shrinking.ops ((0, 20) ∷ [])
shrinking-Balanced = Balanced.alloc refl tt (
    Balanced.alloc refl (omega arith, tt)
      (Balanced.realloc ((1, 100) ∷ []) 24 [] refl refl
        (Balanced.free ((0, 20) ∷ []) 100 [] refl refl Balanced.finished)))

shrunk : (d' : Driver) × (eval_mm_valid mm true shrinking idle_driver ≡ going d')
shrunk =
    let (d', _, runs, _, _) =
      eval_mm_valid-passes true shrinking idle_driver boot-IsArena refl shrinking-Proper
        shrinking-room in
    (d', runs)

-- One block of 20 bytes is left.
eval_mm_valid-Represents_example :
    Represents idle_driver ((0, 20) ∷ []) shrunk.0 × Parted shrunk.0.ranges
eval_mm_valid-Represents_example =
    eval_mm_valid-Represents mm true shrinking ((0, 20) ∷ []) idle_driver shrunk.0
      shrinking-Balanced shrunk.1

eval_mm_speed-follows_example :
    eval_mm_speed mm trace idle_driver
    ≡ going (record idle_driver {
      machine = trace_runs.0.machine;
      blocks = trace_runs.0.blocks;
      block_sizes = trace.block_sizes;
    })
eval_mm_speed-follows_example =
    eval_mm_speed-follows mm trace idle_driver (2 ^ 31 + 124) 4112 trace_runs.0 trace_runs.1

eval_mm_util-Measured_example : Measured shrinking idle_driver
eval_mm_util-Measured_example =
    eval_mm_util-Measured shrinking idle_driver boot-IsArena refl shrinking-Proper shrinking-room
