-- ===== src/Driver/Util/Calls.antt =====
-- One request of a trace in `eval_mm_util`, where the call of mm.c goes through.
use jungle_malloc_benchmark.Base.{
  ℕ, ◌+◌, ◌-◌, ◌^◌, ◌≤◌, ◌<◌, ◌≡◌, ◌≢◌, refl, ltb, if◌then◌else◌, lt→ltb, le→ltb, lt→leb, ne→==,
  some, get_elem?, length, arith,
}
use jungle_malloc_benchmark.Memory.{Ptr, null}
use jungle_malloc_benchmark.Machine.{State, ok}
use jungle_malloc_benchmark.Mm.{mm_malloc, mm_free, mm_realloc}
use jungle_malloc_benchmark.Driver.{Driver, Kind, Traceop, going, at_index, mm}
use jungle_malloc_benchmark.Driver.Slots.Answers.{stored}
use jungle_malloc_benchmark.Driver.Util.{Tally, util_op}

-- The total after a request, and its peak.
abbrev pub counted : Tally → Driver → (plus minus : ℕ) → Tally
counted t d plus minus =
    let total = t.total_size + plus - minus in
    record {
      driver = d;
      total_size = total;
      max_total_size = if ltb t.max_total_size total then total else t.max_total_size;
    }

module _ (op : Traceop) (t : Tally) where
  pub util_op-alloc :
      (s : State) (at : Ptr)
      → op.kind ≡ Kind.alloc
      → mm_malloc op.size t.driver.machine ≡ ok at s
      → at ≢ null
      → (op.index < length t.driver.blocks) × (op.index < length t.driver.block_sizes)
      → t.total_size + op.size < 2 ^ 32
      → util_op mm op t ≡ going (counted t (stored t.driver s op.index op.size at) op.size 0)
  unfolding util_op
  util_op-alloc s at kind runs ne (in_blocks, in_sizes) small =
      rw
        (
          kind,
          runs,
          ne→== at null ne,
          lt→ltb op.index (length t.driver.blocks) in_blocks,
          lt→ltb op.index (length t.driver.block_sizes) in_sizes,
          le→ltb (t.total_size + op.size) 0 (omega arith),
          lt→leb (2 ^ 32) (t.total_size + op.size - 0) (omega arith),
        )
        refl

  pub util_op-realloc :
      (s : State) (at oldp : Ptr) (oldsize : ℕ)
      → op.kind ≡ Kind.realloc
      → get_elem? t.driver.block_sizes op.index ≡ some oldsize
      → get_elem? t.driver.blocks op.index ≡ some oldp
      → mm_realloc oldp op.size t.driver.machine ≡ ok at s
      → at ≢ null
      → (op.index < length t.driver.blocks) × (op.index < length t.driver.block_sizes)
      → oldsize ≤ t.total_size + op.size
      → t.total_size + op.size - oldsize < 2 ^ 32
      → util_op mm op t ≡ going (counted t (stored t.driver s op.index op.size at) op.size oldsize)
  unfolding util_op
  util_op-realloc s at oldp oldsize kind size held runs ne (in_blocks, in_sizes) low small =
      rw
        (
          kind,
          at_index,
          size,
          held,
          runs,
          ne→== at null ne,
          lt→ltb op.index (length t.driver.blocks) in_blocks,
          lt→ltb op.index (length t.driver.block_sizes) in_sizes,
          le→ltb (t.total_size + op.size) oldsize low,
          lt→leb (2 ^ 32) (t.total_size + op.size - oldsize) small,
        )
        refl

  pub util_op-free :
      (s : State) (p : Ptr) (size : ℕ)
      → op.kind ≡ Kind.free
      → get_elem? t.driver.block_sizes op.index ≡ some size
      → get_elem? t.driver.blocks op.index ≡ some p
      → mm_free p t.driver.machine ≡ ok tt s
      → size ≤ t.total_size + 0
      → t.total_size + 0 - size < 2 ^ 32
      → util_op mm op t
        ≡ going (record t {
          driver = record t.driver { machine = s };
          total_size = t.total_size + 0 - size;
        })
  unfolding util_op
  util_op-free s p size kind held_size held runs low small =
      rw
        (
          kind,
          at_index,
          held_size,
          held,
          runs,
          le→ltb (t.total_size + 0) size low,
          lt→leb (2 ^ 32) (t.total_size + 0 - size) small,
        )
        refl
