-- ===== src/Driver/Util/Passes.antt =====
-- `eval_mm_util` runs whole traces against mm.c.
use jungle_malloc_benchmark.Base.{
  ℕ, ◌+◌, ◌-◌, ◌≤◌, ◌<◌, ◌≡◌, ◌≢◌, refl, Bool, List, [], ◌∷◌, map, length, arith, ap, sym, subst,
  ◌∙◌, All,
}
use jungle_malloc_benchmark.Machine.Access.{grown}
use jungle_malloc_benchmark.Memlib.{mem_heapsize, max_heap}
use jungle_malloc_benchmark.Memlib.Bounds.{IsArena, mem_reset_brk-IsArena, reset-brk}
use jungle_malloc_benchmark.Mm.{chunksize}
use jungle_malloc_benchmark.Mm.Block.{Block, free}
use jungle_malloc_benchmark.Mm.Init.{empty_heap, mm_init-Heap}
use jungle_malloc_benchmark.Driver.{Driver, Trace, Traceop, going, mm}
use jungle_malloc_benchmark.Driver.Slots.{Slot}
use jungle_malloc_benchmark.Driver.Slots.Total.{sizes_of-bounds}
use jungle_malloc_benchmark.Driver.Valid.Proper.{Keys, key, Proper, finished, cost, find_slot}
use jungle_malloc_benchmark.Driver.Util.{
  Tally, int_zero, start_tally, reset, util_ops, eval_mm_util,
}
use jungle_malloc_benchmark.Driver.Util.Next.{Tallied, Next}
use jungle_malloc_benchmark.Driver.Util.Requests.{alloc-Next, realloc-Next, free-Next}

-- The tally at the end of a trace.
pub record Passed (ids : ℕ) (t : Tally) (ops : List Traceop) : Type 0 where
  pub final : Tally
  pub blocks : List Block
  pub live : List Slot
  pub runs : util_ops mm ops t ≡ going final
  pub tallied : Tallied final blocks ids live
  pub errors : final.driver.errors ≡ t.driver.errors

prepend :
    {ids : ℕ} {t : Tally} {op : Traceop} {keys : Keys} (ops : List Traceop) (n : Next ids t op keys)
    → Passed ids n.final ops
    → Passed ids t (op ∷ ops)
unfolding util_ops
prepend ops n p = record {
  final = p.final;
  blocks = p.blocks;
  live = p.live;
  runs = rw n.runs p.runs;
  tallied = p.tallied;
  errors = p.errors ∙ n.errors;
}

util_ops-Passed :
    {char_signed : Bool} {ids : ℕ} {keys : Keys} {ops : List Traceop}
    → Proper char_signed ids keys ops
    → {t : Tally} {bs : List Block} {live : List Slot} → Tallied t bs ids live
    → map key live ≡ keys
    → t.driver.machine.lib.brk + cost ops ≤ t.driver.machine.lib.max_addr
    → Passed ids t ops
unfolding util_ops
util_ops-Passed finished {t} {bs} {live} a e room = record {
  final = t;
  blocks = bs;
  live = live;
  runs = refl;
  tallied = a;
  errors = refl;
}
util_ops-Passed {ops = op ∷ ops} (Proper.alloc kind inside fresh request rest) a e room =
    let n =
      alloc-Next a op kind inside (subst (λ l. All (λ (k : ℕ × ℕ). k.0 ≢ op.index) l) (sym e) fresh)
        request (omega arith) in
    prepend ops n (
      util_ops-Passed rest n.tallied (n.same_keys ∙ ap (λ l. (op.index, op.size) ∷ l) e)
        (omega (arith, n.grows, n.same_end)))
util_ops-Passed {ops = op ∷ ops} (Proper.realloc before m after kind parts request le sign rest)
      {live} a e room =
    let f = find_slot live before op.index m after (e ∙ parts) in
    let n = realloc-Next a op f kind request le (omega arith) in
    prepend ops n (util_ops-Passed rest n.tallied n.same_keys (omega (arith, n.grows, n.same_end)))
util_ops-Passed {ops = op ∷ ops} (Proper.free before m after kind parts rest) {live} a e room =
    let f = find_slot live before op.index m after (e ∙ parts) in
    let n = free-Next a op f kind in
    prepend ops n (util_ops-Passed rest n.tallied n.same_keys (omega (arith, n.grows, n.same_end)))

-- The quotient of a run, and the driver behind it.
pub record Measured (trace : Trace) (d : Driver) : Type 0 where
  pub high : ℕ
  pub heapsize : ℕ
  pub final : Driver
  pub runs : eval_mm_util mm trace d ≡ going (int_zero + high, heapsize, final)
  pub at_most_one : high ≤ heapsize
  pub nonzero : 0 < heapsize
  pub in_arena : heapsize ≤ max_heap
  pub errors : final.errors ≡ d.errors
  pub arena : IsArena final.machine.lib
  pub in_blocks : length final.blocks ≡ length trace.blocks
  pub in_sizes : length final.block_sizes ≡ length trace.blocks

-- `eval_mm_util` against mm.c, on a well-formed arena and with arrays of one length, runs every
-- proper trace that fits in the arena to its end: no sum of sizes overflows, the peak of the
-- bytes in use is not negative and at most the size of the heap at the end, which is positive and
-- at most MAX_HEAP; no error is counted and the arena is well-formed again.
pub eval_mm_util-Measured :
    {char_signed : Bool} (trace : Trace) (d : Driver)
    → IsArena d.machine.lib
    → length trace.block_sizes ≡ length trace.blocks
    → Proper char_signed (length trace.blocks) [] trace.ops
    → 16 + chunksize + cost trace.ops ≤ max_heap
    → Measured trace d
unfolding eval_mm_util mem_heapsize
eval_mm_util-Measured trace d arena arrays proper room =
    let d1 = reset trace d in
    let machine = d1.machine in
    let arena' = (mem_reset_brk-IsArena d.machine.lib arena).0 in
    let empty = reset-brk d.machine.lib in
    let (m, runs, heap) = mm_init-Heap machine arena' empty in
    let d2 : Driver = record d1 { machine = grown (empty_heap machine) chunksize m } in
    let start : Tallied (start_tally d2) (free chunksize ∷ []) (length trace.blocks) [] = record {
      steady = record {
        heap = heap;
        even = (refl, tt);
        held = tt;
        separate = tt;
        in_blocks = refl;
        in_sizes = arrays;
      };
      sum = omega arith;
      low = omega arith;
      high = omega (arith, heap.arena.brk_above);
    } in
    let p = util_ops-Passed proper start refl (omega (arith, arena'.extent, empty)) in
    let lib = p.final.driver.machine.lib in
    let low = p.tallied.low in
    let h = p.tallied.high in
    let bound = sizes_of-bounds p.tallied.steady in
    let whole : int_zero + (p.final.max_total_size - int_zero) ≡ p.final.max_total_size =
      omega arith in
    record {
      high = p.final.max_total_size - int_zero;
      heapsize = lib.brk - lib.start_brk;
      final = p.final.driver;
      runs = rw (runs, p.runs, whole) refl;
      at_most_one = omega arith;
      nonzero = omega arith;
      in_arena =
          omega (arith, p.tallied.steady.heap.arena.extent, p.tallied.steady.heap.arena.brk_below);
      errors = p.errors;
      arena = p.tallied.steady.heap.arena;
      in_blocks = p.tallied.steady.in_blocks;
      in_sizes = p.tallied.steady.in_sizes;
    }
