-- ===== src/Driver/Valid/Passes.antt =====
-- `eval_mm_valid` runs whole traces against mm.c.
use jungle_malloc_benchmark.Base.{
  ℕ, ◌+◌, ◌≤◌, ◌≡◌, ◌≢◌, refl, Bool, List, [], ◌∷◌, map, length, arith, ap, sym, subst, ◌∙◌, All,
}
use jungle_malloc_benchmark.Mm.Block.{Block, free}
use jungle_malloc_benchmark.Mm.Heap.{Heap}
use jungle_malloc_benchmark.Ranges.{clear_ranges}
use jungle_malloc_benchmark.Driver.Valid.Next.{Next, alloc-Next, realloc-Next, free-Next}
use jungle_malloc_benchmark.Machine.Access.{grown}
use jungle_malloc_benchmark.Memlib.{mem_reset_brk, max_heap}
use jungle_malloc_benchmark.Memlib.Bounds.{IsArena, mem_reset_brk-IsArena}
use jungle_malloc_benchmark.Mm.{chunksize}
use jungle_malloc_benchmark.Mm.Init.{empty_heap, mm_init-Heap}
use jungle_malloc_benchmark.Memlib.Bounds.{reset-brk}
use jungle_malloc_benchmark.Driver.{Driver, Trace, Traceop, going, mm}
use jungle_malloc_benchmark.Driver.Valid.{valid_op, valid_ops, eval_mm_valid}
use jungle_malloc_benchmark.Driver.Valid.Slots.{Sound}
use jungle_malloc_benchmark.Driver.Slots.{Slot}
use jungle_malloc_benchmark.Driver.Slots.Cut.{index_inside}
use jungle_malloc_benchmark.Driver.Valid.Proper.{Keys, key, Proper, finished, cost, find_slot}

-- The driver at the end of a trace.
pub record Passed (char_signed : Bool) (ids : ℕ) (d : Driver) (ops : List Traceop) : Type 0 where
  pub final : Driver
  pub blocks : List Block
  pub live : List Slot
  pub runs : valid_ops mm char_signed ops d ≡ going final
  pub sound : Sound final blocks ids live
  pub errors : final.errors ≡ d.errors

valid_ops-step :
    (char_signed : Bool) (op : Traceop) (ops : List Traceop) (d d' : Driver)
    → valid_op mm char_signed op d ≡ going d'
    → valid_ops mm char_signed (op ∷ ops) d ≡ valid_ops mm char_signed ops d'
unfolding valid_ops
valid_ops-step char_signed op ops d d' e = rw e refl

module _ (char_signed : Bool) {ids : ℕ} where
  prepend :
      {d : Driver} {op : Traceop} {keys : Keys} (ops : List Traceop)
      (n : Next char_signed ids d op keys)
      → Passed char_signed ids n.final ops
      → Passed char_signed ids d (op ∷ ops)
  prepend {d} {op} ops n p = record {
    final = p.final;
    blocks = p.blocks;
    live = p.live;
    runs = valid_ops-step char_signed op ops d n.final n.runs ∙ p.runs;
    sound = p.sound;
    errors = p.errors ∙ n.errors;
  }

  pub valid_ops-Passed :
      {keys : Keys} {ops : List Traceop}
      → Proper char_signed ids keys ops
      → {d : Driver} {bs : List Block} {live : List Slot} → Sound d bs ids live
      → map key live ≡ keys
      → d.machine.lib.brk + cost ops ≤ d.machine.lib.max_addr
      → Passed char_signed ids d ops
  unfolding valid_ops
  valid_ops-Passed finished {d} {bs} {live} s e room = record {
    final = d;
    blocks = bs;
    live = live;
    runs = refl;
    sound = s;
    errors = refl;
  }
  valid_ops-Passed {ops = op ∷ ops} (Proper.alloc kind inside fresh request rest) s e room =
      let n =
        alloc-Next char_signed s op kind inside
          (subst (λ l. All (λ (k : ℕ × ℕ). k.0 ≢ op.index) l) (sym e) fresh) request
          (omega arith) in
      prepend ops n (
        valid_ops-Passed rest n.sound (n.same_keys ∙ ap (λ l. (op.index, op.size) ∷ l) e)
          (omega (arith, n.grows, n.same_end)))
  valid_ops-Passed {ops = op ∷ ops} (Proper.realloc before m after kind parts request le sign rest)
        {live} s e room =
      let f = find_slot live before op.index m after (e ∙ parts) in
      let n =
        realloc-Next char_signed s op f kind request le sign (omega arith)
          (index_inside s.steady f) in
      prepend ops n (valid_ops-Passed rest n.sound n.same_keys (omega (arith, n.grows, n.same_end)))
  valid_ops-Passed {ops = op ∷ ops} (Proper.free before m after kind parts rest) {live} s e room =
      let f = find_slot live before op.index m after (e ∙ parts) in
      let n = free-Next char_signed s op f kind in
      prepend ops n (valid_ops-Passed rest n.sound n.same_keys (omega (arith, n.grows, n.same_end)))

-- The run, and what the driver holds at its end.
pub eval_mm_valid-Sound :
    (char_signed : Bool) (trace : Trace) (d : Driver)
    → IsArena d.machine.lib
    → length trace.block_sizes ≡ length trace.blocks
    → Proper char_signed (length trace.blocks) [] trace.ops
    → 16 + chunksize + cost trace.ops ≤ max_heap
    → (d' : Driver) × (bs : List Block) × (live : List Slot) × (eval_mm_valid mm char_signed trace d
        ≡ going d')
      × (d'.errors ≡ d.errors)
      × Sound d' bs (length trace.blocks) live
unfolding eval_mm_valid clear_ranges
eval_mm_valid-Sound char_signed trace d arena arrays proper room =
    let lib = mem_reset_brk d.machine.lib in
    let machine = record d.machine { lib = lib } in
    let arena' = (mem_reset_brk-IsArena d.machine.lib arena).0 in
    let empty = reset-brk d.machine.lib in
    let (m, runs, heap) = mm_init-Heap machine arena' empty in
    let d2 : Driver = record d {
      machine = grown (empty_heap machine) chunksize m;
      ranges = [];
      blocks = trace.blocks;
      block_sizes = trace.block_sizes;
    } in
    let start : Sound d2 (free chunksize ∷ []) (length trace.blocks) [] = record {
      steady = record {
        heap = heap;
        even = (refl, tt);
        held = tt;
        separate = tt;
        in_blocks = refl;
        in_sizes = arrays;
      };
      stored = refl;
      content = tt;
    } in
    let p = valid_ops-Passed char_signed proper start refl (omega (arith, arena'.extent, empty)) in
    (p.final, p.blocks, p.live, rw runs p.runs, p.errors, p.sound)

-- `eval_mm_valid` against mm.c passes every proper trace: on a well-formed arena it returns 1,
-- counts no error, and leaves a heap that satisfies the invariant. A trace is proper if each
-- `alloc` names an index inside the arrays that is not in use, each `realloc` and `free` one that
-- is, a `realloc` does not grow the block and either `char` is unsigned or its pattern is below
-- 128, each size is positive, below 2 ^ 31 - 16 and has an adjusted size that is a multiple of
-- 16. The requests fit: 16 + 4096 bytes, and for each `alloc` and `realloc` the larger of its
-- adjusted size and 4096, are at most MAX_HEAP.
pub eval_mm_valid-passes :
    (char_signed : Bool) (trace : Trace) (d : Driver)
    → IsArena d.machine.lib
    → length trace.block_sizes ≡ length trace.blocks
    → Proper char_signed (length trace.blocks) [] trace.ops
    → 16 + chunksize + cost trace.ops ≤ max_heap
    → (d' : Driver) × (bs : List Block) × (eval_mm_valid mm char_signed trace d ≡ going d')
      × (d'.errors ≡ d.errors)
      × Heap d'.machine bs
eval_mm_valid-passes char_signed trace d arena arrays proper room =
    let (d', bs, live, runs, errors, sound) =
      eval_mm_valid-Sound char_signed trace d arena arrays proper room in
    (d', bs, runs, errors, sound.steady.heap)
