-- ===== src/Driver/Util/Requests.antt =====
-- The three requests of a trace, as `eval_mm_util` runs them against mm.c.
use jungle_malloc_benchmark.Base.{
  ℕ, ◌+◌, ◌-◌, ◌≤◌, ◌<◌, ◌≡◌, ◌≢◌, refl, inl, inr, List, ◌∷◌, ◌++◌, map, arith, ap, ◌∙◌, All,
  All-map,
}
use jungle_malloc_benchmark.Mm.{adjust}
use jungle_malloc_benchmark.Mm.Block.{Block, with_bytes}
use jungle_malloc_benchmark.Mm.Heap.{first}
use jungle_malloc_benchmark.Mm.Freed.{free-Freed}
use jungle_malloc_benchmark.Mm.Malloc.{growth, adjust_bounds, IsEven-Splits}
use jungle_malloc_benchmark.Mm.Contract.{malloc-Answers, UsedAt-IsBlock}
use jungle_malloc_benchmark.Mm.Realloc.{realloc-Answers}
use jungle_malloc_benchmark.Driver.{Driver, Kind, Traceop}
use jungle_malloc_benchmark.Driver.Slots.{Slot, Other, puts-Steady, Frees, frees-Steady}
use jungle_malloc_benchmark.Driver.Slots.Cut.{
  away_of_keys, cut_Keeps, cut_Separate, named, named_size, index_inside, others_away,
}
use jungle_malloc_benchmark.Driver.Slots.Total.{sizes_of, sizes_of-cut}
use jungle_malloc_benchmark.Driver.Valid.Proper.{Keys, key, IsRequest, spend, Found}
use jungle_malloc_benchmark.Driver.Util.{Tally}
use jungle_malloc_benchmark.Driver.Slots.Answers.{stored, granted-Puts, Moved-Puts}
use jungle_malloc_benchmark.Driver.Util.Next.{Tallied, Next, total_small, counted-Tallied}
use jungle_malloc_benchmark.Driver.Util.Calls.{
  counted, util_op-alloc, util_op-realloc, util_op-free,
}

module _ {t : Tally} {bs : List Block} {ids : ℕ} {live : List Slot} (a : Tallied t bs ids live)
    (op : Traceop) where
  pub alloc-Next :
      op.kind ≡ Kind.alloc
      → op.index < ids
      → All (λ (k : ℕ × ℕ). k.0 ≢ op.index) (map key live)
      → IsRequest op.size
      → t.driver.machine.lib.brk + spend op ≤ t.driver.machine.lib.max_addr
      → Next ids t op ((op.index, op.size) ∷ map key live)
  alloc-Next kind inside fresh (pos, small, even) room =
      let s = a.steady in
      let spent : spend op ≡ growth (adjust op.size) = rw kind refl in
      let bounds = adjust_bounds op.size pos (omega arith) in
      elim (malloc-Answers op.size s.heap pos small
        (IsEven-Splits (adjust op.size) bs even s.even)) [
          | inl (at, s', bs', runs, g) ↦
              let p = granted-Puts t.driver op.index g in
              let steady =
                puts-Steady p s.heap.blocks pos (bounds.1, bounds.2) live s.held
                  (away_of_keys op.index live fresh) s.separate (s.in_blocks, s.in_sizes, inside)
                  (g.even even s.even) in
              record {
                final = counted t (stored t.driver s' op.index op.size at) op.size 0;
                blocks = bs';
                live = record { index = op.index; size = op.size; ptr = at } ∷ live;
                runs =
                    util_op-alloc op t s' at kind runs (omega (arith, g.above))
                      (omega (arith, s.in_blocks), omega (arith, s.in_sizes))
                      (omega (arith, total_small steady, a.sum));
                tallied =
                    counted-Tallied a op.size 0 steady (omega (arith, a.sum)) g.same_start g.rises;
                same_keys = refl;
                grows = rw spent g.grows;
                errors = refl;
                same_end = omega (arith, g.same_start, g.heap.arena.extent, s.heap.arena.extent);
              }
          | inr (runs, unfit, full, heap) ↦ absurd (omega arith)
        ]

module _ {t : Tally} {bs : List Block} {ids : ℕ} {live : List Slot} (a : Tallied t bs ids live)
    (op : Traceop) {before : Keys} {n : ℕ} {after : Keys}
    (f : Found live before op.index n after) where
  -- The bytes in use without the entry that is named.
  cut_sum : sizes_of live ≡ n + sizes_of (f.front ++ f.back)
  cut_sum =
      ap sizes_of f.parts
      ∙ sizes_of-cut f.front f.slot f.back
      ∙ ap (λ m. m + sizes_of (f.front ++ f.back)) f.same_size

  pub free-Next : op.kind ≡ Kind.free → Next ids t op (before ++ after)
  free-Next kind =
      let s = a.steady in
      let held = cut_Keeps s f in
      let others = cut_Separate s f in
      let away = All-map (f.front ++ f.back) (λ (x : Slot) (o : Other f.slot x). o.1) others.0 in
      let m = free-Freed {s = t.driver.machine} f.slot.ptr held.0.bytes s.heap held.0.in_use in
      let d : Driver = record t.driver { machine = with_bytes t.driver.machine m.bytes } in
      let frees : Frees t.driver bs f.slot.ptr d m.blocks = record {
        heap = m.heap;
        uses = m.uses;
        places = refl;
        sizes = refl;
        lib = refl;
        even = m.even;
      } in
      let spent : spend op ≡ 0 = rw kind refl in
      record {
        final = record t { driver = d; total_size = t.total_size + 0 - n };
        blocks = m.blocks;
        live = f.front ++ f.back;
        runs =
            util_op-free op t (with_bytes t.driver.machine m.bytes) f.slot.ptr n kind
              (named_size s f) (named s f) m.runs (omega (arith, a.sum, cut_sum))
              (omega (arith, a.sum, total_small s));
        tallied = record {
          steady =
              frees-Steady frees (f.front ++ f.back) held.1 away others.1 (s.in_blocks, s.in_sizes)
                s.even;
          sum = omega (arith, a.sum, cut_sum);
          low = a.low;
          high = a.high;
        };
        same_keys = f.rest;
        grows = rw spent (omega arith);
        errors = refl;
        same_end = refl;
      }

  pub realloc-Next :
      op.kind ≡ Kind.realloc
      → IsRequest op.size
      → op.size ≤ n
      → t.driver.machine.lib.brk + spend op ≤ t.driver.machine.lib.max_addr
      → Next ids t op ((op.index, op.size) ∷ (before ++ after))
  realloc-Next kind (pos, small, even) le room =
      let s = a.steady in
      let spent : spend op ≡ growth (adjust op.size) = rw kind refl in
      let bounds = adjust_bounds op.size pos (omega arith) in
      let inside = index_inside s f in
      let held = cut_Keeps s f in
      let h = held.0 in
      let others = cut_Separate s f in
      elim (realloc-Answers f.slot.ptr h.bytes op.size s.heap h.in_use pos
        (omega (arith, h.fits, f.same_size)) small
        (IsEven-Splits (adjust op.size) bs even s.even)) [
          | inl (at, v) ↦
              let big =
                UsedAt-IsBlock (first t.driver.machine) bs f.slot.ptr h.bytes s.heap.blocks
                  h.in_use in
              let ne : at ≢ f.slot.ptr = omega (arith, v.apart f.slot.ptr h.bytes h.in_use) in
              let p = Moved-Puts t.driver op.index ne v in
              let steady =
                puts-Steady p s.heap.blocks pos (bounds.1, bounds.2) (f.front ++ f.back) held.1
                  (others_away s f (f.front ++ f.back) others.0) others.1
                  (s.in_blocks, s.in_sizes, inside) (v.even even s.even) in
              record {
                final = counted t (stored t.driver v.final op.index op.size at) op.size n;
                blocks = v.blocks;
                live = record { index = op.index; size = op.size; ptr = at } ∷ (f.front ++ f.back);
                runs =
                    util_op-realloc op t v.final at f.slot.ptr n kind (named_size s f) (named s f)
                      v.runs (omega (arith, v.above))
                      (omega (arith, s.in_blocks), omega (arith, s.in_sizes))
                      (omega (arith, a.sum, cut_sum))
                      (omega (arith, total_small steady, a.sum, cut_sum));
                tallied =
                    counted-Tallied a op.size n steady (omega (arith, a.sum, cut_sum)) v.same_start
                      v.rises;
                same_keys = ap (λ l. (op.index, op.size) ∷ l) f.rest;
                grows = rw spent v.grows;
                errors = refl;
                same_end = omega (arith, v.same_start, v.heap.arena.extent, s.heap.arena.extent);
              }
          | inr (runs, full, heap) ↦ absurd (omega arith)
        ]
