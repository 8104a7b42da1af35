-- ===== src/Driver/Valid/Accept.antt =====
-- `eval_mm_valid` runs against mm.c: the checks of the driver and the invariant of the allocator.
use jungle_malloc_benchmark.Base.{
  ℕ, ◌+◌, ◌-◌, ◌%◌, ◌^◌, ◌≤◌, ◌<◌, ◌≡◌, ◌⊎◌, refl, inl, inr, Bool, lt→ltb, ne→==, List, [], ◌∷◌,
  length, set, arith, ◌∙◌, sym, subst, All, bit_and-byte,
}
use jungle_malloc_benchmark.Memory.{Ptr, fill, null}
use jungle_malloc_benchmark.Memory.Laws.{fill-inside, fill-outside}
use jungle_malloc_benchmark.Memlib.{Memlib}
use jungle_malloc_benchmark.Machine.{State, ok, memset}
use jungle_malloc_benchmark.Machine.Access.{refused}
use jungle_malloc_benchmark.Mm.{mm_malloc, adjust}
use jungle_malloc_benchmark.Mm.Block.{Block, with_bytes}
use jungle_malloc_benchmark.Mm.Spec.{UsedAt}
use jungle_malloc_benchmark.Mm.Heap.{Heap, first}
use jungle_malloc_benchmark.Mm.Malloc.{Splits, growth, adjust_bounds}
use jungle_malloc_benchmark.Mm.Contract.{Granted, malloc-Answers}
use jungle_malloc_benchmark.Mm.Payload.{Heap-payload}
use jungle_malloc_benchmark.Ranges.{Range}
use jungle_malloc_benchmark.Ranges.Checks.{range, EndsOutside, Acceptable, add_range-added}
use jungle_malloc_benchmark.Driver.{Driver, Step, going, malloc_error, mm, call, remember}
use jungle_malloc_benchmark.Driver.Valid.Slots.{Tracked, Placed}
use jungle_malloc_benchmark.Driver.Valid.{pattern_of, check_range, valid_alloc}

memset-ok :
    (s : State) (p c n : ℕ)
    → s.lib.start_brk ≤ p
    → p + n ≤ s.lib.max_addr
    → memset p c n s ≡ ok tt (with_bytes s (fill s.bytes p (c % 2 ^ 8) n))
unfolding memset
memset-ok s p c n above below = ground arith

module _ (lo : Ptr) (bs : List Block) {at : Ptr} {n : ℕ} (pos : 0 < n) (bounds : n + 8 ≤ adjust n)
    (apart : (a i : ℕ) → UsedAt lo bs a i → (at + adjust n ≤ a) ⊎ (a + i ≤ at)) where
  -- No stored payload touches the new one.
  placed-EndsOutside :
      (ranges : List Range) → All (Tracked lo bs) ranges → All (EndsOutside at (at + n - 1)) ranges
  placed-EndsOutside [] all = tt
  placed-EndsOutside (r ∷ ranges) ((i, u, order, inside), all) =
      (ground (arith, apart r.lo i u), placed-EndsOutside ranges all)

  pub placed-Acceptable :
      (m : Memlib) (ranges : List Range)
      → All (Tracked lo bs) ranges
      → at % 8 ≡ 0
      → m.start_brk ≤ at
      → at + n + 8 ≤ m.brk
      → Acceptable m ranges at n
  placed-Acceptable m ranges all aligned above below = record {
    nonempty = pos;
    aligned = aligned;
    above = above;
    below = omega arith;
    ends = placed-EndsOutside ranges all;
  }

module _ {s : State} {bs : List Block} {n : ℕ} {at : Ptr} {s' : State} {bs' : List Block}
    (g : Granted s bs n at s' bs') where
  granted-UsedAt :
      (a i : ℕ) → ((at ≡ a) × (adjust n ≡ i)) ⊎ UsedAt (first s) bs a i → UsedAt (first s') bs' a i
  granted-UsedAt a i h =
      subst (λ q. UsedAt (q + 8 + 8) bs' a i) (sym g.same_start) ((g.uses a i).1 h)

  -- The stored payloads are still in use.
  granted-Tracked :
      (ranges : List Range)
      → All (Tracked (first s) bs) ranges
      → All (Tracked (first s') bs') ranges
  granted-Tracked [] all = tt
  granted-Tracked (r ∷ ranges) ((i, u, order, inside), all) =
      ((i, granted-UsedAt r.lo i (inr u), order, inside), granted-Tracked ranges all)

pub check_range-added :
    (d : Driver) (p size : ℕ) (k : Driver → Step Driver)
    → Acceptable d.machine.lib d.ranges p size
    → check_range d p size k ≡ k (record d { ranges = range p (p + size - 1) ∷ d.ranges })
check_range-added d p size k a =
    rw (check_range, add_range-added d.machine.lib d.ranges p size a) refl

pub fill_and_remember :
    (d : Driver) (p c n index : ℕ)
    → d.machine.lib.start_brk ≤ p
    → p + n ≤ d.machine.lib.max_addr
    → index < length d.blocks
    → index < length d.block_sizes
    → call d (memset p c n d.machine) (λ _ d1. remember index p n d1)
      ≡ going (record d {
        machine = with_bytes d.machine (fill d.machine.bytes p (c % 2 ^ 8) n);
        blocks = set d.blocks index p;
        block_sizes = set d.block_sizes index n;
      })
fill_and_remember d p c n index above below in_blocks in_sizes =
    rw
      (
        memset-ok d.machine p c n above below,
        lt→ltb index (length d.blocks) in_blocks,
        lt→ltb index (length d.block_sizes) in_sizes,
      )
      refl

pub pattern_byte : (index : ℕ) → pattern_of index % 2 ^ 8 ≡ pattern_of index
pattern_byte index = omega (arith, bit_and-byte index)

-- The driver after a request that was granted at `at`.
pub record Accepts (char_signed : Bool) (d : Driver) (bs : List Block) (index n : ℕ) (at : Ptr)
    : Type 0 where
  pub final : Driver
  pub blocks : List Block
  pub runs : valid_alloc mm char_signed index n d ≡ going final
  pub stored : final.ranges ≡ range at (at + n - 1) ∷ d.ranges
  pub tracked : All (Tracked (first final.machine) blocks) final.ranges
  pub placed : Placed d bs index n at (λ _. Unit) final blocks

module _ (char_signed : Bool) {d : Driver} {bs : List Block} (index n : ℕ) (h : Heap d.machine bs)
    (tracked : All (Tracked (first d.machine) bs) d.ranges) (pos : 0 < n) (small : n < 2 ^ 31 - 16)
    (splits : Splits (adjust n) bs) (in_blocks : index < length d.blocks)
    (in_sizes : index < length d.block_sizes) where
  accepted :
      {at : Ptr} {s' : State} {bs' : List Block}
      → mm_malloc n d.machine ≡ ok at s'
      → Granted d.machine bs n at s' bs'
      → Accepts char_signed d bs index n at
  unfolding valid_alloc
  accepted {at} {s'} {bs'} runs g =
      let c = pattern_of index in
      let bounds = adjust_bounds n pos (omega arith) in
      let arena = g.heap.arena in
      let low : s'.lib.start_brk ≤ at = omega (arith, g.above, g.same_start) in
      let high : at + n ≤ s'.lib.max_addr = omega (arith, g.below, arena.brk_below) in
      let m = fill s'.bytes at (c % 2 ^ 8) n in
      let outside = fill-outside s'.bytes at (c % 2 ^ 8) n in
      let u : UsedAt (first s') bs' at (adjust n) =
        granted-UsedAt g at (adjust n) (inl (refl, refl)) in
      let grown_ranges = range at (at + n - 1) ∷ d.ranges in
      record {
        final = record d {
          machine = with_bytes s' m;
          ranges = grown_ranges;
          blocks = set d.blocks index at;
          block_sizes = set d.block_sizes index n;
        };
        blocks = bs';
        runs =
            rw (runs, ne→== at null (omega (arith, g.above)))
              (check_range-added (record d { machine = s' }) at n
                  (λ d2. call d2 (memset at c n d2.machine) (λ _ d3. remember index at n d3))
                  (placed-Acceptable (first d.machine) bs pos bounds.2 g.apart s'.lib d.ranges
                    tracked g.aligned low g.below)
                ∙ fill_and_remember (record d { machine = s'; ranges = grown_ranges }) at c n index
                    low high in_blocks in_sizes);
        stored = refl;
        tracked = ((adjust n, u, omega arith, omega arith), granted-Tracked g d.ranges tracked);
        placed = record {
          puts = record {
            heap = Heap-payload m at (adjust n) n g.heap u bounds.2 outside;
            places = refl;
            sizes = refl;
            new = u;
            uses = λ a i v _. granted-UsedAt g a i (inr v);
            apart = g.apart;
            grows = g.grows;
            rises = g.rises;
            even = g.even;
            same_start = g.same_start;
          };
          errors = refl;
          kept = λ a i x v _ above below.
              outside x (omega (arith, g.apart a i v)) ∙ g.kept a i x v above below;
          filled = λ j lt.
              fill-inside s'.bytes at (c % 2 ^ 8) n (at + j) (omega arith) (omega arith)
              ∙ pattern_byte index;
        };
      }

  -- Where the allocator's invariant holds and each stored range lies in the payload of a block in
  -- use and starts with it, the driver's request for 0 < n < 2 ^ 31 - 16 bytes, with an index
  -- inside both arrays, and where no free block, nor a new chunk, is 8 bytes larger than the
  -- adjusted size, either passes all checks of the driver or is the error that `mm_malloc`
  -- returned NULL. If it passes, the new range stands in front, the invariant holds again, each
  -- stored range lies in a block in use, all blocks in use stay so with their bytes, and the
  -- payload is filled with the pattern. The error comes only where the arena cannot grow by the
  -- larger of the adjusted size and 4096 bytes.
  pub valid_alloc-Accepts :
      ((at : Ptr) × Accepts char_signed d bs index n at)
      ⊎ (valid_alloc mm char_signed index n d
          ≡ malloc_error (record d { machine = refused d.machine }))
        × (d.machine.lib.max_addr < d.machine.lib.brk + growth (adjust n))
  unfolding valid_alloc
  valid_alloc-Accepts = elim (malloc-Answers n h pos small splits) [
    | inl (at, s', bs', runs, g) ↦ inl (at, accepted runs g)
    | inr (runs, unfit, full, heap) ↦ inr (rw runs refl, full)
  ]
