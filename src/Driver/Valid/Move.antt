-- ===== src/Driver/Valid/Move.antt =====
-- `eval_mm_valid` reallocates a block through mm.c.
use jungle_malloc_benchmark.Base.{
  ℕ, ◌+◌, ◌-◌, ◌%◌, ◌^◌, ◌≤◌, ◌<◌, ◌≡◌, ◌≢◌, ◌⊎◌, refl, inl, inr, Bool, true, false, not, some, ltb,
  ◌==◌, if◌then◌else◌, get_elem?, set, ne→==, List, ◌∷◌, length, arith, ◌∙◌, sym, subst, All,
}
use jungle_malloc_benchmark.Memory.{Ptr, fill, null}
use jungle_malloc_benchmark.Memory.Laws.{fill-inside, fill-outside}
use jungle_malloc_benchmark.Machine.{ok, memset}
use jungle_malloc_benchmark.Machine.Access.{refused}
use jungle_malloc_benchmark.Mm.{adjust}
use jungle_malloc_benchmark.Mm.Block.{Block, with_bytes}
use jungle_malloc_benchmark.Mm.Spec.{UsedAt}
use jungle_malloc_benchmark.Mm.Heap.{Heap, first}
use jungle_malloc_benchmark.Mm.Malloc.{Splits, growth, adjust_bounds}
use jungle_malloc_benchmark.Mm.Payload.{Heap-payload}
use jungle_malloc_benchmark.Mm.Contract.{UsedAt-IsBlock}
use jungle_malloc_benchmark.Mm.Realloc.{Moved, realloc-Answers}
use jungle_malloc_benchmark.Ranges.{remove_range}
use jungle_malloc_benchmark.Ranges.Checks.{range}
use jungle_malloc_benchmark.Driver.{Driver, Step, going, malloc_error, mm, call, at_index, remember}
use jungle_malloc_benchmark.Driver.Valid.{pattern_of, check_range, holds_pattern, valid_realloc}
use jungle_malloc_benchmark.Driver.Valid.Pattern.{holds_pattern_iff}
use jungle_malloc_benchmark.Driver.Valid.Slots.{Tracked, Placed}
use jungle_malloc_benchmark.Driver.Valid.Accept.{
  placed-Acceptable, check_range-added, fill_and_remember, pattern_byte,
}

-- The driver after the block at `p` has moved to `at`.
pub record Moves (char_signed : Bool) (d : Driver) (bs : List Block) (index n : ℕ) (p at : Ptr)
    : Type 0 where
  pub final : Driver
  pub blocks : List Block
  pub runs : valid_realloc mm char_signed index n d ≡ going final
  pub stored : final.ranges ≡ range at (at + n - 1) ∷ remove_range d.ranges p
  pub placed : Placed d bs index n at (λ a. a ≢ p) final blocks

-- The rest of the case behind the range check.
abbrev compare_and_fill : Bool → ℕ → ℕ → Ptr → Driver → Step Driver
compare_and_fill char_signed index size newp d2 = at_index d2.block_sizes index λ block_size.
    let oldsize = if ltb size block_size then size else block_size in
    call d2 (holds_pattern char_signed oldsize newp (pattern_of index) d2.machine) λ same d3.
      if not same
      then malloc_error d3
      else call d3 (memset newp (pattern_of index) size d3.machine)
          λ _ d4. remember index newp size d4

least_of : (n m : ℕ) → n ≤ m → (if ltb n m then n else m) ≡ n
least_of n m le = ground arith

compare_and_fill-runs :
    (char_signed : Bool) (d : Driver) (index m n : ℕ) (at : Ptr)
    → (char_signed ≡ false) ⊎ (pattern_of index < 128)
    → get_elem? d.block_sizes index ≡ some m
    → n ≤ m
    → ((j : ℕ) → j < n → d.machine.bytes (at + j) ≡ pattern_of index)
    → d.machine.lib.start_brk ≤ at
    → at + n ≤ d.machine.lib.max_addr
    → index < length d.blocks
    → index < length d.block_sizes
    → compare_and_fill char_signed index n at d
      ≡ going (record d {
        machine = with_bytes d.machine (fill d.machine.bytes at (pattern_of index % 2 ^ 8) n);
        blocks = set d.blocks index at;
        block_sizes = set d.block_sizes index n;
      })
compare_and_fill-runs char_signed d index m n at sign size le same above below in_blocks in_sizes =
    let (answer, runs, iff) =
      holds_pattern_iff char_signed n at (pattern_of index) d.machine sign above below in
    let same_true : answer ≡ true = iff.1 same in
    let checked : holds_pattern char_signed n at (pattern_of index) d.machine ≡ ok true d.machine =
      subst (λ b. holds_pattern char_signed n at (pattern_of index) d.machine ≡ ok b d.machine)
        same_true runs in
    rw (at_index, size)
      (rw (least_of n m le) (
        rw checked
          (fill_and_remember d at (pattern_of index) n index above below in_blocks in_sizes)))

-- The driver after `mm_realloc` and `remove_range`.
abbrev moved_driver :
    {bs : List Block} {k n : ℕ} {at : Ptr} (d : Driver) (p : Ptr)
    → Moved d.machine bs p k n at
    → Driver
moved_driver d p v = record d { machine = v.final; ranges = remove_range d.ranges p }

Moved-runs :
    {bs : List Block} {k : ℕ} {at : Ptr} (char_signed : Bool) (d : Driver) (index n : ℕ) (p : Ptr)
    → get_elem? d.blocks index ≡ some p
    → (v : Moved d.machine bs p k n at)
    → valid_realloc mm char_signed index n d ≡ (
        if at == null
        then malloc_error (record d { machine = v.final })
        else check_range (moved_driver d p v) at n (compare_and_fill char_signed index n at))
unfolding valid_realloc
Moved-runs char_signed d index n p held v = rw (at_index, held) (rw v.runs refl)

module _ (char_signed : Bool) {d : Driver} {bs : List Block} (index k m n : ℕ) (p : Ptr)
    (h : Heap d.machine bs) (u : UsedAt (first d.machine) bs p k) (pos : 0 < n) (le : n ≤ m)
    (fits : m + 8 ≤ k) (small : n < 2 ^ 31 - 16) (splits : Splits (adjust n) bs)
    (tracked : All (Tracked (first d.machine) bs) (remove_range d.ranges p))
    (held : get_elem? d.blocks index ≡ some p) (size : get_elem? d.block_sizes index ≡ some m)
    (in_blocks : index < length d.blocks) (in_sizes : index < length d.block_sizes)
    (sign : (char_signed ≡ false) ⊎ (pattern_of index < 128))
    (content : (j : ℕ) → j < m → d.machine.bytes (p + j) ≡ pattern_of index) where
  moves : {at : Ptr} → Moved d.machine bs p k n at → Moves char_signed d bs index n p at
  moves {at} v =
      let c = pattern_of index in
      let s' = v.final in
      let bounds = adjust_bounds n pos (omega arith) in
      let arena = v.heap.arena in
      let same : first s' ≡ first d.machine = omega (arith, v.same_start) in
      let low : s'.lib.start_brk ≤ at = omega (arith, v.above, v.same_start) in
      let high : at + n ≤ s'.lib.max_addr = omega (arith, v.below, arena.brk_below) in
      let bytes = fill s'.bytes at (c % 2 ^ 8) n in
      let outside = fill-outside s'.bytes at (c % 2 ^ 8) n in
      let ne : at ≢ p =
        omega (arith, v.apart p k u, UsedAt-IsBlock (first d.machine) bs p k h.blocks u) in
      let u' : UsedAt (first s') v.blocks at (adjust n) =
        subst (λ q. UsedAt q v.blocks at (adjust n)) (sym same)
          ((v.uses at (adjust n)).1 (inl (refl, refl), ne)) in
      let grown_ranges = range at (at + n - 1) ∷ remove_range d.ranges p in
      record {
        final = record d {
          machine = with_bytes s' bytes;
          ranges = grown_ranges;
          blocks = set d.blocks index at;
          block_sizes = set d.block_sizes index n;
        };
        blocks = v.blocks;
        runs =
            Moved-runs char_signed d index n p held v
            ∙ rw (ne→== at null (omega (arith, v.above))) (
                check_range-added (moved_driver d p v) at n
                  (compare_and_fill char_signed index n at)
                  (placed-Acceptable (first d.machine) bs pos bounds.2 v.apart s'.lib
                    (remove_range d.ranges p) tracked v.aligned low v.below)
                ∙ compare_and_fill-runs char_signed
                    (record d { machine = s'; ranges = grown_ranges }) index m n at sign size le
                    (λ j lt. v.moved j lt (omega arith) ∙ content j (omega arith)) low high
                    in_blocks in_sizes);
        stored = refl;
        placed = record {
          puts = record {
            heap = Heap-payload bytes at (adjust n) n v.heap u' bounds.2 outside;
            places = refl;
            sizes = refl;
            new = u';
            uses = λ a i w away.
                subst (λ q. UsedAt q v.blocks a i) (sym same) ((v.uses a i).1 (inr w, away));
            apart = v.apart;
            grows = v.grows;
            rises = v.rises;
            even = v.even;
            same_start = v.same_start;
          };
          errors = refl;
          kept = λ a i x w away above below.
              outside x (omega (arith, v.apart a i w)) ∙ v.kept a i x w away above below;
          filled = λ j lt.
              fill-inside s'.bytes at (c % 2 ^ 8) n (at + j) (omega arith) (omega arith)
              ∙ pattern_byte index;
        };
      }

  -- Where the allocator's invariant holds, an index holds a block in use whose payload of `m`
  -- bytes is its pattern, each other stored range lies in the payload of a block in use and
  -- starts with it, the index is inside both arrays, either `char` is unsigned or the pattern is
  -- below 128, and no free block, nor a new chunk, is 8 bytes larger than the adjusted size, the
  -- driver's `realloc` to 0 < n ≤ m bytes, n < 2 ^ 31 - 16, either passes all checks of the
  -- driver or is the error that `mm_realloc` returned NULL. If it passes, the new range replaces
  -- the old one, the arrays hold the new block, its payload is filled with the pattern, all other
  -- blocks in use stay so with their bytes, and the invariant holds again. The error comes only
  -- where the arena cannot grow by the larger of the adjusted size and 4096 bytes.
  pub valid_realloc-Moves :
      ((at : Ptr) × Moves char_signed d bs index n p at)
      ⊎ ((valid_realloc mm char_signed index n d
            ≡ malloc_error (record d { machine = refused d.machine }))
          × (d.machine.lib.max_addr < d.machine.lib.brk + growth (adjust n)))
  unfolding valid_realloc
  valid_realloc-Moves = elim (realloc-Answers p k n h u pos (omega arith) small splits) [
    | inl (at, v) ↦ inl (at, moves v)
    | inr (runs, full, heap) ↦ inr (rw (at_index, held) (rw runs refl), full)
  ]
