-- ===== src/Driver/Valid/Next.antt =====
-- One request of a trace, as `eval_mm_valid` runs it against mm.c.
use jungle_malloc_benchmark.Base.{
  ℕ, ◌+◌, ◌-◌, ◌≤◌, ◌<◌, ◌≡◌, ◌≢◌, ◌⊎◌, refl, inl, inr, Bool, false, List, ◌∷◌, ◌++◌, map, arith,
  ap, sym, subst, ◌∙◌, All, All-cut, All-map,
}
use jungle_malloc_benchmark.Mm.{adjust}
use jungle_malloc_benchmark.Mm.Block.{Block}
use jungle_malloc_benchmark.Mm.Heap.{first}
use jungle_malloc_benchmark.Mm.Malloc.{growth, adjust_bounds, IsEven-Splits}
use jungle_malloc_benchmark.Ranges.{remove_range}
use jungle_malloc_benchmark.Ranges.Checks.{range, Distinct}
use jungle_malloc_benchmark.Driver.{Driver, Kind, Traceop, going, mm}
use jungle_malloc_benchmark.Driver.Valid.{pattern_of, valid_op}
use jungle_malloc_benchmark.Driver.Valid.Calls.{op-alloc, op-realloc, op-free}
use jungle_malloc_benchmark.Driver.Slots.{Slot, Other, frees-Steady}
use jungle_malloc_benchmark.Driver.Slots.Cut.{
  away_of_keys, cut_Keeps, cut_Separate, named, named_size, others_away,
}
use jungle_malloc_benchmark.Driver.Valid.Slots.{
  Filled, All-Filled, Sound, Tracked, payload, Placed-Sound, remove_range-payload, payload-Tracked,
  payload-Distinct,
}
use jungle_malloc_benchmark.Driver.Valid.Accept.{valid_alloc-Accepts}
use jungle_malloc_benchmark.Driver.Valid.Release.{valid_free-Releases}
use jungle_malloc_benchmark.Driver.Valid.Move.{valid_realloc-Moves}
use jungle_malloc_benchmark.Driver.Valid.Proper.{Keys, key, IsRequest, spend, Found}

-- The driver after a request that went through, with the keys `keys`.
pub record Next (char_signed : Bool) (ids : ℕ) (d : Driver) (op : Traceop) (keys : Keys)
    : Type 0 where
  pub final : Driver
  pub blocks : List Block
  pub live : List Slot
  pub runs : valid_op mm char_signed op d ≡ going final
  pub sound : Sound final blocks ids live
  pub same_keys : map key live ≡ keys
  pub errors : final.errors ≡ d.errors
  pub grows : final.machine.lib.brk ≤ d.machine.lib.brk + spend op
  pub same_end : final.machine.lib.max_addr ≡ d.machine.lib.max_addr

module _ (char_signed : Bool) {d : Driver} {bs : List Block} {ids : ℕ} {live : List Slot}
    (s : Sound d bs ids live) (op : Traceop) where
  tracked : All (Tracked (first d.machine) bs) d.ranges
  tracked =
      subst (λ l. All (Tracked (first d.machine) bs) l) (sym s.stored)
        (payload-Tracked d bs live s.steady.held)

  pub alloc-Next :
      op.kind ≡ Kind.alloc
      → op.index < ids
      → All (λ (k : ℕ × ℕ). k.0 ≢ op.index) (map key live)
      → IsRequest op.size
      → d.machine.lib.brk + spend op ≤ d.machine.lib.max_addr
      → Next char_signed ids d op ((op.index, op.size) ∷ map key live)
  alloc-Next kind inside fresh (pos, small, even) room =
      let spent : spend op ≡ growth (adjust op.size) = rw kind refl in
      let bounds = adjust_bounds op.size pos (omega arith) in
      elim (valid_alloc-Accepts char_signed {d = d} op.index op.size s.steady.heap tracked pos small
        (IsEven-Splits (adjust op.size) bs even s.steady.even) (omega (arith, s.steady.in_blocks))
        (omega (arith, s.steady.in_sizes))) [
          | inl (at, a) ↦ record {
            final = a.final;
            blocks = a.blocks;
            live = record { index = op.index; size = op.size; ptr = at } ∷ live;
            runs = op-alloc mm char_signed op d kind ∙ a.runs;
            sound =
                Placed-Sound a.placed s.steady.heap.blocks pos (bounds.1, bounds.2) live
                  s.steady.held (away_of_keys op.index live fresh) s.steady.separate s.content
                  (a.stored ∙ ap (λ l. range at (at + op.size - 1) ∷ l) s.stored)
                  (s.steady.in_blocks, s.steady.in_sizes, inside)
                  (a.placed.puts.even even s.steady.even);
            same_keys = refl;
            errors = a.placed.errors;
            grows = rw spent a.placed.puts.grows;
            same_end = omega (
              arith, a.placed.puts.same_start, a.placed.puts.heap.arena.extent,
              s.steady.heap.arena.extent,
            );
          }
          | inr (runs, full) ↦ absurd (omega arith)
        ]

module _ (char_signed : Bool) {d : Driver} {bs : List Block} {ids : ℕ} {live : List Slot}
    (s : Sound d bs ids live) (op : Traceop) {before : Keys} {n : ℕ} {after : Keys}
    (f : Found live before op.index n after) where
  cut_content : Filled d f.slot × All (Filled d) (f.front ++ f.back)
  cut_content =
      All-cut (Filled d) f.front f.slot f.back (subst (λ l. All (Filled d) l) f.parts s.content)

  cut_stored : remove_range d.ranges f.slot.ptr ≡ map payload (f.front ++ f.back)
  cut_stored =
      ap (λ l. remove_range l f.slot.ptr) (s.stored ∙ ap (λ l. map payload l) f.parts)
      ∙ remove_range-payload f.front f.slot f.back (cut_Separate s.steady f).0

  pub free-Next : op.kind ≡ Kind.free → Next char_signed ids d op (before ++ after)
  free-Next kind =
      let held = cut_Keeps s.steady f in
      let others = cut_Separate s.steady f in
      let away = All-map (f.front ++ f.back) (λ (x : Slot) (o : Other f.slot x). o.1) others.0 in
      let distinct = subst Distinct (sym s.stored) (payload-Distinct live s.steady.separate) in
      let a =
        valid_free-Releases char_signed {d = d} op.index held.0.bytes f.slot.ptr s.steady.heap
          (tracked char_signed s op) distinct (named s.steady f) held.0.in_use in
      let spent : spend op ≡ 0 = rw kind refl in
      record {
        final = a.final;
        blocks = a.blocks;
        live = f.front ++ f.back;
        runs = op-free mm char_signed op d kind ∙ a.runs;
        sound = record {
          steady =
              frees-Steady a.frees (f.front ++ f.back) held.1 away others.1
                (s.steady.in_blocks, s.steady.in_sizes) s.steady.even;
          stored = a.stored ∙ cut_stored;
          content =
              All-Filled d a.final bs (λ q. q ≢ f.slot.ptr)
                (λ q i x u ne. a.kept q i x ((a.frees.uses q i).1 (u, ne))) (f.front ++ f.back)
                held.1 away cut_content.1;
        };
        same_keys = f.rest;
        errors = a.errors;
        grows = rw (spent, a.frees.lib) (omega arith);
        same_end = rw a.frees.lib refl;
      }

  pub realloc-Next :
      op.kind ≡ Kind.realloc
      → IsRequest op.size
      → op.size ≤ n
      → (char_signed ≡ false) ⊎ (pattern_of op.index < 128)
      → d.machine.lib.brk + spend op ≤ d.machine.lib.max_addr
      → op.index < ids
      → Next char_signed ids d op ((op.index, op.size) ∷ (before ++ after))
  realloc-Next kind (pos, small, even) le sign room inside =
      let spent : spend op ≡ growth (adjust op.size) = rw kind refl in
      let bounds = adjust_bounds op.size pos (omega arith) in
      let held = cut_Keeps s.steady f in
      let h = held.0 in
      let others = cut_Separate s.steady f in
      let rest =
        subst (λ l. All (Tracked (first d.machine) bs) l) (sym cut_stored)
          (payload-Tracked d bs (f.front ++ f.back) held.1) in
      let content : (j : ℕ) → j < n → d.machine.bytes (f.slot.ptr + j) ≡ pattern_of op.index =
        λ j lt.
          subst (λ i. d.machine.bytes (f.slot.ptr + j) ≡ pattern_of i) f.same_index
            (cut_content.0 j (omega (arith, f.same_size))) in
      elim (valid_realloc-Moves char_signed {d = d} op.index h.bytes n op.size f.slot.ptr
        s.steady.heap h.in_use pos le (omega (arith, h.fits, f.same_size)) small
        (IsEven-Splits (adjust op.size) bs even s.steady.even) rest (named s.steady f)
        (named_size s.steady f) (omega (arith, s.steady.in_blocks))
        (omega (arith, s.steady.in_sizes)) sign content) [
          | inl (at, a) ↦ record {
            final = a.final;
            blocks = a.blocks;
            live = record { index = op.index; size = op.size; ptr = at } ∷ (f.front ++ f.back);
            runs = op-realloc mm char_signed op d kind ∙ a.runs;
            sound =
                Placed-Sound a.placed s.steady.heap.blocks pos (bounds.1, bounds.2)
                  (f.front ++ f.back) held.1 (others_away s.steady f (f.front ++ f.back) others.0)
                  others.1 cut_content.1
                  (a.stored ∙ ap (λ l. range at (at + op.size - 1) ∷ l) cut_stored)
                  (s.steady.in_blocks, s.steady.in_sizes, inside)
                  (a.placed.puts.even even s.steady.even);
            same_keys = ap (λ l. (op.index, op.size) ∷ l) f.rest;
            errors = a.placed.errors;
            grows = rw spent a.placed.puts.grows;
            same_end = omega (
              arith, a.placed.puts.same_start, a.placed.puts.heap.arena.extent,
              s.steady.heap.arena.extent,
            );
          }
          | inr (runs, full) ↦ absurd (omega arith)
        ]
