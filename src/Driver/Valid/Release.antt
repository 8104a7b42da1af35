-- ===== src/Driver/Valid/Release.antt =====
-- `eval_mm_valid` frees a block through mm.c.
use jungle_malloc_benchmark.Base.{ℕ, ◌≡◌, refl, some, get_elem?, inl, inr, Bool, List, [], ◌∷◌, All}
use jungle_malloc_benchmark.Memory.{Ptr, Bytes}
use jungle_malloc_benchmark.Machine.{ok}
use jungle_malloc_benchmark.Mm.{mm_free}
use jungle_malloc_benchmark.Mm.Block.{Block, with_bytes}
use jungle_malloc_benchmark.Mm.Spec.{UsedAt}
use jungle_malloc_benchmark.Mm.Heap.{Heap, Kept, first}
use jungle_malloc_benchmark.Mm.Freed.{free-Freed}
use jungle_malloc_benchmark.Ranges.{Range, remove_range}
use jungle_malloc_benchmark.Ranges.Checks.{Stored, Distinct, All-Stored, remove_range_iff}
use jungle_malloc_benchmark.Driver.{Driver, going, mm, at_index}
use jungle_malloc_benchmark.Driver.Slots.{Frees}
use jungle_malloc_benchmark.Driver.Valid.{valid_free}
use jungle_malloc_benchmark.Driver.Valid.Slots.{Tracked}

All-tabulate {ℓ} :
    (P : Range → Type ℓ) (ranges : List Range)
    → ((r : Range) → Stored r ranges → P r)
    → All P ranges
All-tabulate P [] f = tt
All-tabulate P (r ∷ ranges) f = (f r (inl refl), All-tabulate P ranges (λ q h. f q (inr h)))

valid_free-runs :
    (char_signed : Bool) (d : Driver) (index : ℕ) (p : Ptr) (m : Bytes)
    → get_elem? d.blocks index ≡ some p
    → mm_free p d.machine ≡ ok tt (with_bytes d.machine m)
    → valid_free mm char_signed index d
      ≡ going (record d { machine = with_bytes d.machine m; ranges = remove_range d.ranges p })
unfolding valid_free
valid_free-runs char_signed d index p m held runs = rw (at_index, held) (rw runs refl)

-- The driver after the block at `p` is freed.
pub record Releases (char_signed : Bool) (d : Driver) (bs : List Block) (index : ℕ) (p : Ptr)
    : Type 0 where
  pub final : Driver
  pub blocks : List Block
  pub runs : valid_free mm char_signed index d ≡ going final
  pub frees : Frees d bs p final blocks
  pub stored : final.ranges ≡ remove_range d.ranges p
  pub tracked : All (Tracked (first final.machine) blocks) final.ranges
  pub errors : final.errors ≡ d.errors
  pub kept : Kept d.machine.bytes final.machine.bytes (first final.machine) blocks

module _ (char_signed : Bool) {d : Driver} {bs : List Block} (index k : ℕ) (p : Ptr)
    (h : Heap d.machine bs) (tracked : All (Tracked (first d.machine) bs) d.ranges)
    (distinct : Distinct d.ranges) (held : get_elem? d.blocks index ≡ some p)
    (u : UsedAt (first d.machine) bs p k) where
  -- Where the allocator's invariant holds, each stored range lies in the payload of a block in
  -- use and starts with it, and no two stored ranges start at one address, the driver's free of
  -- an index that holds a block in use goes through: the range of that block is removed, exactly
  -- that block is no longer in use, the other payloads are kept, the invariant holds again, and
  -- each stored range lies in a block in use.
  pub valid_free-Releases : Releases char_signed d bs index p
  valid_free-Releases =
      let lo = first d.machine in
      let f = free-Freed {s = d.machine} {bs = bs} p k h u in
      record {
        final = record d {
          machine = with_bytes d.machine f.bytes;
          ranges = remove_range d.ranges p;
        };
        blocks = f.blocks;
        runs = valid_free-runs char_signed d index p f.bytes held f.runs;
        frees = record {
          heap = f.heap;
          uses = f.uses;
          places = refl;
          sizes = refl;
          lib = refl;
          even = f.even;
        };
        stored = refl;
        tracked = All-tabulate (Tracked lo f.blocks) (remove_range d.ranges p) λ r at.
            let (there, away) = (remove_range_iff d.ranges p r distinct).0 at in
            let (i, v, order, inside) = All-Stored (Tracked lo bs) d.ranges r tracked there in
            (i, (f.uses r.lo i).1 (v, away), order, inside);
        errors = refl;
        kept = f.kept;
      }
