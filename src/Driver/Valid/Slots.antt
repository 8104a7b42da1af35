-- ===== src/Driver/Valid/Slots.antt =====
-- What the driver knows of the blocks that it holds (`trace->blocks`, `trace->block_sizes` and the
-- range list of mdriver.c), against the heap of mm.c.
use jungle_malloc_benchmark.Base.{
  eq→==, ne→==, ℕ, ◌+◌, ◌-◌, ◌≤◌, ◌<◌, ◌≡◌, ◌≢◌, refl, List, [], ◌∷◌, ◌++◌, map, length, arith, ◌∙◌,
  All, All-map,
}
use jungle_malloc_benchmark.Memory.{Ptr}
use jungle_malloc_benchmark.Mm.{adjust}
use jungle_malloc_benchmark.Mm.Block.{Block}
use jungle_malloc_benchmark.Mm.Spec.{UsedAt, IsBlock}
use jungle_malloc_benchmark.Mm.Spec.Even.{IsEven}
use jungle_malloc_benchmark.Mm.Heap.{first}
use jungle_malloc_benchmark.Ranges.{Range, remove_range}
use jungle_malloc_benchmark.Ranges.Checks.{range, Distinct}
use jungle_malloc_benchmark.Driver.{Driver}
use jungle_malloc_benchmark.Driver.Slots.{Slot, Keeps, Other, Separate, Steady, Puts, puts-Steady}
use jungle_malloc_benchmark.Driver.Valid.{pattern_of}

abbrev pub payload : Slot → Range
payload x = range x.ptr (x.ptr + x.size - 1)

-- The range lies in the payload of a block in use, and starts with it.
abbrev pub Tracked : Ptr → List Block → Range → Type 0
Tracked lo bs r = (i : ℕ) × UsedAt lo bs r.lo i × (r.lo ≤ r.hi) × (r.hi + 8 < r.lo + i)

-- `remove_range` at the block of one entry.
pub remove_range-payload :
    (xs : List Slot) (x : Slot) (ys : List Slot)
    → All (Other x) (xs ++ ys)
    → remove_range (map payload (xs ++ (x ∷ ys))) x.ptr ≡ map payload (xs ++ ys)
unfolding remove_range
remove_range-payload [] x ys away = rw (eq→== x.ptr x.ptr refl)
remove_range-payload (y ∷ xs) x ys away =
    rw (ne→== y.ptr x.ptr away.0.1, remove_range-payload xs x ys away.1)

-- Each entry's range is that of a block in use.
pub payload-Tracked :
    (d : Driver) (bs : List Block) (live : List Slot)
    → All (Keeps d bs) live
    → All (Tracked (first d.machine) bs) (map payload live)
payload-Tracked d bs [] held = tt
payload-Tracked d bs (x ∷ live) (h, held) = (
  (h.bytes, h.in_use, omega (arith, h.nonempty), omega (arith, h.fits, h.nonempty)),
  payload-Tracked d bs live held,
)

pub payload-Distinct : (live : List Slot) → Separate live → Distinct (map payload live)
payload-Distinct [] s = tt
payload-Distinct (x ∷ live) (others, s) = (away live others, payload-Distinct live s)
  where
    away : (xs : List Slot) → All (Other x) xs → All (λ (r : Range). r.lo ≢ x.ptr) (map payload xs)
    away [] all = tt
    away (y ∷ xs) all = (all.0.1, away xs all.1)

-- The payload of an entry is its pattern.
abbrev pub Filled : Driver → Slot → Type 0
Filled d x = (j : ℕ) → j < x.size → d.machine.bytes (x.ptr + j) ≡ pattern_of x.index

-- The driver between two requests of a trace with `ids` indices.
pub record Sound (d : Driver) (bs : List Block) (ids : ℕ) (live : List Slot) : Type 0 where
  pub steady : Steady d bs ids live
  pub stored : d.ranges ≡ map payload live
  pub content : All (Filled d) live

-- A block of `n` bytes at `at` is stored under `index` and filled; the blocks in use that satisfy
-- `Stays` keep their bytes.
pub record Placed (d : Driver) (bs : List Block) (index n : ℕ) (at : Ptr) (Stays : Ptr → Type 0)
    (final : Driver) (blocks : List Block) : Type 0 where
  pub puts : Puts d bs index n at Stays final blocks
  pub errors : final.errors ≡ d.errors
  pub kept :
      (a i x : ℕ)
      → UsedAt (first d.machine) bs a i
      → Stays a
      → a ≤ x
      → x + 8 < a + i
      → final.machine.bytes x ≡ d.machine.bytes x
  pub filled : (j : ℕ) → j < n → final.machine.bytes (at + j) ≡ pattern_of index

-- Where the bytes of the blocks that stay are kept, their payloads are.
pub All-Filled :
    (d final : Driver) (bs : List Block) (Stays : Ptr → Type 0)
    → ((a i x : ℕ)
        → UsedAt (first d.machine) bs a i
        → Stays a
        → a ≤ x
        → x + 8 < a + i
        → final.machine.bytes x ≡ d.machine.bytes x)
    → (live : List Slot) → All (Keeps d bs) live
    → All (λ (x : Slot). Stays x.ptr) live
    → All (Filled d) live
    → All (Filled final) live
All-Filled d final bs Stays kept [] held stay all = tt
All-Filled d final bs Stays kept (x ∷ live) (h, held) (s, stay) (f, all) = (
  λ j lt. kept x.ptr h.bytes (x.ptr + j) h.in_use s (omega arith) (omega (arith, h.fits)) ∙ f j lt,
  All-Filled d final bs Stays kept live held stay all,
)

-- The new entry stands in front of those that stay.
pub Placed-Sound :
    {d : Driver} {bs : List Block} {index n : ℕ} {at : Ptr} {Stays : Ptr → Type 0} {final : Driver}
    {blocks : List Block} (p : Placed d bs index n at Stays final blocks)
    → All IsBlock bs
    → 0 < n
    → (16 ≤ adjust n) × (n + 8 ≤ adjust n)
    → {ids : ℕ} (live : List Slot) → All (Keeps d bs) live
    → All (λ x. (x.index ≢ index) × Stays x.ptr) live
    → Separate live
    → All (Filled d) live
    → final.ranges ≡ map payload (record { index = index; size = n; ptr = at } ∷ live)
    → (length d.blocks ≡ ids) × (length d.block_sizes ≡ ids) × (index < ids)
    → All IsEven blocks
    → Sound final blocks ids (record { index = index; size = n; ptr = at } ∷ live)
Placed-Sound {d} {bs} {Stays} {final} p all pos bounds live held away separate content stored inside
      even =
    record {
      steady = puts-Steady p.puts all pos bounds live held away separate inside even;
      stored = stored;
      content = (
        p.filled,
        All-Filled d final bs Stays p.kept live held (All-map live (λ x s. s.1) away) content,
      );
    }
