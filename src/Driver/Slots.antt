-- ===== src/Driver/Slots.antt =====
-- What a run of a trace holds: the entries of `trace->blocks` and `trace->block_sizes` (mdriver.c)
-- that are in use, against the heap of mm.c.
pub mod Cut
pub mod Total
pub mod Answers
use jungle_malloc_benchmark.Base.{
  All-cut, ℕ, ◌+◌, ◌-◌, ◌%◌, ◌≤◌, ◌<◌, ◌≡◌, ◌≢◌, ◌↔◌, ◌⊎◌, refl, some, List, [], ◌∷◌, ◌++◌, map,
  length, length-set, get_elem?, set, arith, ◌∙◌, sym, All, get_elem?-set_self, get_elem?-set_other,
}
use jungle_malloc_benchmark.Memory.{Ptr}
use jungle_malloc_benchmark.Mm.{adjust}
use jungle_malloc_benchmark.Mm.Block.{Block}
use jungle_malloc_benchmark.Mm.Spec.{UsedAt, IsBlock}
use jungle_malloc_benchmark.Mm.Spec.Even.{IsEven}
use jungle_malloc_benchmark.Mm.Heap.{Heap, first}
use jungle_malloc_benchmark.Mm.Malloc.{growth}
use jungle_malloc_benchmark.Mm.Contract.{UsedAt-IsBlock}
use jungle_malloc_benchmark.Driver.{Driver}

-- An entry of the arrays that is in use.
pub record Slot : Type 0 where
  pub index : ℕ
  pub size : ℕ
  pub ptr : Ptr

-- The arrays and the heap agree on an entry.
pub record Keeps (d : Driver) (bs : List Block) (x : Slot) : Type 0 where
  pub block : get_elem? d.blocks x.index ≡ some x.ptr
  pub block_size : get_elem? d.block_sizes x.index ≡ some x.size
  pub bytes : ℕ
  pub in_use : UsedAt (first d.machine) bs x.ptr bytes
  pub fits : x.size + 8 ≤ bytes
  pub nonempty : 0 < x.size

-- No two entries share an index or a block.
abbrev pub Other : Slot → Slot → Type 0
Other x y = (y.index ≢ x.index) × (y.ptr ≢ x.ptr)

abbrev pub Separate : List Slot → Type 0
Separate [] = Unit
Separate (x ∷ xs) = All (Other x) xs × Separate xs

pub Separate-cut :
    (xs : List Slot) (x : Slot) (ys : List Slot)
    → Separate (xs ++ (x ∷ ys))
    → All (Other x) (xs ++ ys) × Separate (xs ++ ys)
Separate-cut [] x ys s = s
Separate-cut (y ∷ xs) x ys (others, s) =
    let (away, rest) = Separate-cut xs x ys s in
    let (here, left) = All-cut (Other y) xs x ys others in
    (((λ e. here.0 (sym e), λ e. here.1 (sym e)), away), (left, rest))

-- The state between two requests of a trace with `ids` indices.
pub record Steady (d : Driver) (bs : List Block) (ids : ℕ) (live : List Slot) : Type 0 where
  pub heap : Heap d.machine bs
  pub even : All IsEven bs
  pub held : All (Keeps d bs) live
  pub separate : Separate live
  pub in_blocks : length d.blocks ≡ ids
  pub in_sizes : length d.block_sizes ≡ ids

-- A block of `n` bytes at `at` is stored under `index`; the blocks in use that satisfy `Stays`
-- stay in use.
pub record Puts (d : Driver) (bs : List Block) (index n : ℕ) (at : Ptr) (Stays : Ptr → Type 0)
    (final : Driver) (blocks : List Block) : Type 0 where
  pub heap : Heap final.machine blocks
  pub places : final.blocks ≡ set d.blocks index at
  pub sizes : final.block_sizes ≡ set d.block_sizes index n
  pub new : UsedAt (first final.machine) blocks at (adjust n)
  pub uses :
      (a i : ℕ)
      → UsedAt (first d.machine) bs a i
      → Stays a
      → UsedAt (first final.machine) blocks a i
  pub apart : (a i : ℕ) → UsedAt (first d.machine) bs a i → (at + adjust n ≤ a) ⊎ (a + i ≤ at)
  pub grows : final.machine.lib.brk ≤ d.machine.lib.brk + growth (adjust n)
  pub rises : d.machine.lib.brk ≤ final.machine.lib.brk
  pub even : adjust n % 16 ≡ 0 → All IsEven bs → All IsEven blocks
  pub same_start : final.machine.lib.start_brk ≡ d.machine.lib.start_brk

module _ {d : Driver} {bs : List Block} {index n : ℕ} {at : Ptr} {Stays : Ptr → Type 0}
    {final : Driver} {blocks : List Block} (p : Puts d bs index n at Stays final blocks)
    (all : All IsBlock bs) (pos : 0 < n) (bounds : (16 ≤ adjust n) × (n + 8 ≤ adjust n)) where
  puts-Keeps : (x : Slot) → Keeps d bs x → x.index ≢ index → Stays x.ptr → Keeps final blocks x
  puts-Keeps x h ne stays = record {
    block = rw p.places (get_elem?-set_other d.blocks index x.index at ne ∙ h.block);
    block_size = rw p.sizes (get_elem?-set_other d.block_sizes index x.index n ne ∙ h.block_size);
    bytes = h.bytes;
    in_use = p.uses x.ptr h.bytes h.in_use stays;
    fits = h.fits;
    nonempty = h.nonempty;
  }

  puts-Other : (x : Slot) → Keeps d bs x → x.ptr ≢ at
  puts-Other x h =
      omega (arith, p.apart x.ptr h.bytes h.in_use, UsedAt-IsBlock _ bs x.ptr h.bytes all h.in_use)

  abbrev new_slot : Slot
  new_slot = record { index = index; size = n; ptr = at }

  puts-All :
      (live : List Slot)
      → All (Keeps d bs) live
      → All (λ x. (x.index ≢ index) × Stays x.ptr) live
      → All (Keeps final blocks) live × All (Other new_slot) live
  puts-All [] held away = (tt, tt)
  puts-All (x ∷ live) (h, held) ((ne, stays), away) =
      let (held', others) = puts-All live held away in
      ((puts-Keeps x h ne stays, held'), ((ne, puts-Other x h), others))

  -- The new entry stands in front of those that stay.
  pub puts-Steady :
      {ids : ℕ} (live : List Slot)
      → All (Keeps d bs) live
      → All (λ x. (x.index ≢ index) × Stays x.ptr) live
      → Separate live
      → (length d.blocks ≡ ids) × (length d.block_sizes ≡ ids) × (index < ids)
      → All IsEven blocks
      → Steady final blocks ids (new_slot ∷ live)
  puts-Steady live held away separate (in_blocks, in_sizes, inside) even =
      let (held', others) = puts-All live held away in
      record {
        heap = p.heap;
        even = even;
        held = (
          record {
            block = rw p.places (get_elem?-set_self d.blocks index at (omega arith));
            block_size = rw p.sizes (get_elem?-set_self d.block_sizes index n (omega arith));
            bytes = adjust n;
            in_use = p.new;
            fits = bounds.1;
            nonempty = pos;
          },
          held',
        );
        separate = (others, separate);
        in_blocks = rw p.places (length-set d.blocks index at ∙ in_blocks);
        in_sizes = rw p.sizes (length-set d.block_sizes index n ∙ in_sizes);
      }

-- The block at `p` is freed, and the arrays stay.
pub record Frees (d : Driver) (bs : List Block) (p : Ptr) (final : Driver) (blocks : List Block)
    : Type 0 where
  pub heap : Heap final.machine blocks
  pub uses :
      (a i : ℕ)
      → UsedAt (first final.machine) blocks a i ↔ UsedAt (first d.machine) bs a i × (a ≢ p)
  pub places : final.blocks ≡ d.blocks
  pub sizes : final.block_sizes ≡ d.block_sizes
  pub lib : final.machine.lib ≡ d.machine.lib
  pub even : All IsEven bs → All IsEven blocks

module _ {d : Driver} {bs : List Block} {p : Ptr} {final : Driver} {blocks : List Block}
    (f : Frees d bs p final blocks) where
  frees-All :
      (xs : List Slot)
      → All (Keeps d bs) xs
      → All (λ (x : Slot). x.ptr ≢ p) xs
      → All (Keeps final blocks) xs
  frees-All [] held away = tt
  frees-All (x ∷ xs) (h, held) (ne, away) = (
    record {
      block = rw f.places h.block;
      block_size = rw f.sizes h.block_size;
      bytes = h.bytes;
      in_use = (f.uses x.ptr h.bytes).1 (h.in_use, ne);
      fits = h.fits;
      nonempty = h.nonempty;
    },
    frees-All xs held away,
  )

  pub frees-Steady :
      {ids : ℕ} (live : List Slot)
      → All (Keeps d bs) live
      → All (λ (x : Slot). x.ptr ≢ p) live
      → Separate live
      → (length d.blocks ≡ ids) × (length d.block_sizes ≡ ids)
      → All IsEven bs
      → Steady final blocks ids live
  frees-Steady live held away separate (in_blocks, in_sizes) even = record {
    heap = f.heap;
    even = f.even even;
    held = frees-All live held away;
    separate = separate;
    in_blocks = rw f.places in_blocks;
    in_sizes = rw f.sizes in_sizes;
  }
