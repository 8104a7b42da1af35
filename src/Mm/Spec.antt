-- ===== src/Mm/Spec.antt =====
-- What the allocator of mm.c means on lists of blocks: first fit, splitting, merging.
pub mod Release
pub mod Used
pub mod Grow
pub mod Even
use jungle_malloc_benchmark.Base.{
  ℕ, ◌+◌, ◌-◌, ◌*◌, ◌/◌, ◌%◌, ◌≤◌, ◌<◌, ◌≡◌, ◌⊎◌, refl, Bool, true, false, ◌&&◌, leb, ltb, ◌==◌,
  if◌then◌else◌, List, [], ◌∷◌, ◌++◌, arith, All, ap,
}
use jungle_malloc_benchmark.Memory.{Ptr}
use jungle_malloc_benchmark.Mm.Block.{Block, used, free, size}

abbrev pub total : List Block → ℕ
total [] = 0
total (b ∷ bs) = size b + total bs

pub total-append : (xs ys : List Block) → total (xs ++ ys) ≡ total xs + total ys
total-append [] ys = omega arith
total-append (x ∷ xs) ys = omega (arith, total-append xs ys)

-- A free block of `k` bytes in front of `bs`, merged with a free block there.
abbrev pub merge_right : ℕ → List Block → List Block
merge_right k [] = free k ∷ []
merge_right k (used j ∷ bs) = free k ∷ used j ∷ bs
merge_right k (free j ∷ bs) = free (k + j) ∷ bs

-- The same behind a block.
abbrev pub merge : Block → ℕ → List Block → List Block
merge (used m) k bs = used m ∷ merge_right k bs
merge (free m) k bs = merge_right (k + m) bs

-- The blocks after the one of `k` bytes between `before` and `after` is freed.
abbrev pub release : List Block → ℕ → List Block → List Block
release [] k after = merge_right k after
release (p ∷ []) k after = merge p k after
release (p ∷ q ∷ before) k after = p ∷ release (q ∷ before) k after

-- A free block of `k` bytes, `asize` of them taken.
abbrev pub carve : ℕ → ℕ → List Block
carve asize k = if k == asize then used asize ∷ [] else used asize ∷ free (k - asize) ∷ []

-- A block is too small or in use.
abbrev pub Unfit : ℕ → Block → Type 0
Unfit asize (used n) = Unit
Unfit asize (free n) = n < asize

-- No two neighbours are free.
abbrev pub Apart : Block → List Block → Type 0
Apart (used m) bs = Unit
Apart (free m) [] = Unit
Apart (free m) (used j ∷ bs) = Unit
Apart (free m) (free j ∷ bs) = ⊥

abbrev pub Coalesced : List Block → Type 0
Coalesced [] = Unit
Coalesced (b ∷ bs) = Apart b bs × Coalesced bs

-- A block in use: its payload starts at `a`.
abbrev pub UsedAt : Ptr → List Block → Ptr → ℕ → Type 0
UsedAt bp [] a n = ⊥
UsedAt bp (b ∷ bs) a n = ((bp ≡ a) × (b ≡ used n)) ⊎ UsedAt (bp + size b) bs a n

-- The bytes that a free neighbour adds.
abbrev pub slack : Block → ℕ
slack (used m) = 0
slack (free m) = m

abbrev pub ahead : List Block → ℕ
ahead [] = 0
ahead (b ∷ bs) = slack b

-- The blocks of a heap behind the prologue.
abbrev pub IsBlock : Block → Type 0
IsBlock b = (size b % 8 ≡ 0) × (16 ≤ size b)

pub release-append :
    (init : List Block) (p : Block) (k : ℕ) (after : List Block)
    → release (init ++ (p ∷ [])) k after ≡ init ++ merge p k after
release-append [] p k after = refl
release-append (q ∷ []) p k after = refl
release-append (q ∷ r ∷ init) p k after = ap (λ l. q ∷ l) (release-append (r ∷ init) p k after)
