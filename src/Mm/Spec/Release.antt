-- ===== src/Mm/Spec/Release.antt =====
-- Freeing, on the lists of blocks of mm.c.
use jungle_malloc_benchmark.Base.{ℕ, ◌+◌, ◌%◌, ◌≤◌, ◌≡◌, List, [], ◌∷◌, ◌++◌, arith, All}
use jungle_malloc_benchmark.Mm.Block.{Block, used, free}
use jungle_malloc_benchmark.Mm.Spec.{merge_right, merge, release, Apart, Coalesced, IsBlock}

abbrev Sized : ℕ → Type 0
Sized k = (k % 8 ≡ 0) × (16 ≤ k)

merge_right-IsBlock :
    (k : ℕ) (bs : List Block) → Sized k → All IsBlock bs → All IsBlock (merge_right k bs)
merge_right-IsBlock k [] h a = (h, tt)
merge_right-IsBlock k (used j ∷ bs) h a = (h, a)
merge_right-IsBlock k (free j ∷ bs) h a = (omega arith, a.1)

pub release-IsBlock :
    (before : List Block) (k : ℕ) (after : List Block)
    → All IsBlock (before ++ (used k ∷ after))
    → All IsBlock (release before k after)
release-IsBlock [] k after a = merge_right-IsBlock k after a.0 a.1
release-IsBlock (used m ∷ []) k after a = (a.0, merge_right-IsBlock k after a.1.0 a.1.1)
release-IsBlock (free m ∷ []) k after a = merge_right-IsBlock (k + m) after (omega arith) a.1.1
release-IsBlock (p ∷ q ∷ before) k after a = (a.0, release-IsBlock (q ∷ before) k after a.1)

-- A free block in front of blocks of which no two neighbours are free.
merge_right-Coalesced : (k : ℕ) (bs : List Block) → Coalesced bs → Coalesced (merge_right k bs)
merge_right-Coalesced k [] c = (tt, tt)
merge_right-Coalesced k (used j ∷ bs) c = (tt, c)
merge_right-Coalesced k (free j ∷ []) c = (tt, tt)
merge_right-Coalesced k (free j ∷ used i ∷ bs) c = (tt, c.1)
merge_right-Coalesced k (free j ∷ free i ∷ bs) c = absurd c.0

merge-Coalesced : (p : Block) (k : ℕ) (bs : List Block) → Coalesced bs → Coalesced (merge p k bs)
merge-Coalesced (used m) k bs c = (tt, merge_right-Coalesced k bs c)
merge-Coalesced (free m) k bs c = merge_right-Coalesced (k + m) bs c

-- What follows a free block in a coalesced list is in use, and stays in front.
release-Apart :
    (m : ℕ) (q : Block) (before : List Block) (k : ℕ) (after : List Block)
    → Apart (free m) (q ∷ (before ++ (used k ∷ after)))
    → Apart (free m) (release (q ∷ before) k after)
release-Apart m (used j) [] k after a = tt
release-Apart m (used j) (r ∷ before) k after a = tt
release-Apart m (free j) before k after a = absurd a

pub release-Coalesced :
    (before : List Block) (k : ℕ) (after : List Block)
    → Coalesced (before ++ (used k ∷ after))
    → Coalesced (release before k after)
release-Coalesced [] k after c = merge_right-Coalesced k after c.1
release-Coalesced (p ∷ []) k after c = merge-Coalesced p k after c.1.1
release-Coalesced (used m ∷ q ∷ before) k after c = (tt, release-Coalesced (q ∷ before) k after c.1)
release-Coalesced (free m ∷ q ∷ before) k after c =
    (release-Apart m q before k after c.0, release-Coalesced (q ∷ before) k after c.1)
