-- ===== src/Mm/Spec/Even.antt =====
-- Lists of blocks whose sizes are multiples of 16: no request for such a size leaves a rest of 8.
use jungle_malloc_benchmark.Base.{
  ℕ, ◌+◌, ◌%◌, ◌≤◌, ◌≡◌, inl, inr, ◌==◌, Bool-cases, List, [], ◌∷◌, ◌++◌, arith, All,
}
use jungle_malloc_benchmark.Mm.Block.{Block, used, free, size}
use jungle_malloc_benchmark.Mm.Spec.{merge_right, merge, release, carve}

abbrev pub IsEven : Block → Type 0
IsEven b = size b % 16 ≡ 0

carve-IsEven :
    (asize k : ℕ) (after : List Block)
    → asize % 16 ≡ 0
    → asize ≤ k
    → All IsEven (free k ∷ after)
    → All IsEven (carve asize k ++ after)
carve-IsEven asize k after even fits (here, rest) = elim (Bool-cases (k == asize)) [
  | inl whole ↦ rw whole (even, rest)
  | inr split ↦ rw split (even, (omega arith, rest))
]

pub before-carve-IsEven :
    (before : List Block) (asize k : ℕ) (after : List Block)
    → asize % 16 ≡ 0
    → asize ≤ k
    → All IsEven (before ++ (free k ∷ after))
    → All IsEven (before ++ (carve asize k ++ after))
before-carve-IsEven [] asize k after even fits all = carve-IsEven asize k after even fits all
before-carve-IsEven (b ∷ before) asize k after even fits all =
    (all.0, before-carve-IsEven before asize k after even fits all.1)

merge_right-IsEven :
    (k : ℕ) (after : List Block) → k % 16 ≡ 0 → All IsEven after → All IsEven (merge_right k after)
merge_right-IsEven k [] even all = (even, tt)
merge_right-IsEven k (used j ∷ after) even all = (even, all)
merge_right-IsEven k (free j ∷ after) even all = (omega (arith, all.0), all.1)

merge-IsEven :
    (p : Block) (k : ℕ) (after : List Block)
    → IsEven p
    → k % 16 ≡ 0
    → All IsEven after
    → All IsEven (merge p k after)
merge-IsEven (used m) k after here even all = (here, merge_right-IsEven k after even all)
merge-IsEven (free m) k after here even all = merge_right-IsEven (k + m) after (omega arith) all

pub release-IsEven :
    (before : List Block) (k : ℕ) (after : List Block)
    → k % 16 ≡ 0
    → All IsEven before
    → All IsEven after
    → All IsEven (release before k after)
release-IsEven [] k after even front back = merge_right-IsEven k after even back
release-IsEven (p ∷ []) k after even front back = merge-IsEven p k after front.0 even back
release-IsEven (p ∷ q ∷ before) k after even front back =
    (front.0, release-IsEven (q ∷ before) k after even front.1 back)

-- The parts of a list around a block.
pub All-parts {ℓ} :
    (P : Block → Type ℓ) (before : List Block) (b : Block) (after : List Block)
    → All P (before ++ (b ∷ after))
    → All P before × P b × All P after
All-parts P [] b after all = (tt, all.0, all.1)
All-parts P (c ∷ before) b after all =
    let (front, here, back) = All-parts P before b after all.1 in ((all.0, front), here, back)
