-- ===== src/Mm/Spec/Used.antt =====
-- Where the blocks in use lie, and how that changes when one is freed.
use jungle_malloc_benchmark.Base.{
  ℕ, ◌+◌, ◌≤◌, ◌-◌, ◌≡◌, ◌⊎◌, inl, inr, ◌↔◌, ap, Bool-cases, ◌==◌, List, [], ◌∷◌, ◌++◌, arith,
}
use jungle_malloc_benchmark.Memory.{Ptr}
use jungle_malloc_benchmark.Mm.Block.{Block, used, free, size}
use jungle_malloc_benchmark.Mm.Spec.{
  total, merge_right, merge, release, carve, UsedAt, slack, ahead,
}

pub UsedAt-bounds :
    (lo : Ptr) (bs : List Block) (a n : ℕ) → UsedAt lo bs a n → (lo ≤ a) × (a + n ≤ lo + total bs)
UsedAt-bounds lo [] a n u = absurd u
UsedAt-bounds lo (used m ∷ bs) a n (inl (e, f)) = ground arith
UsedAt-bounds lo (free m ∷ bs) a n (inl (e, f)) = ground arith
UsedAt-bounds lo (b ∷ bs) a n (inr u) = omega (arith, UsedAt-bounds (lo + size b) bs a n u)

pub UsedAt-append :
    (lo : Ptr) (xs ys : List Block) (a n : ℕ)
    → UsedAt lo (xs ++ ys) a n
    → UsedAt lo xs a n ⊎ UsedAt (lo + total xs) ys a n
UsedAt-append lo [] ys a n u = let e : lo + 0 ≡ lo = omega arith in inr (rw e u)
UsedAt-append lo (x ∷ xs) ys a n (inl h) = inl (inl h)
UsedAt-append lo (x ∷ xs) ys a n (inr u) =
    let e : lo + (size x + total xs) ≡ lo + size x + total xs = omega arith in
    elim (UsedAt-append (lo + size x) xs ys a n u) [ inl v ↦ inl (inr v) | inr v ↦ inr (rw e v) ]

pub append-UsedAt :
    (lo : Ptr) (xs ys : List Block) (a n : ℕ)
    → UsedAt lo xs a n ⊎ UsedAt (lo + total xs) ys a n
    → UsedAt lo (xs ++ ys) a n
append-UsedAt lo [] ys a n (inl u) = absurd u
append-UsedAt lo [] ys a n (inr u) = let e : lo ≡ lo + 0 = omega arith in rw e u
append-UsedAt lo (x ∷ xs) ys a n (inl (inl h)) = inl h
append-UsedAt lo (x ∷ xs) ys a n (inl (inr u)) = inr (append-UsedAt (lo + size x) xs ys a n (inl u))
append-UsedAt lo (x ∷ xs) ys a n (inr u) =
    let e : lo + size x + total xs ≡ lo + (size x + total xs) = omega arith in
    inr (append-UsedAt (lo + size x) xs ys a n (inr (rw e u)))

merge_right-UsedAt :
    (lo : Ptr) (k : ℕ) (bs : List Block) (a n : ℕ)
    → UsedAt lo (merge_right k bs) a n ↔ UsedAt (lo + k) bs a n
merge_right-UsedAt lo k [] a n = (elim [ inl (e, f) ↦ absurd (cc f) | inr u ↦ u ], λ u. inr u)
merge_right-UsedAt lo k (used j ∷ bs) a n =
    (elim [ inl (e, f) ↦ absurd (cc f) | inr u ↦ u ], λ u. inr u)
merge_right-UsedAt lo k (free j ∷ bs) a n =
    let e : lo + (k + j) ≡ lo + k + j = omega arith in
    (
      elim [ inl (e, f) ↦ absurd (cc f) | inr u ↦ inr (rw (← e) u) ],
      elim [ inl (e, f) ↦ absurd (cc f) | inr u ↦ inr (rw e u) ],
    )

merge-UsedAt :
    (lo : Ptr) (p : Block) (k : ℕ) (bs : List Block) (a n : ℕ)
    → UsedAt lo (merge p k bs) a n ↔ UsedAt lo (p ∷ []) a n ⊎ UsedAt (lo + size p + k) bs a n
merge-UsedAt lo (used m) k bs a n =
    let both = merge_right-UsedAt (lo + m) k bs a n in
    (
      elim [ inl h ↦ inl (inl h) | inr u ↦ inr (both.0 u) ],
      elim [ inl (inl h) ↦ inl h | inl (inr u) ↦ absurd u | inr u ↦ inr (both.1 u) ],
    )
merge-UsedAt lo (free m) k bs a n =
    let e : lo + (k + m) ≡ lo + m + k = omega arith in
    let both = merge_right-UsedAt lo (k + m) bs a n in
    (
      λ u. inr (rw (← e) (both.0 u)),
      elim [ inl (inl (e, f)) ↦ absurd (cc f) | inl (inr u) ↦ absurd u | inr u ↦ both.1 (rw e u) ],
    )

-- Freeing removes the block between `before` and `after`, and no other.
pub release-UsedAt :
    (lo : Ptr) (before : List Block) (k : ℕ) (after : List Block) (a n : ℕ)
    → UsedAt lo (release before k after) a n
      ↔ UsedAt lo before a n ⊎ UsedAt (lo + total before + k) after a n
release-UsedAt lo [] k after a n =
    let e : lo + 0 + k ≡ lo + k = omega arith in
    let both = merge_right-UsedAt lo k after a n in
    (λ u. inr (rw e (both.0 u)), elim [ inl u ↦ absurd u | inr u ↦ both.1 (rw (← e) u) ])
release-UsedAt lo (p ∷ []) k after a n =
    let e : lo + (size p + 0) + k ≡ lo + size p + k = omega arith in
    rw e (merge-UsedAt lo p k after a n)
release-UsedAt lo (p ∷ q ∷ before) k after a n =
    let e : lo + (size p + total (q ∷ before)) + k ≡ lo + size p + total (q ∷ before) + k =
      omega arith in
    let both = release-UsedAt (lo + size p) (q ∷ before) k after a n in
    rw e (
      elim [
        | inl h ↦ inl (inl h)
        | inr u ↦ elim (both.0 u) [ inl v ↦ inl (inr v) | inr v ↦ inr v ]
      ],
      elim [
        | inl (inl h) ↦ inl h
        | inl (inr u) ↦ inr (both.1 (inl u))
        | inr u ↦ inr (both.1 (inr u))
      ],
    )

-- Taking a free block adds it, and no other.
pub carve-UsedAt :
    (lo : Ptr) (asize k : ℕ) (bs : List Block) (a n : ℕ)
    → asize ≤ k
    → UsedAt lo (carve asize k ++ bs) a n ↔ ((lo ≡ a) × (asize ≡ n)) ⊎ UsedAt (lo + k) bs a n
carve-UsedAt lo asize k bs a n fits = elim (Bool-cases (k == asize)) [
  | inl whole ↦
      let e : lo + asize ≡ lo + k = ground arith in
      rw (whole, e)
        (
          elim [ inl (e, f) ↦ inl (e, cc f) | inr u ↦ inr u ],
          elim [ inl (e, f) ↦ inl (e, ap used f) | inr u ↦ inr u ],
        )
  | inr split ↦
      let e : lo + asize + (k - asize) ≡ lo + k = omega arith in
      rw (split, e)
        (
          elim [
            | inl (e, f) ↦ inl (e, cc f)
            | inr (inl (e, f)) ↦ absurd (cc f)
            | inr (inr u) ↦ inr u
          ],
          elim [ inl (e, f) ↦ inl (e, ap used f) | inr u ↦ inr (inr u) ],
        )
]

-- No block in use touches the merged one.
merge_right-apart :
    (lo : Ptr) (k : ℕ) (bs : List Block) (a n : ℕ)
    → UsedAt lo (merge_right k bs) a n
    → lo + k + ahead bs ≤ a
merge_right-apart lo k [] a n (inl (e, f)) = absurd (cc f)
merge_right-apart lo k [] a n (inr u) = absurd u
merge_right-apart lo k (used j ∷ bs) a n (inl (e, f)) = absurd (cc f)
merge_right-apart lo k (used j ∷ bs) a n (inr u) =
    omega (arith, UsedAt-bounds (lo + k) (used j ∷ bs) a n u)
merge_right-apart lo k (free j ∷ bs) a n (inl (e, f)) = absurd (cc f)
merge_right-apart lo k (free j ∷ bs) a n (inr u) =
    omega (arith, UsedAt-bounds (lo + (k + j)) bs a n u)

merge-apart :
    (lo : Ptr) (p : Block) (k : ℕ) (bs : List Block) (a n : ℕ)
    → UsedAt lo (merge p k bs) a n
    → (a + n + slack p ≤ lo + size p) ⊎ (lo + size p + k + ahead bs ≤ a)
merge-apart lo (used m) k bs a n (inl (e, f)) = inl (ground arith)
merge-apart lo (used m) k bs a n (inr u) = inr (merge_right-apart (lo + m) k bs a n u)
merge-apart lo (free m) k bs a n u = inr (omega (arith, merge_right-apart lo (k + m) bs a n u))

pub append-merge-apart :
    (lo : Ptr) (init : List Block) (p : Block) (k : ℕ) (bs : List Block) (a n : ℕ)
    → UsedAt lo (init ++ merge p k bs) a n
    → (a + n + slack p ≤ lo + total init + size p) ⊎ (lo + total init + size p + k + ahead bs ≤ a)
append-merge-apart lo init p k bs a n u = elim (UsedAt-append lo init (merge p k bs) a n u) [
  | inl v ↦ inl (fits p (UsedAt-bounds lo init a n v))
  | inr v ↦ merge-apart (lo + total init) p k bs a n v
]
  where
    fits :
        (p : Block)
        → (lo ≤ a) × (a + n ≤ lo + total init)
        → a + n + slack p ≤ lo + total init + size p
    fits (used m) h = omega arith
    fits (free m) h = omega arith
