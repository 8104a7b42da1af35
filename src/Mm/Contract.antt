-- ===== src/Mm/Contract.antt =====
-- The client's view of `mm_malloc` and `mm_free`: a set of blocks in use, each with its address
-- and size.
use jungle_malloc_benchmark.Base.{
  ℕ, ◌+◌, ◌-◌, ◌%◌, ◌^◌, ◌≤◌, ◌<◌, ◌≡◌, ◌≢◌, ◌↔◌, ◌⊎◌, refl, inl, inr, List, [], ◌∷◌, ◌++◌, arith,
  sym, subst, All, All-middle, Bool-cases, ◌==◌,
}
use jungle_malloc_benchmark.Memory.{Ptr, null}
use jungle_malloc_benchmark.Machine.{State, ok}
use jungle_malloc_benchmark.Machine.Access.{grown, refused}
use jungle_malloc_benchmark.Mm.{mm_malloc, adjust}
use jungle_malloc_benchmark.Mm.Block.{Block, used, free, size, with_bytes}
use jungle_malloc_benchmark.Mm.Spec.{total, total-append, carve, release, Unfit, UsedAt, IsBlock}
use jungle_malloc_benchmark.Mm.Spec.Used.{
  UsedAt-bounds, UsedAt-append, append-UsedAt, release-UsedAt, carve-UsedAt,
}
use jungle_malloc_benchmark.Mm.Spec.Even.{IsEven, before-carve-IsEven, release-IsEven}
use jungle_malloc_benchmark.Mm.Spec.Release.{release-IsBlock}
use jungle_malloc_benchmark.Mm.Chain.{Chain-total}
use jungle_malloc_benchmark.Mm.Heap.{Heap, Kept, first}
use jungle_malloc_benchmark.Mm.Take.{UsedAt-free}
use jungle_malloc_benchmark.Mm.Malloc.{
  Outcome, reused, extended, exhausted, Splits, growth, adjust_bounds, malloc-Outcome,
}

growth_even : (asize : ℕ) → asize % 16 ≡ 0 → growth asize % 16 ≡ 0
growth_even asize even = ground arith

-- The block of a request for `n` bytes, at `at` in the new state.
pub record Granted (s : State) (bs : List Block) (n : ℕ) (at : Ptr) (s' : State) (bs' : List Block)
    : Type 0 where
  pub heap : Heap s' bs'
  pub same_start : s'.lib.start_brk ≡ s.lib.start_brk
  pub aligned : at % 8 ≡ 0
  pub above : first s ≤ at
  pub below : at + n + 8 ≤ s'.lib.brk
  pub uses :
      (a i : ℕ) → UsedAt (first s) bs' a i ↔ ((at ≡ a) × (adjust n ≡ i)) ⊎ UsedAt (first s) bs a i
  pub apart : (a i : ℕ) → UsedAt (first s) bs a i → (at + adjust n ≤ a) ⊎ (a + i ≤ at)
  pub kept : Kept s.bytes s'.bytes (first s) bs
  pub grows : s'.lib.brk ≤ s.lib.brk + growth (adjust n)
  pub rises : s.lib.brk ≤ s'.lib.brk
  pub even : adjust n % 16 ≡ 0 → All IsEven bs → All IsEven bs'

total-IsBlock : (before after : List Block) → All IsBlock (before ++ after) → total before % 8 ≡ 0
total-IsBlock [] after all = refl
total-IsBlock (b ∷ before) after all = omega (arith, total-IsBlock before after all.1, all.0)

pub UsedAt-IsBlock :
    (lo : Ptr) (bs : List Block) (a i : ℕ) → All IsBlock bs → UsedAt lo bs a i → 16 ≤ i
UsedAt-IsBlock lo [] a i all u = absurd u
UsedAt-IsBlock lo (used m ∷ bs) a i all (inl (e, f)) = ground (arith, all.0)
UsedAt-IsBlock lo (free m ∷ bs) a i all (inl (e, f)) = absurd (cc f)
UsedAt-IsBlock lo (b ∷ bs) a i all (inr u) = UsedAt-IsBlock (lo + size b) bs a i all.1 u

-- Carving adds one block in use.
carve-uses :
    (lo : Ptr) (before : List Block) (k : ℕ) (after : List Block) (asize a i : ℕ)
    → asize ≤ k
    → UsedAt lo (before ++ (carve asize k ++ after)) a i
      ↔ ((lo + total before ≡ a) × (asize ≡ i)) ⊎ UsedAt lo (before ++ (free k ∷ after)) a i
carve-uses lo before k after asize a i fits = (there, back)
  where
    bp : Ptr
    bp = lo + total before

    both :
        UsedAt bp (carve asize k ++ after) a i
        ↔ ((bp ≡ a) × (asize ≡ i)) ⊎ UsedAt (bp + k) after a i
    both = carve-UsedAt bp asize k after a i fits

    there :
        UsedAt lo (before ++ (carve asize k ++ after)) a i
        → ((bp ≡ a) × (asize ≡ i)) ⊎ UsedAt lo (before ++ (free k ∷ after)) a i
    there u = elim (UsedAt-append lo before (carve asize k ++ after) a i u) [
      | inl v ↦ inr (append-UsedAt lo before (free k ∷ after) a i (inl v))
      | inr v ↦ elim (both.0 v) [
        | inl w ↦ inl w
        | inr w ↦ inr (append-UsedAt lo before (free k ∷ after) a i (inr (inr w)))
      ]
    ]

    back :
        ((bp ≡ a) × (asize ≡ i)) ⊎ UsedAt lo (before ++ (free k ∷ after)) a i
        → UsedAt lo (before ++ (carve asize k ++ after)) a i
    back (inl w) = append-UsedAt lo before (carve asize k ++ after) a i (inr (both.1 (inl w)))
    back (inr u) = elim (UsedAt-append lo before (free k ∷ after) a i u) [
      | inl v ↦ append-UsedAt lo before (carve asize k ++ after) a i (inl v)
      | inr (inl (e, f)) ↦ absurd (cc f)
      | inr (inr w) ↦ append-UsedAt lo before (carve asize k ++ after) a i (inr (both.1 (inr w)))
    ]

-- Either a block is granted, or no block fits, the arena is full and the heap stays as it was.
abbrev pub Answers : State → List Block → ℕ → Type 0
Answers s bs n =
    ((at : Ptr) × (s' : State) × (bs' : List Block) × (mm_malloc n s ≡ ok at s')
      × Granted s bs n at s' bs')
    ⊎ ((mm_malloc n s ≡ ok null (refused s))
        × All (Unfit (adjust n)) bs
        × (s.lib.max_addr < s.lib.brk + growth (adjust n))
        × Heap (refused s) bs)

refused-Heap : {s : State} {bs : List Block} → Heap s bs → Heap (refused s) bs
refused-Heap h = record {
  arena = omega (arith, h.arena);
  listp = h.listp;
  chain = h.chain;
  epilogue = h.epilogue;
  blocks = h.blocks;
  coalesced = h.coalesced;
}

total-carve :
    (asize k : ℕ) (after : List Block)
    → asize ≤ k
    → total (carve asize k ++ after) ≡ k + total after
total-carve asize k after fits = elim (Bool-cases (k == asize)) [
  | inl whole ↦ rw whole (ground arith)
  | inr split ↦ rw split (omega arith)
]

module _ {s : State} {bs : List Block} (n : ℕ)
    (bounds : (adjust n % 8 ≡ 0)
      × (16 ≤ adjust n)
      × (n + 8 ≤ adjust n)
      × ((adjust n ≡ 16) ⊎ (adjust n < n + 16))) where
  -- A carved heap grants the carved block.
  carve-Granted :
      (s' : State) (before : List Block) (k : ℕ) (after : List Block)
      → s'.lib.start_brk ≡ s.lib.start_brk
      → ((a i : ℕ) → UsedAt (first s) bs a i ↔ UsedAt (first s) (before ++ (free k ∷ after)) a i)
      → adjust n ≤ k
      → Heap s' (before ++ (carve (adjust n) k ++ after))
      → Kept s.bytes s'.bytes (first s) bs
      → s'.lib.brk ≤ s.lib.brk + growth (adjust n)
      → s.lib.brk ≤ s'.lib.brk
      → (adjust n % 16 ≡ 0 → All IsEven bs → All IsEven (before ++ (free k ∷ after)))
      → Granted s bs n (first s + total before) s' (before ++ (carve (adjust n) k ++ after))
  carve-Granted s' before k after start same fits heap kept grows rises even =
      let whole = Chain-total heap.chain in
      let parts = total-append before (carve (adjust n) k ++ after) in
      let part = total-carve (adjust n) k after fits in
      let mult = total-IsBlock before (carve (adjust n) k ++ after) heap.blocks in
      record {
        heap = heap;
        same_start = start;
        aligned = omega (arith, heap.arena.aligned);
        above = omega arith;
        below = omega (arith, bounds.2);
        uses = λ a i.
            let both = carve-uses (first s) before k after (adjust n) a i fits in
            (
              λ u. elim (both.0 u) [ inl w ↦ inl w | inr v ↦ inr ((same a i).1 v) ],
              elim [ inl w ↦ both.1 (inl w) | inr v ↦ both.1 (inr ((same a i).0 v)) ],
            );
        apart = λ a i u. elim (UsedAt-free (first s) before k after a i ((same a i).0 u)) [
          | inl v ↦ inr v
          | inr v ↦ inl (omega arith)
        ];
        kept = kept;
        grows = grows;
        rises = rises;
        even = λ e all. before-carve-IsEven before (adjust n) k after e fits (even e all);
      }

  answer : Heap s bs → Outcome s bs (adjust n) (mm_malloc n s) → Answers s bs n
  answer h (exhausted unfit full runs) = inr (runs, unfit, full, refused-Heap h)
  answer h (reused before k after m e unfit fits runs heap kept) =
      let same : (a i : ℕ)
          → UsedAt (first s) bs a i ↔ UsedAt (first s) (before ++ (free k ∷ after)) a i =
        λ a i. subst (λ l. UsedAt (first s) bs a i ↔ UsedAt (first s) l a i) e (λ u. u, λ u. u) in
      inl (
        first s + total before,
        with_bytes s m,
        before ++ (carve (adjust n) k ++ after),
        runs,
        carve-Granted (with_bytes s m) before k after refl same fits heap kept (omega arith)
            (omega arith) (λ _ all. subst (λ l. All IsEven l) e all),
      )
  answer h (extended before k m unfit e fits runs heap kept) =
      let z = growth (adjust n) in
      let same : (a i : ℕ)
          → UsedAt (first s) bs a i ↔ UsedAt (first s) (before ++ (free k ∷ [])) a i =
        λ a i.
          let both = release-UsedAt (first s) bs z [] a i in
          subst (λ l. UsedAt (first s) bs a i ↔ UsedAt (first s) l a i) e
            (λ u. both.1 (inl u), λ u. elim (both.0 u) [ inl v ↦ v | inr v ↦ absurd v ]) in
      inl (
        first s + total before,
        grown s z m,
        before ++ (carve (adjust n) k ++ []),
        runs,
        carve-Granted (grown s z m) before k [] refl same fits heap kept (omega arith) (omega arith)
            (λ even all.
              subst (λ l. All IsEven l) e
                (release-IsEven bs z [] (growth_even (adjust n) even) all tt)),
      )

-- On a heap that satisfies the invariant, a request for 0 < n < 2 ^ 31 - 16 bytes either returns
-- a new block, or returns NULL. A new block is aligned to 8, has the adjusted size, ends below
-- the brk and is disjoint from every block in use; exactly it is added to the blocks in use,
-- their payloads keep their bytes (all but the last 8 of a block, which hold the footer), and the
-- invariant holds again. NULL comes only where every free block is too small and the arena cannot
-- grow by the larger of the adjusted size and 4096 bytes; then the invariant holds as before. The
-- condition `Splits` excludes a free block, or a new chunk, 8 bytes larger than the adjusted
-- size.
pub malloc-Answers :
    {s : State} {bs : List Block} (n : ℕ)
    → Heap s bs
    → 0 < n
    → n < 2 ^ 31 - 16
    → Splits (adjust n) bs
    → Answers s bs n
malloc-Answers n h pos small splits =
    answer n (adjust_bounds n pos (omega arith)) h (malloc-Outcome n h pos small splits)

-- Freeing removes exactly the freed block.
pub free-uses :
    (lo : Ptr) (before : List Block) (k : ℕ) (after : List Block) (a i : ℕ)
    → All IsBlock (before ++ (used k ∷ after))
    → UsedAt lo (release before k after) a i
      ↔ UsedAt lo (before ++ (used k ∷ after)) a i × (a ≢ lo + total before)
free-uses lo before k after a i all = (there, back)
  where
    bp : Ptr
    bp = lo + total before

    there :
        UsedAt lo (release before k after) a i
        → UsedAt lo (before ++ (used k ∷ after)) a i × (a ≢ bp)
    there u =
        let big =
          UsedAt-IsBlock lo (release before k after) a i (release-IsBlock before k after all) u in
        let k_big = (All-middle IsBlock before after all).1 in
        elim ((release-UsedAt lo before k after a i).0 u) [
          | inl v ↦ (
            append-UsedAt lo before (used k ∷ after) a i (inl v),
            omega (arith, UsedAt-bounds lo before a i v),
          )
          | inr v ↦ (
            append-UsedAt lo before (used k ∷ after) a i (inr (inr v)),
            omega (arith, UsedAt-bounds (bp + k) after a i v),
          )
        ]

    back :
        UsedAt lo (before ++ (used k ∷ after)) a i × (a ≢ bp)
        → UsedAt lo (release before k after) a i
    back (u, ne) = elim (UsedAt-append lo before (used k ∷ after) a i u) [
      | inl v ↦ (release-UsedAt lo before k after a i).1 (inl v)
      | inr (inl (e, f)) ↦ absurd (ne (sym e))
      | inr (inr v) ↦ (release-UsedAt lo before k after a i).1 (inr v)
    ]
