-- ===== src/Mm/Malloc.antt =====
-- `mm_malloc` on a well-formed heap.
use jungle_malloc_benchmark.Base.{
  le_or_lt, ℕ, ◌+◌, ◌-◌, ◌%◌, ◌^◌, ◌≤◌, ◌<◌, ◌≡◌, ◌≢◌, ◌⊎◌, inl, inr, ne→==, List, [], ◌∷◌, ◌++◌,
  arith, ◌∙◌, sym, subst, All, All-middle,
}
use jungle_malloc_benchmark.Memory.{Ptr, Bytes, null}
use jungle_malloc_benchmark.Machine.{State, Run, ok}
use jungle_malloc_benchmark.Machine.Access.{grown, refused}
use jungle_malloc_benchmark.Mm.{mm_malloc, adjust, larger, chunksize, find_fit}
use jungle_malloc_benchmark.Mm.Block.{Block, used, free, with_bytes}
use jungle_malloc_benchmark.Mm.Spec.{total, carve, release, Unfit, UsedAt, IsBlock}
use jungle_malloc_benchmark.Mm.Spec.Even.{IsEven}
use jungle_malloc_benchmark.Mm.Spec.Used.{release-UsedAt}
use jungle_malloc_benchmark.Mm.Spec.Grow.{last_slack, release-Ends, last_slack-IsBlock}
use jungle_malloc_benchmark.Mm.Chain.{Chain-total}
use jungle_malloc_benchmark.Mm.Heap.{Heap, Kept, first}
use jungle_malloc_benchmark.Mm.Fit.{found, missing, find_fit-Fit}
use jungle_malloc_benchmark.Mm.Take.{take-Heap}
use jungle_malloc_benchmark.Mm.Extend.{extend-refused}
use jungle_malloc_benchmark.Mm.Grow.{grow-Heap}

-- For 0 < n < 2 ^ 64 - 15 the adjusted size is a multiple of 8, at least 16, at least n + 8, and
-- either 16 or less than n + 16.
pub adjust_bounds :
    (n : ℕ)
    → 0 < n
    → n < 2 ^ 64 - 15
    → (adjust n % 8 ≡ 0)
      × (16 ≤ adjust n)
      × (n + 8 ≤ adjust n)
      × ((adjust n ≡ 16) ⊎ (adjust n < n + 16))
unfolding adjust
adjust_bounds n pos small = ground arith

-- A block that `asize` bytes can be split off without a rest of 8.
abbrev pub NoSliver : ℕ → Block → Type 0
NoSliver asize (used n) = Unit
NoSliver asize (free n) = n ≢ asize + 8

-- No block of the heap, nor a new one of `chunksize` bytes, leaves a rest of 8 bytes.
abbrev pub Splits : ℕ → List Block → Type 0
Splits asize bs = All (NoSliver asize) bs × (asize ≢ chunksize - 8)

IsEven-NoSliver :
    (asize : ℕ) (bs : List Block) → asize % 16 ≡ 0 → All IsEven bs → All (NoSliver asize) bs
IsEven-NoSliver asize [] even all = tt
IsEven-NoSliver asize (used m ∷ bs) even all = (tt, IsEven-NoSliver asize bs even all.1)
IsEven-NoSliver asize (free m ∷ bs) even all =
    (omega (arith, all.0), IsEven-NoSliver asize bs even all.1)

-- Multiples of 16 leave no rest of 8.
pub IsEven-Splits : (asize : ℕ) (bs : List Block) → asize % 16 ≡ 0 → All IsEven bs → Splits asize bs
IsEven-Splits asize bs even all = (IsEven-NoSliver asize bs even all, omega arith)

-- How much the heap grows when nothing fits.
abbrev pub growth : ℕ → ℕ
growth asize = larger asize chunksize

-- The three ways in which a request for a block of `asize` bytes ends.
pub data Outcome (s : State) (bs : List Block) (asize : ℕ) (run : Run Ptr) : Type 0 where
  reused :
      (before : List Block) (k : ℕ) (after : List Block) (m : Bytes)
      → bs ≡ before ++ (free k ∷ after)
      → All (Unfit asize) before
      → asize ≤ k
      → run ≡ ok (first s + total before) (with_bytes s m)
      → Heap (with_bytes s m) (before ++ (carve asize k ++ after))
      → Kept s.bytes m (first s) bs
      → Outcome s bs asize run
  extended :
      (before : List Block) (k : ℕ) (m : Bytes)
      → All (Unfit asize) bs
      → release bs (growth asize) [] ≡ before ++ (free k ∷ [])
      → asize ≤ k
      → run ≡ ok (first s + total before) (grown s (growth asize) m)
      → Heap (grown s (growth asize) m) (before ++ (carve asize k ++ []))
      → Kept s.bytes m (first s) bs
      → Outcome s bs asize run
  exhausted :
      All (Unfit asize) bs
      → s.lib.max_addr < s.lib.brk + growth asize
      → run ≡ ok null (refused s)
      → Outcome s bs asize run

fits_by_8 :
    (asize k : ℕ)
    → asize % 8 ≡ 0
    → k % 8 ≡ 0
    → asize ≤ k
    → k ≢ asize + 8
    → (k ≡ asize) ⊎ (asize + 16 ≤ k)
fits_by_8 asize k a b le ne = ground arith

module _ {s : State} {bs : List Block} (n : ℕ) (h : Heap s bs) (pos : 0 < n)
    (small : n < 2 ^ 31 - 16) (splits : Splits (adjust n) bs) where
  malloc-reused :
      (before : List Block) (k : ℕ) (after : List Block)
      → find_fit (adjust n) s ≡ ok (first s + total before) s
      → bs ≡ before ++ (free k ∷ after)
      → All (Unfit (adjust n)) before
      → adjust n ≤ k
      → Outcome s bs (adjust n) (mm_malloc n s)
  unfolding mm_malloc
  malloc-reused before k after finds e unfit fits =
      let bounds = adjust_bounds n pos (omega arith) in
      let h' = subst (λ l. Heap s l) e h in
      let no_sliver =
        All-middle (NoSliver (adjust n)) before after
          (subst (λ l. All (NoSliver (adjust n)) l) e splits.0) in
      let k_mult = (All-middle IsBlock before after h'.blocks).0 in
      let exact = fits_by_8 (adjust n) k bounds.0 k_mult fits no_sliver in
      let t = take-Heap before k after (adjust n) bounds.0 bounds.1 h' exact in
      reused before k after t.bytes e unfit fits
        (rw (
          ne→== n 0 (omega arith),
          finds,
          ne→== (first s + total before) null (omega arith),
          t.runs,
        ))
        t.heap (subst (λ l. Kept s.bytes t.bytes (first s) l) (sym e) t.kept)

  malloc-extended :
      find_fit (adjust n) s ≡ ok null s
      → All (Unfit (adjust n)) bs
      → s.lib.brk + growth (adjust n) ≤ s.lib.max_addr
      → Outcome s bs (adjust n) (mm_malloc n s)
  unfolding mm_malloc
  malloc-extended finds unfit room =
      let asize = adjust n in
      let z = growth asize in
      let bounds = adjust_bounds n pos (omega arith) in
      let z_mult : z % 8 ≡ 0 = ground arith in
      let z_least : 16 ≤ z = ground arith in
      let z_small : z < 2 ^ 31 = ground arith in
      let above : asize ≤ z = ground arith in
      let g = grow-Heap h z_mult z_least z_small room in
      let ends = release-Ends bs z in
      let slack = last_slack-IsBlock bs h.blocks in
      let k = z + last_slack bs in
      let exact : (k ≡ asize) ⊎ (asize + 16 ≤ k) = ground (arith, splits.1) in
      let h1 = subst (λ l. Heap (grown s z g.bytes) l) ends.parts g.heap in
      let t = take-Heap ends.before k [] asize bounds.0 bounds.1 h1 exact in
      let reach = Chain-total h.chain in
      let here : g.at ≡ first s + total ends.before = omega (arith, g.place, ends.sum) in
      extended ends.before k t.bytes unfit ends.parts (omega arith)
        (rw (
          ne→== n 0 (omega arith),
          finds,
          g.runs,
          here,
          ne→== (first s + total ends.before) null (omega arith),
          t.runs,
        ))
        t.heap
        (λ a i x u above below.
          t.kept a i x
            (subst (λ l. UsedAt (first s) l a i) ends.parts
              ((release-UsedAt (first s) bs z [] a i).1 (inl u)))
            above below
          ∙ g.kept a i x u above below)

  malloc-exhausted :
      find_fit (adjust n) s ≡ ok null s
      → All (Unfit (adjust n)) bs
      → s.lib.max_addr < s.lib.brk + growth (adjust n)
      → Outcome s bs (adjust n) (mm_malloc n s)
  unfolding mm_malloc
  malloc-exhausted finds unfit full =
      let bounds = adjust_bounds n pos (omega arith) in
      let z_mult : growth (adjust n) % 8 ≡ 0 = ground arith in
      let z_least : 16 ≤ growth (adjust n) = ground arith in
      let z_small : growth (adjust n) < 2 ^ 31 = ground arith in
      exhausted unfit full
        (rw (ne→== n 0 (omega arith), finds, extend-refused s h.arena z_mult z_least z_small full))

  -- On a heap that satisfies the invariant, for 0 < n < 2 ^ 31 - 16, and where no free block, nor
  -- a new chunk, is 8 bytes larger than the adjusted size, `mm_malloc` takes the first free block
  -- that is large enough; if there is none it grows the heap and takes the free block at the end;
  -- if the arena is full it returns NULL. In the first two cases the list of blocks is the old
  -- one with that block carved, the invariant holds again and the payloads of the blocks in use
  -- are kept.
  pub malloc-Outcome : Outcome s bs (adjust n) (mm_malloc n s)
  malloc-Outcome =
      let (p, finds, fit) = find_fit-Fit (adjust n) h in
      elim fit [
        | found before k after e unfit fits at ↦
            malloc-reused before k after (subst (λ q. find_fit (adjust n) s ≡ ok q s) at finds) e
              unfit fits
        | missing unfit at ↦
            let finds' = subst (λ q. find_fit (adjust n) s ≡ ok q s) at finds in
            elim (le_or_lt (s.lib.brk + growth (adjust n)) s.lib.max_addr) [
              | inl room ↦ malloc-extended finds' unfit room
              | inr full ↦ malloc-exhausted finds' unfit full
            ]
      ]
