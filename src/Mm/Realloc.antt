-- ===== src/Mm/Realloc.antt =====
-- `mm_realloc` of benchmark_base/malloc-lab/mm.c on a well-formed heap.
use jungle_malloc_benchmark.Base.{
  ℕ, ◌+◌, ◌-◌, ◌*◌, ◌^◌, ◌%◌, ◌≤◌, ◌<◌, ◌≡◌, ◌≢◌, ◌↔◌, ◌⊎◌, refl, inl, inr, lt→ltb, ne→==, List,
  ◌∷◌, ◌++◌, arith, ◌∙◌, sym, subst, ap, All,
}
use jungle_malloc_benchmark.Memory.{Ptr, word, copy, null}
use jungle_malloc_benchmark.Memory.Laws.{copy-inside, copy-outside}
use jungle_malloc_benchmark.Machine.{State, ok, fault, pure, ◌>>◌, load_size_t, memcpy}
use jungle_malloc_benchmark.Machine.Access.{refused}
use jungle_malloc_benchmark.Mm.{mm_malloc, mm_free, mm_realloc, adjust, align, size_t_size}
use jungle_malloc_benchmark.Mm.Block.{Block, used, with_bytes}
use jungle_malloc_benchmark.Mm.Spec.{total, release, UsedAt, IsBlock}
use jungle_malloc_benchmark.Mm.Spec.Even.{IsEven, All-parts, release-IsEven}
use jungle_malloc_benchmark.Mm.Spec.Used.{UsedAt-bounds}
use jungle_malloc_benchmark.Mm.Chain.{Chain-total, Chain-head}
use jungle_malloc_benchmark.Mm.Heap.{Heap, first}
use jungle_malloc_benchmark.Mm.Free.{free-Heap}
use jungle_malloc_benchmark.Mm.Malloc.{adjust_bounds, growth, Splits}
use jungle_malloc_benchmark.Mm.Contract.{Granted, free-uses, UsedAt-IsBlock, malloc-Answers}
use jungle_malloc_benchmark.Mm.Payload.{UsedAt-At, UsedAt-parts, Heap-payload}

-- `size_t` read: at least 2 ^ 32 times the upper word.
load_size_t-ok :
    (s : State) (p : Ptr)
    → s.lib.start_brk ≤ p
    → p + 8 ≤ s.lib.max_addr
    → load_size_t p s ≡ ok (word s.bytes p + word s.bytes (p + 4) * 2 ^ 32) s
unfolding load_size_t
load_size_t-ok s p above below = ground arith

memcpy-ok :
    (s : State) (to from n : ℕ)
    → (s.lib.start_brk ≤ to) × (to + n ≤ s.lib.max_addr)
    → (s.lib.start_brk ≤ from) × (from + n ≤ s.lib.max_addr)
    → (to + n ≤ from) ⊎ (from + n ≤ to)
    → memcpy to from n s ≡ ok tt (with_bytes s (copy s.bytes to from n))
unfolding memcpy
memcpy-ok s to from n a b apart = ground arith

memcpy-overlap :
    (s : State) (to from n : ℕ) → from < to + n → to < from + n → memcpy to from n s ≡ fault
unfolding memcpy
memcpy-overlap s to from n a b = ground arith

module _ {s : State} {bs : List Block} (ptr : Ptr) (k n : ℕ) (h : Heap s bs)
    (u : UsedAt (first s) bs ptr k) (pos : 0 < n) (small : n < 2 ^ 31 - 16) {at : Ptr} {s' : State}
    {bs' : List Block} (runs : mm_malloc n s ≡ ok at s') (g : Granted s bs n at s' bs') where
  -- The old block is still in use.
  old_block : UsedAt (first s') bs' ptr k
  old_block =
      subst (λ q. UsedAt (q + 8 + 8) bs' ptr k) (sym g.same_start) ((g.uses ptr k).1 (inr u))

  -- On a heap that satisfies the invariant, if `mm_malloc` grants a block for `n` bytes, 0 < n <
  -- 2 ^ 31 - 16, `mm_realloc` of a block in use copies `n` bytes to it, whatever the size of the
  -- old block, frees the old block and returns the new one.
  pub realloc_copies_request : mm_realloc ptr n s ≡ (memcpy at ptr n >> (mm_free ptr >> pure at)) s'
  unfolding mm_realloc size_t_size align
  realloc_copies_request =
      let (_, c) = Chain-head g.heap.chain in
      let reach = Chain-total c in
      let bounds = UsedAt-bounds (first s') bs' ptr k old_block in
      let header = UsedAt-At ptr k c old_block in
      let arena = g.heap.arena in
      let least = header.least in
      let low : s'.lib.start_brk ≤ ptr - 8 = omega arith in
      let high : ptr - 8 + 8 ≤ s'.lib.max_addr = omega arith in
      let hdr : word s'.bytes (ptr - 8 + 4) ≡ k + 1 =
        (let e : ptr - 8 + 4 ≡ ptr - 4 = omega arith in rw e header.hdr) in
      let more : n < word s'.bytes (ptr - 8) + word s'.bytes (ptr - 8 + 4) * 2 ^ 32 =
        rw hdr (omega arith) in
      rw (
        runs,
        ne→== at null (omega (arith, g.above)),
        load_size_t-ok s' (ptr - 8) low high,
        lt→ltb n (word s'.bytes (ptr - 8) + word s'.bytes (ptr - 8 + 4) * 2 ^ 32) more,
      )

  -- On a heap that satisfies the invariant, if `mm_malloc` grants a block right behind a block in
  -- use of `k` bytes, `mm_realloc` of that block to n > k bytes, with 0 < n < 2 ^ 31 - 16, is a
  -- `memcpy` between overlapping ranges, which is undefined.
  pub realloc_overlap : k < n → at ≡ ptr + k → mm_realloc ptr n s ≡ fault
  realloc_overlap longer behind =
      rw (realloc_copies_request, memcpy-overlap s' at ptr n (omega arith) (omega arith))

realloc-refused :
    (ptr n : ℕ) (s : State)
    → mm_malloc n s ≡ ok null (refused s)
    → mm_realloc ptr n s ≡ ok null (refused s)
unfolding mm_realloc
realloc-refused ptr n s e = rw e

-- The data of block `ptr` has moved to `at`, and `ptr` is free.
pub record Moved (s : State) (bs : List Block) (ptr : Ptr) (k n : ℕ) (at : Ptr) : Type 0 where
  pub final : State
  pub blocks : List Block
  pub runs : mm_realloc ptr n s ≡ ok at final
  pub heap : Heap final blocks
  pub uses :
      (a i : ℕ)
      → UsedAt (first s) blocks a i
        ↔ (((at ≡ a) × (adjust n ≡ i)) ⊎ UsedAt (first s) bs a i) × (a ≢ ptr)
  pub moved : (j : ℕ) → j < n → j + 8 < k → final.bytes (at + j) ≡ s.bytes (ptr + j)
  pub kept :
      (a i x : ℕ)
      → UsedAt (first s) bs a i
      → a ≢ ptr
      → a ≤ x
      → x + 8 < a + i
      → final.bytes x ≡ s.bytes x
  pub same_start : final.lib.start_brk ≡ s.lib.start_brk
  pub aligned : at % 8 ≡ 0
  pub above : first s ≤ at
  pub below : at + n + 8 ≤ final.lib.brk
  pub apart : (a i : ℕ) → UsedAt (first s) bs a i → (at + adjust n ≤ a) ⊎ (a + i ≤ at)
  pub grows : final.lib.brk ≤ s.lib.brk + growth (adjust n)
  pub rises : s.lib.brk ≤ final.lib.brk
  pub even : adjust n % 16 ≡ 0 → All IsEven bs → All IsEven blocks

module _ {s : State} {bs : List Block} (ptr : Ptr) (k n : ℕ) (h : Heap s bs)
    (u : UsedAt (first s) bs ptr k) (pos : 0 < n) (small : n < 2 ^ 31 - 16) {at : Ptr} {s' : State}
    {bs' : List Block} (runs : mm_malloc n s ≡ ok at s') (g : Granted s bs n at s' bs') where
  -- The state after the copy.
  copied : State
  copied = with_bytes s' (copy s'.bytes at ptr n)

  new_block : UsedAt (first s') bs' at (adjust n)
  new_block =
      subst (λ q. UsedAt (q + 8 + 8) bs' at (adjust n)) (sym g.same_start)
        ((g.uses at (adjust n)).1 (inl (refl, refl)))

  copied-Heap : Heap copied bs'
  unfolding copied
  copied-Heap =
      Heap-payload (copy s'.bytes at ptr n) at (adjust n) n g.heap new_block
        (adjust_bounds n pos (omega arith)).2 (copy-outside s'.bytes at ptr n)

  at-ne-ptr : at ≢ ptr
  at-ne-ptr = omega (
    arith,
    g.apart ptr k u,
    UsedAt-IsBlock (first s) bs ptr k h.blocks u,
    adjust_bounds n pos (omega arith),
  )

  -- The blocks in use after the old one is freed.
  after_free :
      (before after : List Block)
      → bs' ≡ before ++ (used k ∷ after)
      → ptr ≡ first s + total before
      → (a i : ℕ)
      → UsedAt (first s) (release before k after) a i
        ↔ (((at ≡ a) × (adjust n ≡ i)) ⊎ UsedAt (first s) bs a i) × (a ≢ ptr)
  after_free before after e place a i =
      let all = subst (λ l. All IsBlock l) e g.heap.blocks in
      let freed : UsedAt (first s) (release before k after) a i
          ↔ UsedAt (first s) bs' a i × (a ≢ ptr) =
        rw (e, place) (free-uses (first s) before k after a i all) in
      let uses = g.uses a i in
      (λ v. (uses.0 (freed.0 v).0, (freed.0 v).1), λ v. freed.1 (uses.1 v.0, v.1))

  -- Given that the two ranges do not overlap, and that the old one ends inside the arena.
  realloc-Moved :
      (at + n ≤ ptr) ⊎ (ptr + n ≤ at) → ptr + n ≤ s'.lib.max_addr → Moved s bs ptr k n at
  unfolding copied
  realloc-Moved apart inside =
      let start : first s' ≡ first s = ap (λ q. q + 8 + 8) g.same_start in
      let old = old_block ptr k n h u pos small runs g in
      let (before, after, e, place) = UsedAt-parts (first s') bs' ptr k old in
      let f = free-Heap before k after (subst (λ l. Heap copied l) e copied-Heap) in
      let f_runs : mm_free ptr copied ≡ ok tt (with_bytes copied f.bytes) =
        subst (λ q. mm_free q copied ≡ ok tt (with_bytes copied f.bytes)) (sym place) f.runs in
      let uses = after_free before after e (omega (arith, place, start)) in
      let fits = adjust_bounds n pos (omega arith) in
      let new_bounds = UsedAt-bounds (first s') bs' at (adjust n) new_block in
      let old_bounds = UsedAt-bounds (first s') bs' ptr k old in
      let (_, c) = Chain-head g.heap.chain in
      let reach = Chain-total c in
      let f_kept : (a i x : ℕ)
          → UsedAt (first s) (release before k after) a i
          → a ≤ x
          → x + 8 < a + i
          → f.bytes x ≡ copied.bytes x =
        λ a i x v.
          f.kept a i x (subst (λ q. UsedAt q (release before k after) a i) (sym start) v) in
      record {
        final = with_bytes copied f.bytes;
        blocks = release before k after;
        runs =
            realloc_copies_request ptr k n h u pos small runs g
            ∙ rw (
              memcpy-ok s' at ptr n (omega (arith, g.heap.arena), omega (arith, g.heap.arena))
                  (omega (arith, g.heap.arena), inside) apart,
              f_runs,
            );
        heap = f.heap;
        uses = uses;
        moved = λ j j_n j_k.
            f_kept at (adjust n) (at + j) ((uses at (adjust n)).1 (inl (refl, refl), at-ne-ptr))
              (omega arith) (omega arith)
            ∙ copy-inside s'.bytes at ptr n j j_n
            ∙ g.kept ptr k (ptr + j) u (omega arith) (omega arith);
        kept = λ a i x v ne above below.
            f_kept a i x ((uses a i).1 (inr v, ne)) above below
            ∙ copy-outside s'.bytes at ptr n x (omega (arith, g.apart a i v))
            ∙ g.kept a i x v above below;
        same_start = g.same_start;
        aligned = g.aligned;
        above = g.above;
        below = g.below;
        apart = g.apart;
        grows = g.grows;
        rises = g.rises;
        even = λ even all.
            let (front, here, back) =
              All-parts IsEven before (used k) after
                (subst (λ l. All IsEven l) e (g.even even all)) in
            release-IsEven before k after here front back;
      }

-- `mm_realloc` of a block in use of `k` bytes to 0 < n ≤ k bytes, with n < 2 ^ 31 - 16, on a heap
-- that satisfies the invariant and where no free block, nor a new chunk, is 8 bytes larger than
-- the adjusted size: either a new block, aligned to 8 and disjoint from all blocks in use, holds
-- the first `n` bytes of the old payload (as far as that reaches, `k - 8` bytes), the old block
-- is free, no other block changes its status, all other payloads are kept and the invariant holds
-- again; or NULL is returned, the arena cannot grow by the larger of the adjusted size and 4096
-- bytes, and the invariant holds with the same blocks.
pub realloc-Answers :
    {s : State} {bs : List Block} (ptr k n : ℕ)
    → Heap s bs
    → UsedAt (first s) bs ptr k
    → 0 < n
    → n ≤ k
    → n < 2 ^ 31 - 16
    → Splits (adjust n) bs
    → ((at : Ptr) × Moved s bs ptr k n at)
      ⊎ ((mm_realloc ptr n s ≡ ok null (refused s))
          × (s.lib.max_addr < s.lib.brk + growth (adjust n))
          × Heap (refused s) bs)
realloc-Answers {s} {bs} ptr k n h u pos le small splits =
    elim (malloc-Answers n h pos small splits) [
      | inl (at, s', bs', runs, g) ↦
          let old = old_block ptr k n h u pos small runs g in
          let bounds = UsedAt-bounds (first s') bs' ptr k old in
          let (_, c) = Chain-head g.heap.chain in
          let reach = Chain-total c in
          let fits = adjust_bounds n pos (omega arith) in
          inl (
            at,
            realloc-Moved ptr k n h u pos small runs g (omega (arith, g.apart ptr k u))
                (omega (arith, g.heap.arena)),
          )
      | inr (runs, unfit, full, heap) ↦ inr (realloc-refused ptr n s runs, full, heap)
    ]
