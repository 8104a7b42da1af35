-- ===== src/Mm/Free.antt =====
-- `mm_free` on a well-formed heap.
use jungle_malloc_benchmark.Base.{
  ℕ, ◌+◌, ◌-◌, ◌%◌, ◌^◌, ◌≤◌, ◌<◌, ◌≡◌, inl, inr, List, ◌∷◌, ◌++◌, arith, ◌∙◌, subst,
}
use jungle_malloc_benchmark.Memory.{Ptr, Bytes, word, put}
use jungle_malloc_benchmark.Machine.{State, ok, and_then, pure}
use jungle_malloc_benchmark.Machine.Access.{store-ok}
use jungle_malloc_benchmark.Mm.{coalesce, mm_free}
use jungle_malloc_benchmark.Mm.Block.{
  Block, used, free, size, pack_free, Holds, get_size-ok, ftrp-ok, with_bytes, Holds-put_self,
  write_block,
}
use jungle_malloc_benchmark.Mm.Spec.{total, merge, release, UsedAt}
use jungle_malloc_benchmark.Mm.Spec.Used.{append-merge-apart}
use jungle_malloc_benchmark.Mm.Spec.Release.{release-IsBlock, release-Coalesced}
use jungle_malloc_benchmark.Memlib.Bounds.{IsArena}
use jungle_malloc_benchmark.Mm.Chain.{
  At, Chain, Chain-head, Chain-total, At-frame, before-write_block, after-write_block,
  write_block-word, write_block-byte, At-write_block,
}
use jungle_malloc_benchmark.Mm.Merge.{Holds-At, Merges, merges}
use jungle_malloc_benchmark.Mm.Heap.{Heap, Kept, prologue, first, Cut, cut, release-Cut}

-- The header and footer are marked free, then the block is merged.
free-coalesce :
    {s : State} {bp : Ptr} {k : ℕ}
    → Holds s (bp - 4) (used k)
    → 8 ≤ k
    → 4 ≤ bp
    → bp + k ≤ s.lib.max_addr
    → mm_free bp s
      ≡ and_then (coalesce bp (with_bytes s (write_block s.bytes bp (free k)))) (λ _. pure tt)
unfolding mm_free write_block
free-coalesce {s} {bp} {k} h least low high =
    let s1 = with_bytes s (put s.bytes (bp - 4) k) in
    rw (
      get_size-ok h,
      pack_free k,
      store-ok s (bp - 4) h.above h.below k,
      ftrp-ok bp (Holds-put_self s (bp - 4) (free k) h.above h.below h.is_size),
      store-ok s1 (bp + k - 8) (omega (arith, h.above)) (omega arith) k,
    )

-- `mm_free` returns, leaves the heap with the blocks `bs`, and keeps the payloads of those in use.
pub record Frees (s : State) (ptr : Ptr) (bs : List Block) : Type 0 where
  pub bytes : Bytes
  pub runs : mm_free ptr s ≡ ok tt (with_bytes s bytes)
  pub heap : Heap (with_bytes s bytes) bs
  pub kept : Kept s.bytes bytes (first s) bs

-- The chain, cut at the block that is freed, after its tags are rewritten and merged.
freed-Merges :
    {s : State} {before : List Block} {k : ℕ} {after : List Block}
    (c : Cut s.bytes (prologue s) (used 8 ∷ before) (used k ∷ after) s.lib.brk)
    → IsArena s.lib
    → word s.bytes (s.lib.brk - 4) ≡ 1
    → At s.bytes (c.pb + size c.last) (used k)
    → Chain s.bytes (c.pb + size c.last + k) after s.lib.brk
    → Merges
        (with_bytes s (write_block s.bytes (c.pb + size c.last) (free k)))
        (prologue s)
        c.init
        c.last
        k
        after
        (c.pb + size c.last)
        s.lib.brk
freed-Merges {s} {k} c arena epi hb rest =
    let bp = c.pb + size c.last in
    let reach = Chain-total rest in
    let reach' = Chain-total c.front in
    let least = c.at_last.least in
    let pb_low : 4 ≤ c.pb = omega arith in
    let bp_low : 4 ≤ bp = omega arith in
    let is : (k % 8 ≡ 0) × (k < 2 ^ 32 - 8) = (hb.mult, omega arith) in
    merges k arena (omega arith) arena.brk_below
      (before-write_block (free k) (omega arith) hb.least (omega arith) c.front)
      (write_block-word s.bytes bp (free k) bp_low hb.least (s.lib.brk - 4) (inr (omega arith))
        ∙ epi)
      c.last
      (At-frame pb_low
        (λ q _ inside. write_block-word s.bytes bp (free k) bp_low hb.least q (inl inside))
        c.at_last)
      (At-write_block s.bytes bp (free k) bp_low hb.least is)
      (after-write_block (free k) bp_low hb.least rest)

-- The blocks in use that remain lie outside of what was written.
freed-Kept :
    {s : State} (before : List Block) (k : ℕ) (after : List Block)
    (c : Cut s.bytes (prologue s) (used 8 ∷ before) (used k ∷ after) s.lib.brk)
    → 8 ≤ k
    → (g : Merges
        (with_bytes s (write_block s.bytes (c.pb + size c.last) (free k)))
        (prologue s)
        c.init
        c.last
        k
        after
        (c.pb + size c.last)
        s.lib.brk)
    → Kept s.bytes g.bytes (first s) (release before k after)
freed-Kept {s} before k after c least g a n x u above below =
    let bp = c.pb + size c.last in
    let reach = Chain-total c.front in
    let u' : UsedAt (prologue s) (c.init ++ merge c.last k after) a n =
      rw (release-Cut before k after c) (inr u) in
    elim (append-merge-apart (prologue s) c.init c.last k after a n u') [
      | inl front ↦
          g.same x (inl (omega (arith, g.place)))
          ∙ write_block-byte s.bytes bp (free k) (omega arith) least x (inl (omega arith))
      | inr back ↦
          g.same x (inr (omega arith))
          ∙ write_block-byte s.bytes bp (free k) (omega arith) least x (inr (omega arith))
    ]

-- `mm_free` of a block in use of a heap that satisfies the invariant ends normally; the list of
-- blocks is then the one with that block free and merged with the free blocks next to it, the
-- invariant holds again, and the payload bytes of all other blocks in use are kept.
pub free-Heap :
    {s : State} (before : List Block) (k : ℕ) (after : List Block)
    → Heap s (before ++ (used k ∷ after))
    → Frees s (first s + total before) (release before k after)
free-Heap {s} before k after h =
    let c = cut (used 8) before h.chain in
    let (hb, rest) = Chain-head c.back in
    let g = freed-Merges {s = s} c h.arena h.epilogue hb rest in
    let reach = Chain-total rest in
    let reach' = Chain-total c.front in
    let here : c.pb + size c.last ≡ first s + total before = omega (arith, c.place) in
    let low : s.lib.start_brk + 4 ≤ c.pb + size c.last = omega arith in
    let high : c.pb + size c.last + k ≤ s.lib.max_addr = omega (arith, h.arena.brk_below) in
    record {
      bytes = g.bytes;
      runs = rw (← here) (
          rw (
            free-coalesce (Holds-At {s = s} h.arena hb low high).0 hb.least (omega arith) high,
            g.runs,
          ));
      heap = record {
        arena = h.arena;
        listp = h.listp;
        chain =
            subst (λ l. Chain g.bytes (prologue s) l s.lib.brk) (release-Cut before k after c)
              g.chain;
        epilogue = g.epilogue;
        blocks = release-IsBlock before k after h.blocks;
        coalesced = release-Coalesced before k after h.coalesced;
      };
      kept = freed-Kept before k after c hb.least g;
    }
