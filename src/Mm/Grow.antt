-- ===== src/Mm/Grow.antt =====
-- `extend_heap` on a well-formed heap.
use jungle_malloc_benchmark.Base.{
  ℕ, ◌+◌, ◌-◌, ◌/◌, ◌%◌, ◌^◌, ◌≤◌, ◌<◌, ◌≡◌, inl, inr, List, [], ◌∷◌, ◌++◌, arith, ◌∙◌, sym, subst,
  ap,
}
use mathlib.Core.List.{append-nil}
use jungle_malloc_benchmark.Memory.{Ptr, Bytes, put}
use jungle_malloc_benchmark.Memory.Laws.{put-outside, word-put_self, word-put_outside}
use jungle_malloc_benchmark.Memlib.Bounds.{IsArena}
use jungle_malloc_benchmark.Machine.{State, ok}
use jungle_malloc_benchmark.Machine.Access.{grown}
use jungle_malloc_benchmark.Mm.{coalesce, extend_heap}
use jungle_malloc_benchmark.Mm.Block.{Block, used, free, size, write_block}
use jungle_malloc_benchmark.Mm.Chain.{
  At, Chain, done, Chain-total, At-frame, Chain-frame, SameWords, before-write_block,
  write_block-word, write_block-byte, At-write_block,
}
use jungle_malloc_benchmark.Mm.Merge.{Merges, merges}
use jungle_malloc_benchmark.Mm.Extend.{appended, extend-coalesce}
use jungle_malloc_benchmark.Mm.Spec.{merge, release, slack, UsedAt}
use jungle_malloc_benchmark.Mm.Spec.Used.{UsedAt-bounds, append-merge-apart, release-UsedAt}
use jungle_malloc_benchmark.Mm.Spec.Release.{release-IsBlock, release-Coalesced}
use jungle_malloc_benchmark.Mm.Spec.Grow.{
  last_slack, last_slack-append, last_slack-prologue, snoc-IsBlock, snoc-Coalesced,
}
use jungle_malloc_benchmark.Mm.Heap.{Heap, Kept, prologue, first, Cut, cut, release-Cut}

-- `extend_heap` returns the free block at the end of the grown heap.
pub record Grows (s : State) (bs : List Block) (z : ℕ) : Type 0 where
  pub at : Ptr
  pub bytes : Bytes
  pub runs : extend_heap (z / 4) s ≡ ok at (grown s z bytes)
  pub heap : Heap (grown s z bytes) (release bs z [])
  pub place : at + last_slack bs ≡ s.lib.brk
  pub kept : Kept s.bytes bytes (first s) bs

put-SameWords : (m : Bytes) (p v lo hi : ℕ) → hi ≤ p + 4 → SameWords m (put m p v) lo hi
put-SameWords m p v lo hi fits q above below = word-put_outside m p v q (inl (omega arith))

Chain-nil : {m : Bytes} {bp end : Ptr} → Chain m bp [] end → bp ≡ end
Chain-nil (done e) = e

module _ {s : State} {bs : List Block} {z : ℕ} (h : Heap s bs) (mult : z % 8 ≡ 0) (least : 16 ≤ z)
    (small : z < 2 ^ 31) (room : s.lib.brk + z ≤ s.lib.max_addr) where
  grown-IsArena : IsArena (record s.lib { brk = s.lib.brk + z })
  grown-IsArena =
      let arena = h.arena in
      record {
        nonnull = arena.nonnull;
        aligned = arena.aligned;
        extent = arena.extent;
        addressable = arena.addressable;
        brk_above = omega arith;
        brk_below = room;
      }

  grow-Merges :
      (c : Cut s.bytes (prologue s) (used 8 ∷ bs) [] s.lib.brk)
      → Merges
          (grown s z (appended s z))
          (prologue s)
          c.init
          c.last
          z
          []
          (c.pb + size c.last)
          (s.lib.brk + z)
  grow-Merges c =
      let brk = s.lib.brk in
      let e : c.pb + size c.last ≡ brk = Chain-nil c.back in
      let reach = Chain-total c.front in
      let arena = h.arena in
      let last_least = c.at_last.least in
      let brk_low : 4 ≤ brk = omega arith in
      let pb_low : 4 ≤ c.pb = omega arith in
      let end : brk + z ≡ c.pb + size c.last + z = omega arith in
      let m1 = write_block s.bytes brk (free z) in
      let z_least : 8 ≤ z = omega arith in
      let is : (z % 8 ≡ 0) × (z < 2 ^ 32 - 8) = (mult, omega arith) in
      let hb : At m1 brk (free z) = At-write_block s.bytes brk (free z) brk_low z_least is in
      let hb' : At (appended s z) brk (free z) =
        At-frame brk_low (put-SameWords m1 (brk + z - 4) 1 brk (brk + z) (omega arith)) hb in
      merges {s = grown s z (appended s z)} z grown-IsArena (omega arith) room
        (Chain-frame (omega arith)
          (put-SameWords m1 (brk + z - 4) 1 (prologue s) c.pb (omega arith))
          (before-write_block (free z) (omega arith) z_least (omega arith) c.front))
        (word-put_self m1 (brk + z - 4) 1 (omega arith)) c.last
        (At-frame pb_low
          (λ q above below.
            word-put_outside m1 (brk + z - 4) 1 q (inl (omega arith))
            ∙ write_block-word s.bytes brk (free z) brk_low z_least q (inl (omega arith)))
          c.at_last)
        (subst (λ q. At (appended s z) q (free z)) (sym e) hb') (done (sym end))

  grow-Kept :
      (c : Cut s.bytes (prologue s) (used 8 ∷ bs) [] s.lib.brk)
      (g : Merges
        (grown s z (appended s z))
        (prologue s)
        c.init
        c.last
        z
        []
        (c.pb + size c.last)
        (s.lib.brk + z))
      → Kept s.bytes g.bytes (first s) bs
  grow-Kept c g a n x u above below =
      let brk = s.lib.brk in
      let e : c.pb + size c.last ≡ brk = Chain-nil c.back in
      let arena = h.arena in
      let reach = Chain-total c.front in
      let whole = Chain-total h.chain in
      let bounds = UsedAt-bounds (first s) bs a n u in
      let u' : UsedAt (prologue s) (c.init ++ merge c.last z []) a n =
        rw (release-Cut bs z [] c) (inr ((release-UsedAt (first s) bs z [] a n).1 (inl u))) in
      let here : x + 4 < g.at = elim (append-merge-apart (prologue s) c.init c.last z [] a n u') [
        | inl front ↦ omega (arith, g.place)
        | inr back ↦ absurd (omega arith)
      ] in
      g.same x (inl here)
      ∙ put-outside (write_block s.bytes brk (free z)) (brk + z - 4) 1 x (inl (omega arith))
      ∙ write_block-byte s.bytes brk (free z) (omega arith) (omega arith) x (inl (omega arith))

  last_slack-Cut :
      (c : Cut s.bytes (prologue s) (used 8 ∷ bs) [] s.lib.brk) → slack c.last ≡ last_slack bs
  last_slack-Cut c =
      sym (last_slack-append c.init c.last) ∙ ap last_slack (sym c.parts) ∙ last_slack-prologue bs

  -- On a heap that satisfies the invariant, `extend_heap` by `z` bytes (a multiple of 8, from 16
  -- on, below 2 ^ 31, and inside the arena) appends a free block merged with a free last block,
  -- returns its address, keeps the payloads of the blocks in use, and the invariant holds again.
  pub grow-Heap : Grows s bs z
  grow-Heap =
      let reach = Chain-total h.chain in
      let low : s.lib.start_brk + 16 ≤ s.lib.brk = omega arith in
      let c = cut (used 8) bs (rw append-nil h.chain) in
      let g = grow-Merges c in
      let e : c.pb + size c.last ≡ s.lib.brk = Chain-nil c.back in
      record {
        at = g.at;
        bytes = g.bytes;
        runs =
            extend-coalesce s h.arena mult least small low room
            ∙ subst (λ q. coalesce q (grown s z (appended s z)) ≡ ok g.at (grown s z g.bytes)) e
                g.runs;
        heap = record {
          arena = grown-IsArena;
          listp = h.listp;
          chain =
              subst (λ l. Chain g.bytes (prologue s) l (s.lib.brk + z)) (release-Cut bs z [] c)
                g.chain;
          epilogue = g.epilogue;
          blocks = release-IsBlock bs z [] (snoc-IsBlock bs z mult least h.blocks);
          coalesced = release-Coalesced bs z [] (snoc-Coalesced bs z h.coalesced);
        };
        place = omega (arith, g.place, last_slack-Cut c);
        kept = grow-Kept c g;
      }
