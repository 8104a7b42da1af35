-- ===== src/Mm/Payload.antt =====
-- Writes of a client into the payload of a block of mm.c.
use jungle_malloc_benchmark.Base.{
  ℕ, ◌+◌, ◌-◌, ◌≤◌, ◌<◌, ◌≡◌, ◌⊎◌, inl, inr, List, [], ◌∷◌, ◌++◌, arith, ◌∙◌, ap, subst,
}
use jungle_malloc_benchmark.Memory.{Ptr, Bytes}
use jungle_malloc_benchmark.Memory.Laws.{word_ext}
use jungle_malloc_benchmark.Machine.{State}
use jungle_malloc_benchmark.Mm.Block.{Block, used, size, with_bytes}
use jungle_malloc_benchmark.Mm.Spec.{total, UsedAt}
use jungle_malloc_benchmark.Mm.Spec.Used.{UsedAt-bounds}
use jungle_malloc_benchmark.Mm.Chain.{
  At, Chain, done, link, Chain-head, Chain-total, At-frame, Chain-frame,
}
use jungle_malloc_benchmark.Mm.Heap.{Heap, first}

-- `m'` differs from `m` at most in the `n` bytes from `a` on.
abbrev pub SameBut : Bytes → Bytes → Ptr → ℕ → Type 0
SameBut m m' a n = (x : Ptr) → (x < a) ⊎ (a + n ≤ x) → m' x ≡ m x

pub UsedAt-At :
    {m : Bytes} {lo end : Ptr} {bs : List Block} (a i : ℕ)
    → Chain m lo bs end
    → UsedAt lo bs a i
    → At m a (used i)
UsedAt-At a i (done e) u = absurd u
UsedAt-At {m} a i (link {b} h c) (inl (e, f)) = subst (λ d. At m a d) f (subst (λ q. At m q b) e h)
UsedAt-At a i (link h c) (inr u) = UsedAt-At a i c u

-- Where a block in use stands in the list.
pub UsedAt-parts :
    (lo : Ptr) (bs : List Block) (a i : ℕ)
    → UsedAt lo bs a i
    → (before : List Block) × (after : List Block) × (bs ≡ before ++ (used i ∷ after))
      × (a ≡ lo + total before)
UsedAt-parts lo [] a i u = absurd u
UsedAt-parts lo (b ∷ bs) a i (inl (e, f)) = ([], bs, ap (λ c. c ∷ bs) f, omega arith)
UsedAt-parts lo (b ∷ bs) a i (inr u) =
    let (before, after, e, at) = UsedAt-parts (lo + size b) bs a i u in
    (b ∷ before, after, ap (λ l. b ∷ l) e, omega arith)

-- Headers and footers lie outside of the payloads.
Chain-payload :
    {m m' : Bytes} {lo end : Ptr} {bs : List Block} (a i n : ℕ)
    → 4 ≤ lo
    → n + 8 ≤ i
    → SameBut m m' a n
    → UsedAt lo bs a i
    → Chain m lo bs end
    → Chain m' lo bs end
Chain-payload a i n low fits same u (done e) = absurd u
Chain-payload {m} {m'} a i n low fits same (inl (e, f)) (link {b} h c) =
    let i_size : size b ≡ i = ap size f in
    link
      (record {
        hdr = word_ext m m' (_ - 4) (λ x p q. same x (inl (omega arith))) ∙ h.hdr;
        ftr = word_ext m m' (_ + size b - 8) (λ x p q. same x (inr (omega arith))) ∙ h.ftr;
        mult = h.mult;
        least = h.least;
      })
      (Chain-frame (omega arith) (λ q p r. word_ext m m' q (λ x p' q'. same x (inr (omega arith))))
        c)
Chain-payload {m} {m'} a i n low fits same (inr u) (link {b} {bs} h c) =
    let bounds = UsedAt-bounds (_ + size b) bs a i u in
    link (At-frame low (λ q p r. word_ext m m' q (λ x p' q'. same x (inl (omega arith)))) h)
      (Chain-payload a i n (omega arith) fits same u c)

pub Heap-payload :
    {s : State} {bs : List Block} (m' : Bytes) (a i n : ℕ)
    → Heap s bs
    → UsedAt (first s) bs a i
    → n + 8 ≤ i
    → SameBut s.bytes m' a n
    → Heap (with_bytes s m') bs
Heap-payload {s} {bs} m' a i n h u fits same =
    let (_, c) = Chain-head h.chain in
    let reach = Chain-total c in
    let bounds = UsedAt-bounds (first s) bs a i u in
    record {
      arena = h.arena;
      listp = h.listp;
      chain = Chain-payload a i n (omega arith) fits same (inr u) h.chain;
      epilogue =
          word_ext s.bytes m' (s.lib.brk - 4) (λ x p q. same x (inr (omega arith))) ∙ h.epilogue;
      blocks = h.blocks;
      coalesced = h.coalesced;
    }
