-- ===== src/Mm/Take.antt =====
-- `place` on a well-formed heap.
use jungle_malloc_benchmark.Base.{
  ℕ, ◌+◌, ◌-◌, ◌%◌, ◌^◌, ◌≤◌, ◌<◌, ◌≡◌, ◌⊎◌, refl, inl, inr, eq→==, ne→==, List, [], ◌∷◌, ◌++◌,
  arith, ◌∙◌, subst, append_assoc, All,
}
use jungle_malloc_benchmark.Memory.{Ptr, Bytes, word}
use jungle_malloc_benchmark.Machine.{State, ok}
use jungle_malloc_benchmark.Mm.{place}
use jungle_malloc_benchmark.Mm.Block.{Block, used, free, with_bytes, write_block}
use jungle_malloc_benchmark.Mm.Spec.{total, carve, UsedAt, IsBlock, Coalesced, Apart}
use jungle_malloc_benchmark.Mm.Spec.Used.{UsedAt-bounds, UsedAt-append}
use jungle_malloc_benchmark.Mm.Chain.{
  Chain, done, Chain-head, Chain-total, Chain-split, Chain-frame, retile, write_block-word,
  write_block-byte,
}
use jungle_malloc_benchmark.Mm.Merge.{Holds-At}
use jungle_malloc_benchmark.Mm.Place.{place-whole, place-split}
use jungle_malloc_benchmark.Mm.Heap.{Heap, Kept, prologue, first}

carve-IsBlock :
    (before : List Block) (asize k : ℕ) (after : List Block)
    → asize % 8 ≡ 0
    → 16 ≤ asize
    → (k ≡ asize) ⊎ (asize + 16 ≤ k)
    → All IsBlock (before ++ (free k ∷ after))
    → All IsBlock (before ++ (carve asize k ++ after))
carve-IsBlock [] asize k after mult least (inl e) (b, all) =
    rw (eq→== k asize e) ((mult, least), all)
carve-IsBlock [] asize k after mult least (inr h) (b, all) =
    rw (ne→== k asize (omega arith)) ((mult, least), (omega arith, all))
carve-IsBlock (b ∷ before) asize k after mult least fits all =
    (all.0, carve-IsBlock before asize k after mult least fits all.1)

free-Coalesced :
    (k j : ℕ) (after : List Block) → Coalesced (free k ∷ after) → Coalesced (free j ∷ after)
free-Coalesced k j [] c = c
free-Coalesced k j (used m ∷ after) c = c
free-Coalesced k j (free m ∷ after) c = absurd c.0

carve_front :
    (asize k : ℕ) (after : List Block)
    → (k ≡ asize) ⊎ (asize + 16 ≤ k)
    → Coalesced (free k ∷ after)
    → Coalesced (carve asize k ++ after)
carve_front asize k after (inl e) c = rw (eq→== k asize e) (tt, c.1)
carve_front asize k after (inr h) c =
    rw (ne→== k asize (omega arith)) (tt, free-Coalesced k (k - asize) after c)

carve-Apart :
    (m : ℕ) (bs : List Block) (asize k : ℕ) (after : List Block)
    → Apart (free m) (bs ++ (free k ∷ after))
    → Apart (free m) (bs ++ (carve asize k ++ after))
carve-Apart m [] asize k after h = absurd h
carve-Apart m (used j ∷ bs) asize k after h = tt
carve-Apart m (free j ∷ bs) asize k after h = absurd h

carve-Coalesced :
    (before : List Block) (asize k : ℕ) (after : List Block)
    → (k ≡ asize) ⊎ (asize + 16 ≤ k)
    → Coalesced (before ++ (free k ∷ after))
    → Coalesced (before ++ (carve asize k ++ after))
carve-Coalesced [] asize k after fits c = carve_front asize k after fits c
carve-Coalesced (used m ∷ before) asize k after fits c =
    (tt, carve-Coalesced before asize k after fits c.1)
carve-Coalesced (free m ∷ before) asize k after fits c =
    (carve-Apart m before asize k after c.0, carve-Coalesced before asize k after fits c.1)

-- `place` takes `asize` bytes of a free block and touches nothing outside of it.
pub record Takes (s : State) (before : List Block) (k : ℕ) (after : List Block) (asize : ℕ)
    : Type 0 where
  pub bytes : Bytes
  pub runs : place (first s + total before) asize s ≡ ok tt (with_bytes s bytes)
  pub heap : Heap (with_bytes s bytes) (before ++ (carve asize k ++ after))
  pub kept : Kept s.bytes bytes (first s) (before ++ (free k ∷ after))

-- What the writes of `place` leave in memory.
record Carved (m m' : Bytes) (lo bp : Ptr) (xs : List Block) (k asize : ℕ) (ys : List Block)
    (end : Ptr) : Type 0 where
  chain : Chain m' lo (xs ++ (carve asize k ++ ys)) end
  epilogue : word m' (end - 4) ≡ word m (end - 4)
  same : (x : Ptr) → (x + 4 < bp) ⊎ (bp + k ≤ x + 4) → m' x ≡ m x

module _ {m : Bytes} {lo bp end : Ptr} {xs ys : List Block} {k asize : ℕ} (low : 4 ≤ lo)
    (mult : asize % 8 ≡ 0) (least : 16 ≤ asize) (is : (k % 8 ≡ 0) × (k < 2 ^ 32 - 8))
    (front : Chain m lo xs bp) (back : Chain m (bp + k) ys end) where
  whole-Carved : k ≡ asize → Carved m (write_block m bp (used asize)) lo bp xs k asize ys end
  whole-Carved e =
      let reach = Chain-total front in
      let reach' = Chain-total back in
      let bp_low : 4 ≤ bp = omega arith in
      let size_least : 8 ≤ asize = omega arith in
      record {
        chain = rw (eq→== k asize e) (
            retile (used asize) low size_least (omega arith) front
              (subst (λ t. Chain m (bp + t) ys end) e back));
        epilogue =
            write_block-word m bp (used asize) bp_low size_least (end - 4) (inr (omega arith));
        same = λ x h. write_block-byte m bp (used asize) bp_low size_least x (omega arith);
      }

  split-Carved :
      asize + 16 ≤ k
      → Carved m
          (write_block (write_block m bp (used asize)) (bp + asize) (free (k - asize)))
          lo
          bp
          xs
          k
          asize
          ys
          end
  split-Carved big =
      let reach = Chain-total front in
      let reach' = Chain-total back in
      let bp_low : 4 ≤ bp = omega arith in
      let size_least : 8 ≤ asize = omega arith in
      let rest_least : 8 ≤ k - asize = omega arith in
      let whole : bp + asize + (k - asize) ≡ bp + k = omega arith in
      let m1 = write_block m bp (used asize) in
      let front1 : Chain m1 lo (xs ++ (used asize ∷ [])) (bp + asize) =
        retile (used asize) low size_least (omega arith) front (done refl) in
      let back1 : Chain m1 (bp + k) ys end =
        Chain-frame (omega arith)
          (λ q inside _. write_block-word m bp (used asize) bp_low size_least q (inr (omega arith)))
          back in
      record {
        chain = rw (ne→== k asize (omega arith)) (
            subst (λ l. Chain (write_block m1 (bp + asize) (free (k - asize))) lo l end)
              (append_assoc xs (used asize ∷ []) (free (k - asize) ∷ ys))
              (retile (free (k - asize)) low rest_least (omega arith) front1 (rw whole back1)));
        epilogue =
            write_block-word m1 (bp + asize) (free (k - asize)) (omega arith) rest_least (end - 4)
              (inr (omega arith))
            ∙ write_block-word m bp (used asize) bp_low size_least (end - 4) (inr (omega arith));
        same = λ x h.
            write_block-byte m1 (bp + asize) (free (k - asize)) (omega arith) rest_least x
              (omega arith)
            ∙ write_block-byte m bp (used asize) bp_low size_least x (omega arith);
      }

-- A block in use and a free block do not overlap.
pub UsedAt-free :
    (lo : Ptr) (before : List Block) (k : ℕ) (after : List Block) (a n : ℕ)
    → UsedAt lo (before ++ (free k ∷ after)) a n
    → (a + n ≤ lo + total before) ⊎ (lo + total before + k ≤ a)
UsedAt-free lo before k after a n u = elim (UsedAt-append lo before (free k ∷ after) a n u) [
  | inl v ↦ inl (UsedAt-bounds lo before a n v).1
  | inr (inl (e, f)) ↦ absurd (cc f)
  | inr (inr v) ↦ inr (UsedAt-bounds (lo + total before + k) after a n v).0
]

module _ {s : State} (before : List Block) (k : ℕ) (after : List Block) (asize : ℕ)
    (mult : asize % 8 ≡ 0) (least : 16 ≤ asize) (h : Heap s (before ++ (free k ∷ after))) where
  -- The heap after any run of `place` that leaves the block carved.
  Carved-Takes :
      (fits : (k ≡ asize) ⊎ (asize + 16 ≤ k)) (m' : Bytes)
      → place (first s + total before) asize s ≡ ok tt (with_bytes s m')
      → Carved s.bytes m'
          (prologue s)
          (first s + total before)
          (used 8 ∷ before)
          k
          asize
          after
          s.lib.brk
      → Takes s before k after asize
  Carved-Takes fits m' runs c = record {
    bytes = m';
    runs = runs;
    heap = record {
      arena = h.arena;
      listp = h.listp;
      chain = c.chain;
      epilogue = c.epilogue ∙ h.epilogue;
      blocks = carve-IsBlock before asize k after mult least fits h.blocks;
      coalesced = carve-Coalesced before asize k after fits h.coalesced;
    };
    kept = λ a n x u above below. elim (UsedAt-free (first s) before k after a n u) [
      | inl front ↦ c.same x (inl (omega arith))
      | inr back ↦ c.same x (inr (omega arith))
    ];
  }

  -- `place` of `asize` bytes (a multiple of 8, from 16 on) into a free block of exactly that
  -- size, or at least 16 bytes larger, ends normally and carves the block; the invariant holds
  -- again and the payloads of the blocks in use are kept.
  pub take-Heap : (k ≡ asize) ⊎ (asize + 16 ≤ k) → Takes s before k after asize
  take-Heap fits =
      let bp = first s + total before in
      let (front0, back0) = Chain-split (used 8 ∷ before) h.chain in
      let here : prologue s + (8 + total before) ≡ bp = omega arith in
      let front : Chain s.bytes (prologue s) (used 8 ∷ before) bp =
        subst (λ q. Chain s.bytes (prologue s) (used 8 ∷ before) q) here front0 in
      let back : Chain s.bytes bp (free k ∷ after) s.lib.brk =
        subst (λ q. Chain s.bytes q (free k ∷ after) s.lib.brk) here back0 in
      let (hb, rest) = Chain-head back in
      let reach = Chain-total rest in
      let arena = h.arena in
      let high : bp + k ≤ s.lib.max_addr = omega arith in
      let low : s.lib.start_brk + 4 ≤ bp = omega arith in
      let held = (Holds-At {s = s} arena hb low high).0 in
      elim fits [
        | inl e ↦
            Carved-Takes (inl e) (write_block s.bytes bp (used asize))
              (place-whole asize held low high (omega arith) mult least (omega arith))
              (whole-Carved (omega arith) mult least held.is_size front rest e)
        | inr big ↦
            Carved-Takes (inr big)
              (write_block (write_block s.bytes bp (used asize)) (bp + asize) (free (k - asize)))
              (place-split asize held low high (omega arith) mult least big)
              (split-Carved (omega arith) mult least held.is_size front rest big)
      ]
