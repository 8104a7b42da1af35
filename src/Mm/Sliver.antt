-- ===== src/Mm/Sliver.antt =====
-- `place` of benchmark_base/malloc-lab/mm.c on a free block that is 8 bytes larger than the request.
use jungle_malloc_benchmark.Base.{
  ℕ, ◌+◌, ◌-◌, ◌%◌, ◌^◌, ◌≤◌, ◌<◌, ◌≡◌, refl, inr, ne→==, List, [], ◌∷◌, ◌++◌, arith, ◌∙◌, sym, ap,
  subst, All, All-middle,
}
use jungle_malloc_benchmark.Memory.{Ptr, Bytes, word, null}
use jungle_malloc_benchmark.Machine.{State, ok}
use jungle_malloc_benchmark.Mm.{mm_malloc, adjust, find_fit}
use jungle_malloc_benchmark.Mm.Block.{Block, used, free, size, tag, with_bytes, write_block}
use jungle_malloc_benchmark.Mm.Spec.{total, Unfit}
use jungle_malloc_benchmark.Mm.Chain.{
  Chain, done, link, Chain-head, Chain-total, Chain-split, Chain-append, before-write_block,
  write_block-word, At-write_block,
}
use jungle_malloc_benchmark.Mm.Merge.{Holds-At}
use jungle_malloc_benchmark.Mm.Place.{place-whole}
use jungle_malloc_benchmark.Mm.Heap.{Heap, prologue, first}
use jungle_malloc_benchmark.Mm.Fit.{found, missing, find_fit-Fit}
use jungle_malloc_benchmark.Mm.Malloc.{adjust_bounds}

-- The first block that fits is the only first one.
fit_unique :
    (asize : ℕ) (xs : List Block) (k : ℕ) (cs : List Block) (ys : List Block) (j : ℕ)
    (bs : List Block)
    → asize ≤ k
    → asize ≤ j
    → All (Unfit asize) xs
    → All (Unfit asize) ys
    → xs ++ (free k ∷ cs) ≡ ys ++ (free j ∷ bs)
    → total xs ≡ total ys
fit_unique asize [] k cs [] j bs f g u v e = refl
fit_unique asize [] k cs (used m ∷ ys) j bs f g u v e = absurd (cc e)
fit_unique asize [] k cs (free m ∷ ys) j bs f g u v e = absurd (ground (arith, e, v.0))
fit_unique asize (used m ∷ xs) k cs [] j bs f g u v e = absurd (cc e)
fit_unique asize (free m ∷ xs) k cs [] j bs f g u v e = absurd (ground (arith, e, u.0))
fit_unique asize (x ∷ xs) k cs (y ∷ ys) j bs f g u v e =
    let heads : x ≡ y = cc e in
    let rest : total xs ≡ total ys = fit_unique asize xs k cs ys j bs f g u.1 v.1 (cc e) in
    omega (arith, ap size heads)

not_missing :
    (asize : ℕ) (xs : List Block) (k : ℕ) (cs : List Block)
    → asize ≤ k
    → All (Unfit asize) (xs ++ (free k ∷ cs))
    → ⊥
not_missing asize xs k cs fits all =
    let small : k < asize = All-middle (Unfit asize) xs cs all in omega arith

tag-injective : (b c : Block) → size b % 8 ≡ 0 → size c % 8 ≡ 0 → tag b ≡ tag c → b ≡ c
tag-injective (used m) (used n) p q e = ap used (omega arith)
tag-injective (used m) (free n) p q e = absurd (omega arith)
tag-injective (free m) (used n) p q e = absurd (omega arith)
tag-injective (free m) (free n) p q e = ap free (omega arith)

tag-least : (b : Block) → 8 ≤ size b → 8 ≤ tag b
tag-least (used m) h = omega arith
tag-least (free m) h = h

-- Memory determines the blocks: a chain runs through every chain from the same place.
Chain-follows :
    {m : Bytes} {lo mid end : Ptr} {xs ys : List Block}
    → Chain m lo xs mid
    → Chain m lo ys end
    → mid ≤ end
    → (zs : List Block) × Chain m mid zs end
Chain-follows {m} {end} {ys} (done e) d le = (ys, subst (λ q. Chain m q ys end) e d)
Chain-follows (link h c) (done e) le = absurd (omega (arith, Chain-total c, h.least))
Chain-follows {m} {end} (link {bp} {b} h c) (link {b = b'} {bs = ys'} h' d) le =
    let same : b' ≡ b = tag-injective b' b h'.mult h.mult (sym h'.hdr ∙ h.hdr) in
    Chain-follows c (subst (λ x. Chain m (bp + size x) ys' end) same d) le

module _ {s : State} (before : List Block) (after : List Block) (n : ℕ) (pos : 0 < n)
    (small : n < 2 ^ 31 - 16) (h : Heap s (before ++ (free (adjust n + 8) ∷ after)))
    (unfit : All (Unfit (adjust n)) before) where
  bp : Ptr
  bp = first s + total before

  sliver_finds : find_fit (adjust n) s ≡ ok bp s
  unfolding bp
  sliver_finds =
      let (p, runs, fit) = find_fit-Fit (adjust n) h in
      let here : p ≡ first s + total before = elim fit [
        | found before' k after' e unfit' fits at ↦ omega (
          arith,
          fit_unique (adjust n) before (adjust n + 8) after before' k after' (omega arith) fits
              unfit unfit' e,
        )
        | missing all e ↦
            absurd (not_missing (adjust n) before (adjust n + 8) after (omega arith) all)
      ] in
      subst (λ q. find_fit (adjust n) s ≡ ok q s) here runs

  -- Only the header and the footer of the block are written.
  sliver_runs : mm_malloc n s ≡ ok bp (with_bytes s (write_block s.bytes bp (used (adjust n))))
  unfolding mm_malloc bp
  sliver_runs =
      let at = first s + total before in
      let (front0, back0) = Chain-split (used 8 ∷ before) h.chain in
      let here : prologue s + (8 + total before) ≡ at = omega arith in
      let (hb, rest) =
        Chain-head
          (subst (λ q. Chain s.bytes q (free (adjust n + 8) ∷ after) s.lib.brk) here back0) in
      let reach = Chain-total rest in
      let bounds = adjust_bounds n pos (omega arith) in
      let arena = h.arena in
      let high : at + (adjust n + 8) ≤ s.lib.max_addr = omega arith in
      let low : s.lib.start_brk + 4 ≤ at = omega arith in
      let held = (Holds-At {s = s} arena hb low high).0 in
      rw (
        ne→== n 0 (omega arith),
        sliver_finds,
        ne→== at null (omega arith),
        place-whole (adjust n) held low high (omega arith) bounds.0 bounds.1 (omega arith),
      )

  -- The chain up to the end of the new block, and the room behind it.
  sliver_front :
      Chain
        (write_block s.bytes bp (used (adjust n)))
        (prologue s)
        ((used 8 ∷ before) ++ (used (adjust n) ∷ []))
        (bp + adjust n)
      × (bp + adjust n + 8 ≤ s.lib.brk)
  unfolding bp
  sliver_front =
      let at = first s + total before in
      let (front0, back0) = Chain-split (used 8 ∷ before) h.chain in
      let here : prologue s + (8 + total before) ≡ at = omega arith in
      let front = subst (λ q. Chain s.bytes (prologue s) (used 8 ∷ before) q) here front0 in
      let (hb, rest) =
        Chain-head
          (subst (λ q. Chain s.bytes q (free (adjust n + 8) ∷ after) s.lib.brk) here back0) in
      let reach = Chain-total rest in
      let bounds = adjust_bounds n pos (omega arith) in
      let arena = h.arena in
      let least : 8 ≤ adjust n = omega arith in
      let is : (adjust n % 8 ≡ 0) × (adjust n < 2 ^ 32 - 8) = omega arith in
      (
        Chain-append (before-write_block (used (adjust n)) (omega arith) least (omega arith) front)
            (link (At-write_block s.bytes at (used (adjust n)) (omega arith) least is) (done refl)),
        omega arith,
      )

  -- On a heap that satisfies the invariant, where the first free block that is large enough for 0
  -- < n < 2 ^ 31 - 16 bytes is 8 bytes larger than the adjusted size, and the word where the next
  -- header would be is below 8, `mm_malloc` returns that block and leaves a memory that no list
  -- of blocks describes.
  pub sliver_breaks :
      word s.bytes (first s + total before + adjust n - 4) < 8
      → (m : Bytes) × (mm_malloc n s ≡ ok (first s + total before) (with_bytes s m))
        × ((bs : List Block) → ¬ Heap (with_bytes s m) bs)
  unfolding bp
  sliver_breaks stale =
      let at = first s + total before in
      let m = write_block s.bytes at (used (adjust n)) in
      let bounds = adjust_bounds n pos (omega arith) in
      let least : 8 ≤ adjust n = omega arith in
      let end = at + adjust n in
      let unwritten : word m (end - 4) ≡ word s.bytes (end - 4) =
        write_block-word s.bytes at (used (adjust n)) (omega arith) least (end - 4)
          (inr (omega arith)) in
      let (front, room) = sliver_front in
      (
        m,
        sliver_runs,
        λ bs broken.
            let (zs, tail) = Chain-follows front broken.chain (omega arith) in
            no_block tail (omega arith) (omega (arith, unwritten)),
      )
    where
      no_block :
          {m : Bytes} {lo end : Ptr} {zs : List Block}
          → Chain m lo zs end
          → lo < end
          → word m (lo - 4) < 8
          → ⊥
      no_block (done e) le small = omega arith
      no_block (link {b} hb c) le small = omega (arith, tag-least b hb.least, hb.hdr)
