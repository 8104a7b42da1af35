-- ===== src/Mm/Fit.antt =====
-- `find_fit` of benchmark_base/malloc-lab/mm.c on a chain of blocks.
use jungle_malloc_benchmark.Base.{
  ℕ, zero, suc, ◌+◌, ◌-◌, ◌≤◌, ◌<◌, ◌≡◌, ◌≢◌, refl, inl, inr, false, leb, leb→le, ◌==◌, Bool-cases,
  bit_and, List, [], ◌∷◌, ◌++◌, arith, All, ap, sym, subst,
}
use jungle_malloc_benchmark.Memory.{Ptr, null, word}
use jungle_malloc_benchmark.Memlib.Bounds.{IsArena}
use jungle_malloc_benchmark.Machine.{State, Run, ok, out_of_fuel, load, get_heap_listp}
use jungle_malloc_benchmark.Mm.{
  find_fit, find_fit_loop, fit_fuel, size_mask, get_size, get_alloc, next_blkp,
}
use jungle_malloc_benchmark.Mm.Block.{
  Block, used, free, size, Holds, get_size-ok, get_alloc-ok, next_blkp-ok,
}
use jungle_malloc_benchmark.Mm.Spec.{total, Unfit}
use jungle_malloc_benchmark.Mm.Chain.{Chain, done, link, Chain-head, Chain-total}
use jungle_malloc_benchmark.Mm.Merge.{Holds-At}
use jungle_malloc_benchmark.Mm.Heap.{Heap, first}

-- The result of a first-fit search among blocks laid out from `bp`.
pub data Fit (asize : ℕ) (bp : Ptr) (bs : List Block) (p : Ptr) : Type 0 where
  found :
      (before : List Block) (k : ℕ) (after : List Block)
      → bs ≡ before ++ (free k ∷ after)
      → All (Unfit asize) before
      → asize ≤ k
      → p ≡ bp + total before
      → Fit asize bp bs p
  missing : All (Unfit asize) bs → p ≡ null → Fit asize bp bs p

-- A block that does not fit is passed over.
skip :
    {asize : ℕ} {bp : Ptr} {bs : List Block} {p : Ptr} (b : Block)
    → Unfit asize b
    → Fit asize (bp + size b) bs p
    → Fit asize bp (b ∷ bs) p
skip b unfit (found before k after e all fits at) =
    found (b ∷ before) k after (ap (λ l. b ∷ l) e) (unfit, all) fits (omega arith)
skip b unfit (missing all e) = missing (unfit, all) e

-- What a search returns without a change of the state.
abbrev pub Finds : ℕ → Ptr → List Block → State → Run Ptr → Type 0
Finds asize bp bs s r = (p : Ptr) × (r ≡ ok p s) × Fit asize bp bs p

module _ {s : State} {end : Ptr} (asize : ℕ) (arena : IsArena s.lib) (high : end ≤ s.lib.max_addr)
    (epi : word s.bytes (end - 4) ≡ 1) where
  find_fit_loop-Fit :
      (fuel : ℕ) {bp : Ptr} {bs : List Block}
      → s.lib.start_brk + 4 ≤ bp
      → end < bp + fuel
      → Chain s.bytes bp bs end
      → Finds asize bp bs s (find_fit_loop asize fuel bp s)
  unfolding find_fit_loop
  find_fit_loop-Fit zero low enough c = absurd (omega (arith, Chain-total c))
  find_fit_loop-Fit (suc fuel) {bp} low enough (done e) =
      let h : Holds s (bp - 4) (used 0) = record {
        above = omega arith;
        below = omega arith;
        is_size = (refl, omega arith);
        content = rw e epi;
      } in
      (null, rw (get_size-ok h), missing tt refl)
  find_fit_loop-Fit (suc fuel) {bp} low enough (link {b = used n} {bs} hb c) =
      let reach = Chain-total c in
      let least = hb.least in
      let h = (Holds-At {s = s} arena hb low (omega arith)).0 in
      let (p, runs, fit) = find_fit_loop-Fit fuel (omega arith) (omega arith) c in
      let nonzero : (n == 0) ≡ false = ground arith in
      (p, rw (get_size-ok h, nonzero, get_alloc-ok h, next_blkp-ok bp h) runs, skip (used n) tt fit)
  find_fit_loop-Fit (suc fuel) {bp} low enough (link {b = free n} {bs} hb c) =
      let reach = Chain-total c in
      let least = hb.least in
      let h = (Holds-At {s = s} arena hb low (omega arith)).0 in
      let (p, runs, fit) = find_fit_loop-Fit fuel (omega arith) (omega arith) c in
      let nonzero : (n == 0) ≡ false = ground arith in
      elim (Bool-cases (leb asize n)) [
        | inl e ↦ (
          bp,
          rw (get_size-ok h, nonzero, get_alloc-ok h, e),
          found [] n bs refl tt (leb→le asize n e) (omega arith),
        )
        | inr e ↦ (
          p,
          rw (get_size-ok h, nonzero, get_alloc-ok h, e, next_blkp-ok bp h) runs,
          skip (free n) (ground arith) fit,
        )
      ]

-- On a heap that satisfies the invariant, `find_fit` ends, changes nothing, and returns the first
-- free block of at least `asize` bytes, or NULL where there is none.
pub find_fit-Fit :
    {s : State} {bs : List Block} (asize : ℕ)
    → Heap s bs
    → Finds asize (first s) bs s (find_fit asize s)
unfolding find_fit fit_fuel get_heap_listp
find_fit-Fit {s} asize h =
    let (hp, c) = Chain-head h.chain in
    let reach = Chain-total c in
    let arena = h.arena in
    let held = (Holds-At {s = s} h.arena hp (omega arith) (omega arith)).0 in
    let (p, runs, fit) =
      find_fit_loop-Fit {s = s} asize h.arena h.arena.brk_below h.epilogue
        (suc (s.lib.max_addr - s.lib.start_brk)) (omega arith) (omega arith) c in
    let held' = subst (λ q. Holds s (q - 4) (used 8)) (sym h.listp) held in
    let runs' =
      subst (λ q. find_fit_loop asize (fit_fuel s) (q + 8) s ≡ ok p s) (sym h.listp) runs in
    (p, rw (next_blkp-ok s.heap_listp held') runs', fit)

-- Each round moves `bp` on, and a read past the arena faults.
find_fit_loop-ends :
    (asize fuel : ℕ) (bp : Ptr) (s : State)
    → 0 < s.lib.start_brk
    → 0 < fuel
    → s.lib.max_addr + 1 < bp + fuel
    → find_fit_loop asize fuel bp s ≢ out_of_fuel
unfolding find_fit_loop get_size get_alloc next_blkp load
find_fit_loop-ends asize zero bp s pos some_fuel enough = absurd (omega arith)
find_fit_loop-ends asize (suc fuel) bp s pos some_fuel enough =
    ground
      (arith, find_fit_loop-ends asize fuel (bp + bit_and (word s.bytes (bp - 4)) size_mask) s pos)

-- No search of `find_fit` runs out of fuel, whatever the memory holds, if the arena does not
-- start at NULL.
pub find_fit-ends : (asize : ℕ) (s : State) → 0 < s.lib.start_brk → find_fit asize s ≢ out_of_fuel
unfolding find_fit fit_fuel get_heap_listp next_blkp get_size load
find_fit-ends asize s pos = ground (
  arith,
  find_fit_loop-ends asize (suc (s.lib.max_addr - s.lib.start_brk))
      (s.heap_listp + bit_and (word s.bytes (s.heap_listp - 4)) size_mask) s pos,
)
