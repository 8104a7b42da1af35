-- ===== src/Tests/Defects.antt =====
-- Runs of mm.c that go wrong.
use jungle_malloc_benchmark.Base.{
  ℕ, ◌+◌, ◌-◌, ◌<◌, ◌≡◌, refl, inl, inr, List, [], ◌∷◌, ◌++◌, arith, sym, ap, subst, All,
}
use jungle_malloc_benchmark.Memory.{Ptr, Bytes, word, put}
use jungle_malloc_benchmark.Memlib.{mem_sbrk}
use jungle_malloc_benchmark.Machine.{
  State, Run, ok, fault, out_of_fuel, pure, ◌>>◌, load, store, sbrk, memcpy, set_heap_listp,
  get_heap_listp,
}
use jungle_malloc_benchmark.Mm.{
  mm_init, mm_malloc, mm_free, mm_realloc, adjust, pack, get_size, get_alloc, ftrp, next_blkp,
  prev_blkp, join_next, join_prev, join_both, coalesce_case, coalesce, extend_heap,
}
use jungle_malloc_benchmark.Mm.Block.{Block, used, free, with_bytes}
use jungle_malloc_benchmark.Mm.Spec.{total, Unfit}
use jungle_malloc_benchmark.Mm.Heap.{Heap, first}
use jungle_malloc_benchmark.Mm.Malloc.{reused, extended, exhausted, Splits, malloc-Outcome}
use jungle_malloc_benchmark.Mm.Contract.{Granted, malloc-Answers}
use jungle_malloc_benchmark.Mm.Realloc.{realloc_copies_request, realloc_overlap}
use jungle_malloc_benchmark.Mm.Sliver.{sliver_breaks}
use jungle_malloc_benchmark.Tests.Allocator.{initial, booted, one_used, one_used-Heap}

adjust_4080 : adjust 4080 ≡ 4088
unfolding adjust
adjust_4080 = refl

adjust_40 : adjust 40 ≡ 48
unfolding adjust
adjust_40 = refl

-- A word of the memory that a run leaves.
abbrev word_after : {A : Type 0} → Run A → Ptr → ℕ
word_after (ok a s) p = word s.bytes p
word_after fault p = 0
word_after out_of_fuel p = 0

-- Nothing has been written where the sliver lies.
fresh : word booted.bytes 8196 ≡ 0
unfolding load store sbrk set_heap_listp get_heap_listp mem_sbrk word put pack get_size get_alloc
    ftrp next_blkp prev_blkp join_next join_prev join_both coalesce_case coalesce extend_heap
    mm_init
fresh = sym (ap (λ r. word_after r 8196) initial.1)

first_fit_sliver : Heap booted (free (adjust 4080 + 8) ∷ [])
first_fit_sliver = rw adjust_4080 initial.2

stale : word booted.bytes (first booted + 0 + adjust 4080 - 4) < 8
stale = rw (adjust_4080, fresh) (omega arith)

-- `mm_malloc(4080)` on the heap that `mm_init` leaves.
sliver_breaks_example :
    (m : Bytes) × (mm_malloc 4080 booted ≡ ok (first booted + 0) (with_bytes booted m))
    × ((bs : List Block) → ¬ Heap (with_bytes booted m) bs)
sliver_breaks_example =
    sliver_breaks [] [] 4080 (omega arith) (omega arith) first_fit_sliver tt stale

-- The only free block lies 32 bytes behind the first.
behind :
    (before : List Block) (k : ℕ) (after : List Block)
    → used 32 ∷ free 4064 ∷ [] ≡ before ++ (free k ∷ after)
    → total before ≡ 32
behind [] k after e = absurd (cc e)
behind (b ∷ []) k after e = (let f : b ≡ used 32 = cc e in rw f refl)
behind (b ∷ c ∷ []) k after e = absurd (cc e)
behind (b ∷ c ∷ d ∷ bs) k after e = absurd (cc e)

abbrev two_blocks : List Block
two_blocks = used 32 ∷ free 4064 ∷ []

abbrev at : Ptr
at = first one_used + 32

Splits-40 : Splits (adjust 40) two_blocks
Splits-40 = rw adjust_40 ((tt, (omega arith, tt)), omega arith)

fits_40 : ¬ All (Unfit (adjust 40)) two_blocks
fits_40 all = (let small : 4064 < 48 = subst (λ n. 4064 < n) adjust_40 all.1.0 in omega arith)

place_40 : {p : Ptr} {s' : State} → mm_malloc 40 one_used ≡ ok p s' → p ≡ at
place_40 {p} {s'} runs =
    elim (malloc-Outcome 40 one_used-Heap (omega arith) (omega arith) Splits-40) [
      | reused before k after m e unfit fits runs' heap kept ↦
          let same : p ≡ first one_used + total before = cc (runs, runs') in
          omega (arith, behind before k after e)
      | extended before k m unfit e fits runs' heap kept ↦ absurd (fits_40 unfit)
      | exhausted unfit full runs' ↦ absurd (fits_40 unfit)
    ]

-- `mm_malloc(40)` takes the block right behind the one in use.
granted :
    (s' : State) × (bs' : List Block) × (mm_malloc 40 one_used ≡ ok at s')
    × Granted one_used two_blocks 40 at s' bs'
granted = elim (malloc-Answers 40 one_used-Heap (omega arith) (omega arith) Splits-40) [
  | inl (p, s', bs', runs, g) ↦
      subst
        (λ q.
          (s' : State) × (bs' : List Block) × (mm_malloc 40 one_used ≡ ok q s')
          × Granted one_used two_blocks 40 q s' bs')
        (place_40 runs) (s', bs', runs, g)
  | inr (runs, unfit, full, heap) ↦ absurd (fits_40 unfit)
]

realloc_copies_request_example :
    mm_realloc (first one_used) 40 one_used
    ≡ (memcpy at (first one_used) 40 >> (mm_free (first one_used) >> pure at)) granted.0
realloc_copies_request_example =
    realloc_copies_request (first one_used) 32 40 one_used-Heap (inl (refl, refl)) (omega arith)
      (omega arith) granted.2 granted.3

realloc_overlap_example : mm_realloc (first one_used) 40 one_used ≡ fault
realloc_overlap_example =
    realloc_overlap (first one_used) 32 40 one_used-Heap (inl (refl, refl)) (omega arith)
      (omega arith) granted.2 granted.3 (omega arith) refl
