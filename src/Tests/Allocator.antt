-- ===== src/Tests/Allocator.antt =====
-- memlib.c and mm.c on an arena at address 4096 that holds zeros.
use jungle_malloc_benchmark.Base.{
  ℕ, ◌-◌, List, some, ◌+◌, ◌%◌, ◌^◌, ◌≤◌, ◌<◌, ◌≡◌, ◌≢◌, ◌⊎◌, refl, inl, inr, true, [], ◌∷◌, arith,
}
use jungle_malloc_benchmark.Memory.{Ptr, Bytes, word, put, copy, null}
use jungle_malloc_benchmark.Memlib.{
  Memlib, Errno, mem_init, mem_sbrk, mem_heapsize, max_heap, sbrk_failed,
}
use jungle_malloc_benchmark.Memlib.Grants.{sbrks, Tiles, sbrks-Tiles}
use jungle_malloc_benchmark.Memlib.Bounds.{IsArena, mem_init-IsArena}
use jungle_malloc_benchmark.Machine.{
  State, Run, ok, out_of_fuel, Cmd, pure, ◌>>=◌, ◌>>◌, load, store, load_size_t, sbrk, memcpy,
  set_heap_listp, get_heap_listp,
}
use jungle_malloc_benchmark.Machine.Access.{grown}
use jungle_malloc_benchmark.Mm.{
  pack, align, size_t_size, get_size, get_alloc, ftrp, next_blkp, prev_blkp, join_next, join_prev,
  join_both, coalesce_case, coalesce, extend_heap, find_fit_loop, fit_fuel, find_fit, place, adjust,
  mm_init, mm_malloc, mm_free, mm_realloc, chunksize,
}
use jungle_malloc_benchmark.Mm.Block.{used, free}
use jungle_malloc_benchmark.Mm.Spec.{release}
use jungle_malloc_benchmark.Mm.Heap.{Heap, first}
use jungle_malloc_benchmark.Mm.Init.{empty_heap, mm_init-Heap}
use jungle_malloc_benchmark.Mm.Fit.{Finds, find_fit-Fit, find_fit-ends}
use jungle_malloc_benchmark.Mm.Free.{Frees, free-Heap}
use jungle_malloc_benchmark.Mm.Malloc.{Outcome, malloc-Outcome}
use jungle_malloc_benchmark.Mm.Contract.{Answers, malloc-Answers}
use jungle_malloc_benchmark.Mm.Block.{with_bytes}
use jungle_malloc_benchmark.Mm.Take.{Takes, take-Heap}
use jungle_malloc_benchmark.Mm.Grow.{Grows, grow-Heap}
use jungle_malloc_benchmark.Mm.Malloc.{adjust_bounds, growth}
use jungle_malloc_benchmark.Mm.Realloc.{Moved, realloc-Answers}
use jungle_malloc_benchmark.Machine.Access.{refused}

abbrev pub lib : Memlib
lib = record { start_brk = 4096; brk = 4096; max_addr = 4096 + max_heap; errno = Errno.unset }

abbrev pub boot : State
boot = record { lib = lib; bytes = λ _. 0; heap_listp = 0 }

-- Two requests, a free, and a request that reuses the freed block.
script : Cmd (Ptr × Ptr × Ptr)
unfolding load store load_size_t sbrk memcpy set_heap_listp get_heap_listp mem_sbrk word put copy
    pack align size_t_size get_size get_alloc ftrp next_blkp prev_blkp join_next join_prev join_both
    coalesce_case coalesce extend_heap find_fit_loop fit_fuel find_fit place adjust mm_init
    mm_malloc mm_free mm_realloc
script = do
  mm_init
  a ← mm_malloc 24
  b ← mm_malloc 100
  mm_free a
  c ← mm_malloc 24
  pure (a, b, c)

abbrev value {ℓ} : {A : Type 0} {B : Type ℓ} → (A → B) → B → Run A → B
value f d (ok a s) = f a
value f d _ = d

script_addresses : value (λ r. r) (0, 0, 0) (script boot) ≡ (4112, 4144, 4112)
unfolding script
script_addresses = refl

pub boot-IsArena : IsArena lib
boot-IsArena = record {
  nonnull = omega arith;
  aligned = refl;
  extent = refl;
  addressable = omega arith;
  brk_above = omega arith;
  brk_below = omega arith;
}

mm_init-Heap_example :
    (m : Bytes) × (mm_init boot ≡ ok true (grown (empty_heap boot) chunksize m))
    × Heap (grown (empty_heap boot) chunksize m) (free chunksize ∷ [])
mm_init-Heap_example = mm_init-Heap boot boot-IsArena refl

-- The state after `mm_init`.
pub initial :
    (m : Bytes) × (mm_init boot ≡ ok true (grown (empty_heap boot) chunksize m))
    × Heap (grown (empty_heap boot) chunksize m) (free chunksize ∷ [])
initial = mm_init-Heap boot boot-IsArena refl

abbrev pub booted : State
booted = grown (empty_heap boot) chunksize initial.0

pub adjust_24 : adjust 24 ≡ 32
unfolding adjust
adjust_24 = refl

malloc-Outcome_example : Outcome booted (free chunksize ∷ []) (adjust 24) (mm_malloc 24 booted)
malloc-Outcome_example =
    malloc-Outcome 24 initial.2 (omega arith) (omega arith)
      (rw adjust_24 ((omega arith, tt), omega arith))

malloc-Answers_example : Answers booted (free chunksize ∷ []) 24
malloc-Answers_example =
    malloc-Answers 24 initial.2 (omega arith) (omega arith)
      (rw adjust_24 ((omega arith, tt), omega arith))

find_fit-Fit_example : Finds 32 (first booted) (free chunksize ∷ []) booted (find_fit 32 booted)
find_fit-Fit_example = find_fit-Fit 32 initial.2

find_fit-ends_example : find_fit 32 boot ≢ out_of_fuel
find_fit-ends_example = find_fit-ends 32 boot (omega arith)

adjust_bounds_example :
    (adjust 24 % 8 ≡ 0)
    × (16 ≤ adjust 24)
    × (24 + 8 ≤ adjust 24)
    × ((adjust 24 ≡ 16) ⊎ (adjust 24 < 24 + 16))
adjust_bounds_example = adjust_bounds 24 (omega arith) (omega arith)

grow-Heap_example : Grows booted (free chunksize ∷ []) 4096
grow-Heap_example = grow-Heap initial.2 refl (omega arith) (omega arith) (omega arith)

take-Heap_example : Takes booted [] chunksize [] 32
take-Heap_example = take-Heap [] chunksize [] 32 refl (omega arith) initial.2 (inr (omega arith))

-- The heap with one block of 32 bytes in use.
pub taken : Takes booted [] chunksize [] 32
taken = take-Heap [] chunksize [] 32 refl (omega arith) initial.2 (inr (omega arith))

abbrev pub one_used : State
one_used = with_bytes booted taken.bytes

pub one_used-Heap : Heap one_used (used 32 ∷ free 4064 ∷ [])
one_used-Heap = taken.heap

free-Heap_example : Frees one_used (first one_used + 0) (release [] 32 (free 4064 ∷ []))
free-Heap_example = free-Heap [] 32 (free 4064 ∷ []) one_used-Heap

realloc-Answers_example :
    ((at : Ptr) × Moved one_used (used 32 ∷ free 4064 ∷ []) (first one_used) 32 24 at)
    ⊎ ((mm_realloc (first one_used) 24 one_used ≡ ok null (refused one_used))
        × (one_used.lib.max_addr < one_used.lib.brk + growth (adjust 24))
        × Heap (refused one_used) (used 32 ∷ free 4064 ∷ []))
realloc-Answers_example =
    realloc-Answers (first one_used) 32 24 one_used-Heap (inl (refl, refl)) (omega arith)
      (omega arith) (omega arith) (rw adjust_24 ((tt, (omega arith, tt)), omega arith))

-- Two areas, with a negative request and one that is too large between them.
abbrev calls : List ℕ
calls = 4096 ∷ (2 ^ 32 - 8) ∷ 2 ^ 25 ∷ 16 ∷ []

sbrks-Tiles_example :
    Tiles lib.max_addr lib.brk calls (sbrks calls lib).0 (sbrks calls lib).1.brk
    × IsArena (sbrks calls lib).1
    × ((sbrks calls lib).1.start_brk ≡ 4096)
sbrks-Tiles_example = sbrks-Tiles calls lib boot-IsArena

sbrks_run : sbrks calls lib ≡ (
  4096 ∷ sbrk_failed ∷ sbrk_failed ∷ 8192 ∷ [],
  record lib { brk = 8208; errno = Errno.enomem },
)
unfolding mem_sbrk
sbrks_run = refl

lib_initialised : mem_init 4096 ≡ some lib
unfolding mem_init
lib_initialised = refl

mem_init-IsArena_example : IsArena lib × (mem_heapsize lib ≡ 0)
mem_init-IsArena_example = mem_init-IsArena 4096 refl (omega arith) lib_initialised
