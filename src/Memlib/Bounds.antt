-- ===== src/Memlib/Bounds.antt =====
-- The bounds of the arena of benchmark_base/malloc-lab/memlib.c.
use jungle_malloc_benchmark.Base.{refl, ℕ, ◌+◌, ◌-◌, ◌%◌, ◌^◌, ◌≤◌, ◌<◌, ◌≡◌, ◌⊎◌, some, arith}
use jungle_malloc_benchmark.Memory.{Ptr}
use jungle_malloc_benchmark.Memlib.{
  Memlib, Errno, max_heap, sbrk_failed, mem_init, mem_reset_brk, mem_sbrk, mem_heapsize,
}

-- A block that `malloc(MAX_HEAP)` can return: not NULL, 16-byte aligned, within the address space.
pub record IsArena (m : Memlib) : Type 0 where
  pub nonnull : 0 < m.start_brk
  pub aligned : m.start_brk % 8 ≡ 0
  pub extent : m.max_addr ≡ m.start_brk + max_heap
  pub addressable : m.max_addr < 2 ^ 64 - 1
  pub brk_above : m.start_brk ≤ m.brk
  pub brk_below : m.brk ≤ m.max_addr

-- If the address that `malloc` returned is a multiple of 8 and leaves room for MAX_HEAP bytes
-- below 2 ^ 64 - 1, and `mem_init` does not exit, the arena is well-formed and the heap is empty.
pub mem_init-IsArena :
    (p : Ptr) {m : Memlib}
    → p % 8 ≡ 0
    → p + max_heap < 2 ^ 64 - 1
    → mem_init p ≡ some m
    → IsArena m × (mem_heapsize m ≡ 0)
unfolding mem_init mem_heapsize
mem_init-IsArena p al fits e = ground arith

pub mem_reset_brk-IsArena :
    (m : Memlib) → IsArena m → IsArena (mem_reset_brk m) × (mem_heapsize (mem_reset_brk m) ≡ 0)
unfolding mem_reset_brk mem_heapsize
mem_reset_brk-IsArena m a = ground arith

-- On an arena, `mem_sbrk` either returns the old brk and moves it by `incr`, inside the arena, or
-- returns (void *)-1 with ENOMEM and moves nothing; the second exactly where `incr` is negative
-- as an `int` or the arena is too small.
pub mem_sbrk_outcomes :
    (incr : ℕ) (m : Memlib)
    → IsArena m
    → ((incr < 2 ^ 31)
        × (m.brk + incr ≤ m.max_addr)
        × (mem_sbrk incr m ≡ (m.brk, record m { brk = m.brk + incr }))
        × (m.brk < sbrk_failed)
        × IsArena (mem_sbrk incr m).1
        × (mem_heapsize (mem_sbrk incr m).1 ≡ mem_heapsize m + incr))
      ⊎ (((2 ^ 31 ≤ incr) ⊎ (m.max_addr < m.brk + incr))
          × (mem_sbrk incr m ≡ (sbrk_failed, record m { errno = Errno.enomem })))
unfolding mem_sbrk mem_heapsize
mem_sbrk_outcomes incr m a = ground arith

pub reset-brk : (m : Memlib) → (mem_reset_brk m).brk ≡ (mem_reset_brk m).start_brk
unfolding mem_reset_brk
reset-brk m = refl
