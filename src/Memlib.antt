-- ===== src/Memlib.antt =====
-- benchmark_base/malloc-lab/memlib.c: the simulated brk pointer. The arena is the range from
-- `start_brk` up to, not including, `max_addr`; `mem_brk` is one past the last byte in use.
pub mod Bounds
pub mod Grants
use jungle_malloc_benchmark.Base.{
  ℕ, ◌+◌, ◌-◌, ◌*◌, ◌^◌, ◌||◌, Option, none, some, ltb, leb, ◌==◌, if◌then◌else◌,
}
use jungle_malloc_benchmark.Memory.{Ptr, null}

pub data Errno : Type 0 where
  unset enomem : Errno

-- The file's private variables, and the `errno` that it sets.
pub record Memlib : Type 0 where
  pub start_brk : Ptr
  pub brk : Ptr
  pub max_addr : Ptr
  pub errno : Errno

-- `MAX_HEAP` of config.h.
abbrev pub max_heap : ℕ
max_heap = 20 * 2 ^ 20

-- `(void *)-1`.
abbrev pub sbrk_failed : Ptr
sbrk_failed = 2 ^ 64 - 1

-- `storage` is what `malloc(MAX_HEAP)` returned; `none` is `exit(1)`.
unfoldable pub mem_init : Ptr → Option Memlib
mem_init storage =
    if storage == null
    then none
    else some record {
      start_brk = storage;
      brk = storage;
      max_addr = storage + max_heap;
      errno = Errno.unset;
    }

unfoldable pub mem_reset_brk : Memlib → Memlib
mem_reset_brk m = record m { brk = m.start_brk }

-- `p + incr`, where `incr` is the bit pattern of an `int`, negative from 2 ^ 31 on.
abbrev pub shifted : Ptr → ℕ → Ptr
shifted p incr = if ltb incr (2 ^ 31) then p + incr else p - (2 ^ 32 - incr)

unfoldable pub mem_sbrk : ℕ → Memlib → Ptr × Memlib
mem_sbrk incr m =
    if leb (2 ^ 31) incr || ltb m.max_addr (shifted m.brk incr)
    then (sbrk_failed, record m { errno = Errno.enomem })
    else (m.brk, record m { brk = shifted m.brk incr })

unfoldable pub mem_heap_lo : Memlib → Ptr
mem_heap_lo m = m.start_brk

unfoldable pub mem_heap_hi : Memlib → Ptr
mem_heap_hi m = m.brk - 1

-- A `size_t` difference of pointers.
unfoldable pub mem_heapsize : Memlib → ℕ
mem_heapsize m = m.brk - m.start_brk
