-- ===== src/Ranges.antt =====
-- The range list of benchmark_base/malloc-lab/mdriver.c: the payloads of the blocks that the driver
-- holds, newest first. A range record that `malloc` cannot provide ends the program and is left out.
pub mod Checks
pub mod Guarded
use jungle_malloc_benchmark.Base.{
  ℕ, ◌+◌, ◌-◌, ◌%◌, ◌^◌, Bool, true, false, not, ◌&&◌, ◌||◌, ltb, leb, ◌==◌, if◌then◌else◌, List,
  [], ◌∷◌,
}
use jungle_malloc_benchmark.Memory.{Ptr}
use jungle_malloc_benchmark.Memlib.{Memlib, mem_heap_lo, mem_heap_hi}

pub record Range : Type 0 where
  pub lo : Ptr
  pub hi : Ptr

-- Why a payload is refused.
pub data Refusal : Type 0 where
  misaligned outside overlap : Refusal

-- `assert(size > 0)` ends the program.
pub data Added : Type 0 where
  added : List Range → Added
  refused : Refusal → Added
  aborted : Added

abbrev pub alignment : ℕ
alignment = 8

-- `IS_ALIGNED(p)`, with its cast to `unsigned int`.
unfoldable pub is_aligned : Ptr → Bool
is_aligned p = p % 2 ^ 32 % alignment == 0

-- The test of the loop over the ranges.
abbrev pub touches : Ptr → Ptr → Range → Bool
touches lo hi p = (leb p.lo lo && leb lo p.hi) || (leb p.lo hi && leb hi p.hi)

unfoldable pub any_touches : Ptr → Ptr → List Range → Bool
any_touches lo hi [] = false
any_touches lo hi (p ∷ ranges) = touches lo hi p || any_touches lo hi ranges

abbrev pub leaves_heap : Memlib → Ptr → Ptr → Bool
leaves_heap m lo hi =
    ltb lo (mem_heap_lo m)
    || ltb (mem_heap_hi m) lo
    || ltb hi (mem_heap_lo m)
    || ltb (mem_heap_hi m) hi

unfoldable pub add_range : Memlib → List Range → Ptr → ℕ → Added
add_range m ranges lo size =
    let hi = lo + size - 1 in
    if size == 0
    then aborted
    else if not (is_aligned lo)
    then refused misaligned
    else if leaves_heap m lo hi
    then refused outside
    else if any_touches lo hi ranges
    then refused overlap
    else added (record { lo = lo; hi = hi } ∷ ranges)

unfoldable pub remove_range : List Range → Ptr → List Range
remove_range [] lo = []
remove_range (p ∷ ranges) lo = if p.lo == lo then ranges else p ∷ remove_range ranges lo

unfoldable pub clear_ranges : List Range → List Range
clear_ranges ranges = []
