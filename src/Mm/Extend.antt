-- ===== src/Mm/Extend.antt =====
-- The system call and the stores of `extend_heap` in benchmark_base/malloc-lab/mm.c.
use jungle_malloc_benchmark.Base.{
  ℕ, ◌+◌, ◌-◌, ◌/◌, ◌%◌, ◌^◌, ◌≤◌, ◌<◌, ◌≡◌, refl, inl, arith, ne→==,
}
use jungle_malloc_benchmark.Memory.{Bytes, put, null}
use jungle_malloc_benchmark.Memlib.{sbrk_failed}
use jungle_malloc_benchmark.Memlib.Bounds.{IsArena}
use jungle_malloc_benchmark.Machine.{State, ok}
use jungle_malloc_benchmark.Machine.Access.{store-ok, sbrk-ok, sbrk-refused, grown, refused}
use jungle_malloc_benchmark.Mm.{coalesce, extend_heap, even_bytes}
use jungle_malloc_benchmark.Mm.Block.{
  free, pack_free, pack_used, Holds, ftrp-ok, next_blkp-ok, Holds-put, Holds-put_self, write_block,
}

pub even_bytes_lem : (z : ℕ) → z % 8 ≡ 0 → z < 2 ^ 31 → even_bytes (z / 4) ≡ z
even_bytes_lem z mult small = ground arith

-- The old epilogue becomes the header of the new block, and a new epilogue ends the heap.
abbrev pub appended : State → ℕ → Bytes
appended s z = put (write_block s.bytes s.lib.brk (free z)) (s.lib.brk + z - 4) 1

module _ (s : State) {z : ℕ} (arena : IsArena s.lib) (mult : z % 8 ≡ 0) (least : 16 ≤ z)
    (small : z < 2 ^ 31) where
  pub extend-coalesce :
      s.lib.start_brk + 16 ≤ s.lib.brk
      → s.lib.brk + z ≤ s.lib.max_addr
      → extend_heap (z / 4) s ≡ coalesce s.lib.brk (grown s z (appended s z))
  unfolding extend_heap write_block
  extend-coalesce low room =
      let brk = s.lib.brk in
      let s0 = grown s z s.bytes in
      let s1 = grown s z (put s.bytes (brk - 4) z) in
      let s2 = grown s z (put s1.bytes (brk + z - 8) z) in
      let above : s.lib.start_brk ≤ brk - 4 = omega arith in
      let below : brk - 4 + 4 ≤ s.lib.max_addr = omega arith in
      let is : (z % 8 ≡ 0) × (z < 2 ^ 32 - 8) = (mult, omega arith) in
      let h1 : Holds s1 (brk - 4) (free z) = Holds-put_self s0 (brk - 4) (free z) above below is in
      let h2 : Holds s2 (brk - 4) (free z) = Holds-put (brk + z - 8) z h1 (inl (omega arith)) in
      rw (
        even_bytes_lem z mult small,
        sbrk-ok s z small room,
        ne→== brk sbrk_failed (omega arith),
        pack_free z,
        store-ok s0 (brk - 4) above below z,
        ftrp-ok brk h1,
        store-ok s1 (brk + z - 8) (omega arith) (omega arith) z,
        next_blkp-ok brk h2,
        pack_used 0 refl,
        store-ok s2 (brk + z - 4) (omega arith) (omega arith) 1,
      )

  pub extend-refused : s.lib.max_addr < s.lib.brk + z → extend_heap (z / 4) s ≡ ok null (refused s)
  unfolding extend_heap
  extend-refused full = rw (even_bytes_lem z mult small, sbrk-refused s z small full)
