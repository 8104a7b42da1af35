-- ===== src/Mm/Place.antt =====
-- `place` of benchmark_base/malloc-lab/mm.c on one free block.
use jungle_malloc_benchmark.Base.{ℕ, ◌+◌, ◌-◌, ◌%◌, ◌^◌, ◌≤◌, ◌<◌, ◌≡◌, inl, lt→ltb, le→ltb, arith}
use jungle_malloc_benchmark.Memory.{Ptr, put}
use jungle_malloc_benchmark.Machine.{State, ok}
use jungle_malloc_benchmark.Machine.Access.{store-ok}
use jungle_malloc_benchmark.Mm.{place}
use jungle_malloc_benchmark.Mm.Block.{
  used, free, pack_free, pack_used, Holds, get_size-ok, ftrp-ok, next_blkp-ok, with_bytes,
  Holds-put, Holds-put_self, write_block,
}

module _ {s : State} {bp : Ptr} {k : ℕ} (asize : ℕ) (h : Holds s (bp - 4) (free k))
    (low : s.lib.start_brk + 4 ≤ bp) (high : bp + k ≤ s.lib.max_addr) (fits : asize ≤ k)
    (mult : asize % 8 ≡ 0) (least : 16 ≤ asize) where
  no_borrow : (k + 2 ^ 64 - asize) % 2 ^ 64 ≡ k - asize
  no_borrow = omega (arith, h.is_size)

  taken : (asize % 8 ≡ 0) × (asize < 2 ^ 32 - 8)
  taken = omega (arith, h.is_size)

  -- The rest is too small for a block: the header says `asize`, whatever the rest is.
  pub place-whole :
      k < asize + 16 → place bp asize s ≡ ok tt (with_bytes s (write_block s.bytes bp (used asize)))
  unfolding place write_block
  place-whole small =
      let s1 = with_bytes s (put s.bytes (bp - 4) (asize + 1)) in
      rw (
        get_size-ok h,
        pack_used asize mult,
        store-ok s (bp - 4) h.above h.below (asize + 1),
        ftrp-ok bp (Holds-put_self s (bp - 4) (used asize) h.above h.below taken),
        store-ok s1 (bp + asize - 8) (omega arith) (omega arith) (asize + 1),
        no_borrow,
        lt→ltb (k - asize) 16 (omega arith),
      )

  pub place-split :
      asize + 16 ≤ k
      → place bp asize s
        ≡ ok tt (
            with_bytes s
              (write_block (write_block s.bytes bp (used asize)) (bp + asize) (free (k - asize))))
  unfolding place write_block
  place-split big =
      let v = asize + 1 in
      let rest = k - asize in
      let s1 = with_bytes s (put s.bytes (bp - 4) v) in
      let s2 = with_bytes s (put s1.bytes (bp + asize - 8) v) in
      let s3 = with_bytes s (put s2.bytes (bp + asize - 4) rest) in
      let h1 : Holds s1 (bp - 4) (used asize) =
        Holds-put_self s (bp - 4) (used asize) h.above h.below taken in
      let h2 : Holds s2 (bp - 4) (used asize) =
        Holds-put (bp + asize - 8) v h1 (inl (omega arith)) in
      let h3 : Holds s3 (bp - 4) (used asize) =
        Holds-put (bp + asize - 4) rest h2 (inl (omega arith)) in
      let is : (rest % 8 ≡ 0) × (rest < 2 ^ 32 - 8) = omega (arith, h.is_size) in
      let above : s.lib.start_brk ≤ bp + asize - 4 = omega arith in
      let below : bp + asize - 4 + 4 ≤ s.lib.max_addr = omega arith in
      rw (
        get_size-ok h,
        pack_used asize mult,
        store-ok s (bp - 4) h.above h.below v,
        ftrp-ok bp h1,
        store-ok s1 (bp + asize - 8) (omega arith) (omega arith) v,
        no_borrow,
        le→ltb rest 16 (omega arith),
        next_blkp-ok bp h2,
        pack_free rest,
        store-ok s2 (bp + asize - 4) above below rest,
        next_blkp-ok bp h3,
        ftrp-ok (bp + asize) (Holds-put_self s2 (bp + asize - 4) (free rest) above below is),
        store-ok s3 (bp + asize + rest - 8) (omega arith) (omega arith) rest,
      )
