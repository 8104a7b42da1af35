-- ===== src/Mm/Coalesce.antt =====
-- How `coalesce` runs at a free block between two neighbours.
use jungle_malloc_benchmark.Base.{ℕ, ◌+◌, ◌-◌, ◌%◌, ◌^◌, ◌≤◌, ◌<◌, ◌≡◌, refl, inl, inr, arith}
use jungle_malloc_benchmark.Memory.{Ptr, put}
use jungle_malloc_benchmark.Memlib.{max_heap}
use jungle_malloc_benchmark.Machine.{State, Run, ok}
use jungle_malloc_benchmark.Machine.Access.{store-ok}
use jungle_malloc_benchmark.Mm.{coalesce, coalesce_case, join_next, join_prev, join_both}
use jungle_malloc_benchmark.Mm.Block.{
  Block, used, free, size, alloc_bit, tag, pack_free, Holds, get_size-ok, get_alloc-ok, ftrp-ok,
  next_blkp-ok, prev_blkp-ok, with_bytes, Holds-put, Holds-put_self, write_block,
}

-- A free block of `k` bytes at `bp`, behind `p` and in front of `n`. Where `n` is the epilogue its
-- size is 0 and it has only a header.
pub record Between (s : State) (bp : Ptr) (p : Block) (k : ℕ) (n : Block) : Type 0 where
  pub p_hdr : Holds s (bp - size p - 4) p
  pub p_ftr : Holds s (bp - 8) p
  pub b_hdr : Holds s (bp - 4) (free k)
  pub n_hdr : Holds s (bp + k - 4) n
  pub p_min : 8 ≤ size p
  pub b_min : 8 ≤ k
  pub n_min : alloc_bit n ≡ 0 → 8 ≤ size n
  pub low : s.lib.start_brk + size p + 4 ≤ bp
  pub high : bp + k + size n ≤ s.lib.max_addr
  pub extent : s.lib.max_addr ≡ s.lib.start_brk + max_heap

-- `bp`, with the bytes of `b` written there.
abbrev pub wrote : State → Ptr → Block → Run Ptr
wrote s bp b = ok bp (with_bytes s (write_block s.bytes bp b))

module _ {s : State} {bp : Ptr} {k : ℕ} where
  join_next-ok :
      {p : Block} (m : ℕ) → Between s bp p k (free m) → join_next bp k s ≡ wrote s bp (free (k + m))
  unfolding join_next write_block
  join_next-ok {p} m h =
      let no_wrap : (k + m) % 2 ^ 64 ≡ k + m = omega arith in
      let fits : ((k + m) % 8 ≡ 0) × (k + m < 2 ^ 32 - 8) = omega arith in
      let above : s.lib.start_brk ≤ bp - 4 = omega arith in
      let below : bp - 4 + 4 ≤ s.lib.max_addr = omega arith in
      let s1 = with_bytes s (put s.bytes (bp - 4) (tag (free (k + m)))) in
      rw (
        next_blkp-ok bp h.b_hdr,
        get_size-ok h.n_hdr,
        no_wrap,
        pack_free (k + m),
        store-ok s (bp - 4) above below (k + m),
        ftrp-ok bp (Holds-put_self s (bp - 4) (free (k + m)) above below fits),
        store-ok s1 (bp + (k + m) - 8) (omega arith) (omega arith) (k + m),
      )

  join_prev-ok :
      (m : ℕ) {n : Block}
      → Between s bp (free m) k n
      → join_prev bp k s ≡ wrote s (bp - m) (free (k + m))
  unfolding join_prev write_block
  join_prev-ok m h =
      let no_wrap : (k + m) % 2 ^ 64 ≡ k + m = omega arith in
      let above : s.lib.start_brk ≤ bp - m - 4 = omega arith in
      let below : bp - m - 4 + 4 ≤ s.lib.max_addr = omega arith in
      let at_end : bp + k - 8 ≡ bp - m + (k + m) - 8 = omega arith in
      let s1 = with_bytes s (put s.bytes (bp - m - 4) (tag (free (k + m)))) in
      let p_ftr1 : Holds s1 (bp - 8) (free m) =
        Holds-put (bp - m - 4) (k + m) h.p_ftr (inr (omega arith)) in
      rw (
        prev_blkp-ok bp h.p_ftr,
        get_size-ok h.p_hdr,
        no_wrap,
        pack_free (k + m),
        prev_blkp-ok bp h.p_ftr,
        store-ok s (bp - m - 4) above below (k + m),
        ftrp-ok bp (Holds-put (bp - m - 4) (k + m) h.b_hdr (inr (omega arith))),
        store-ok s1 (bp + k - 8) (omega arith) (omega arith) (k + m),
        prev_blkp-ok bp (Holds-put (bp + k - 8) (k + m) p_ftr1 (inl (omega arith))),
        at_end,
      )

  join_both-ok :
      (m j : ℕ)
      → Between s bp (free m) k (free j)
      → join_both bp k s ≡ wrote s (bp - m) (free (k + (m + j)))
  unfolding join_both write_block
  join_both-ok m j h =
      let no_wrap32 : (m + j) % 2 ^ 32 ≡ m + j = omega arith in
      let no_wrap : (k + (m + j)) % 2 ^ 64 ≡ k + (m + j) = omega arith in
      let total = k + (m + j) in
      let above : s.lib.start_brk ≤ bp - m - 4 = omega arith in
      let below : bp - m - 4 + 4 ≤ s.lib.max_addr = omega arith in
      let at_end : bp + k + j - 8 ≡ bp - m + total - 8 = omega arith in
      let s1 = with_bytes s (put s.bytes (bp - m - 4) total) in
      let p_ftr1 : Holds s1 (bp - 8) (free m) =
        Holds-put (bp - m - 4) total h.p_ftr (inr (omega arith)) in
      rw (
        prev_blkp-ok bp h.p_ftr,
        get_size-ok h.p_hdr,
        next_blkp-ok bp h.b_hdr,
        get_size-ok h.n_hdr,
        no_wrap32,
        no_wrap,
        pack_free total,
        prev_blkp-ok bp h.p_ftr,
        store-ok s (bp - m - 4) above below total,
        next_blkp-ok bp (Holds-put (bp - m - 4) total h.b_hdr (inr (omega arith))),
        ftrp-ok (bp + k) (Holds-put (bp - m - 4) total h.n_hdr (inr (omega arith))),
        store-ok s1 (bp + k + j - 8) (omega arith) (omega arith) total,
        prev_blkp-ok bp (Holds-put (bp + k + j - 8) total p_ftr1 (inl (omega arith))),
        at_end,
      )

-- What `coalesce` does at each pair of neighbours.
abbrev pub joined : State → Ptr → ℕ → Block → Block → Run Ptr
joined s bp k (used m) (used j) = ok bp s
joined s bp k (used m) (free j) = wrote s bp (free (k + j))
joined s bp k (free m) (used j) = wrote s (bp - m) (free (k + m))
joined s bp k (free m) (free j) = wrote s (bp - m) (free (k + (m + j)))

module _ {s : State} {bp : Ptr} {k : ℕ} where
  coalesce_case-ok :
      (p n : Block)
      → Between s bp p k n
      → coalesce_case (alloc_bit p) (alloc_bit n) k bp s ≡ joined s bp k p n
  unfolding coalesce_case
  coalesce_case-ok (used m) (used j) h = refl
  coalesce_case-ok (used m) (free j) h = join_next-ok j h
  coalesce_case-ok (free m) (used j) h = join_prev-ok m h
  coalesce_case-ok (free m) (free j) h = join_both-ok m j h

  pub coalesce-ok : (p n : Block) → Between s bp p k n → coalesce bp s ≡ joined s bp k p n
  unfolding coalesce
  coalesce-ok p n h =
      rw
        (
          prev_blkp-ok bp h.p_ftr,
          get_alloc-ok h.p_hdr,
          next_blkp-ok bp h.b_hdr,
          get_alloc-ok h.n_hdr,
          get_size-ok h.b_hdr,
        )
        (coalesce_case-ok p n h)
