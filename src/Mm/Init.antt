-- ===== src/Mm/Init.antt =====
-- `mm_init` on an arena (benchmark_base/malloc-lab/mm.c), and the heap that it lays out.
use jungle_malloc_benchmark.Base.{
  ◌+◌, ◌-◌, ◌/◌, ◌≡◌, refl, inl, true, not, ◌==◌, ◌≢◌, ne→==, [], ◌∷◌, arith, ◌∙◌,
}
use jungle_malloc_benchmark.Memory.{Ptr, Bytes, put, null}
use jungle_malloc_benchmark.Memory.Laws.{word-put_self, word-put_outside}
use jungle_malloc_benchmark.Memlib.{sbrk_failed}
use jungle_malloc_benchmark.Memlib.Bounds.{IsArena}
use jungle_malloc_benchmark.Machine.{State, ok, and_then, pure, set_heap_listp}
use jungle_malloc_benchmark.Machine.Access.{store-ok, sbrk-ok, grown}
use jungle_malloc_benchmark.Mm.{mm_init, extend_heap, chunksize}
use jungle_malloc_benchmark.Mm.Block.{free, pack_used, with_bytes}
use jungle_malloc_benchmark.Mm.Chain.{done, link}
use jungle_malloc_benchmark.Mm.Heap.{Heap}
use jungle_malloc_benchmark.Mm.Grow.{Grows, grow-Heap}

-- The first 16 bytes: padding, prologue header and footer, epilogue header.
abbrev pub preamble : Bytes → Ptr → Bytes
preamble m p = put (put (put (put m p 0) (p + 4) 9) (p + 8) 9) (p + 12) 1

abbrev pub empty_heap : State → State
empty_heap s = record (grown s 16 (preamble s.bytes s.lib.brk)) { heap_listp = s.lib.brk + 8 }

module _ (s : State) (arena : IsArena s.lib) (empty : s.lib.brk ≡ s.lib.start_brk) where
  preamble-Heap : Heap (empty_heap s) []
  preamble-Heap =
      let p = s.lib.brk in
      let m1 = put s.bytes p 0 in
      let m2 = put m1 (p + 4) 9 in
      let m3 = put m2 (p + 8) 9 in
      let hdr : s.lib.start_brk + 8 - 4 ≡ p + 4 = omega arith in
      let ftr : s.lib.start_brk + 8 + 8 - 8 ≡ p + 8 = omega arith in
      let last : p + 16 - 4 ≡ p + 12 = omega arith in
      record {
        arena = record {
          nonnull = arena.nonnull;
          aligned = arena.aligned;
          extent = arena.extent;
          addressable = arena.addressable;
          brk_above = omega arith;
          brk_below = omega (arith, arena.extent);
        };
        listp = omega arith;
        chain =
            link
              (record {
                hdr = rw hdr (
                    word-put_outside m3 (p + 12) 1 (p + 4) (inl (omega arith))
                    ∙ word-put_outside m2 (p + 8) 9 (p + 4) (inl (omega arith))
                    ∙ word-put_self m1 (p + 4) 9 (omega arith));
                ftr = rw ftr (
                    word-put_outside m3 (p + 12) 1 (p + 8) (inl (omega arith))
                    ∙ word-put_self m2 (p + 8) 9 (omega arith));
                mult = refl;
                least = omega arith;
              })
              (done (omega arith));
        epilogue = rw last (word-put_self m3 (p + 12) 1 (omega arith));
        blocks = tt;
        coalesced = tt;
      }

  init-Grows : Grows (empty_heap s) [] 4096
  init-Grows =
      grow-Heap preamble-Heap refl (omega arith) (omega arith) (omega (arith, arena.extent))

  -- The four stores of `mm_init`, up to the call of `extend_heap`.
  pub init-extend :
      mm_init s ≡ and_then (extend_heap (4096 / 4) (empty_heap s)) (λ bp. pure (not (bp == null)))
  unfolding mm_init set_heap_listp
  init-extend =
      let p = s.lib.brk in
      let s0 = record (grown s 16 s.bytes) { heap_listp = p } in
      let s1 = with_bytes s0 (put s.bytes p 0) in
      let s2 = with_bytes s0 (put s1.bytes (p + 4) 9) in
      let s3 = with_bytes s0 (put s2.bytes (p + 8) 9) in
      rw (
        sbrk-ok s 16 (omega arith) (omega (arith, arena.extent)),
        ne→== p sbrk_failed (omega (arith, arena.addressable)),
        store-ok s0 p (omega arith) (omega (arith, arena.extent)) 0,
        pack_used 8 refl,
        store-ok s1 (p + 4) (omega arith) (omega (arith, arena.extent)) 9,
        store-ok s2 (p + 8) (omega arith) (omega (arith, arena.extent)) 9,
        pack_used 0 refl,
        store-ok s3 (p + 12) (omega arith) (omega (arith, arena.extent)) 1,
      )

  -- On an empty arena `mm_init` succeeds, and leaves a heap that satisfies the invariant, with
  -- one free block of `chunksize` bytes.
  pub mm_init-Heap :
      (m : Bytes) × (mm_init s ≡ ok true (grown (empty_heap s) chunksize m))
      × Heap (grown (empty_heap s) chunksize m) (free chunksize ∷ [])
  mm_init-Heap =
      let g = init-Grows in
      let nonnull : g.at ≢ null = omega (arith, g.place) in
      (g.bytes, init-extend ∙ rw (g.runs, ne→== g.at null nonnull), g.heap)
