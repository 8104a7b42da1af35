-- ===== src/Memlib/Grants.antt =====
-- Sequences of `mem_sbrk` calls (benchmark_base/malloc-lab/memlib.c).
use jungle_malloc_benchmark.Base.{
  ℕ, ◌+◌, ◌^◌, ◌≤◌, ◌<◌, ◌≡◌, ◌⊎◌, refl, inl, inr, subst, List, [], ◌∷◌,
}
use jungle_malloc_benchmark.Memory.{Ptr}
use jungle_malloc_benchmark.Memlib.{Memlib, Errno, sbrk_failed, mem_sbrk}
use jungle_malloc_benchmark.Memlib.Bounds.{IsArena, mem_sbrk_outcomes}

-- The calls, one after the other, and what they returned.
abbrev pub sbrks : List ℕ → Memlib → List Ptr × Memlib
sbrks [] m = ([], m)
sbrks (incr ∷ incrs) m =
    let (p, m1) = mem_sbrk incr m in let (ps, m2) = sbrks incrs m1 in (p ∷ ps, m2)

-- From `brk` on, each answer is the start of the next area, or the refusal of a request that is
-- negative or too large for what is left; the last area ends at `end`.
abbrev pub Tiles : (max_addr brk : Ptr) → List ℕ → List Ptr → (end : Ptr) → Type 0
Tiles max_addr brk [] [] end = brk ≡ end
Tiles max_addr brk [] (p ∷ ps) end = ⊥
Tiles max_addr brk (incr ∷ incrs) [] end = ⊥
Tiles max_addr brk (incr ∷ incrs) (p ∷ ps) end =
    ((incr < 2 ^ 31)
      × (brk + incr ≤ max_addr)
      × (p ≡ brk)
      × (p < sbrk_failed)
      × Tiles max_addr (brk + incr) incrs ps end)
    ⊎ (((2 ^ 31 ≤ incr) ⊎ (max_addr < brk + incr))
        × (p ≡ sbrk_failed)
        × Tiles max_addr brk incrs ps end)

-- On an arena, any sequence of `mem_sbrk` calls, with negative increments among them: each call
-- returns the start of the area behind the last one and moves the brk to its end, inside the
-- arena, or returns (void *)-1 and leaves the brk; it refuses exactly where the increment is
-- negative as an `int` or larger than what is left. The areas lie one after the other up to the
-- final brk, the arena is well-formed again and its start is the same.
pub sbrks-Tiles :
    (incrs : List ℕ) (m : Memlib)
    → IsArena m
    → Tiles m.max_addr m.brk incrs (sbrks incrs m).0 (sbrks incrs m).1.brk
      × IsArena (sbrks incrs m).1
      × ((sbrks incrs m).1.start_brk ≡ m.start_brk)
sbrks-Tiles [] m a = (refl, a, refl)
sbrks-Tiles (incr ∷ incrs) m a = elim (mem_sbrk_outcomes incr m a) [
  | inl (pos, room, runs, valid, arena, _) ↦
      let moved : Memlib = record m { brk = m.brk + incr } in
      let b : IsArena moved = subst (λ (r : Ptr × Memlib). IsArena r.1) runs arena in
      let (tiles, last, start) = sbrks-Tiles incrs moved b in
      rw runs (inl (pos, room, refl, valid, tiles), last, start)
  | inr (why, runs) ↦
      let kept : Memlib = record m { errno = Errno.enomem } in
      let b : IsArena kept = record {
        nonnull = a.nonnull;
        aligned = a.aligned;
        extent = a.extent;
        addressable = a.addressable;
        brk_above = a.brk_above;
        brk_below = a.brk_below;
      } in
      let (tiles, last, start) = sbrks-Tiles incrs kept b in
      rw runs (inr (why, refl, tiles), last, start)
]
