-- ===== src/Mm/Merge.antt =====
-- `coalesce` of benchmark_base/malloc-lab/mm.c on a chain of blocks.
use jungle_malloc_benchmark.Base.{
  ℕ, ◌+◌, ◌-◌, ◌%◌, ◌^◌, ◌≤◌, ◌<◌, ◌≡◌, ◌⊎◌, refl, inr, List, [], ◌∷◌, ◌++◌, arith, subst, ◌∙◌,
  append_assoc,
}
use jungle_malloc_benchmark.Memory.{Ptr, Bytes, word}
use jungle_malloc_benchmark.Memlib.Bounds.{IsArena}
use jungle_malloc_benchmark.Machine.{State, ok}
use jungle_malloc_benchmark.Mm.{coalesce}
use jungle_malloc_benchmark.Mm.Block.{
  Block, used, free, size, alloc_bit, tag, Holds, with_bytes, write_block,
}
use jungle_malloc_benchmark.Mm.Coalesce.{Between, wrote, coalesce-ok}
use jungle_malloc_benchmark.Mm.Spec.{merge, slack, ahead}
use jungle_malloc_benchmark.Mm.Chain.{
  At, Chain, done, link, Chain-total, Chain-append, retile, write_block-word, write_block-byte,
}

-- The bytes outside of the blocks from `lo` to `hi` are the same.
abbrev pub SameOutside : Bytes → Bytes → Ptr → Ptr → Type 0
SameOutside m m' lo hi = (x : Ptr) → (x + 4 < lo) ⊎ (hi ≤ x + 4) → m' x ≡ m x

pub Holds-At :
    {s : State} {bp : Ptr} {b : Block}
    → IsArena s.lib
    → At s.bytes bp b
    → s.lib.start_brk + 4 ≤ bp
    → bp + size b ≤ s.lib.max_addr
    → Holds s (bp - 4) b × Holds s (bp + size b - 8) b
Holds-At {b} a h low high =
    let least = h.least in
    let is : (size b % 8 ≡ 0) × (size b < 2 ^ 32 - 8) = (h.mult, omega arith) in
    (
      record { above = omega arith; below = omega arith; is_size = is; content = h.hdr },
      record { above = omega arith; below = omega arith; is_size = is; content = h.ftr },
    )

-- What `coalesce` returns at `bp` in front of `p`: the merged block `q`, and memory `m'`.
pub record Merges (s : State) (lo : Ptr) (before : List Block) (p : Block) (k : ℕ)
    (after : List Block) (bp end : Ptr) : Type 0 where
  pub at : Ptr
  pub bytes : Bytes
  pub runs : coalesce bp s ≡ ok at (with_bytes s bytes)
  pub place : at + slack p ≡ bp
  pub chain : Chain bytes lo (before ++ merge p k after) end
  pub epilogue : word bytes (end - 4) ≡ 1
  pub same : SameOutside s.bytes bytes at (bp + k + ahead after)

module _ {s : State} {lo pb end : Ptr} {before : List Block} (p : Block) (k : ℕ)
    (arena : IsArena s.lib) (low : s.lib.start_brk + 4 ≤ lo) (high : end ≤ s.lib.max_addr)
    (front : Chain s.bytes lo before pb) (hp : At s.bytes pb p)
    (hb : At s.bytes (pb + size p) (free k)) where
  between :
      (n : Block)
      → size n % 8 ≡ 0
      → (alloc_bit n ≡ 0 → 8 ≤ size n)
      → pb + size p + k + size n ≤ end
      → word s.bytes (pb + size p + k - 4) ≡ tag n
      → Between s (pb + size p) p k n
  between n mult n_min fits hdr =
      let reach = Chain-total front in
      let p_low : s.lib.start_brk + 4 ≤ pb = omega arith in
      let p_high : pb + size p ≤ s.lib.max_addr = omega arith in
      let b_low : s.lib.start_brk + 4 ≤ pb + size p = omega arith in
      let b_high : pb + size p + k ≤ s.lib.max_addr = omega arith in
      let e : pb + size p - size p - 4 ≡ pb - 4 = omega arith in
      let n_low : s.lib.start_brk ≤ pb + size p + k - 4 = omega arith in
      let n_high : pb + size p + k - 4 + 4 ≤ s.lib.max_addr = omega arith in
      let n_size : size n < 2 ^ 32 - 8 = omega arith in
      let lows : s.lib.start_brk + size p + 4 ≤ pb + size p = omega arith in
      let highs : pb + size p + k + size n ≤ s.lib.max_addr = omega arith in
      let (p_hdr, p_ftr) = Holds-At arena hp p_low p_high in
      let (b_hdr, _) = Holds-At arena hb b_low b_high in
      record {
        p_hdr = rw e p_hdr;
        p_ftr = p_ftr;
        b_hdr = b_hdr;
        n_hdr = record { above = n_low; below = n_high; is_size = (mult, n_size); content = hdr };
        p_min = hp.least;
        b_min = hb.least;
        n_min = n_min;
        low = lows;
        high = highs;
        extent = arena.extent;
      }

-- The case where one free block of `z` bytes is written at `at`, over what lies up to `ys`.
overwrites :
    {s : State} {lo bp end : Ptr} {before : List Block} {p : Block} {k : ℕ} {after : List Block}
    (at : Ptr) (z : ℕ) (xs ys : List Block)
    → 4 ≤ lo
    → (8 ≤ z) × (z % 8 ≡ 0) × (z < 2 ^ 32 - 8)
    → Chain s.bytes lo xs at
    → Chain s.bytes (at + z) ys end
    → word s.bytes (end - 4) ≡ 1
    → coalesce bp s ≡ wrote s at (free z)
    → at + slack p ≡ bp
    → at + z ≡ bp + k + ahead after
    → xs ++ (free z ∷ ys) ≡ before ++ merge p k after
    → Merges s lo before p k after bp end
overwrites {s} {lo} {end} at z xs ys low fits front back epi runs place range same_blocks =
    let reach = Chain-total front in
    let reach' = Chain-total back in
    let at_low : 4 ≤ at = omega arith in
    let last : at + z ≤ end - 4 + 4 = omega arith in
    record {
      at = at;
      bytes = write_block s.bytes at (free z);
      runs = runs;
      place = place;
      chain =
          subst (λ l. Chain (write_block s.bytes at (free z)) lo l end) same_blocks
            (retile (free z) low fits.0 (fits.1, fits.2) front back);
      epilogue = write_block-word s.bytes at (free z) at_low fits.0 (end - 4) (inr last) ∙ epi;
      same = rw (← range) (write_block-byte s.bytes at (free z) at_low fits.0);
    }

-- The four cases of `coalesce`, and both kinds of what may lie behind the freed block.
module _ {s : State} {lo pb end : Ptr} {before : List Block} (k : ℕ) (arena : IsArena s.lib)
    (low : s.lib.start_brk + 4 ≤ lo) (high : end ≤ s.lib.max_addr)
    (front : Chain s.bytes lo before pb) (epi : word s.bytes (end - 4) ≡ 1) where
  used-end :
      (m : ℕ)
      → At s.bytes pb (used m)
      → At s.bytes (pb + m) (free k)
      → pb + m + k ≡ end
      → Merges s lo before (used m) k [] (pb + m) end
  used-end m hp hb e = record {
    at = pb + m;
    bytes = s.bytes;
    runs = coalesce-ok (used m) (used 0) (
        between (used m) k arena low high front hp hb (used 0) refl (omega arith) (omega arith)
          (rw e epi));
    place = omega arith;
    chain = Chain-append front (link hp (link hb (done e)));
    epilogue = epi;
    same = λ x h. refl;
  }

  used-used :
      (m j : ℕ) {r : List Block}
      → At s.bytes pb (used m)
      → At s.bytes (pb + m) (free k)
      → At s.bytes (pb + m + k) (used j)
      → Chain s.bytes (pb + m + k + j) r end
      → Merges s lo before (used m) k (used j ∷ r) (pb + m) end
  used-used m j hp hb hn c =
      let reach = Chain-total c in
      record {
        at = pb + m;
        bytes = s.bytes;
        runs = coalesce-ok (used m) (used j) (
            between (used m) k arena low high front hp hb (used j) hn.mult (omega arith)
              (omega arith) hn.hdr);
        place = omega arith;
        chain = Chain-append front (link hp (link hb (link hn c)));
        epilogue = epi;
        same = λ x h. refl;
      }

  used-free :
      (m j : ℕ) {r : List Block}
      → At s.bytes pb (used m)
      → At s.bytes (pb + m) (free k)
      → At s.bytes (pb + m + k) (free j)
      → Chain s.bytes (pb + m + k + j) r end
      → Merges s lo before (used m) k (free j ∷ r) (pb + m) end
  used-free m j {r} hp hb hn c =
      let reach = Chain-total c in
      let reach' = Chain-total front in
      let e : pb + m + (k + j) ≡ pb + m + k + j = omega arith in
      overwrites (pb + m) (k + j) (before ++ (used m ∷ [])) r (omega arith) (omega arith)
        (Chain-append front (link hp (done refl))) (rw e c) epi
        (coalesce-ok (used m) (free j) (
          between (used m) k arena low high front hp hb (free j) hn.mult (λ _. hn.least)
            (omega arith) hn.hdr))
        (omega arith) e (append_assoc before (used m ∷ []) (free (k + j) ∷ r))

  free-end :
      (m : ℕ)
      → At s.bytes pb (free m)
      → At s.bytes (pb + m) (free k)
      → pb + m + k ≡ end
      → Merges s lo before (free m) k [] (pb + m) end
  free-end m hp hb e =
      let reach = Chain-total front in
      let at_pb : pb + m - m ≡ pb = omega arith in
      overwrites pb (k + m) before [] (omega arith) (omega arith) front (done (omega arith)) epi
        (rw at_pb at (
          coalesce-ok (free m) (used 0) (
            between {s = s} (free m) k arena low high front hp hb (used 0) refl (omega arith)
              (omega arith) (rw e epi))))
        refl (omega arith) refl

  free-used :
      (m j : ℕ) {r : List Block}
      → At s.bytes pb (free m)
      → At s.bytes (pb + m) (free k)
      → At s.bytes (pb + m + k) (used j)
      → Chain s.bytes (pb + m + k + j) r end
      → Merges s lo before (free m) k (used j ∷ r) (pb + m) end
  free-used m j {r} hp hb hn c =
      let reach = Chain-total c in
      let reach' = Chain-total front in
      let at_pb : pb + m - m ≡ pb = omega arith in
      let e : pb + (k + m) ≡ pb + m + k = omega arith in
      overwrites pb (k + m) before (used j ∷ r) (omega arith) (omega arith) front (rw e (link hn c))
        epi
        (rw at_pb at (
          coalesce-ok (free m) (used j) (
            between {s = s} (free m) k arena low high front hp hb (used j) hn.mult (omega arith)
              (omega arith) hn.hdr)))
        refl (omega arith) refl

  free-free :
      (m j : ℕ) {r : List Block}
      → At s.bytes pb (free m)
      → At s.bytes (pb + m) (free k)
      → At s.bytes (pb + m + k) (free j)
      → Chain s.bytes (pb + m + k + j) r end
      → Merges s lo before (free m) k (free j ∷ r) (pb + m) end
  free-free m j {r} hp hb hn c =
      let reach = Chain-total c in
      let reach' = Chain-total front in
      let at_pb : pb + m - m ≡ pb = omega arith in
      let sizes : k + m + j ≡ k + (m + j) = omega arith in
      let e : pb + (k + (m + j)) ≡ pb + m + k + j = omega arith in
      overwrites pb (k + (m + j)) before r (omega arith) (omega arith) front (rw e c) epi
        (rw at_pb at (
          coalesce-ok (free m) (free j) (
            between {s = s} (free m) k arena low high front hp hb (free j) hn.mult (λ _. hn.least)
              (omega arith) hn.hdr)))
        refl (omega arith) (rw sizes refl)

  pub merges :
      (p : Block) {after : List Block}
      → At s.bytes pb p
      → At s.bytes (pb + size p) (free k)
      → Chain s.bytes (pb + size p + k) after end
      → Merges s lo before p k after (pb + size p) end
  merges (used m) hp hb (done e) = used-end m hp hb e
  merges (used m) hp hb (link {b = used j} hn c) = used-used m j hp hb hn c
  merges (used m) hp hb (link {b = free j} hn c) = used-free m j hp hb hn c
  merges (free m) hp hb (done e) = free-end m hp hb e
  merges (free m) hp hb (link {b = used j} hn c) = free-used m j hp hb hn c
  merges (free m) hp hb (link {b = free j} hn c) = free-free m j hp hb hn c
