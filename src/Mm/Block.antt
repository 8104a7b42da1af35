-- ===== src/Mm/Block.antt =====
-- Blocks as abstract data, and how one is written and read in memory.
use jungle_malloc_benchmark.Base.{
  ℕ, ◌+◌, ◌-◌, ◌%◌, ◌^◌, ◌≤◌, ◌<◌, ◌≡◌, ◌⊎◌, arith, bit_or-zero, bit_or-one, bit_and-one,
  bit_and-clear_low, bit_and,
}
use jungle_malloc_benchmark.Memory.{Ptr, Bytes, word, put}
use jungle_malloc_benchmark.Memory.Laws.{word-put_self, word-put_outside}
use jungle_malloc_benchmark.Machine.{State, ok}
use jungle_malloc_benchmark.Machine.Access.{load-ok}
use jungle_malloc_benchmark.Mm.{
  pack, size_mask, get_size, get_alloc, hdrp, ftrp, next_blkp, prev_blkp,
}

-- A block by its size in bytes, header and footer included.
pub data Block : Type 0 where
  used free : ℕ → Block

abbrev pub size : Block → ℕ
size (used n) = n
size (free n) = n

abbrev pub alloc_bit : Block → ℕ
alloc_bit (used n) = 1
alloc_bit (free n) = 0

abbrev pub tag : Block → ℕ
tag (used n) = n + 1
tag (free n) = n

-- A size that a header can hold.
abbrev pub IsSize : ℕ → Type 0
IsSize n = (n % 8 ≡ 0) × (n < 2 ^ 32 - 8)

pub pack_free : (n : ℕ) → pack n 0 ≡ tag (free n)
unfolding pack
pack_free n = omega (arith, bit_or-zero n)

pub pack_used : (n : ℕ) → n % 8 ≡ 0 → pack n 1 ≡ tag (used n)
unfolding pack
pack_used n h = omega (arith, bit_or-one n)

tag-size : (b : Block) → IsSize (size b) → bit_and (tag b) size_mask ≡ size b
tag-size (used n) h = omega (arith, bit_and-clear_low (n + 1))
tag-size (free n) h = omega (arith, bit_and-clear_low n)

tag-alloc : (b : Block) → IsSize (size b) → bit_and (tag b) 1 ≡ alloc_bit b
tag-alloc (used n) h = omega (arith, bit_and-one (n + 1))
tag-alloc (free n) h = omega (arith, bit_and-one n)

pub tag-lt : (b : Block) → IsSize (size b) → tag b < 2 ^ 32
tag-lt (used n) h = omega arith
tag-lt (free n) h = omega arith

-- The word at `p` is the tag of `b`, and can be read.
pub record Holds (s : State) (p : Ptr) (b : Block) : Type 0 where
  pub above : s.lib.start_brk ≤ p
  pub below : p + 4 ≤ s.lib.max_addr
  pub is_size : IsSize (size b)
  pub content : word s.bytes p ≡ tag b

module _ {s : State} {p : Ptr} {b : Block} (h : Holds s p b) where
  pub get_size-ok : get_size p s ≡ ok (size b) s
  unfolding get_size
  get_size-ok = rw (load-ok s p h.above h.below, h.content, tag-size b h.is_size)

  pub get_alloc-ok : get_alloc p s ≡ ok (alloc_bit b) s
  unfolding get_alloc
  get_alloc-ok = rw (load-ok s p h.above h.below, h.content, tag-alloc b h.is_size)

module _ {s : State} (bp : Ptr) {b : Block} where
  pub ftrp-ok : Holds s (hdrp bp) b → ftrp bp s ≡ ok (bp + size b - 8) s
  unfolding ftrp
  ftrp-ok h = rw (get_size-ok h)

  pub next_blkp-ok : Holds s (hdrp bp) b → next_blkp bp s ≡ ok (bp + size b) s
  unfolding next_blkp
  next_blkp-ok h = rw (get_size-ok h)

  pub prev_blkp-ok : Holds s (bp - 8) b → prev_blkp bp s ≡ ok (bp - size b) s
  unfolding prev_blkp
  prev_blkp-ok h = rw (get_size-ok h)

abbrev pub with_bytes : State → Bytes → State
with_bytes s m = record s { bytes = m }

-- A write elsewhere leaves a tag alone, and one at its place is read back.
pub Holds-put :
    {s : State} {p : Ptr} {b : Block} (q : Ptr) (v : ℕ)
    → Holds s p b
    → (p + 4 ≤ q) ⊎ (q + 4 ≤ p)
    → Holds (with_bytes s (put s.bytes q v)) p b
Holds-put {s} {p} {b} q v h apart = record {
  above = h.above;
  below = h.below;
  is_size = h.is_size;
  content = rw (word-put_outside s.bytes q v p apart) h.content;
}

pub Holds-put_self :
    (s : State) (p : Ptr) (b : Block)
    → s.lib.start_brk ≤ p
    → p + 4 ≤ s.lib.max_addr
    → IsSize (size b)
    → Holds (with_bytes s (put s.bytes p (tag b))) p b
Holds-put_self s p b above below is_size = record {
  above = above;
  below = below;
  is_size = is_size;
  content = word-put_self s.bytes p (tag b) (tag-lt b is_size);
}

-- The header and the footer of a block at `bp`.
unfoldable pub write_block : Bytes → Ptr → Block → Bytes
write_block m bp b = put (put m (bp - 4) (tag b)) (bp + size b - 8) (tag b)
