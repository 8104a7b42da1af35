-- ===== src/Mm/Heap.antt =====
-- The invariant of the allocator: the arena holds the padding word, the prologue block, the blocks
-- and the epilogue header.
use jungle_malloc_benchmark.Base.{
  ℕ, ◌+◌, ◌-◌, ◌≤◌, ◌<◌, ◌≡◌, refl, List, [], ◌∷◌, ◌++◌, arith, All, ap, sym, ◌∙◌,
}
use jungle_malloc_benchmark.Memory.{Ptr, Bytes, word}
use jungle_malloc_benchmark.Memlib.Bounds.{IsArena}
use jungle_malloc_benchmark.Machine.{State}
use jungle_malloc_benchmark.Mm.Block.{Block, used, size}
use jungle_malloc_benchmark.Mm.Spec.{
  total, merge, release, release-append, IsBlock, Coalesced, UsedAt,
}
use jungle_malloc_benchmark.Mm.Chain.{At, Chain, done, link}

-- The prologue, and the first block behind it.
abbrev pub prologue : State → Ptr
prologue s = s.lib.start_brk + 8

abbrev pub first : State → Ptr
first s = prologue s + 8

pub record Heap (s : State) (bs : List Block) : Type 0 where
  pub arena : IsArena s.lib
  pub listp : s.heap_listp ≡ prologue s
  pub chain : Chain s.bytes (prologue s) (used 8 ∷ bs) s.lib.brk
  pub epilogue : word s.bytes (s.lib.brk - 4) ≡ 1
  pub blocks : All IsBlock bs
  pub coalesced : Coalesced bs

-- A chain cut in front of `rest`, with the block before the cut taken apart.
pub record Cut (m : Bytes) (lo : Ptr) (bs rest : List Block) (end : Ptr) : Type 0 where
  pub init : List Block
  pub last : Block
  pub pb : Ptr
  pub front : Chain m lo init pb
  pub at_last : At m pb last
  pub back : Chain m (pb + size last) rest end
  pub parts : bs ≡ init ++ (last ∷ [])
  pub place : pb + size last ≡ lo + total bs

pub cut :
    {m : Bytes} (q : Block) (before : List Block) {lo : Ptr} {rest : List Block} {end : Ptr}
    → Chain m lo ((q ∷ before) ++ rest) end
    → Cut m lo (q ∷ before) rest end
cut q [] {lo} (link h c) = record {
  init = [];
  last = q;
  pb = lo;
  front = done refl;
  at_last = h;
  back = c;
  parts = refl;
  place = omega arith;
}
cut q (r ∷ before) {lo} (link h c) =
    let inner = cut r before c in
    record {
      init = q ∷ inner.init;
      last = inner.last;
      pb = inner.pb;
      front = link h inner.front;
      at_last = inner.at_last;
      back = inner.back;
      parts = ap (λ l. q ∷ l) inner.parts;
      place = omega (arith, inner.place);
    }

-- The list after a block is freed behind the prologue.
pub release-prologue :
    (before : List Block) (k : ℕ) (after : List Block)
    → release (used 8 ∷ before) k after ≡ used 8 ∷ release before k after
release-prologue [] k after = refl
release-prologue (p ∷ before) k after = refl

pub release-Cut :
    {m : Bytes} {lo : Ptr} (before : List Block) {rest : List Block} {end : Ptr} (k : ℕ)
    (after : List Block) (c : Cut m lo (used 8 ∷ before) rest end)
    → c.init ++ merge c.last k after ≡ used 8 ∷ release before k after
release-Cut before k after c =
    sym (release-append c.init c.last k after)
    ∙ ap (λ l. release l k after) (sym c.parts)
    ∙ release-prologue before k after

-- The payloads of the blocks in use are the same.
abbrev pub Kept : Bytes → Bytes → Ptr → List Block → Type 0
Kept m m' lo bs = (a n x : ℕ) → UsedAt lo bs a n → a ≤ x → x + 8 < a + n → m' x ≡ m x
