-- ===== src/Mm/Chain.antt =====
-- Blocks laid out one behind the other in memory.
use jungle_malloc_benchmark.Base.{
  ◌+◌, ◌-◌, ◌%◌, ◌≤◌, ◌<◌, ◌≡◌, ◌⊎◌, inl, inr, List, [], ◌∷◌, ◌++◌, arith, sym, ◌∙◌,
}
use jungle_malloc_benchmark.Memory.{Ptr, Bytes, word, put}
use jungle_malloc_benchmark.Memory.Laws.{put-outside, word-put_self, word-put_outside}
use jungle_malloc_benchmark.Mm.Block.{Block, size, tag, tag-lt, IsSize, write_block}
use jungle_malloc_benchmark.Mm.Spec.{total}

-- `b` lies at `bp`: its header and its footer hold its tag.
pub record At (m : Bytes) (bp : Ptr) (b : Block) : Type 0 where
  pub hdr : word m (bp - 4) ≡ tag b
  pub ftr : word m (bp + size b - 8) ≡ tag b
  pub mult : size b % 8 ≡ 0
  pub least : 8 ≤ size b

-- The blocks `bs` fill the memory from `bp` to `end` (each header lies 4 bytes further down).
pub data Chain (m : Bytes) : Ptr → List Block → Ptr → Type 0 where
  done : {bp end : Ptr} → bp ≡ end → Chain m bp [] end
  link :
      {bp end : Ptr} {b : Block} {bs : List Block}
      → At m bp b
      → Chain m (bp + size b) bs end
      → Chain m bp (b ∷ bs) end

pub Chain-head :
    {m : Bytes} {bp end : Ptr} {b : Block} {bs : List Block}
    → Chain m bp (b ∷ bs) end
    → At m bp b × Chain m (bp + size b) bs end
Chain-head (link h c) = (h, c)

pub Chain-total :
    {m : Bytes} {bp end : Ptr} {bs : List Block} → Chain m bp bs end → bp + total bs ≡ end
Chain-total (done e) = omega arith
Chain-total (link h c) = omega (arith, Chain-total c)

pub Chain-append :
    {m : Bytes} {bp mid end : Ptr} {xs ys : List Block}
    → Chain m bp xs mid
    → Chain m mid ys end
    → Chain m bp (xs ++ ys) end
Chain-append (done e) d = rw e d
Chain-append (link h c) d = link h (Chain-append c d)

pub Chain-split :
    {m : Bytes} (xs : List Block) {bp : Ptr} {ys : List Block} {end : Ptr}
    → Chain m bp (xs ++ ys) end
    → Chain m bp xs (bp + total xs) × Chain m (bp + total xs) ys end
Chain-split {m} [] {bp} {ys} {end} c = let e : bp + 0 ≡ bp = omega arith in (done (sym e), rw e c)
Chain-split {m} (x ∷ xs) {bp} {ys} {end} (link h c) =
    let (front, back) = Chain-split xs c in
    let e : bp + (size x + total xs) ≡ bp + size x + total xs = omega arith in
    (link h (rw e front), rw e back)

-- The words of the blocks from `lo` to `hi` are the same.
abbrev pub SameWords : Bytes → Bytes → Ptr → Ptr → Type 0
SameWords m m' lo hi = (q : Ptr) → lo ≤ q + 4 → q + 8 ≤ hi → word m' q ≡ word m q

pub At-frame :
    {m m' : Bytes} {bp : Ptr} {b : Block}
    → 4 ≤ bp
    → SameWords m m' bp (bp + size b)
    → At m bp b
    → At m' bp b
At-frame {bp} {b} low same h = record {
  hdr = same (bp - 4) (omega arith) (omega (arith, h.least)) ∙ h.hdr;
  ftr = same (bp + size b - 8) (omega (arith, h.least)) (omega (arith, h.least)) ∙ h.ftr;
  mult = h.mult;
  least = h.least;
}

pub Chain-frame :
    {m m' : Bytes} {bp end : Ptr} {bs : List Block}
    → 4 ≤ bp
    → SameWords m m' bp end
    → Chain m bp bs end
    → Chain m' bp bs end
Chain-frame low same (done e) = done e
Chain-frame low same (link {bp} {b} h c) =
    let reach = Chain-total c in
    link (At-frame low (λ q above below. same q above (omega arith)) h)
      (Chain-frame (omega arith) (λ q above below. same q (omega arith) below) c)

module _ (m : Bytes) (bp : Ptr) (b : Block) (low : 4 ≤ bp) (least : 8 ≤ size b) where
  pub write_block-word :
      (q : Ptr) → (q + 8 ≤ bp) ⊎ (bp + size b ≤ q + 4) → word (write_block m bp b) q ≡ word m q
  unfolding write_block
  write_block-word q (inl h) =
      word-put_outside (put m (bp - 4) (tag b)) (bp + size b - 8) (tag b) q (inl (omega arith))
      ∙ word-put_outside m (bp - 4) (tag b) q (inl (omega arith))
  write_block-word q (inr h) =
      word-put_outside (put m (bp - 4) (tag b)) (bp + size b - 8) (tag b) q (inr (omega arith))
      ∙ word-put_outside m (bp - 4) (tag b) q (inr (omega arith))

  -- Bytes outside of the block's range do not change.
  pub write_block-byte :
      (x : Ptr) → (x + 4 < bp) ⊎ (bp + size b ≤ x + 4) → write_block m bp b x ≡ m x
  unfolding write_block
  write_block-byte x (inl h) =
      put-outside (put m (bp - 4) (tag b)) (bp + size b - 8) (tag b) x (inl (omega arith))
      ∙ put-outside m (bp - 4) (tag b) x (inl (omega arith))
  write_block-byte x (inr h) =
      put-outside (put m (bp - 4) (tag b)) (bp + size b - 8) (tag b) x (inr (omega arith))
      ∙ put-outside m (bp - 4) (tag b) x (inr (omega arith))

  -- Nor does the payload.
  pub write_block-payload : (x : Ptr) → bp ≤ x → x + 8 < bp + size b → write_block m bp b x ≡ m x
  unfolding write_block
  write_block-payload x above below =
      put-outside (put m (bp - 4) (tag b)) (bp + size b - 8) (tag b) x (inl (omega arith))
      ∙ put-outside m (bp - 4) (tag b) x (inr (omega arith))

  pub At-write_block : IsSize (size b) → At (write_block m bp b) bp b
  unfolding write_block
  At-write_block is = record {
    hdr =
        word-put_outside (put m (bp - 4) (tag b)) (bp + size b - 8) (tag b) (bp - 4)
          (inl (omega arith))
        ∙ word-put_self m (bp - 4) (tag b) (tag-lt b is);
    ftr = word-put_self (put m (bp - 4) (tag b)) (bp + size b - 8) (tag b) (tag-lt b is);
    mult = is.0;
    least = least;
  }

-- Chains in front of a block and behind it stay when it is written.
pub before-write_block :
    {m : Bytes} {lo bp mid : Ptr} {xs : List Block} (b : Block)
    → 4 ≤ lo
    → 8 ≤ size b
    → mid ≤ bp
    → Chain m lo xs mid
    → Chain (write_block m bp b) lo xs mid
before-write_block {m} {bp} b low least below c =
    let reach = Chain-total c in
    Chain-frame low
      (λ q _ inside. write_block-word m bp b (omega arith) least q (inl (omega arith))) c

pub after-write_block :
    {m : Bytes} {bp end : Ptr} {ys : List Block} (b : Block)
    → 4 ≤ bp
    → 8 ≤ size b
    → Chain m (bp + size b) ys end
    → Chain (write_block m bp b) (bp + size b) ys end
after-write_block {m} {bp} b low least c =
    Chain-frame (omega arith)
      (λ q inside _. write_block-word m bp b low least q (inr (omega arith))) c

-- The step of every operation: `b` takes the place of whatever lay between two chains.
pub retile :
    {m : Bytes} {lo bp end : Ptr} {xs ys : List Block} (b : Block)
    → 4 ≤ lo
    → 8 ≤ size b
    → IsSize (size b)
    → Chain m lo xs bp
    → Chain m (bp + size b) ys end
    → Chain (write_block m bp b) lo (xs ++ (b ∷ ys)) end
retile {m} {bp} b low least is before after =
    let reach = Chain-total before in
    let bp_low : 4 ≤ bp = omega arith in
    Chain-append (before-write_block b low least (omega arith) before)
      (link (At-write_block m bp b bp_low least is) (after-write_block b bp_low least after))
